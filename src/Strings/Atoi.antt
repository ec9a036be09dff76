-- ===== src/Strings/Atoi.antt =====
-- strconv.Atoi, and that it reads what strconv.Itoa writes.
use my_cluster.Common.{
  ℕ, zero, suc, ◌+◌, ◌-◌, ◌*◌, ◌/◌, ◌%◌, ◌^◌, ◌≤◌, ◌<◌, ◌≡◌, refl, ap, sym, ◌∙◌, true, false, ◌&&◌,
  [], ◌∷◌, ◌++◌, Option, none, some, ltb, leb, ◌==◌, if◌then◌else◌, ℤ, pos, negsuc, arith,
  Bool-cases, inl, inr,
}
use my_cluster.Wire.{Bytes}
use my_cluster.Strings.Decimal.{digits, itoa}

-- The number of a text of digits, behind the digits of `acc`; `none` for any other byte.
unfoldable pub read_digits : ℕ → Bytes → Option ℕ
read_digits acc [] = some acc
read_digits acc (c ∷ s) =
    let rest = read_digits (10 * acc + (c - 48)) s in
    if leb b'0' c && leb c b'9' then rest else none

unfoldable pub unsigned : Bytes → Option ℕ
unsigned [] = none
unsigned (c ∷ s) = read_digits 0 (c ∷ s)

-- With a sign, where the number fits an `int`.
unfoldable pub positive : Option ℕ → Option ℤ
positive none = none
positive (some n) = if ltb n (2 ^ 63) then some (pos n) else none

unfoldable pub negative : Option ℕ → Option ℤ
negative none = none
negative (some zero) = some (pos 0)
negative (some (suc n)) = if ltb n (2 ^ 63) then some (negsuc n) else none

unfoldable pub atoi : Bytes → Option ℤ
atoi [] = none
atoi (c ∷ s) =
    if c == b'-'
    then negative (unsigned s)
    else if c == b'+'
    then positive (unsigned s)
    else positive (unsigned (c ∷ s))

read_digits-append :
    (acc d : ℕ) (ds : Bytes) {n : ℕ}
    → d < 10
    → read_digits acc ds ≡ some n
    → read_digits acc (ds ++ (48 + d) ∷ []) ≡ some (10 * n + d)
unfolding read_digits
read_digits-append acc d [] h e = ground arith
read_digits-append acc d (c ∷ ds) h e = elim (Bool-cases (leb b'0' c && leb c b'9')) [
  | inl ok ↦ rw ok (read_digits-append (10 * acc + (c - 48)) d ds h (rw ok at e))
  | inr bad ↦ absurd (no_number (rw bad at e))
]
  where
    no_number : {n : ℕ} → none ≡ some n → ⊥
    no_number e = cc

one_digit : (d : ℕ) → d < 10 → read_digits 0 ((48 + d) ∷ []) ≡ some d
one_digit d h = read_digits-append 0 d [] h (start 0) ∙ ap some (omega arith)
  where
    start : (acc : ℕ) → read_digits acc [] ≡ some acc
    start acc = unfold read_digits in refl

pub read_digits-digits : (fuel n : ℕ) → n ≤ fuel → read_digits 0 (digits fuel n) ≡ some n
unfolding digits
read_digits-digits zero n h = one_digit (n % 10) (omega arith) ∙ ap some (omega arith)
read_digits-digits (suc fuel) n h = elim (Bool-cases (ltb n 10)) [
  | inl small ↦ rw small (one_digit n (ground arith))
  | inr large ↦
      let higher = read_digits-digits fuel (n / 10) (ground arith) in
      rw large (
        read_digits-append 0 (n % 10) (digits fuel (n / 10)) (omega arith) higher
        ∙ ap some (omega arith))
]

pub digits-first : (fuel n : ℕ) → (c : ℕ) × (s : Bytes) × (digits fuel n ≡ c ∷ s) × (48 ≤ c)
unfolding digits
digits-first zero n = (48 + n % 10, [], refl, omega arith)
digits-first (suc fuel) n = elim (Bool-cases (ltb n 10)) [
  | inl small ↦ (48 + n, [], rw small refl, omega arith)
  | inr large ↦
      let (c, s, e, h) = digits-first fuel (n / 10) in
      (c, s ++ (48 + n % 10) ∷ [], rw large (ap (λ (t : Bytes). t ++ (48 + n % 10) ∷ []) e), h)
]

-- For a number that fits an `int`: the text that Itoa writes is read as that number.
pub atoi-itoa : (n : ℕ) → n < 2 ^ 63 → atoi (itoa n) ≡ some (pos n)
unfolding atoi itoa unsigned positive
atoi-itoa n h =
    let (c, s, e, first) = digits-first n n in
    let minus : (c == b'-') ≡ false = ground arith in
    let plus : (c == b'+') ≡ false = ground arith in
    let fits : ltb n (2 ^ 63) ≡ true = ground arith in
    rw e (
      rw (minus, plus)
        (ap positive (ap (read_digits 0) (sym e) ∙ read_digits-digits n n (omega arith))
          ∙ rw fits refl))
