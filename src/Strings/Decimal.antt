-- ===== src/Strings/Decimal.antt =====
-- strconv: the decimal digits of a number that is not negative.
use my_cluster.Common.{
  ℕ, zero, suc, ◌+◌, ◌-◌, ◌*◌, ◌/◌, ◌%◌, ◌≤◌, ◌<◌, ◌≡◌, refl, ap, sym, ◌∙◌, [], ◌∷◌, ◌++◌, ltb,
  if◌then◌else◌, arith, Bool-cases, inl, inr, false, contains, nat_eq, ◌==◌,
}
use my_cluster.Wire.{Bytes}

-- With the fuel `n` for the number `n`.
unfoldable pub digits : ℕ → ℕ → Bytes
digits zero n = (48 + n % 10) ∷ []
digits (suc fuel) n =
    let higher = digits fuel (n / 10) in
    if ltb n 10 then (48 + n) ∷ [] else higher ++ (48 + n % 10) ∷ []

-- `strconv.Itoa`
unfoldable pub itoa : ℕ → Bytes
itoa n = digits n n

-- The number that digits stand for, behind the digits of `acc`.
abbrev value_from : ℕ → Bytes → ℕ
value_from acc [] = acc
value_from acc (d ∷ ds) = value_from (10 * acc + (d - 48)) ds

value_from-append :
    (acc d : ℕ) (ds : Bytes) → value_from acc (ds ++ d ∷ []) ≡ 10 * value_from acc ds + (d - 48)
value_from-append acc d [] = refl
value_from-append acc d (e ∷ ds) = value_from-append (10 * acc + (e - 48)) d ds

value_from-digits : (fuel n : ℕ) → n ≤ fuel → value_from 0 (digits fuel n) ≡ n
unfolding digits
value_from-digits zero n h = omega arith
value_from-digits (suc fuel) n h = elim (Bool-cases (ltb n 10)) [
  | inl small ↦ rw small (omega arith)
  | inr large ↦
      rw (large, value_from-append 0 (48 + n % 10) (digits fuel (n / 10)))
        (let higher = value_from-digits fuel (n / 10) (ground arith) in omega arith)
]

-- Numbers with the same digits are equal.
pub itoa_inj : (n m : ℕ) → itoa n ≡ itoa m → n ≡ m
unfolding itoa
itoa_inj n m e =
    sym (value_from-digits n n (omega arith))
    ∙ ap (value_from 0) e
    ∙ value_from-digits m m (omega arith)

contains-append :
    (c d : ℕ) (s : Bytes)
    → contains c s ≡ false
    → (d == c) ≡ false
    → contains c (s ++ d ∷ []) ≡ false
contains-append c d [] h k = ground arith
contains-append c d (x ∷ s) h k = ground (arith, contains-append c d s)

digits-IsFree :
    (c fuel n : ℕ) → ((d : ℕ) → d < 10 → (48 + d == c) ≡ false) → contains c (digits fuel n) ≡ false
unfolding digits
digits-IsFree c zero n h = ground (arith, h (n % 10))
digits-IsFree c (suc fuel) n h = elim (Bool-cases (ltb n 10)) [
  | inl small ↦ rw small (ground (arith, h n))
  | inr large ↦ rw large (
      contains-append c (48 + n % 10) (digits fuel (n / 10)) (digits-IsFree c fuel (n / 10) h)
        (h (n % 10) (omega arith)))
]

-- A byte that is no digit is not in the text of a number.
pub itoa-IsFree :
    (c n : ℕ) → ((d : ℕ) → d < 10 → (48 + d == c) ≡ false) → contains c (itoa n) ≡ false
unfolding itoa
itoa-IsFree c n h = digits-IsFree c n n h
