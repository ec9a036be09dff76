-- ===== src/Strings/Contains.antt =====
-- strings.Contains, by the two texts around the part.
use my_cluster.Common.{
  ◌≡◌, refl, ap, ap₂, sym, ◌∙◌, Bool, true, false, ◌||◌, [], ◌∷◌, ◌++◌, ◌==◌, Bool-cases, inl, inr,
  ◌⊎◌, arith, false≢true,
}
use my_cluster.Wire.{Bytes}
use my_cluster.Strings.{has_prefix, contains_text}

-- The part stands somewhere in the text.
abbrev pub Within : Bytes → Bytes → Type 0
Within part s = (a : Bytes) × (b : Bytes) × (s ≡ a ++ (part ++ b))

has_prefix-append : (t b : Bytes) → has_prefix (t ++ b) t ≡ true
unfolding has_prefix
has_prefix-append [] b = refl
has_prefix-append (d ∷ t) b =
    let same : (d == d) ≡ true = ground arith in rw same (has_prefix-append t b)

has_prefix-rest : (s t : Bytes) → has_prefix s t ≡ true → (b : Bytes) × (s ≡ t ++ b)
unfolding has_prefix
has_prefix-rest s [] e = (s, refl)
has_prefix-rest [] (d ∷ t) e = cc
has_prefix-rest (c ∷ s) (d ∷ t) e =
    let same : c ≡ d = ground (arith, e) in
    let more : has_prefix s t ≡ true = ground (arith, e) in
    let (b, rest) = has_prefix-rest s t more in (b, ap₂ ◌∷◌ same rest)

contains_text-around : (a part b : Bytes) → contains_text (a ++ (part ++ b)) part ≡ true
unfolding contains_text
contains_text-around [] [] [] = unfold has_prefix in refl
contains_text-around [] [] (c ∷ b) = unfold has_prefix in refl
contains_text-around [] (d ∷ t) b = rw (has_prefix-append (d ∷ t) b) refl
contains_text-around (c ∷ a) part b = or_of_right _ _ (contains_text-around a part b)
  where
    or_of_right : (x y : Bool) → y ≡ true → (x || y) ≡ true
    or_of_right true y e = refl
    or_of_right false y e = e

contains_text-Within : (s part : Bytes) → contains_text s part ≡ true → Within part s
unfolding contains_text
contains_text-Within [] part e = let (b, rest) = has_prefix-rest [] part e in ([], b, rest)
contains_text-Within (c ∷ s) part e = elim (Bool-cases (has_prefix (c ∷ s) part)) [
  | inl here ↦ let (b, rest) = has_prefix-rest (c ∷ s) part here in ([], b, rest)
  | inr later ↦
      let (a, b, rest) = contains_text-Within s part (rw later at e) in (c ∷ a, b, ap (◌∷◌ c) rest)
]

-- The test is true for a text that has the part, and false for any other.
pub contains_text-cases :
    (s part : Bytes)
    → ((contains_text s part ≡ true) × Within part s)
      ⊎ ((contains_text s part ≡ false) × (Within part s → ⊥))
contains_text-cases s part = elim (Bool-cases (contains_text s part)) [
  | inl found ↦ inl (found, contains_text-Within s part found)
  | inr missing ↦ inr (
    missing,
    λ w.
        let (a, b, e) = w in
        absurd (
          false≢true (
            sym missing
            ∙ ap (λ (t : Bytes). contains_text t part) e
            ∙ contains_text-around a part b)),
  )
]
