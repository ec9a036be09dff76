-- ===== src/Ids/Keys.antt =====
-- utils/uuidfactory.go, `Get`: the keys as texts, the prefix and the number behind it.
use Prim.Native.Char.{Char, code}
use my_cluster.Common.{
  ℕ, zero, suc, ◌+◌, ◌/◌, ◌%◌, ◌<◌, ◌≡◌, refl, ap, sym, ◌∙◌, [], ◌∷◌, ◌++◌, String, ltb,
  if◌then◌else◌, arith, append_assoc, append_cancel, append-nil, Bool-cases, inl, inr,
}
use my_cluster.Wire.{Bytes}
use my_cluster.Strings.{codes}
use my_cluster.Strings.Decimal.{digits, itoa, itoa_inj}

digit : ℕ → Char
digit zero = "0"
digit (suc zero) = "1"
digit (suc (suc zero)) = "2"
digit (suc (suc (suc zero))) = "3"
digit (suc (suc (suc (suc zero)))) = "4"
digit (suc (suc (suc (suc (suc zero))))) = "5"
digit (suc (suc (suc (suc (suc (suc zero)))))) = "6"
digit (suc (suc (suc (suc (suc (suc (suc zero))))))) = "7"
digit (suc (suc (suc (suc (suc (suc (suc (suc zero)))))))) = "8"
digit (suc (suc (suc (suc (suc (suc (suc (suc (suc n))))))))) = "9"

code-digit : (n : ℕ) → n < 10 → code (digit n) ≡ 48 + n
unfolding digit
code-digit zero h = refl
code-digit (suc zero) h = refl
code-digit (suc (suc zero)) h = refl
code-digit (suc (suc (suc zero))) h = refl
code-digit (suc (suc (suc (suc zero)))) h = refl
code-digit (suc (suc (suc (suc (suc zero))))) h = refl
code-digit (suc (suc (suc (suc (suc (suc zero)))))) h = refl
code-digit (suc (suc (suc (suc (suc (suc (suc zero))))))) h = refl
code-digit (suc (suc (suc (suc (suc (suc (suc (suc zero)))))))) h = refl
code-digit (suc (suc (suc (suc (suc (suc (suc (suc (suc zero))))))))) h = refl
code-digit (suc (suc (suc (suc (suc (suc (suc (suc (suc (suc n)))))))))) h = absurd (omega arith)

-- `%d` before a text, with fuel.
digits_before : ℕ → ℕ → String → String
digits_before zero n s = String.◌∷◌ (digit (n % 10)) s
digits_before (suc fuel) n s =
    let higher = digits_before fuel (n / 10) (String.◌∷◌ (digit (n % 10)) s) in
    if ltb n 10 then String.◌∷◌ (digit n) s else higher

-- `%s` before a text.
text_before : String → String → String
text_before String.[] s = s
text_before (String.◌∷◌ c t) s = String.◌∷◌ c (text_before t s)

-- `fmt.Sprintf("%s%d", prefix, n)`
unfoldable pub key_text : String → ℕ → String
unfolding text_before digits_before digit
key_text prefix n = text_before prefix (digits_before n n String.[])

codes-text_before : (t s : String) → codes (text_before t s) ≡ codes t ++ codes s
unfolding text_before
codes-text_before String.[] s = refl
codes-text_before (String.◌∷◌ c t) s = ap (◌∷◌ (code c)) (codes-text_before t s)

codes-digits_before :
    (fuel n : ℕ) (s : String) → codes (digits_before fuel n s) ≡ digits fuel n ++ codes s
unfolding digits_before digits
codes-digits_before zero n s = ap (λ (c : ℕ). c ∷ codes s) (code-digit (n % 10) (omega arith))
codes-digits_before (suc fuel) n s = elim (Bool-cases (ltb n 10)) [
  | inl small ↦ rw small (ap (λ (c : ℕ). c ∷ codes s) (code-digit n (ground arith)))
  | inr large ↦ rw large (
      codes-digits_before fuel (n / 10) (String.◌∷◌ (digit (n % 10)) s)
      ∙ ap (λ (c : ℕ). digits fuel (n / 10) ++ c ∷ codes s) (code-digit (n % 10) (omega arith))
      ∙ sym (append_assoc (digits fuel (n / 10)) ((48 + n % 10) ∷ []) (codes s)))
]

pub codes-key_text : (prefix : String) (n : ℕ) → codes (key_text prefix n) ≡ codes prefix ++ itoa n
unfolding key_text itoa
codes-key_text prefix n =
    codes-text_before prefix (digits_before n n String.[])
    ∙ ap (λ (t : Bytes). codes prefix ++ t)
        (codes-digits_before n n String.[] ∙ append-nil (digits n n))

-- Keys with the same prefix are equal only if their numbers are.
pub key_text_inj : (prefix : String) (n m : ℕ) → key_text prefix n ≡ key_text prefix m → n ≡ m
key_text_inj prefix n m e = itoa_inj n m (
    append_cancel (codes prefix) (itoa n) (itoa m)
      (sym (codes-key_text prefix n) ∙ ap codes e ∙ codes-key_text prefix m))
