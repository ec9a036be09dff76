-- ===== src/Strings.antt =====
-- What the program uses of Go's strings and strconv, on texts as sequences of bytes. The letters of a
-- text that is not ASCII are lowered by a parameter.
pub mod Pieces
pub mod Contains
pub mod Decimal
pub mod Atoi
use Prim.Native.Char.{code}
use my_cluster.Common.{
  ℕ, zero, suc, ◌+◌, ◌-◌, ◌/◌, ◌%◌, Bool, true, false, ◌&&◌, ◌||◌, ◌≡◌, ◌↔◌, refl, List, [], ◌∷◌,
  ◌++◌, String, ltb, leb, ◌==◌, if◌then◌else◌, length, Eq, arith, map,
}
use my_cluster.Wire.{Bytes}

abbrev pub codes : String → Bytes
codes String.[] = []
codes (String.◌∷◌ c s) = code c ∷ codes s

-- Equality of texts.
unfoldable pub bytes_eq : Bytes → Bytes → Bool
bytes_eq [] [] = true
bytes_eq [] (d ∷ t) = false
bytes_eq (c ∷ s) [] = false
bytes_eq (c ∷ s) (d ∷ t) = c == d && bytes_eq s t

pub bytes_eq_iff : (s t : Bytes) → (bytes_eq s t ≡ true) ↔ (s ≡ t)
unfolding bytes_eq
bytes_eq_iff [] [] = ground arith
bytes_eq_iff [] (d ∷ t) = ground arith
bytes_eq_iff (c ∷ s) [] = ground arith
bytes_eq_iff (c ∷ s) (d ∷ t) = ground (arith, bytes_eq_iff s t)

instance abbrev pub bytes_instance : Eq Bytes
bytes_instance = record { beq = bytes_eq; beq_iff = bytes_eq_iff }

-- `strings.HasPrefix(s, prefix)`
unfoldable pub has_prefix : Bytes → Bytes → Bool
has_prefix s [] = true
has_prefix [] (d ∷ t) = false
has_prefix (c ∷ s) (d ∷ t) = c == d && has_prefix s t

-- The first piece and the others, behind what is left to skip of a separator.
unfoldable pub split_from : Bytes → ℕ → Bytes → Bytes × List Bytes
split_from sep skip [] = ([], [])
split_from sep (suc k) (c ∷ s) = split_from sep k s
split_from sep zero (c ∷ s) =
    if has_prefix (c ∷ s) sep
    then (let later = split_from sep (length sep - 1) s in ([], later.0 ∷ later.1))
    else (let later = split_from sep 0 s in (c ∷ later.0, later.1))

-- `strings.Split(s, sep)` for a separator that is not empty.
unfoldable pub split : Bytes → Bytes → List Bytes
split s sep = let pieces = split_from sep 0 s in pieces.0 ∷ pieces.1

abbrev pub is_ascii : Bytes → Bool
is_ascii [] = true
is_ascii (c ∷ s) = ltb c 128 && is_ascii s

-- `strings.ToLower(s)`; `unicode` is what it gives for a text with other bytes than those of ASCII.
unfoldable pub to_lower : (Bytes → Bytes) → Bytes → Bytes
to_lower unicode s =
    if is_ascii s
    then map (λ (c : ℕ). if leb b'A' c && leb c b'Z' then c + 32 else c) s
    else unicode s

-- `strings.Trim(s, cut)` for a cut set of one byte.
unfoldable pub trim_left : ℕ → Bytes → Bytes
trim_left cut [] = []
trim_left cut (c ∷ s) = if c == cut then trim_left cut s else c ∷ s

-- What is left when the bytes `cut` at the end are gone.
unfoldable pub trim_right : ℕ → Bytes → Bytes
trim_right cut [] = []
trim_right cut (c ∷ s) = keep_unless_blank c (trim_right cut s)
  where
    keep_unless_blank : ℕ → Bytes → Bytes
    keep_unless_blank c [] = if c == cut then [] else c ∷ []
    keep_unless_blank c (d ∷ t) = c ∷ d ∷ t

unfoldable pub trim : ℕ → Bytes → Bytes
trim cut s = trim_right cut (trim_left cut s)

-- `strings.Contains(s, part)`
unfoldable pub contains_text : Bytes → Bytes → Bool
contains_text [] part = has_prefix [] part
contains_text (c ∷ s) part = has_prefix (c ∷ s) part || contains_text s part
