-- ===== src/Wire.antt =====
-- What the packets use of Go's encoding/binary and io: 32-bit numbers in little-endian order, and
-- `io.ReadFull` on the bytes that the peer sends before it closes the connection.
use my_cluster.Common.{
  ℕ, zero, suc, ◌+◌, ◌-◌, ◌*◌, ◌/◌, ◌%◌, ◌^◌, ◌≤◌, ◌<◌, ◌≡◌, refl, ap, List, [], ◌∷◌, ◌++◌, Option,
  none, some, arith, ltb, if◌then◌else◌, length, length-append, take, drop, take_append,
  drop_append, false,
}

abbrev pub Bytes : Type 0
Bytes = List ℕ

-- `binary.Write` of a `uint32`.
unfoldable pub put_u32 : ℕ → Bytes
put_u32 n = n % 256 ∷ n / 256 % 256 ∷ n / 65536 % 256 ∷ n / 16777216 % 256 ∷ []

-- `binary.Read` of a `uint32`; `none` is one of its two end-of-file errors.
unfoldable pub get_u32 : Bytes → Option (ℕ × Bytes)
get_u32 (a ∷ b ∷ c ∷ d ∷ rest) = some (a + 256 * b + 65536 * c + 16777216 * d, rest)
get_u32 _ = none

-- `io.ReadFull` into a slice of `n` bytes: those, and what is left of the stream.
unfoldable pub read_full : ℕ → Bytes → Option (Bytes × Bytes)
read_full n input = if ltb (length input) n then none else some (take n input, drop n input)

pub get_u32-put_u32 :
    (n : ℕ) (rest : Bytes) → n < 2 ^ 32 → get_u32 (put_u32 n ++ rest) ≡ some (n, rest)
unfolding get_u32 put_u32
get_u32-put_u32 n rest h = ap (λ (k : ℕ). some (k, rest)) (omega arith)

pub length-put_u32 : (n : ℕ) → length (put_u32 n) ≡ 4
unfolding put_u32
length-put_u32 n = refl

pub read_full_append :
    (n : ℕ) (xs rest : Bytes) → length xs ≡ n → read_full n (xs ++ rest) ≡ some (xs, rest)
unfolding read_full
read_full_append n xs rest e = rw (← e) (
    let enough : ltb (length (xs ++ rest)) (length xs) ≡ false =
      ground (arith, length-append xs rest) in
    rw (enough, take_append xs rest, drop_append xs rest))

length-drop : (n : ℕ) (xs : Bytes) → length (drop n xs) ≡ length xs - n
length-drop zero xs = omega arith
length-drop (suc n) [] = omega arith
length-drop (suc n) (x ∷ xs) = omega (arith, length-drop n xs)

length-take : (n : ℕ) (xs : Bytes) → n ≤ length xs → length (take n xs) ≡ n
length-take zero xs h = refl
length-take (suc n) [] h = absurd (omega arith)
length-take (suc n) (x ∷ xs) h = omega (arith, length-take n xs (omega arith))

-- What was read has the length asked for, and is taken from the stream.
pub read_full-length :
    (n : ℕ) (input : Bytes) {xs rest : Bytes}
    → read_full n input ≡ some (xs, rest)
    → (length xs ≡ n) × (length rest + n ≡ length input)
unfolding read_full
read_full-length n input e = ground (arith, length-drop n input, length-take n input)
