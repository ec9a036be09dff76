-- ===== src/Strings/Pieces.antt =====
-- Pieces that are joined by a separator are found again by `strings.Split`.
use my_cluster.Common.{
  ℕ, Bool, true, false, ◌&&◌, ◌≡◌, refl, List, [], ◌∷◌, ◌++◌, ◌==◌, contains, nat_eq, subst, ◌∙◌,
  arith, ap, append-nil,
}
use my_cluster.Wire.{Bytes}
use my_cluster.Strings.{has_prefix, split_from, split}

-- `strings.Join`
unfoldable pub join : Bytes → Bytes → List Bytes → Bytes
join sep p [] = p
join sep p (q ∷ ps) = p ++ (sep ++ join sep q ps)

-- No piece has the byte.
abbrev pub AllFree : ℕ → List Bytes → Type 0
AllFree c [] = Unit
AllFree c (p ∷ ps) = (contains c p ≡ false) × AllFree c ps

-- One byte as the separator.
split_from-piece :
    (c : ℕ) (p s : Bytes)
    → contains c p ≡ false
    → split_from (c ∷ []) 0 (p ++ s)
      ≡ (let later = split_from (c ∷ []) 0 s in (p ++ later.0, later.1))
unfolding split_from has_prefix
split_from-piece c [] s free = refl
split_from-piece c (d ∷ p) s free =
    let other : (d == c) ≡ false = ground arith in
    let rest : contains c p ≡ false = ground arith in rw (other, split_from-piece c p s rest) refl

split_from-whole : (c : ℕ) (p : Bytes) → contains c p ≡ false → split_from (c ∷ []) 0 p ≡ (p, [])
unfolding split_from
split_from-whole c p free =
    subst (λ (q : Bytes). split_from (c ∷ []) 0 q ≡ (p, [])) (append-nil p)
      (split_from-piece c p [] free ∙ ap (λ (q : Bytes). (q, [])) (append-nil p))

split_from-separator :
    (c : ℕ) (s : Bytes)
    → split_from (c ∷ []) 0 (c ∷ s)
      ≡ (let later = split_from (c ∷ []) 0 s in ([], later.0 ∷ later.1))
unfolding split_from has_prefix
split_from-separator c s = let same : (c == c) ≡ true = ground arith in rw same refl

split_from-join :
    (c : ℕ) (p : Bytes) (ps : List Bytes)
    → AllFree c (p ∷ ps)
    → split_from (c ∷ []) 0 (join (c ∷ []) p ps) ≡ (p, ps)
unfolding join
split_from-join c p [] free = split_from-whole c p free.0
split_from-join c p (q ∷ ps) free =
    split_from-piece c p (c ∷ join (c ∷ []) q ps) free.0
    ∙ rw (split_from-separator c (join (c ∷ []) q ps), split_from-join c q ps free.1, append-nil p)
        refl

-- For pieces without the byte: they come back from the text that joins them by it.
pub split-join :
    (c : ℕ) (p : Bytes) (ps : List Bytes)
    → AllFree c (p ∷ ps)
    → split (join (c ∷ []) p ps) (c ∷ []) ≡ p ∷ ps
unfolding split
split-join c p ps free = rw (split_from-join c p ps free) refl

and_false : (x : Bool) → (x && false) ≡ false
and_false true = refl
and_false false = refl

-- Two bytes as the separator. A piece without the second byte may end with the first.
module _ (a b : ℕ) (different : (a == b) ≡ false) where
  split_from-line :
      (p s : Bytes)
      → contains b p ≡ false
      → has_prefix s (b ∷ []) ≡ false
      → split_from (a ∷ b ∷ []) 0 (p ++ s)
        ≡ (let later = split_from (a ∷ b ∷ []) 0 s in (p ++ later.0, later.1))
  unfolding split_from has_prefix
  split_from-line [] s free apart = refl
  split_from-line (d ∷ []) s free apart = rw (apart, and_false (d == a)) refl
  split_from-line (d ∷ e ∷ p) s free apart =
      let other : (e == b) ≡ false = ground arith in
      let rest : contains b (e ∷ p) ≡ false = ground arith in
      rw (other, split_from-line (e ∷ p) s rest apart, and_false (d == a)) refl

  split_from-line_end :
      (s : Bytes)
      → split_from (a ∷ b ∷ []) 0 (a ∷ b ∷ s)
        ≡ (let later = split_from (a ∷ b ∷ []) 0 s in ([], later.0 ∷ later.1))
  unfolding split_from has_prefix
  split_from-line_end s =
      let first : (a == a) ≡ true = ground arith in
      let second : (b == b) ≡ true = ground arith in rw (first, second) refl

  -- A text without the second byte is one piece.
  pub split-line : (p : Bytes) → contains b p ≡ false → split p (a ∷ b ∷ []) ≡ p ∷ []
  unfolding split split_from has_prefix
  split-line p free =
      let whole =
        subst (λ (q : Bytes). split_from (a ∷ b ∷ []) 0 q ≡ (p, [])) (append-nil p)
          (split_from-line p [] free refl ∙ ap (λ (q : Bytes). (q, [])) (append-nil p)) in
      rw whole refl

  -- A line is the first piece of the text that begins with it.
  pub split-line_append :
      (p s : Bytes)
      → contains b p ≡ false
      → split (p ++ a ∷ b ∷ s) (a ∷ b ∷ []) ≡ p ∷ split s (a ∷ b ∷ [])
  unfolding split split_from has_prefix
  split-line_append p s free =
      rw
        (
          split_from-line p (a ∷ b ∷ s) free (rw different refl),
          split_from-line_end s,
          append-nil p,
        )
        refl
