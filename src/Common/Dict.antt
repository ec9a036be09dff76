-- ===== src/Common/Dict.antt =====
-- A Go map as an association list with one entry for a key. Go iterates in no fixed order; a
-- loop over a map goes along the list.
use mathlib.Core.Path.{◌≡◌, refl}
use mathlib.Core.List.{List, [], ◌∷◌}
use mathlib.Core.Option.{Option, none, some}
use mathlib.Core.Bool.{Bool, true, false, not, ◌&&◌, ◌||◌}
use native.Mathlib.Omega.{arith}
use my_cluster.Common.Tests.{if◌then◌else◌, is_some}
use my_cluster.Common.Equality.{Eq, beq}

module _ {ℓ κ} {K : Type ℓ} {V : Type κ} ⦃e : Eq K⦄ where
  -- `v, ok := m[k]`
  unfoldable pub lookup : K → List (K × V) → Option V
  lookup k [] = none
  lookup k ((j, v) ∷ m) = if beq j k then some v else lookup k m

  -- `m[k] = v`
  unfoldable pub insert : K → V → List (K × V) → List (K × V)
  insert k v [] = (k, v) ∷ []
  insert k v ((j, w) ∷ m) = if beq j k then (k, v) ∷ m else (j, w) ∷ insert k v m

  -- `delete(m, k)`
  unfoldable pub delete : K → List (K × V) → List (K × V)
  delete k [] = []
  delete k ((j, w) ∷ m) = if beq j k then delete k m else (j, w) ∷ delete k m

  pub lookup-insert :
      (k j : K) (v : V) (m : List (K × V))
      → lookup j (insert k v m) ≡ (if beq k j then some v else lookup j m)
  unfolding lookup insert
  lookup-insert k j v [] = refl
  lookup-insert k j v ((i, w) ∷ m) =
      ground (arith, e.beq_iff k j, e.beq_iff i k, e.beq_iff i j, lookup-insert k j v m)

  pub lookup-delete :
      (k j : K) (m : List (K × V)) → lookup j (delete k m) ≡ (if beq k j then none else lookup j m)
  unfolding lookup delete
  lookup-delete k j [] = ground arith
  lookup-delete k j ((i, w) ∷ m) =
      ground (arith, e.beq_iff k j, e.beq_iff i k, e.beq_iff i j, lookup-delete k j m)

  -- The keys that have a value.
  abbrev pub has_key : K → List (K × V) → Bool
  has_key k m = is_some (lookup k m)

  pub has_key-insert :
      (k j : K) (v : V) (m : List (K × V)) → has_key j (insert k v m) ≡ (beq k j || has_key j m)
  has_key-insert k j v m = rw (lookup-insert k j v m) (cases (beq k j))
    where
      cases : (b : Bool) → is_some (if b then some v else lookup j m) ≡ (b || has_key j m)
      cases true = refl
      cases false = refl

  pub has_key-delete :
      (k j : K) (m : List (K × V)) → has_key j (delete k m) ≡ (not (beq k j) && has_key j m)
  has_key-delete k j m = rw (lookup-delete k j m) (cases (beq k j))
    where
      cases : (b : Bool) → is_some {A = V} (if b then none else lookup j m) ≡ (not b && has_key j m)
      cases true = refl
      cases false = refl
