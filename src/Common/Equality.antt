-- ===== src/Common/Equality.antt =====
-- Equality tests as an interface, so that one map serves every type of key.
use Prim.Native.Nat.{ℕ}
use Prim.Native.String.{String}
use mathlib.Core.Bool.{Bool, true, false}
use mathlib.Core.Path.{◌≡◌, refl}
use mathlib.Core.Logic.{◌↔◌, ◌≢◌}
use native.Mathlib.Omega.{arith}
use text.Mathlib.Text.{◌==◌ as text_eq}
use text.Mathlib.TextEquality.{eq_iff}
use my_cluster.Common.Tests.{◌==◌, ==_iff}

pub record Eq {ℓ} (A : Type ℓ) : Type ℓ where
  pub beq : A → A → Bool
  pub beq_iff : (a b : A) → (beq a b ≡ true) ↔ (a ≡ b)

instance abbrev pub nat_eq : Eq ℕ
nat_eq = record { beq = ◌==◌; beq_iff = ==_iff }

instance abbrev pub string_eq : Eq String
string_eq = record { beq = text_eq; beq_iff = eq_iff }

module _ {ℓ} {A : Type ℓ} ⦃e : Eq A⦄ where
  abbrev pub beq : A → A → Bool
  beq = e.beq

  pub beq_refl : (a : A) → beq a a ≡ true
  beq_refl a = (e.beq_iff a a).1 refl

  pub eq_of_beq : (a b : A) → beq a b ≡ true → a ≡ b
  eq_of_beq a b = (e.beq_iff a b).0

  pub beq_ne : (a b : A) → a ≢ b → beq a b ≡ false
  beq_ne a b h = ground (arith, e.beq_iff a b)

  pub ne_of_beq : (a b : A) → beq a b ≡ false → a ≢ b
  ne_of_beq a b h eq = ground (arith, (e.beq_iff a b).1 eq)

  pub beq_sym : (a b : A) → beq a b ≡ beq b a
  beq_sym a b = ground (arith, e.beq_iff a b, e.beq_iff b a)
