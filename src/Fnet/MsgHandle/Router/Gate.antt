-- ===== src/Fnet/MsgHandle/Router/Gate.antt =====
-- fnet/msghandle.go, `AddRouter`: the method for a gate.
use my_cluster.Common.{◌≡◌, refl, sym, ap, List, [], ◌∷◌, ◌++◌, ◌⊎◌, inl, inr}
use my_cluster.Wire.{Bytes}
use my_cluster.Strings.{codes}
use my_cluster.Strings.Contains.{Within, contains_text-cases}
use my_cluster.Fnet.MsgHandle.Router.{func_msg2gate}

-- `Api_msg2gate` stands in the name.
abbrev pub IsForGate : Bytes → Type 0
IsForGate name = Within (codes "Api_msg2gate") name

module _ {H : Type 0} where
  abbrev pub NoneForGate : List (Bytes × H) → Type 0
  NoneForGate [] = Unit
  NoneForGate (m ∷ ms) = (IsForGate m.0 → ⊥) × NoneForGate ms

  -- The last method with the word, or the value where there is none.
  abbrev pub LastForGate : H → List (Bytes × H) → H → Type 0
  LastForGate f ms g =
      ((before : List (Bytes × H)) × (name : Bytes) × (after : List (Bytes × H)) × (ms
          ≡ before ++ (name, g) ∷ after)
        × IsForGate name
        × NoneForGate after)
      ⊎ (NoneForGate ms × (g ≡ f))

  later :
      (m : Bytes × H) (f g : H) (ms : List (Bytes × H))
      → (IsForGate m.0 → ⊥)
      → LastForGate f ms g
      → LastForGate f (m ∷ ms) g
  later m f g ms other (inl (before, name, after, e, is, none_after)) =
      inl (m ∷ before, name, after, ap (◌∷◌ m) e, is, none_after)
  later m f g ms other (inr (none_there, e)) = inr ((other, none_there), e)

  here :
      (name : Bytes) (f h g : H) (ms : List (Bytes × H))
      → IsForGate name
      → LastForGate h ms g
      → LastForGate f ((name, h) ∷ ms) g
  here name f h g ms is (inl (before, name', after, e, is', none_after)) =
      inl ((name, h) ∷ before, name', after, ap (◌∷◌ (name, h)) e, is', none_after)
  here name f h g ms is (inr (none_there, e)) =
      inl ([], name, ms, ap (λ (x : H). (name, x) ∷ ms) (sym e), is, none_there)

  pub func_msg2gate-LastForGate :
      (f : H) (ms : List (Bytes × H)) → LastForGate f ms (func_msg2gate f ms)
  unfolding func_msg2gate
  func_msg2gate-LastForGate f [] = inr (tt, refl)
  func_msg2gate-LastForGate f ((name, h) ∷ ms) =
      elim (contains_text-cases name (codes "Api_msg2gate")) [
        | inl (found, is) ↦
            rw found (here name f h (func_msg2gate h ms) ms is (func_msg2gate-LastForGate h ms))
        | inr (missing, other) ↦
            rw missing
              (later (name, h) f (func_msg2gate f ms) ms other (func_msg2gate-LastForGate f ms))
      ]
