-- ===== src/Fnet/MsgHandle/Router/Numbers.antt =====
-- fnet/msghandle.go, `AddRouter`: the map afterwards.
use my_cluster.Common.{
  ℕ, zero, suc, ◌<◌, ◌≡◌, ◌≢◌, refl, ap, sym, ◌∙◌, true, List, [], ◌∷◌, Option, none, some,
  if◌then◌else◌, lookup, insert, has_key, nat_eq, lookup-insert, beq, Bool-cases, inl, inr,
  some_inj, arith, is_some, eq_of_beq, ne_of_beq,
}
use my_cluster.Wire.{Bytes}
use my_cluster.Fnet.MsgHandle.Router.Gate.{LastForGate, func_msg2gate-LastForGate}
use my_cluster.Fnet.MsgHandle.Router.{
  api_index, add_method, then_methods, add_router_raw, func_msg2gate, to_gate, msg_add_router,
}

no_result {ℓ} : {A : Type ℓ} (a : A) → none ≡ some a → ⊥
no_result a e = cc

module _ {H : Type 0} where
  -- What a method makes of the handler of a number.
  abbrev pub after_method : ℕ → Option ℕ → H → Option H → Option H
  after_method k none f old = old
  after_method k (some index) f old = if beq index k then some f else old

  -- The handler of a number after the methods.
  abbrev pub numbered : ℕ → List (Bytes × H) → Option H → Option H
  numbered k [] old = old
  numbered k ((name, f) ∷ methods) old = numbered k methods (after_method k (api_index name) f old)

  -- No method has the number.
  abbrev pub NoMethod : ℕ → List (Bytes × H) → Type 0
  NoMethod k [] = Unit
  NoMethod k ((name, f) ∷ methods) = (api_index name ≢ some k) × NoMethod k methods

  add_method-after :
      (k : ℕ) (o : Option ℕ) (f : H) (apis apis' : List (ℕ × H))
      → add_method o f apis ≡ some apis'
      → lookup k apis' ≡ after_method k o f (lookup k apis)
  unfolding add_method
  add_method-after k none f apis apis' e = ap (lookup k) (sym (some_inj apis apis' e))
  add_method-after k (some index) f apis apis' e = elim (Bool-cases (has_key index apis)) [
    | inl old ↦ absurd (no_result apis' (rw old at e))
    | inr new ↦
        ap (lookup k) (sym (some_inj (insert index f apis) apis' (rw new at e)))
        ∙ lookup-insert index k f apis
  ]

  -- A number that is there keeps its handler, and no method has it.
  add_method-keeps :
      (k : ℕ) (o : Option ℕ) (f : H) (apis apis' : List (ℕ × H))
      → has_key k apis ≡ true
      → add_method o f apis ≡ some apis'
      → (lookup k apis' ≡ lookup k apis) × (o ≢ some k)
  unfolding add_method
  add_method-keeps k none f apis apis' here e =
      (ap (lookup k) (sym (some_inj apis apis' e)), (λ (p : none ≡ some k). no_result k p))
  add_method-keeps k (some index) f apis apis' here e = elim (Bool-cases (beq index k)) [
    | inl same ↦
        let taken : has_key index apis ≡ true =
          ap (λ (i : ℕ). has_key i apis) (eq_of_beq index k same) ∙ here in
        absurd (no_result apis' (rw taken at e))
    | inr other ↦ (
      add_method-after k (some index) f apis apis' e ∙ rw other refl,
      λ p. ne_of_beq index k other (some_inj index k p),
    )
  ]

  then_methods-some :
      (rest : List (ℕ × H) → Option (List (ℕ × H))) (o : Option (List (ℕ × H)))
      (apis' : List (ℕ × H))
      → then_methods rest o ≡ some apis'
      → (apis1 : List (ℕ × H)) × (o ≡ some apis1) × (rest apis1 ≡ some apis')
  unfolding then_methods
  then_methods-some rest none apis' e = absurd (no_result apis' e)
  then_methods-some rest (some apis1) apis' e = (apis1, refl, e)

  pub add_router_raw-numbered :
      (methods : List (Bytes × H)) (apis apis' : List (ℕ × H))
      → add_router_raw methods apis ≡ some apis'
      → (k : ℕ) → lookup k apis' ≡ numbered k methods (lookup k apis)
  unfolding add_router_raw
  add_router_raw-numbered [] apis apis' e k = ap (lookup k) (sym (some_inj apis apis' e))
  add_router_raw-numbered ((name, f) ∷ methods) apis apis' e k =
      let (apis1, first, later) =
        then_methods-some (add_router_raw methods) (add_method (api_index name) f apis) apis' e in
      add_router_raw-numbered methods apis1 apis' later k
      ∙ ap (numbered k methods) (add_method-after k (api_index name) f apis apis1 first)

  add_router_raw-keeps :
      (k : ℕ) (methods : List (Bytes × H)) (apis apis' : List (ℕ × H))
      → has_key k apis ≡ true
      → add_router_raw methods apis ≡ some apis'
      → (lookup k apis' ≡ lookup k apis) × NoMethod k methods
  unfolding add_router_raw
  add_router_raw-keeps k [] apis apis' here e = (ap (lookup k) (sym (some_inj apis apis' e)), tt)
  add_router_raw-keeps k ((name, f) ∷ methods) apis apis' here e =
      let (apis1, first, later) =
        then_methods-some (add_router_raw methods) (add_method (api_index name) f apis) apis' e in
      let (same, other) = add_method-keeps k (api_index name) f apis apis1 here first in
      let (same', others) =
        add_router_raw-keeps k methods apis1 apis' (ap is_some same ∙ here) later in
      (same' ∙ same, (other, others))

  lookup-to_gate :
      (n k : ℕ) (f : H) (apis : List (ℕ × H)) → k < n → lookup k (to_gate n f apis) ≡ some f
  unfolding to_gate
  lookup-to_gate zero k f apis h = absurd (omega arith)
  lookup-to_gate (suc n) k f apis h = elim (Bool-cases (beq n k)) [
    | inl same ↦ lookup-insert n k f (to_gate n f apis) ∙ rw same refl
    | inr other ↦
        lookup-insert n k f (to_gate n f apis)
        ∙ rw other (lookup-to_gate n k f apis (ground (arith, ne_of_beq n k other)))
  ]

  -- On a net node whose router is added without a panic: every number below 3000 has the handler for
  -- the gate, whatever was there before, and no method of the router has such a number. The handler for
  -- the gate is the last method in whose name `Api_msg2gate` stands, or the zero value of reflect.
  pub msg_add_router-net :
      (zero_value : H) (methods : List (Bytes × H)) (apis apis' : List (ℕ × H)) (k : ℕ)
      → msg_add_router true zero_value methods apis ≡ some apis'
      → k < 3000
      → (lookup k apis' ≡ some (func_msg2gate zero_value methods))
        × NoMethod k methods
        × LastForGate zero_value methods (func_msg2gate zero_value methods)
  unfolding msg_add_router
  msg_add_router-net zero_value methods apis apis' k e h =
      let f = func_msg2gate zero_value methods in
      let given = lookup-to_gate 3000 k f apis h in
      let (same, others) =
        add_router_raw-keeps k methods (to_gate 3000 f apis) apis' (ap is_some given) e in
      (same ∙ given, others, func_msg2gate-LastForGate zero_value methods)
