-- ===== src/Cluster/RpcHandle/Calls.antt =====
-- cluster/rpchandle.go and cluster/rpc.go: a call from one end to the other and back.
use my_cluster.Common.{
  ◌≡◌, refl, ap, sym, ◌∙◌, false, not, ◌||◌, List, [], ◌∷◌, none, some, String, if◌then◌else◌,
  lookup, insert, string_eq, beq, has_key, has_key-insert, some_inj, or_moved, Bool-cases, inl, inr,
}
use my_cluster.Cluster.RpcReader.{RpcData}
use my_cluster.Cluster.RpcHandle.{
  fills, calls, replies, Apis, call_rpc_not_for_result, call_rpc_for_result, answer, do_call,
  do_msg, add_router,
}

none-some : {A : Type 0} (a : A) → none ≡ some a → ⊥
none-some a e = cc

module _ {V : Type 0} where
  -- A call for a result, under a key that is not empty, of a target that the other end has: there it
  -- calls the handler once and sends one message back; the caller's end then does nothing but fill
  -- the result of that key, with what the handler returned. A call without a result of the same
  -- target calls the handler once and sends nothing.
  pub do_msg-call :
      (here there : Apis V) (key target : String) (args : List V)
      (f : RpcData V → List (String × V))
      → beq key "" ≡ false
      → lookup target there ≡ some f
      → let request = call_rpc_for_result key target args in
        let reply = answer request (f request) in
        (do_msg there request ≡ calls target ∷ replies reply ∷ [])
        × (do_msg here reply ≡ fills key reply ∷ [])
        × (do_msg there (call_rpc_not_for_result target args) ≡ calls target ∷ [])
  unfolding do_msg do_call call_rpc_for_result call_rpc_not_for_result answer
  do_msg-call here there key target args f k e =
      let request = call_rpc_for_result key target args in
      let reply = answer request (f request) in
      (
        ap (do_call request) e,
        ap (λ b. if not b then fills key reply ∷ [] else do_call reply (lookup "" here)) k,
        ap (do_call (call_rpc_not_for_result target args)) e,
      )

  has_key-cons :
      (name k : String) (f : RpcData V → List (String × V)) (methods : Apis V)
      → has_key k ((name, f) ∷ methods) ≡ (beq name k || has_key k methods)
  unfolding lookup
  has_key-cons name k f methods = elim (Bool-cases (beq name k)) [
    | inl e ↦ rw e refl
    | inr e ↦ rw e refl
  ]

  -- A router whose methods are added without a panic on a repeated name: afterwards exactly the names
  -- of its methods and those that were there before are registered.
  pub add_router_lem :
      (methods apis apis' : Apis V)
      → add_router methods apis ≡ some apis'
      → (k : String) → has_key k apis' ≡ (has_key k methods || has_key k apis)
  unfolding add_router
  add_router_lem [] apis apis' e k =
      ap (has_key k) (sym (some_inj apis apis' e)) ∙ unfold lookup in refl
  add_router_lem ((name, f) ∷ methods) apis apis' e k = elim (Bool-cases (has_key name apis)) [
    | inl h ↦ absurd (none-some apis' (rw h at e))
    | inr h ↦
        add_router_lem methods (insert name f apis) apis' (rw h at e) k
        ∙ ap (λ b. has_key k methods || b) (has_key-insert name k f apis)
        ∙ or_moved (has_key k methods) (beq name k) (has_key k apis)
        ∙ ap (λ b. b || has_key k apis) (sym (has_key-cons name k f methods))
  ]
