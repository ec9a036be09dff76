-- ===== src/Cluster/Call/RoundTrip.antt =====
-- cluster/rpc.go and cluster/rpcprotocol.go: a call that is answered, from the caller's packet to
-- its result.
use my_cluster.Common.{
  ℕ, zero, suc, ◌+◌, ◌≡◌, refl, ap, sym, ◌∙◌, false, List, [], ◌∷◌, ◌++◌, Option, some, String, beq,
  beq_refl, beq_ne, string_eq, nat_eq, ℤ, insert, lookup, Bool-cases, inl, inr, ne_of_beq,
  append-nil, arith,
}
use my_cluster.Wire.{Bytes, read_full}
use my_cluster.Strings.{codes}
use my_cluster.Ids.Keys.{key_text, key_text_inj, codes-key_text}
use my_cluster.Cluster.AsyncResult.{get_key, add}
use my_cluster.Cluster.AsyncResult.Race.{answered, add-fill_async_result}
use my_cluster.Cluster.RpcReader.{
  RpcData, RpcStop, Handler, rpc_pack, handler_of, rpc_loop, rpc_turn, rpc_continue,
  rpc_with_head_data,
}
use my_cluster.Cluster.RpcReader.Stream.{Carries, stream, rpc_loop-stream}
use my_cluster.Cluster.RpcHandle.{
  Effect, fills, calls, replies, Apis, call_rpc_for_result, answer, do_msg,
}
use my_cluster.Cluster.RpcHandle.Calls.{do_msg-call}
use my_cluster.Cluster.Call.{
  client_loop, key_prefix, next_key, number_of, Mgr, sent, with_packet, start_call, call_result,
  finish_call, filled_mgr, fill_number, fill_text, packets_of, answers_of, fill_all, filled_by,
}

-- The text of a key that was registered last stands for that key.
number_of-insert :
    (k r : ℕ) (results : List (ℕ × ℕ))
    → number_of (key_text key_prefix k) (insert k r results) ≡ some k
unfolding number_of insert
number_of-insert k r [] = rw (beq_refl (key_text key_prefix k)) refl
number_of-insert k r ((j, w) ∷ results) = elim (Bool-cases (beq j k)) [
  | inl same ↦ rw same (rw (beq_refl (key_text key_prefix k)) refl)
  | inr other ↦
      let apart : beq (key_text key_prefix j) (key_text key_prefix k) ≡ false =
        beq_ne (key_text key_prefix j) (key_text key_prefix k)
          (λ e. ne_of_beq j k other (key_text_inj key_prefix j k e)) in
      rw other (rw apart (number_of-insert k r results))
]

key_text-ne : (n : ℕ) → beq (key_text key_prefix n) "" ≡ false
key_text-ne n =
    beq_ne (key_text key_prefix n) ""
      (λ e. no_codes (sym (codes-key_text key_prefix n) ∙ ap codes e))
  where
    no_codes : {s : Bytes} → codes key_prefix ++ s ≡ [] → ⊥
    no_codes e = cc

module _ {V : Type 0} (encode : RpcData V → Bytes) (decode : Bytes → Option (RpcData V)) where
  loop-nil : (pool_size : ℤ) (fuel : ℕ) → (rpc_loop decode pool_size fuel []).0 ≡ []
  unfolding rpc_loop rpc_turn rpc_continue rpc_with_head_data read_full
  loop-nil pool_size zero = refl
  loop-nil pool_size (suc fuel) = refl

  -- One packet on the stream.
  loop-packet :
      (pool_size : ℤ) (fuel : ℕ) (m : RpcData V)
      → Carries encode decode pool_size m
      → (rpc_loop decode pool_size (suc fuel) (rpc_pack encode m)).0
        ≡ (handler_of pool_size m, m) ∷ []
  loop-packet pool_size fuel m c =
      let one : 1 + fuel ≡ suc fuel = omega arith in
      let bytes : stream encode decode pool_size (m ∷ []) ++ [] ≡ rpc_pack encode m =
        append-nil (rpc_pack encode m ++ []) ∙ append-nil (rpc_pack encode m) in
      ap (λ (k : ℕ). (rpc_loop decode pool_size k (rpc_pack encode m)).0) (sym one)
      ∙ ap (λ (b : Bytes). (rpc_loop decode pool_size (1 + fuel) b).0) (sym bytes)
      ∙ ap (λ (r : List (Handler × RpcData V) × RpcStop). r.0)
          (rpc_loop-stream encode decode pool_size fuel (m ∷ []) [] (c, tt))
      ∙ ap (◌∷◌ (handler_of pool_size m, m)) (loop-nil pool_size fuel)

module _ {V : Type 0} where
  fill_text-key :
      (m : Mgr V) (d : RpcData V) → fill_text (next_key m) d (add m) ≡ some (answered m d)
  unfolding fill_text fill_number filled_mgr add
  fill_text-key m d =
      ap (fill_number d (add m)) (number_of-insert (get_key m.added) m.added m.results)
      ∙ ap (filled_mgr (get_key m.added) (add m)) (add-fill_async_result m d d).0

  answers_of-call :
      (pack : RpcData V → Bytes) (there : Apis V) (h : Handler) (request reply : RpcData V)
      (target : String)
      → do_msg there request ≡ calls target ∷ replies reply ∷ []
      → answers_of pack there ((h, request) ∷ []) ≡ pack reply
  unfolding answers_of packets_of
  answers_of-call pack there h request reply target e =
      ap (λ (es : List (Effect V)). packets_of pack es ++ []) e
      ∙ append-nil (pack reply ++ [])
      ∙ append-nil (pack reply)

  filled_by-reply :
      (here : Apis V) (h : Handler) (key : String) (reply : RpcData V) (m m' : Mgr V)
      → do_msg here reply ≡ fills key reply ∷ []
      → fill_text key reply m ≡ some m'
      → filled_by here ((h, reply) ∷ []) m ≡ some m'
  unfolding filled_by fill_all
  filled_by-reply here h key reply m m' e filled = rw (e, filled) refl

  finish_call-answered :
      (m : Mgr V) (d : RpcData V)
      → (finish_call m.added (get_key m.added) (answered m d)).0 ≡ some d
  unfolding finish_call call_result
  finish_call-answered m d =
      ap
        (λ (o : Option (RpcData V × Mgr V)).
          (call_result m.added (get_key m.added) (answered m d) o).0)
        (add-fill_async_result m d d).1

-- The request of a call that is made next, and the answer of a handler to it.
abbrev pub request_of : {V : Type 0} → Mgr V → String → List V → RpcData V
request_of m target args = call_rpc_for_result (next_key m) target args

abbrev pub reply_of :
    {V : Type 0} → (RpcData V → List (String × V)) → Mgr V → String → List V → RpcData V
reply_of f m target args = answer (request_of m target args) (f (request_of m target args))

-- For a target that the other end has, and a request and an answer that gob writes in 1 to
-- 1024 * 1024 bytes and reads back: whatever other calls wait, the packet that CallRpcForResult
-- sends, read by the other end's loop and handled there, is answered by bytes which, read and handled
-- at the caller's end, let the call return what the handler made of the request, with no timeout.
pub call_answered :
    {V : Type 0} (encode : RpcData V → Bytes) (decode : Bytes → Option (RpcData V))
    (pool_here pool_there : ℤ) (here there : Apis V) (m : Mgr V) (target : String) (args : List V)
    (f : RpcData V → List (String × V)) (fuel : ℕ)
    → lookup target there ≡ some f
    → Carries encode decode pool_there (request_of m target args)
    → Carries encode decode pool_here (reply_of f m target args)
    → (packet : Bytes) × (m' : Mgr V) × (start_call (λ d. some (rpc_pack encode d)) target args m
        ≡ sent (add m) packet)
      × (filled_by here
            (client_loop decode pool_here (suc fuel) (
              answers_of
                (rpc_pack encode)
                there
                (rpc_loop decode pool_there (suc fuel) packet).0)).0
            (add m)
          ≡ some m')
      × ((finish_call m.added (get_key m.added) m').0 ≡ some (reply_of f m target args))
unfolding start_call with_packet client_loop
call_answered {V} encode decode pool_here pool_there here there m target args f fuel e c d =
    let request = call_rpc_for_result (next_key m) target args in
    let reply = answer request (f request) in
    let handled =
      do_msg-call here there (next_key m) target args f (key_text-ne (get_key m.added)) e in
    let server =
      ap (answers_of (rpc_pack encode) there)
        (loop-packet encode decode pool_there fuel request c) in
    (
      rpc_pack encode request,
      answered m reply,
      refl,
      ap
            (λ (bytes : Bytes).
              filled_by here (client_loop decode pool_here (suc fuel) bytes).0 (add m))
            (server
              ∙ answers_of-call (rpc_pack encode) there (handler_of pool_there request) request
                  reply target handled.0)
          ∙ ap (λ (ms : List (Handler × RpcData V)). filled_by here ms (add m))
              (loop-packet encode decode pool_here fuel reply d)
          ∙ filled_by-reply here (handler_of pool_here reply) (next_key m) reply (add m)
              (answered m reply) handled.1 (fill_text-key m reply),
      finish_call-answered m reply,
    )
