-- ===== src/Cluster/RoundTripTests.antt =====
-- cluster/rpc.go at concrete inputs: one call that is answered, and one whose packet is not made.
use my_cluster.Common.{
  ◌≡◌, refl, Bool, true, false, List, [], ◌∷◌, Option, none, some, String, lookup, string_eq,
  nat_eq, pos, if◌then◌else◌, get_or, ◌==◌, arith, pos_part,
}
use my_cluster.Wire.{Bytes}
use my_cluster.Cluster.AsyncResult.{new_mgr, get_key, add}
use my_cluster.Cluster.RpcReader.{RpcData, rpc_pack, rpc_loop}
use my_cluster.Cluster.RpcHandle.{Apis, call_rpc_for_result, answer}
use my_cluster.Cluster.Call.{
  client_loop, next_key, Mgr, sent, pack_failed, with_packet, start_call, finish_call, answers_of,
  filled_by, client_loop,
}
use my_cluster.Cluster.Call.RoundTrip.{call_answered}

abbrev mgr : Mgr Bool
mgr = new_mgr

-- A handler that says whether the request has arguments.
abbrev has_args : RpcData Bool → List (String × Bool)
has_args request = ("ok", elim request.args [ [] ↦ false | a ∷ more ↦ true ]) ∷ []

abbrev apis : Apis Bool
apis = ("Ping", has_args) ∷ []

abbrev request : RpcData Bool
request = call_rpc_for_result (next_key mgr) "Ping" (true ∷ [])

abbrev reply : RpcData Bool
reply = answer request (has_args request)

-- A codec for these two messages.
abbrev encode : RpcData Bool → Bytes
encode m = pos_part m.msg_type ∷ []

abbrev decode : Bytes → Option (RpcData Bool)
decode bytes = if get_or bytes 0 0 == 1 then some request else some reply

-- The key of a call whose packet cannot be made stays registered.
pack_failed_keeps : start_call (λ d. none) "Ping" (true ∷ []) mgr ≡ pack_failed (add mgr)
unfolding start_call with_packet
pack_failed_keeps = refl

call_answered_example :
    (packet : Bytes) × (m' : Mgr Bool) × (start_call
        (λ d. some (rpc_pack encode d))
        "Ping"
        (true ∷ [])
        mgr
      ≡ sent (add mgr) packet)
    × (filled_by []
          (client_loop decode
            (pos 4)
            3
            (answers_of (rpc_pack encode) apis (rpc_loop decode (pos 4) 3 packet).0)).0
          (add mgr)
        ≡ some m')
    × ((finish_call mgr.added (get_key mgr.added) m').0 ≡ some reply)
unfolding lookup call_rpc_for_result answer
call_answered_example =
    call_answered encode decode (pos 4) (pos 4) [] apis mgr "Ping" (true ∷ []) has_args 2 refl
      (record { some_bytes = omega arith; fits = omega arith; reads_back = refl })
      (record { some_bytes = omega arith; fits = omega arith; reads_back = refl })
