-- ===== src/Cluster/CallTests.antt =====
-- The remote calls: the theorems on a few messages.
use my_cluster.Common.{
  ℕ, Bool, true, false, [], ◌∷◌, ◌++◌, ◌≡◌, refl, Option, some, arith, pos, lookup, insert, nat_eq,
  map, string_eq, List, String,
}
use my_cluster.Ids.{uuid, next_uuid}
use my_cluster.Wire.{Bytes, put_u32}
use my_cluster.Cluster.AsyncResult.{
  waiting, filled, AsyncResultMgr, is_set, panics, new_mgr, add, remove, get_async_result, set_cell,
  set_in, set_result, received, get_result,
}
use my_cluster.Cluster.AsyncResult.System.{
  Filler, System, Has, adds, finds, removes, sets, returns, Reach, here, next, start,
}
use my_cluster.Cluster.AsyncResult.Delivery.{AllArrived, Reach-AllArrived}
use my_cluster.Cluster.AsyncResult.Race.{timeout_race}
use my_cluster.Cluster.RpcReader.{RpcData, request_noresult, handler_of, rpc_loop}
use my_cluster.Cluster.RpcReader.Stream.{AllCarry, stream, rpc_loop-stream}
use my_cluster.Cluster.RpcReader.Heads.{rpc_loop-negative}
use my_cluster.Cluster.RpcHandle.{Apis, add_router}

-- One call has been made.
abbrev one_call : System ℕ
one_call = record start { mgr = add start.mgr }

one_found : get_async_result 1 one_call.mgr ≡ some 0
unfolding get_async_result add lookup insert new_mgr uuid next_uuid
one_found = refl

one_waits : lookup 0 one_call.mgr.cells ≡ some waiting
unfolding add lookup insert new_mgr
one_waits = refl

-- A response to it has arrived, and its sender has found the result.
abbrev one_filler : System ℕ
one_filler = record one_call {
  fillers = record { key = 1; result = 0; data_in = 42; removed = false } ∷ [];
  arrived = (1, 42) ∷ [];
}

one_filler-Reach : Reach start one_filler
one_filler-Reach = next (next here adds) (finds 1 0 42 one_found)

-- It removes the key and fills the result, and the caller takes it.
abbrev removed_state : System ℕ
removed_state = record one_filler {
  mgr = remove 1 one_filler.mgr;
  fillers = record { key = 1; result = 0; data_in = 42; removed = true } ∷ [];
}

abbrev set_state : System ℕ
set_state = record removed_state { mgr = set_cell 0 (filled 42) removed_state.mgr; fillers = [] }

abbrev returned_state : System ℕ
returned_state = record set_state {
  mgr = set_cell 0 waiting set_state.mgr;
  returned = (0, 42) ∷ [];
}

fill_works : set_result 0 42 removed_state.mgr ≡ is_set set_state.mgr
unfolding set_result set_in set_cell remove add lookup insert new_mgr
fill_works = refl

takes : get_result 0 set_state.mgr ≡ some (42, returned_state.mgr)
unfolding get_result received set_cell remove add lookup insert new_mgr
takes = refl

returned_state-Reach : Reach start returned_state
returned_state-Reach =
    let f : Filler ℕ = record { key = 1; result = 0; data_in = 42; removed = false } in
    let f' : Filler ℕ = record { key = 1; result = 0; data_in = 42; removed = true } in
    next
      (next (next one_filler-Reach (removes f [] [] refl refl))
        (sets f' [] [] set_state.mgr refl refl fill_works))
      (returns 0 42 returned_state.mgr takes)

Reach-AllArrived_example : AllArrived returned_state.arrived returned_state.returned
Reach-AllArrived_example = Reach-AllArrived returned_state returned_state-Reach

timeout_race_example :
    (t : System ℕ) × (f : Filler ℕ) × Reach one_call t
    × Has f t.fillers
    × (f.removed ≡ true)
    × (set_result f.result f.data_in t.mgr ≡ panics)
timeout_race_example = timeout_race one_call 1 0 42 one_found one_waits

abbrev empty_mgr : AsyncResultMgr ℕ
empty_mgr = new_mgr

abbrev forty_two : ℕ
forty_two = 42

-- Messages without values; a codec for two of them.
abbrev request : RpcData Bool
request = record { msg_type = request_noresult; key = ""; target = "Ping"; args = []; result = [] }

abbrev encode : RpcData Bool → Bytes
encode m = 7 ∷ 8 ∷ []

abbrev decode : Bytes → Option (RpcData Bool)
decode bytes = some request

request-AllCarry : AllCarry encode decode (pos 4) (request ∷ request ∷ [])
request-AllCarry = (
  record { some_bytes = omega arith; fits = omega arith; reads_back = refl },
  (record { some_bytes = omega arith; fits = omega arith; reads_back = refl }, tt),
)

rpc_loop-stream_example :
    let later = rpc_loop decode (pos 4) 5 (9 ∷ []) in
    rpc_loop decode (pos 4) 7 (stream encode decode (pos 4) (request ∷ request ∷ []) ++ 9 ∷ [])
    ≡ (map (λ m. (handler_of (pos 4) m, m)) (request ∷ request ∷ []) ++ later.0, later.1)
rpc_loop-stream_example =
    rpc_loop-stream encode decode (pos 4) 5 (request ∷ request ∷ []) (9 ∷ []) request-AllCarry

rpc_loop-negative_example :
    rpc_loop decode (pos 4) 6 (put_u32 4294967295 ++ 1 ∷ 2 ∷ [])
    ≡ rpc_loop decode (pos 4) 5 (1 ∷ 2 ∷ [])
rpc_loop-negative_example =
    rpc_loop-negative decode (pos 4) 5 4294967295 (1 ∷ 2 ∷ []) (omega arith) (omega arith)

-- A handler that answers every request with the same values.
abbrev pong : RpcData Bool → List (String × Bool)
pong m = ("ok", true) ∷ []

abbrev no_apis : Apis Bool
no_apis = []

abbrev ping_api : Apis Bool
ping_api = ("Ping", pong) ∷ []

ping_found : lookup "Ping" ping_api ≡ some pong
unfolding lookup
ping_found = refl

ping_added : add_router ping_api no_apis ≡ some ping_api
unfolding add_router insert lookup
ping_added = refl
