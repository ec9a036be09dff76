-- ===== src/Cluster/RpcHandle.antt =====
-- cluster/rpchandle.go and cluster/rpc.go: the two ends of a remote call. A handler is a function
-- from the request to its result; the channels and the clock are those of AsyncResult.
pub mod Calls
use my_cluster.Common.{
  ℕ, Bool, true, false, not, ◌&&◌, List, [], ◌∷◌, ◌++◌, Option, none, some, String, if◌then◌else◌,
  lookup, insert, string_eq, beq, has_key, ℤ, get_or, set, ◌==◌, ltb, length,
}
use my_cluster.Cluster.RpcReader.{RpcData, request_noresult, request_forresult, response, eq_ℤ}

-- What handling a message does: fill the result of a key, call a handler, send a message back.
pub data Effect (V : Type 0) : Type 0 where
  fills : String → RpcData V → Effect V
  calls : String → Effect V
  replies : RpcData V → Effect V

pub data RpcDelivered (V : Type 0) : Type 0 where
  queued : List (List (RpcData V)) → RpcDelivered V
  blocks panics : RpcDelivered V

abbrev pub Apis : Type 0 → Type 0
Apis V = List (String × (RpcData V → List (String × V)))

module _ {V : Type 0} where
  -- `CallRpcNotForResult` and `CallRpcForResult` up to the packet; the key is that of the new
  -- AsyncResult.
  unfoldable pub call_rpc_not_for_result : String → List V → RpcData V
  call_rpc_not_for_result target args = record {
    msg_type = request_noresult;
    key = "";
    target = target;
    args = args;
    result = [];
  }

  unfoldable pub call_rpc_for_result : String → String → List V → RpcData V
  call_rpc_for_result key target args = record {
    msg_type = request_forresult;
    key = key;
    target = target;
    args = args;
    result = [];
  }

  unfoldable pub answer : RpcData V → List (String × V) → RpcData V
  answer request ret = record {
    msg_type = response;
    key = request.key;
    target = "";
    args = [];
    result = ret;
  }

  -- The call of a handler that was found; a message of an unknown kind calls none.
  unfoldable pub do_call : RpcData V → Option (RpcData V → List (String × V)) → List (Effect V)
  do_call request none = []
  do_call request (some f) =
      if eq_ℤ request.msg_type request_forresult
      then calls request.target ∷ replies (answer request (f request)) ∷ []
      else if eq_ℤ request.msg_type request_noresult
      then calls request.target ∷ []
      else []

  unfoldable pub do_msg : Apis V → RpcData V → List (Effect V)
  do_msg apis request =
      if eq_ℤ request.msg_type response && not (beq request.key "")
      then fills request.key request ∷ []
      else do_call request (lookup request.target apis)

  -- The loop of `AddRouter` over the methods of a router: `none` is its panic on a repeated name.
  unfoldable pub add_router : Apis V → Apis V → Option (Apis V)
  add_router [] apis = some apis
  add_router ((name, f) ∷ methods) apis =
      let rest = add_router methods (insert name f apis) in if has_key name apis then none else rest

  -- `DeliverToMsgQueue` draws an index, which panics without a pool, and then sets it to zero.
  unfoldable pub rpc_deliver : ℕ → ℕ → RpcData V → List (List (RpcData V)) → RpcDelivered V
  rpc_deliver pool_size max_worker_len request queues =
      let queue = get_or queues 0 [] in
      if pool_size == 0
      then panics
      else if ltb (length queue) max_worker_len
      then queued (set queues 0 (queue ++ request ∷ []))
      else blocks
