-- ===== src/Cluster/Call.antt =====
-- cluster/rpc.go: the two calls of XingoRpc with their packets, and the way of a call through the
-- loops of both ends. `pack` is the Pack of the RpcDataPack, which fails when gob does. The end of a
-- goroutine's wait is a step of its own, so the other end can run before it.
pub mod RoundTrip
use my_cluster.Common.{
  ℕ, suc, ◌+◌, Bool, true, false, List, [], ◌∷◌, ◌++◌, Option, none, some, String, if◌then◌else◌,
  beq, string_eq, ℤ,
}
use my_cluster.Wire.{Bytes}
use my_cluster.Ids.Keys.{key_text}
use my_cluster.Cluster.AsyncResult.{
  AsyncResultMgr, SetOutcome, not_found, is_set, blocks, panics, get_key, add, remove, get_result,
  time_out, fill_async_result,
}
use my_cluster.Cluster.RpcReader.{RpcData, RpcStop, Handler, rpc_pack, rpc_loop}
use my_cluster.Cluster.RpcHandle.{
  Effect, fills, calls, replies, Apis, call_rpc_not_for_result, call_rpc_for_result, do_msg,
}

-- The prefix of the keys of `NewAsyncResultMgr`.
abbrev pub key_prefix : String
key_prefix = "async_result_"

-- The key of the AsyncResult that an `Add` makes, as the text in the messages.
abbrev pub next_key : {D : Type 0} → AsyncResultMgr D → String
next_key m = key_text key_prefix (get_key m.added)

-- The result that a text stands for, if it is registered.
unfoldable pub number_of : String → List (ℕ × ℕ) → Option ℕ
number_of text [] = none
number_of text ((key, r) ∷ results) =
    if beq (key_text key_prefix key) text then some key else number_of text results

infixl 5 ◌>>=◌
abbrev ◌>>=◌ {ℓ κ} : {A : Type ℓ} {B : Type κ} → Option A → (A → Option B) → Option B
none >>= f = none
some a >>= f = f a

abbrev pub Mgr : Type 0 → Type 0
Mgr V = AsyncResultMgr (RpcData V)

-- What a call has done when its packet was made or not.
pub data Started (V : Type 0) : Type 0 where
  sent : Mgr V → Bytes → Started V
  pack_failed : Mgr V → Started V

module _ {V : Type 0} where
  unfoldable pub with_packet : Mgr V → Option Bytes → Started V
  with_packet m none = pack_failed m
  with_packet m (some packet) = sent m packet

  -- `CallRpcForResult` up to its wait.
  unfoldable pub start_call : (RpcData V → Option Bytes) → String → List V → Mgr V → Started V
  start_call pack target args m =
      with_packet (add m) (pack (call_rpc_for_result (next_key m) target args))

  -- The rest of it: the result `r` of the key is there, or the five seconds are over.
  unfoldable pub call_result :
      ℕ → ℕ → Mgr V → Option (RpcData V × Mgr V) → Option (RpcData V) × Mgr V
  call_result r key m none = (none, remove key (time_out r m))
  call_result r key m (some (d, m')) = (some d, m')

  unfoldable pub finish_call : ℕ → ℕ → Mgr V → Option (RpcData V) × Mgr V
  finish_call r key m = call_result r key m (get_result r m)

  -- `CallRpcNotForResult`: the packet, or the error of Pack.
  unfoldable pub call_without_result : (RpcData V → Option Bytes) → String → List V → Option Bytes
  call_without_result pack target args = pack (call_rpc_not_for_result target args)

  -- `FillAsyncResult` in a goroutine of its own, whose error is ignored: a send that waits leaves the
  -- key removed, and `none` is the panic of a send on a closed channel.
  unfoldable pub filled_mgr : ℕ → Mgr V → SetOutcome (RpcData V) → Option (Mgr V)
  filled_mgr key m (is_set m') = some m'
  filled_mgr key m not_found = some m
  filled_mgr key m blocks = some (remove key m)
  filled_mgr key m panics = none

  unfoldable pub fill_number : RpcData V → Mgr V → Option ℕ → Option (Mgr V)
  fill_number d m none = some m
  fill_number d m (some key) = filled_mgr key m (fill_async_result key d m)

  unfoldable pub fill_text : String → RpcData V → Mgr V → Option (Mgr V)
  fill_text text d m = fill_number d m (number_of text m.results)

  -- What the effects of the messages do at one end: the packets sent back, ...
  unfoldable pub packets_of : (RpcData V → Bytes) → List (Effect V) → Bytes
  packets_of pack [] = []
  packets_of pack (fills key d ∷ effects) = packets_of pack effects
  packets_of pack (calls target ∷ effects) = packets_of pack effects
  packets_of pack (replies d ∷ effects) = pack d ++ packets_of pack effects

  unfoldable pub answers_of : (RpcData V → Bytes) → Apis V → List (Handler × RpcData V) → Bytes
  answers_of pack apis [] = []
  answers_of pack apis ((h, d) ∷ ms) = packets_of pack (do_msg apis d) ++ answers_of pack apis ms

  -- ... and the results filled.
  unfoldable pub fill_all : List (Effect V) → Mgr V → Option (Mgr V)
  fill_all [] m = some m
  fill_all (fills key d ∷ effects) m = fill_text key d m >>= fill_all effects
  fill_all (calls target ∷ effects) m = fill_all effects m
  fill_all (replies d ∷ effects) m = fill_all effects m

  unfoldable pub filled_by : Apis V → List (Handler × RpcData V) → Mgr V → Option (Mgr V)
  filled_by apis [] m = some m
  filled_by apis ((h, d) ∷ ms) m = fill_all (do_msg apis d) m >>= filled_by apis ms

  -- The loop of `RpcClientProtocol.StartReadThread` has the statements of the server's; it stops the
  -- client without another attempt to connect.
  unfoldable pub client_loop :
      (Bytes → Option (RpcData V)) → ℤ → ℕ → Bytes → List (Handler × RpcData V) × RpcStop
  client_loop decode pool_size fuel input = rpc_loop decode pool_size fuel input
