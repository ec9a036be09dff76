-- ===== src/Cluster/RpcReader.antt =====
-- cluster/rpcpack.go and the server's loop of cluster/rpcprotocol.go. encoding/gob is the two
-- parameters `encode`, the bytes that it writes for a message, and `decode`, the message that it
-- reads or an error. The values in a message are of the type `V`.
pub mod Stream
pub mod Heads
use my_cluster.Common.{
  ℕ, zero, suc, ◌+◌, ◌%◌, ◌^◌, Bool, true, false, not, ◌&&◌, List, [], ◌∷◌, ◌++◌, Option, none,
  some, String, ltb, if◌then◌else◌, length, ℤ, pos, negsuc, leb_ℤ, pos_part, neg_part, signed32,
  ◌==◌,
}
use my_cluster.Wire.{Bytes, put_u32, get_u32, read_full}
use my_cluster.Fnet.DataPack.{max_packet_size}

-- The kind is an `int32`: the three constants, and any other number.
pub record RpcData (V : Type 0) : Type 0 where
  pub msg_type : ℤ
  pub key : String
  pub target : String
  pub args : List V
  pub result : List (String × V)

abbrev pub request_noresult : ℤ
request_noresult = pos 0

abbrev pub request_forresult : ℤ
request_forresult = pos 1

abbrev pub response : ℤ
response = pos 2

abbrev pub eq_ℤ : ℤ → ℤ → Bool
eq_ℤ a b = leb_ℤ a b && leb_ℤ b a

abbrev pub rpc_head_len : ℕ
rpc_head_len = 4

pub data RpcUnpacked : Type 0 where
  head : ℤ → RpcUnpacked
  short_head too_big : RpcUnpacked

-- `Unpack` after it has read the length, an `int32`.
unfoldable pub rpc_unpack_len : Option (ℕ × Bytes) → RpcUnpacked
rpc_unpack_len none = short_head
rpc_unpack_len (some (w, _)) =
    if leb_ℤ (signed32 w) (pos max_packet_size) then head (signed32 w) else too_big

unfoldable pub rpc_unpack : Bytes → RpcUnpacked
rpc_unpack head_data = rpc_unpack_len (get_u32 head_data)

pub data RpcStop : Type 0 where
  head_cut bad_head body_cut bad_gob out_of_fuel : RpcStop

-- Who handles a request: the queue of the worker pool, or a goroutine of its own.
pub data Handler : Type 0 where
  queue goroutine : Handler

pub data RpcTurn (V : Type 0) : Type 0 where
  stops : RpcStop → RpcTurn V
  skips : Bytes → RpcTurn V
  delivers : Handler → RpcData V → Bytes → RpcTurn V

module _ {V : Type 0} where
  unfoldable pub rpc_pack : (RpcData V → Bytes) → RpcData V → Bytes
  rpc_pack encode data_in = let bytes = encode data_in in put_u32 (length bytes % 2 ^ 32) ++ bytes

  -- A response does not go to the queue.
  unfoldable pub handler_of : ℤ → RpcData V → Handler
  handler_of pool_size m =
      if not (leb_ℤ pool_size (pos 0)) && not (eq_ℤ m.msg_type response) then queue else goroutine

  unfoldable pub rpc_decoded : ℤ → Bytes → Option (RpcData V) → RpcTurn V
  rpc_decoded pool_size rest none = stops bad_gob
  rpc_decoded pool_size rest (some m) = delivers (handler_of pool_size m) m rest

  module _ (decode : Bytes → Option (RpcData V)) (pool_size : ℤ) where
    unfoldable pub rpc_with_body : Option (Bytes × Bytes) → RpcTurn V
    rpc_with_body none = stops body_cut
    rpc_with_body (some (payload, rest)) = rpc_decoded pool_size rest (decode payload)

    unfoldable pub rpc_with_head : Bytes → RpcUnpacked → RpcTurn V
    rpc_with_head input short_head = stops bad_head
    rpc_with_head input too_big = stops bad_head
    rpc_with_head input (head len) =
        if leb_ℤ len (pos 0) then skips input else rpc_with_body (read_full (pos_part len) input)

    unfoldable pub rpc_with_head_data : Option (Bytes × Bytes) → RpcTurn V
    rpc_with_head_data none = stops head_cut
    rpc_with_head_data (some (head_data, rest)) = rpc_with_head rest (rpc_unpack head_data)

    -- One turn of the loop.
    unfoldable pub rpc_turn : Bytes → RpcTurn V
    rpc_turn input = rpc_with_head_data (read_full rpc_head_len input)

    unfoldable pub rpc_continue :
        (Bytes → List (Handler × RpcData V) × RpcStop)
        → RpcTurn V
        → List (Handler × RpcData V) × RpcStop
    rpc_continue loop (stops why) = ([], why)
    rpc_continue loop (skips rest) = loop rest
    rpc_continue loop (delivers h m rest) = let (ms, why) = loop rest in ((h, m) ∷ ms, why)

    -- The loop: the messages that it hands on, and why it stops the connection.
    unfoldable pub rpc_loop : ℕ → Bytes → List (Handler × RpcData V) × RpcStop
    rpc_loop zero input = ([], out_of_fuel)
    rpc_loop (suc fuel) input = rpc_continue (rpc_loop fuel) (rpc_turn input)
