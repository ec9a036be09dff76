-- ===== src/Fnet/DataPack.antt =====
-- fnet/datapack.go. The protobuf library is the parameter `marshal`: the bytes that `proto.Marshal`
-- returns, and whether it reports an error.
use my_cluster.Common.{
  ℕ, ◌*◌, ◌%◌, ◌^◌, [], ◌++◌, Option, none, some, ltb, ◌==◌, if◌then◌else◌, length, Bool, ◌&&◌,
  ◌||◌,
}
use my_cluster.Wire.{Bytes, put_u32, get_u32}

pub record PkgData : Type 0 where
  pub len : ℕ
  pub msg_id : ℕ
  pub payload : Bytes

pub data UnpackError : Type 0 where
  short_head package_too_big : UnpackError

pub data Unpacked : Type 0 where
  head : PkgData → Unpacked
  failed : UnpackError → Unpacked

-- The constant MaxPacketSize of protocol.go.
abbrev pub max_packet_size : ℕ
max_packet_size = 1024 * 1024

abbrev pub get_head_len : ℕ
get_head_len = 8

-- The test of `Unpack`; `limit` is GlobalObject.MaxPacketSize.
abbrev pub too_big : ℕ → ℕ → Bool
too_big limit len = (ltb 0 limit && ltb limit len) || (limit == 0 && ltb max_packet_size len)

unfoldable pub check_size : ℕ → PkgData → Unpacked
check_size limit pkg = if too_big limit pkg.len then failed package_too_big else head pkg

-- `Unpack` after its first read, and after its second.
unfoldable pub unpack_id : ℕ → ℕ → Option (ℕ × Bytes) → Unpacked
unpack_id limit len none = failed short_head
unpack_id limit len (some (msg_id, _)) =
    check_size limit (record { len = len; msg_id = msg_id; payload = [] })

unfoldable pub unpack_len : ℕ → Option (ℕ × Bytes) → Unpacked
unpack_len limit none = failed short_head
unpack_len limit (some (len, rest)) = unpack_id limit len (get_u32 rest)

unfoldable pub unpack : ℕ → Bytes → Unpacked
unpack limit head_data = unpack_len limit (get_u32 head_data)

module _ {M : Type 0} (marshal : M → Bytes × Bool) where
  -- A marshalling error is only logged; what was marshalled goes out.
  unfoldable pub data_bytes : Option M → Bytes
  data_bytes none = []
  data_bytes (some m) = (marshal m).0

  unfoldable pub pack : ℕ → Option M → Bytes
  unfolding data_bytes
  pack msg_id m =
      let bytes = data_bytes m in
      put_u32 (length bytes % 2 ^ 32) ++ (put_u32 (msg_id % 2 ^ 32) ++ bytes)
