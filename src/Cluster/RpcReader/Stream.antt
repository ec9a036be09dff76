-- ===== src/Cluster/RpcReader/Stream.antt =====
-- cluster/rpcpack.go and cluster/rpcprotocol.go: the calls that come out of the stream.
use my_cluster.Common.{
  ℕ, suc, ◌+◌, ◌%◌, ◌^◌, ◌≤◌, ◌<◌, ◌≡◌, refl, ap, subst, ◌∙◌, List, [], ◌∷◌, ◌++◌, Option, some,
  arith, length, true, false, append_assoc, append-nil, ℤ, pos, leb_ℤ, signed32, map,
}
use my_cluster.Wire.{Bytes, put_u32, get_u32, get_u32-put_u32, read_full_append, length-put_u32}
use my_cluster.Fnet.DataPack.{max_packet_size}
use my_cluster.Cluster.RpcReader.{
  RpcData, head, rpc_unpack, rpc_unpack_len, RpcStop, Handler, delivers, rpc_pack, handler_of,
  rpc_decoded, rpc_with_body, rpc_with_head, rpc_with_head_data, rpc_turn, rpc_continue, rpc_loop,
}

module _ {V : Type 0} (encode : RpcData V → Bytes) (decode : Bytes → Option (RpcData V))
    (pool_size : ℤ) where
  -- A message that gob writes in 1 to 1024 * 1024 bytes, and reads back.
  pub record Carries (m : RpcData V) : Type 0 where
    pub some_bytes : 0 < length (encode m)
    pub fits : length (encode m) ≤ max_packet_size
    pub reads_back : decode (encode m) ≡ some m

  abbrev pub AllCarry : List (RpcData V) → Type 0
  AllCarry [] = Unit
  AllCarry (m ∷ ms) = Carries m × AllCarry ms

  abbrev pub stream : List (RpcData V) → Bytes
  stream [] = []
  stream (m ∷ ms) = rpc_pack encode m ++ stream ms

  check_len :
      (n : ℕ) (rest : Bytes) → n ≤ max_packet_size → rpc_unpack_len (some (n, rest)) ≡ head (pos n)
  unfolding rpc_unpack_len
  check_len n rest h =
      let plain : signed32 n ≡ pos n = ground arith in
      let within : leb_ℤ (pos n) (pos max_packet_size) ≡ true = ground arith in
      rw plain (rw within refl)

  rpc_unpack-put_u32 : (n : ℕ) → n ≤ max_packet_size → rpc_unpack (put_u32 n) ≡ head (pos n)
  unfolding rpc_unpack
  rpc_unpack-put_u32 n h =
      let read : get_u32 (put_u32 n) ≡ some (n, []) =
        subst (λ xs. get_u32 xs ≡ some (n, [])) (append-nil (put_u32 n))
          (get_u32-put_u32 n [] (omega arith)) in
      ap rpc_unpack_len read ∙ check_len n [] h

  rpc_with_head-payload :
      (m : RpcData V) (rest : Bytes)
      → Carries m
      → rpc_with_head decode pool_size (encode m ++ rest) (head (pos (length (encode m))))
        ≡ delivers (handler_of pool_size m) m rest
  unfolding rpc_with_head rpc_with_body rpc_decoded
  rpc_with_head-payload m rest c =
      let more : leb_ℤ (pos (length (encode m))) (pos 0) ≡ false = ground (arith, c.some_bytes) in
      let read = read_full_append (length (encode m)) (encode m) rest refl in
      rw more
        (ap (rpc_with_body decode pool_size) read ∙ ap (rpc_decoded pool_size rest) c.reads_back)

  -- A turn of the loop takes one message off the stream.
  pub rpc_turn-pack :
      (m : RpcData V) (rest : Bytes)
      → Carries m
      → rpc_turn decode pool_size (rpc_pack encode m ++ rest)
        ≡ delivers (handler_of pool_size m) m rest
  unfolding rpc_turn rpc_pack rpc_with_head_data put_u32
  rpc_turn-pack m rest c =
      let n = length (encode m) in
      let plain : n % 2 ^ 32 ≡ n = omega (arith, c.fits) in
      rw plain (
        ap (rpc_with_head_data decode pool_size)
          (read_full_append 4 (put_u32 n) (encode m ++ rest) (length-put_u32 n))
        ∙ ap (rpc_with_head decode pool_size (encode m ++ rest)) (rpc_unpack-put_u32 n c.fits)
        ∙ rpc_with_head-payload m rest c)

  -- For messages that gob writes in 1 to 1024 * 1024 bytes and reads back: the loop hands on exactly
  -- the messages that were packed, in order, whatever bytes come behind them, each request to the
  -- queue when there is a pool and each response to a goroutine, and goes on with those bytes.
  pub rpc_loop-stream :
      (fuel : ℕ) (ms : List (RpcData V)) (rest : Bytes)
      → AllCarry ms
      → let later = rpc_loop decode pool_size fuel rest in
        rpc_loop decode pool_size (length ms + fuel) (stream ms ++ rest)
        ≡ (map (λ m. (handler_of pool_size m, m)) ms ++ later.0, later.1)
  unfolding rpc_loop rpc_continue
  rpc_loop-stream fuel [] rest c = let same : 0 + fuel ≡ fuel = omega arith in rw same refl
  rpc_loop-stream fuel (m ∷ ms) rest c =
      let longer : suc (length ms) + fuel ≡ suc (length ms + fuel) = omega arith in
      let loop = rpc_loop decode pool_size (length ms + fuel) in
      rw (longer, append_assoc)
        (ap (rpc_continue decode pool_size loop) (rpc_turn-pack m (stream ms ++ rest) c.0)
          ∙ ap
              (λ (r : List (Handler × RpcData V) × RpcStop).
                ((handler_of pool_size m, m) ∷ r.0, r.1))
              (rpc_loop-stream fuel ms rest c.1))
