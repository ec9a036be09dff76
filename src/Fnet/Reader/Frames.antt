-- ===== src/Fnet/Reader/Frames.antt =====
-- fnet/protocol.go with fnet/datapack.go: the packets that come out of the stream.
use my_cluster.Common.{
  ℕ, suc, ◌+◌, ◌%◌, ◌^◌, ◌<◌, ◌≡◌, refl, ap, subst, ◌∙◌, List, [], ◌∷◌, ◌++◌, Option, none, some,
  arith, ltb, length, Bool, true, false, append_assoc, append-nil, ℤ, lookup, string_eq, map,
}
use my_cluster.Wire.{Bytes, put_u32, get_u32, get_u32-put_u32, read_full_append}
use my_cluster.Fnet.DataPack.{
  PkgData, head, unpack, unpack_len, unpack_id, pack, data_bytes, too_big, check_size,
}
use my_cluster.Fnet.Reader.{
  PropertyBag, StopReason, delivers, do_frequency_control, frequency_window, with_body, with_head,
  with_head_data, with_control, continue, read_turn, read_loop,
}

head_of : ℕ → ℕ → Bytes
head_of len msg_id = put_u32 len ++ put_u32 msg_id

unpack-head_of :
    (limit len msg_id : ℕ)
    → len < 2 ^ 32
    → msg_id < 2 ^ 32
    → unpack limit (head_of len msg_id)
      ≡ check_size limit (record { len = len; msg_id = msg_id; payload = [] })
unfolding unpack unpack_len unpack_id head_of
unpack-head_of limit len msg_id a b =
    ap (unpack_len limit) (get_u32-put_u32 len (put_u32 msg_id) a)
    ∙ ap (unpack_id limit len) (
        subst (λ xs. get_u32 xs ≡ some (msg_id, [])) (append-nil (put_u32 msg_id))
          (get_u32-put_u32 msg_id [] b))

module _ {M : Type 0} (marshal : M → Bytes × Bool) where
  -- A message that the protocol can carry, under a limit of the configuration.
  pub record Carries (limit : ℕ) (msg : ℕ × Option M) : Type 0 where
    pub id_fits : msg.0 < 2 ^ 32
    pub length_fits : length (data_bytes marshal msg.1) < 2 ^ 32
    pub accepted : too_big limit (length (data_bytes marshal msg.1)) ≡ false

  -- The packet that the other side should see.
  abbrev pub packet_of : ℕ × Option M → PkgData
  packet_of (msg_id, m) = record {
    len = length (data_bytes marshal m);
    msg_id = msg_id;
    payload = data_bytes marshal m;
  }

  pack-split :
      (msg : ℕ × Option M) (rest : Bytes)
      → msg.0 < 2 ^ 32
      → length (data_bytes marshal msg.1) < 2 ^ 32
      → pack marshal msg.0 msg.1 ++ rest
        ≡ head_of (length (data_bytes marshal msg.1)) msg.0 ++ (data_bytes marshal msg.1 ++ rest)
  unfolding pack head_of
  pack-split msg rest a b =
      let same_len : length (data_bytes marshal msg.1) % 2 ^ 32
          ≡ length (data_bytes marshal msg.1) =
        omega arith in
      let same_id : msg.0 % 2 ^ 32 ≡ msg.0 = omega arith in
      rw (same_len, same_id) (simp append_assoc)

  with_head-payload :
      (bag : PropertyBag) (msg_id : ℕ) (bytes rest : Bytes)
      → with_head bag
          (bytes ++ rest)
          (head (record { len = length bytes; msg_id = msg_id; payload = [] }))
        ≡ delivers (record { len = length bytes; msg_id = msg_id; payload = bytes }) bag rest
  unfolding with_head with_body
  with_head-payload bag msg_id [] rest = refl
  with_head-payload bag msg_id (x ∷ bytes) rest =
      let full : ltb 0 (length (x ∷ bytes)) ≡ true = ground arith in
      rw full (
        ap (with_body bag (record { len = length (x ∷ bytes); msg_id = msg_id; payload = [] }))
          (read_full_append (length (x ∷ bytes)) (x ∷ bytes) rest refl))

  -- A turn of the loop takes one packet off the stream, and delivers the message packed in it.
  read_turn-pack :
      (limit : ℕ) (now : ℤ) (msg : ℕ × Option M) (bag : PropertyBag) (rest : Bytes)
      → lookup "xingo_fc1" bag ≡ none
      → Carries limit msg
      → read_turn limit now bag (pack marshal msg.0 msg.1 ++ rest)
        ≡ delivers (packet_of msg) bag rest
  unfolding read_turn do_frequency_control with_control with_head_data frequency_window check_size
  read_turn-pack limit now (msg_id, m) bag rest free c =
      let bytes = data_bytes marshal m in
      rw (pack-split (msg_id, m) rest c.id_fits c.length_fits) (
        ap
          (λ v.
            with_control limit (head_of (length bytes) msg_id ++ (bytes ++ rest))
              (frequency_window now bag v))
          free
        ∙ ap (with_head_data limit bag) (
            read_full_append 8 (head_of (length bytes) msg_id) (bytes ++ rest)
              (unfold head_of put_u32 in refl))
        ∙ ap (with_head bag (bytes ++ rest))
            (unpack-head_of limit (length bytes) msg_id c.length_fits c.id_fits)
        ∙ rw c.accepted (with_head-payload bag msg_id bytes rest))

  read_loop-pack :
      (limit fuel : ℕ) (clock : ℕ → ℤ) (i : ℕ) (msg : ℕ × Option M) (bag : PropertyBag)
      (rest : Bytes)
      → lookup "xingo_fc1" bag ≡ none
      → Carries limit msg
      → let later = read_loop fuel limit clock (i + 1) bag rest in
        read_loop (suc fuel) limit clock i bag (pack marshal msg.0 msg.1 ++ rest)
        ≡ (packet_of msg ∷ later.0, later.1)
  unfolding read_loop continue
  read_loop-pack limit fuel clock i msg bag rest free c =
      ap (continue (read_loop fuel limit clock (i + 1)))
        (read_turn-pack limit (clock i) msg bag rest free c)

  -- The bytes that the sender of some messages writes.
  abbrev pub stream : List (ℕ × Option M) → Bytes
  stream [] = []
  stream (msg ∷ msgs) = pack marshal msg.0 msg.1 ++ stream msgs

  abbrev pub AllCarry : ℕ → List (ℕ × Option M) → Type 0
  AllCarry limit [] = Unit
  AllCarry limit (msg ∷ msgs) = Carries limit msg × AllCarry limit msgs

  -- With no frequency control set, and messages within the limits, the loop delivers the packed
  -- messages whole, in order, whatever bytes come behind them, and then goes on with those.
  pub read_loop-stream :
      (limit fuel : ℕ) (clock : ℕ → ℤ) (i : ℕ) (msgs : List (ℕ × Option M)) (bag : PropertyBag)
      (rest : Bytes)
      → lookup "xingo_fc1" bag ≡ none
      → AllCarry limit msgs
      → let later = read_loop fuel limit clock (i + length msgs) bag rest in
        read_loop (length msgs + fuel) limit clock i bag (stream msgs ++ rest)
        ≡ (map packet_of msgs ++ later.0, later.1)
  read_loop-stream limit fuel clock i [] bag rest free c =
      let same : i + 0 ≡ i = omega arith in
      let same' : 0 + fuel ≡ fuel = omega arith in rw (same, same') refl
  read_loop-stream limit fuel clock i (msg ∷ msgs) bag rest free c =
      let longer : suc (length msgs) + fuel ≡ suc (length msgs + fuel) = omega arith in
      let shift : i + suc (length msgs) ≡ i + 1 + length msgs = omega arith in
      rw (longer, shift, append_assoc)
        (read_loop-pack limit (length msgs + fuel) clock i msg bag (stream msgs ++ rest) free c.0
          ∙ ap (λ (r : List PkgData × StopReason). (packet_of msg ∷ r.0, r.1))
              (read_loop-stream limit fuel clock (i + 1) msgs bag rest free c.1))
