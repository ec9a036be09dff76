-- ===== src/Cluster/RpcReader/Heads.antt =====
-- cluster/rpcpack.go and cluster/rpcprotocol.go: the loop on any stream.
use my_cluster.Common.{
  ℕ, zero, suc, ◌-◌, ◌^◌, ◌≤◌, ◌<◌, ◌≡◌, ◌≢◌, refl, ap, subst, ◌∙◌, [], ◌++◌, Option, none, some,
  arith, length, true, append-nil, ℤ, pos, negsuc, leb_ℤ, signed32, pos_part, Bool-cases, inl, inr,
}
use my_cluster.Wire.{
  Bytes, put_u32, get_u32, read_full, get_u32-put_u32, read_full_append, length-put_u32,
  read_full-length,
}
use my_cluster.Cluster.RpcReader.{
  RpcData, RpcUnpacked, head, short_head, too_big, rpc_unpack, rpc_unpack_len, RpcTurn, stops,
  skips, delivers, rpc_decoded, rpc_with_body, rpc_with_head, rpc_with_head_data, rpc_turn,
  rpc_continue, rpc_loop, out_of_fuel,
}

module _ {V : Type 0} (decode : Bytes → Option (RpcData V)) (pool_size : ℤ) where
  -- A turn stops for a reason of the program, or it has taken a head off the stream.
  abbrev Shrinks : Bytes → RpcTurn V → Type 0
  Shrinks input (stops why) = why ≢ out_of_fuel
  Shrinks input (skips rest) = length rest < length input
  Shrinks input (delivers h m rest) = length rest < length input

  decoded-Shrinks :
      (input rest : Bytes) (o : Option (RpcData V))
      → length rest < length input
      → Shrinks input (rpc_decoded pool_size rest o)
  unfolding rpc_decoded
  decoded-Shrinks input rest none h = λ x. cc
  decoded-Shrinks input rest (some m) h = h

  with_body-Shrinks :
      (n : ℕ) (input rest : Bytes) (o : Option (Bytes × Bytes))
      → read_full n rest ≡ o
      → length rest < length input
      → Shrinks input (rpc_with_body decode pool_size o)
  unfolding rpc_with_body
  with_body-Shrinks n input rest none e h = λ x. cc
  with_body-Shrinks n input rest (some (payload, later)) e h =
      decoded-Shrinks input later (decode payload) (omega (arith, (read_full-length n rest e).1))

  with_head-Shrinks :
      (input rest : Bytes) (u : RpcUnpacked)
      → length rest < length input
      → Shrinks input (rpc_with_head decode pool_size rest u)
  unfolding rpc_with_head
  with_head-Shrinks input rest short_head h = λ x. cc
  with_head-Shrinks input rest too_big h = λ x. cc
  with_head-Shrinks input rest (head len) h = elim (Bool-cases (leb_ℤ len (pos 0))) [
    | inl e ↦ rw e h
    | inr e ↦
        rw e (with_body-Shrinks (pos_part len) input rest (read_full (pos_part len) rest) refl h)
  ]

  with_head_data-Shrinks :
      (input : Bytes) (o : Option (Bytes × Bytes))
      → read_full 4 input ≡ o
      → Shrinks input (rpc_with_head_data decode pool_size o)
  unfolding rpc_with_head_data
  with_head_data-Shrinks input none e = λ x. cc
  with_head_data-Shrinks input (some (head_data, rest)) e =
      with_head-Shrinks input rest (rpc_unpack head_data)
        (omega (arith, (read_full-length 4 input e).1))

  continue-ends :
      (fuel : ℕ) (input : Bytes) (t : RpcTurn V)
      → ((rest : Bytes)
          → length rest < fuel
          → (rpc_loop decode pool_size fuel rest).1 ≢ out_of_fuel)
      → Shrinks input t
      → length input < suc fuel
      → (rpc_continue decode pool_size (rpc_loop decode pool_size fuel) t).1 ≢ out_of_fuel
  unfolding rpc_continue
  continue-ends fuel input (stops why) ih s h = s
  continue-ends fuel input (skips rest) ih s h = ih rest (omega arith)
  continue-ends fuel input (delivers k m rest) ih s h = ih rest (omega arith)

  -- On any stream, with fuel for its length, the loop ends for a reason of the program.
  pub rpc_loop-ends :
      (fuel : ℕ) (input : Bytes)
      → length input < fuel
      → (rpc_loop decode pool_size fuel input).1 ≢ out_of_fuel
  unfolding rpc_loop rpc_turn
  rpc_loop-ends zero input h = absurd (omega arith)
  rpc_loop-ends (suc fuel) input h =
      continue-ends fuel input (rpc_turn decode pool_size input)
        (λ rest l. rpc_loop-ends fuel rest l)
        (with_head_data-Shrinks input (read_full 4 input) refl) h

  check_sign :
      (n : ℕ) (rest : Bytes)
      → 2 ^ 31 ≤ n
      → rpc_unpack_len (some (n, rest)) ≡ head (negsuc (2 ^ 32 - n - 1))
  unfolding rpc_unpack_len
  check_sign n rest h =
      let below : signed32 n ≡ negsuc (2 ^ 32 - n - 1) = ground arith in
      let within : leb_ℤ (negsuc (2 ^ 32 - n - 1)) (pos 1048576) ≡ true = ground arith in
      rw below (rw within refl)

  negative_head :
      (n : ℕ) → 2 ^ 31 ≤ n → n < 2 ^ 32 → rpc_unpack (put_u32 n) ≡ head (negsuc (2 ^ 32 - n - 1))
  unfolding rpc_unpack
  negative_head n h b =
      let read : get_u32 (put_u32 n) ≡ some (n, []) =
        subst (λ xs. get_u32 xs ≡ some (n, [])) (append-nil (put_u32 n)) (get_u32-put_u32 n [] b) in
      ap rpc_unpack_len read ∙ check_sign n [] h

  negative_turn :
      (n : ℕ) (rest : Bytes)
      → 2 ^ 31 ≤ n
      → n < 2 ^ 32
      → rpc_with_head_data decode pool_size (read_full 4 (put_u32 n ++ rest)) ≡ skips rest
  unfolding rpc_with_head_data rpc_with_head put_u32
  negative_turn n rest h b =
      ap (rpc_with_head_data decode pool_size)
        (read_full_append 4 (put_u32 n) rest (length-put_u32 n))
      ∙ ap (rpc_with_head decode pool_size rest) (negative_head n h b)
      ∙ (let below : leb_ℤ (negsuc (2 ^ 32 - n - 1)) (pos 0) ≡ true = ground arith in rw below refl)

  -- A head with the sign bit set, which stands for 2 to 4 GiB on the side that packed it, passes for
  -- a negative length: it is not too big, nothing is read for it, and the bytes behind it are taken
  -- for the next head.
  pub rpc_loop-negative :
      (fuel n : ℕ) (rest : Bytes)
      → 2 ^ 31 ≤ n
      → n < 2 ^ 32
      → rpc_loop decode pool_size (suc fuel) (put_u32 n ++ rest)
        ≡ rpc_loop decode pool_size fuel rest
  unfolding rpc_loop rpc_turn rpc_continue
  rpc_loop-negative fuel n rest h b =
      ap (rpc_continue decode pool_size (rpc_loop decode pool_size fuel)) (negative_turn n rest h b)
