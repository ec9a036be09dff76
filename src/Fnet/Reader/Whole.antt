-- ===== src/Fnet/Reader/Whole.antt =====
-- fnet/protocol.go: what the reading loop delivers from any stream, and how it ends.
use my_cluster.Common.{
  ℕ, zero, suc, ◌+◌, ◌≤◌, ◌<◌, ◌≡◌, ◌≢◌, refl, List, [], ◌∷◌, Option, none, some, arith, ltb,
  length, false, inl, inr, ℤ, string_eq, Bool-cases,
}
use my_cluster.Wire.{Bytes, read_full, get_u32, read_full-length}
use my_cluster.Fnet.DataPack.{PkgData, head, unpack, unpack_len, unpack_id, too_big, check_size}
use my_cluster.Fnet.Reader.{
  Control, PropertyBag, Turn, StopReason, stops, delivers, out_of_fuel, do_frequency_control,
  with_body, with_head, with_head_data, with_control, continue, read_turn, read_loop, passes,
  exceeded, panics,
}

-- A packet that was read whole and within the limit.
pub record IsWhole (limit : ℕ) (pkg : PkgData) : Type 0 where
  pub within : too_big limit pkg.len ≡ false
  pub complete : length pkg.payload ≡ pkg.len

abbrev pub AllWhole : ℕ → List PkgData → Type 0
AllWhole limit [] = Unit
AllWhole limit (pkg ∷ pkgs) = IsWhole limit pkg × AllWhole limit pkgs

-- What a turn that delivers guarantees: the packet is whole, and the stream has become shorter by
-- its bytes.
abbrev Delivers : ℕ → Bytes → Turn → Type 0
Delivers limit input (stops why) = why ≢ out_of_fuel
Delivers limit input (delivers pkg bag rest) =
    IsWhole limit pkg × (length rest + 8 + pkg.len ≡ length input)

with_body-Delivers :
    (limit : ℕ) (bag : PropertyBag) (input rest : Bytes) (pkg : PkgData)
    (o : Option (Bytes × Bytes))
    → read_full pkg.len rest ≡ o
    → too_big limit pkg.len ≡ false
    → length rest + 8 ≡ length input
    → Delivers limit input (with_body bag pkg o)
unfolding with_body
with_body-Delivers limit bag input rest pkg none e small l = λ x. cc
with_body-Delivers limit bag input rest pkg (some (payload, later)) e small l =
    let r = read_full-length pkg.len rest e in
    (record { within = small; complete = r.0 }, omega (arith, r.1))

with_head-Delivers :
    (limit : ℕ) (bag : PropertyBag) (input rest : Bytes) (pkg : PkgData)
    → too_big limit pkg.len ≡ false
    → pkg.payload ≡ []
    → length rest + 8 ≡ length input
    → Delivers limit input (with_head bag rest (head pkg))
unfolding with_head
with_head-Delivers limit bag input rest pkg small empty l = elim (Bool-cases (ltb 0 pkg.len)) [
  | inl more ↦
      rw more (with_body-Delivers limit bag input rest pkg (read_full pkg.len rest) refl small l)
  | inr none_left ↦
      let zero_len : pkg.len ≡ 0 = ground arith in
      rw none_left (record { within = small; complete = rw empty (omega arith) }, omega arith)
]

unpack_id-Delivers :
    (limit len : ℕ) (bag : PropertyBag) (input rest : Bytes) (o : Option (ℕ × Bytes))
    → length rest + 8 ≡ length input
    → Delivers limit input (with_head bag rest (unpack_id limit len o))
unfolding unpack_id check_size
unpack_id-Delivers limit len bag input rest none l = unfold with_head in λ x. cc
unpack_id-Delivers limit len bag input rest (some (msg_id, _)) l =
    elim (Bool-cases (too_big limit len)) [
      | inl big ↦ rw big (unfold with_head in λ x. cc)
      | inr small ↦ rw small (with_head-Delivers limit bag input rest _ small refl l)
    ]

unpack_len-Delivers :
    (limit : ℕ) (bag : PropertyBag) (input rest : Bytes) (o : Option (ℕ × Bytes))
    → length rest + 8 ≡ length input
    → Delivers limit input (with_head bag rest (unpack_len limit o))
unfolding unpack_len
unpack_len-Delivers limit bag input rest none l = unfold with_head in λ x. cc
unpack_len-Delivers limit bag input rest (some (len, left)) l =
    unpack_id-Delivers limit len bag input rest (get_u32 left) l

with_head_data-Delivers :
    (limit : ℕ) (bag : PropertyBag) (input : Bytes) (o : Option (Bytes × Bytes))
    → read_full 8 input ≡ o
    → Delivers limit input (with_head_data limit bag o)
unfolding with_head_data unpack
with_head_data-Delivers limit bag input none e = λ x. cc
with_head_data-Delivers limit bag input (some (head_data, rest)) e =
    unpack_len-Delivers limit bag input rest (get_u32 head_data)
      (omega (arith, (read_full-length 8 input e).1))

with_control-Delivers :
    (limit : ℕ) (input : Bytes) (c : Control) → Delivers limit input (with_control limit input c)
unfolding with_control
with_control-Delivers limit input exceeded = λ x. cc
with_control-Delivers limit input panics = λ x. cc
with_control-Delivers limit input (passes bag) =
    with_head_data-Delivers limit bag input (read_full 8 input) refl

read_turn-Delivers :
    (limit : ℕ) (now : ℤ) (bag : PropertyBag) (input : Bytes)
    → Delivers limit input (read_turn limit now bag input)
unfolding read_turn
read_turn-Delivers limit now bag input =
    with_control-Delivers limit input (do_frequency_control now bag)

abbrev pub total_bytes : List PkgData → ℕ
total_bytes [] = 0
total_bytes (pkg ∷ pkgs) = 8 + pkg.len + total_bytes pkgs

continue-whole :
    (limit fuel : ℕ) (input : Bytes) (loop : PropertyBag → Bytes → List PkgData × StopReason)
    (t : Turn)
    → ((bag : PropertyBag) (rest : Bytes)
        → length rest < fuel
        → ((loop bag rest).1 ≢ out_of_fuel)
          × AllWhole limit (loop bag rest).0
          × (total_bytes (loop bag rest).0 ≤ length rest))
    → Delivers limit input t
    → length input < suc fuel
    → ((continue loop t).1 ≢ out_of_fuel)
      × AllWhole limit (continue loop t).0
      × (total_bytes (continue loop t).0 ≤ length input)
unfolding continue
continue-whole limit fuel input loop (stops why) ih d h = (d, tt, omega arith)
continue-whole limit fuel input loop (delivers pkg bag rest) ih d h =
    let later = ih bag rest (omega arith) in (later.0, (d.0, later.1), omega (arith, later.2))

-- On any stream, with fuel for its length, the loop ends for a reason of the program; every packet
-- that it delivers is within the limit and has as many bytes as its head says; and the packets with
-- their heads are no longer than the stream.
pub read_loop-whole :
    (limit fuel : ℕ) (clock : ℕ → ℤ) (i : ℕ) (bag : PropertyBag) (input : Bytes)
    → length input < fuel
    → let r = read_loop fuel limit clock i bag input in
      (r.1 ≢ out_of_fuel) × AllWhole limit r.0 × (total_bytes r.0 ≤ length input)
unfolding read_loop
read_loop-whole limit zero clock i bag input h = absurd (omega arith)
read_loop-whole limit (suc fuel) clock i bag input h =
    continue-whole limit fuel input (read_loop fuel limit clock (i + 1))
      (read_turn limit (clock i) bag input)
      (λ b rest l. read_loop-whole limit fuel clock (i + 1) b rest l)
      (read_turn-Delivers limit (clock i) bag input) h
