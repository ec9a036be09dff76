-- ===== src/Fnet/Reader/Frequency.antt =====
-- fnet/protocol.go: how many packets of one connection pass the frequency control.
use my_cluster.Common.{
  ℕ, zero, suc, ◌+◌, ◌-◌, ◌≤◌, ◌<◌, ◌≡◌, refl, ap, ap₂, ◌∙◌, List, Option, none, some, arith, ltb,
  leb, if◌then◌else◌, length, false, inl, inr, ℤ, pos, leb_ℤ, lookup, insert, string_eq, Bool-cases,
  lookup-insert,
}
use my_cluster.Wire.{Bytes, read_full}
use my_cluster.Fnet.DataPack.{PkgData, Unpacked, head, failed, unpack}
use my_cluster.Fnet.Reader.{
  PropertyBag, number, Turn, StopReason, stops, delivers, do_frequency_control, frequency_window,
  with_body, with_head, with_head_data, with_control, continue, read_turn, read_loop, passes,
  exceeded, count_package,
}

-- A connection whose window ends at `fc1`, with `fc` packets counted out of `fc0`.
pub record Counts (fc1 : ℤ) (fc fc0 : ℕ) (bag : PropertyBag) : Type 0 where
  pub has_end : lookup "xingo_fc1" bag ≡ some (number fc1)
  pub has_count : lookup "xingo_fc" bag ≡ some (number (pos fc))
  pub has_limit : lookup "xingo_fc0" bag ≡ some (number (pos fc0))

-- Inside the window a turn is refused at the limit, and is counted below it.
control-Counts :
    (now fc1 : ℤ) (fc fc0 : ℕ) (bag : PropertyBag)
    → Counts fc1 fc fc0 bag
    → leb_ℤ fc1 now ≡ false
    → do_frequency_control now bag ≡ (
        if leb fc0 (suc fc)
        then exceeded
        else passes (insert "xingo_fc" (number (pos (suc fc))) bag))
unfolding do_frequency_control frequency_window count_package
control-Counts now fc1 fc fc0 bag c open_window =
    ap (frequency_window now bag) c.has_end
    ∙ rw open_window (
        ap₂ (count_package bag) c.has_count c.has_limit
        ∙ (let no_sign : fc0 + 0 ≡ fc0 = omega arith in
            let no_sign' : suc fc + 0 ≡ suc fc = omega arith in rw (no_sign, no_sign') refl))

insert-Counts :
    (fc1 : ℤ) (fc fc' fc0 : ℕ) (bag : PropertyBag)
    → Counts fc1 fc fc0 bag
    → Counts fc1 fc' fc0 (insert "xingo_fc" (number (pos fc')) bag)
insert-Counts fc1 fc fc' fc0 bag c = record {
  has_end = lookup-insert "xingo_fc" "xingo_fc1" (number (pos fc')) bag ∙ c.has_end;
  has_count = lookup-insert "xingo_fc" "xingo_fc" (number (pos fc')) bag;
  has_limit = lookup-insert "xingo_fc" "xingo_fc0" (number (pos fc')) bag ∙ c.has_limit;
}

abbrev KeepsBag : PropertyBag → Turn → Type 0
KeepsBag bag (stops why) = Unit
KeepsBag bag (delivers pkg bag' rest) = bag' ≡ bag

with_head-KeepsBag :
    (bag : PropertyBag) (rest : Bytes) (u : Unpacked) → KeepsBag bag (with_head bag rest u)
unfolding with_head
with_head-KeepsBag bag rest (failed e) = tt
with_head-KeepsBag bag rest (head pkg) = elim (Bool-cases (ltb 0 pkg.len)) [
  | inl e ↦ rw e (body (read_full pkg.len rest))
  | inr e ↦ rw e refl
]
  where
    body : (o : Option (Bytes × Bytes)) → KeepsBag bag (with_body bag pkg o)
    body none = unfold with_body in tt
    body (some (payload, later)) = unfold with_body in refl

with_head_data-KeepsBag :
    (limit : ℕ) (bag : PropertyBag) (o : Option (Bytes × Bytes))
    → KeepsBag bag (with_head_data limit bag o)
unfolding with_head_data
with_head_data-KeepsBag limit bag none = tt
with_head_data-KeepsBag limit bag (some (head_data, rest)) =
    with_head-KeepsBag bag rest (unpack limit head_data)

continue-bounded :
    (fc fc0 : ℕ) (bag : PropertyBag) (t : Turn)
    (loop : PropertyBag → Bytes → List PkgData × StopReason)
    → KeepsBag bag t
    → suc fc < fc0
    → ((rest : Bytes) → length (loop bag rest).0 ≤ fc0 - 1 - suc fc)
    → length (continue loop t).0 ≤ fc0 - 1 - fc
unfolding continue
continue-bounded fc fc0 bag (stops why) loop k h ih = omega arith
continue-bounded fc fc0 bag (delivers pkg bag' rest) loop k h ih =
    omega (arith, ih rest, ap (λ b. length (loop b rest).0) k)

-- As long as the window of a connection is open, the loop delivers at most the packets that the
-- limit leaves, less one.
pub read_loop-bounded :
    (limit fuel : ℕ) (clock : ℕ → ℤ) (i : ℕ) (fc1 : ℤ) (fc fc0 : ℕ) (bag : PropertyBag)
    (input : Bytes)
    → Counts fc1 fc fc0 bag
    → ((j : ℕ) → leb_ℤ fc1 (clock j) ≡ false)
    → length (read_loop fuel limit clock i bag input).0 ≤ fc0 - 1 - fc
unfolding read_loop read_turn
read_loop-bounded limit zero clock i fc1 fc fc0 bag input c open_window = omega arith
read_loop-bounded limit (suc fuel) clock i fc1 fc fc0 bag input c open_window =
    let bag' = insert "xingo_fc" (number (pos (suc fc))) bag in
    let loop = read_loop fuel limit clock (i + 1) in
    rw (control-Counts (clock i) fc1 fc fc0 bag c (open_window i))
      (elim (Bool-cases (leb fc0 (suc fc))) [
        | inl full ↦ rw full (unfold with_control continue in omega arith)
        | inr room ↦ rw room (
            continue-bounded fc fc0 bag' (with_control limit input (passes bag')) loop
              (unfold with_control in with_head_data-KeepsBag limit bag' (read_full 8 input))
              (ground arith)
              (λ rest.
                read_loop-bounded limit fuel clock (i + 1) fc1 (suc fc) fc0 bag' rest
                  (insert-Counts fc1 fc (suc fc) fc0 bag c) open_window))
      ])
