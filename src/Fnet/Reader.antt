-- ===== src/Fnet/Reader.antt =====
-- fnet/protocol.go: `DoFrequencyControl` and the loop of `StartReadThread`. The connection is the
-- stream of bytes that its peer sends before it closes, and the property bag. The counters that only
-- feed the log are left out.
pub mod Frames
pub mod Frequency
pub mod Whole
use my_cluster.Common.{
  ℕ, zero, suc, ◌+◌, ◌-◌, ◌*◌, ◌/◌, ◌%◌, ◌^◌, ◌≤◌, ◌<◌, ◌≡◌, refl, ap, ◌∙◌, List, [], ◌∷◌, ◌++◌,
  Option, none, some, arith, ltb, ◌==◌, if◌then◌else◌, length, Bool, true, false, ◌&&◌, ◌||◌,
  append_assoc, ◌⊎◌, inl, inr, String, ℤ, pos, negsuc, leb_ℤ, suc_ℤ, signed64, lookup, insert,
  string_eq,
}
use my_cluster.Wire.{Bytes, read_full}
use my_cluster.Fnet.DataPack.{PkgData, UnpackError, Unpacked, head, failed, unpack, get_head_len}

-- The values that the program keeps in a property bag: numbers, and names of nodes.
pub data PropertyValue : Type 0 where
  number : ℤ → PropertyValue
  node_name : String → PropertyValue

abbrev pub PropertyBag : Type 0
PropertyBag = List (String × PropertyValue)

pub data Control : Type 0 where
  passes : PropertyBag → Control
  exceeded : Control
  panics : Control

-- `time.Now().UnixNano()*1e6` in an `int64`.
abbrev pub stamp : ℕ → ℤ
stamp nanos = signed64 (nanos * 1_000_000 % 2 ^ 64)

-- The type assertions on `xingo_fc` and `xingo_fc0`, and the test of the limit.
unfoldable pub count_package : PropertyBag → Option PropertyValue → Option PropertyValue → Control
count_package bag (some (number fc)) (some (number fc0)) =
    if leb_ℤ fc0 (suc_ℤ fc) then exceeded else passes (insert "xingo_fc" (number (suc_ℤ fc)) bag)
count_package bag _ _ = panics

unfoldable pub frequency_window : ℤ → PropertyBag → Option PropertyValue → Control
frequency_window now bag none = passes bag
frequency_window now bag (some (node_name _)) = panics
frequency_window now bag (some (number fc1)) =
    if leb_ℤ fc1 now
    then passes bag
    else count_package bag (lookup "xingo_fc" bag) (lookup "xingo_fc0" bag)

unfoldable pub do_frequency_control : ℤ → PropertyBag → Control
do_frequency_control now bag = frequency_window now bag (lookup "xingo_fc1" bag)

pub data StopReason : Type 0 where
  frequency head_cut body_cut panicked out_of_fuel : StopReason
  bad_head : UnpackError → StopReason

pub data Turn : Type 0 where
  stops : StopReason → Turn
  delivers : PkgData → PropertyBag → Bytes → Turn

-- The rest of a turn: with the body that was read; with the head that was unpacked; with the bytes
-- of the head; and with the verdict of the frequency control.
unfoldable pub with_body : PropertyBag → PkgData → Option (Bytes × Bytes) → Turn
with_body bag pkg none = stops body_cut
with_body bag pkg (some (payload, rest)) = delivers (record pkg { payload = payload }) bag rest

unfoldable pub with_head : PropertyBag → Bytes → Unpacked → Turn
with_head bag input (failed e) = stops (bad_head e)
with_head bag input (head pkg) =
    if ltb 0 pkg.len then with_body bag pkg (read_full pkg.len input) else delivers pkg bag input

unfoldable pub with_head_data : ℕ → PropertyBag → Option (Bytes × Bytes) → Turn
with_head_data limit bag none = stops head_cut
with_head_data limit bag (some (head_data, rest)) = with_head bag rest (unpack limit head_data)

unfoldable pub with_control : ℕ → Bytes → Control → Turn
with_control limit input exceeded = stops frequency
with_control limit input panics = stops panicked
with_control limit input (passes bag) = with_head_data limit bag (read_full get_head_len input)

-- One turn of the loop, at the time `now`.
unfoldable pub read_turn : ℕ → ℤ → PropertyBag → Bytes → Turn
read_turn limit now bag input = with_control limit input (do_frequency_control now bag)

-- After a turn: the loop is left, or it goes on with what the turn left.
unfoldable pub continue :
    (PropertyBag → Bytes → List PkgData × StopReason) → Turn → List PkgData × StopReason
continue rest (stops why) = ([], why)
continue rest (delivers pkg bag input) = let (pkgs, why) = rest bag input in (pkg ∷ pkgs, why)

-- The loop from its turn `i` on, which starts at the time `clock i`: the packets that it delivers,
-- and why it stops the connection.
unfoldable pub read_loop : ℕ → ℕ → (ℕ → ℤ) → ℕ → PropertyBag → Bytes → List PkgData × StopReason
read_loop zero limit clock i bag input = ([], out_of_fuel)
read_loop (suc fuel) limit clock i bag input =
    continue (read_loop fuel limit clock (i + 1)) (read_turn limit (clock i) bag input)
