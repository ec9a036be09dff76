-- ===== src/Globals.antt =====
-- utils/globalobj.go: what the configuration says, and the counter of requests. Of the fields those
-- that the code modelled here reads.
pub mod Frequency
use my_cluster.Common.{
  ℕ, zero, suc, ◌+◌, ◌-◌, ◌*◌, ◌%◌, ◌^◌, Bool, true, false, List, [], ◌∷◌, Option, none, some,
  String, ℤ, pos, insert, string_eq, if◌then◌else◌, signed64,
}
use my_cluster.Wire.{Bytes}
use my_cluster.Strings.{codes, split, contains_text, bytes_eq}
use my_cluster.Strings.Atoi.{atoi}
use my_cluster.Fnet.MsgHandle.{NodeKind, gate, net, other}
use my_cluster.Fnet.Reader.{PropertyBag, number}

pub record GlobalObj : Type 0 where
  pub name : Bytes
  pub frequency_control : Bytes
  pub max_rid : ℕ

-- A `uint64`.
unfoldable pub inc_max_rid : GlobalObj → GlobalObj × ℕ
inc_max_rid g = let rid = (g.max_rid + 1) % 2 ^ 64 in (record g { max_rid = rid }, rid)

unfoldable pub read_frequency : Bytes → Option ℤ → ℤ × Bytes
read_frequency unit none = (pos 0, [])
read_frequency unit (some n) = (n, unit)

unfoldable pub frequency_of : List Bytes → ℤ × Bytes
frequency_of (count ∷ unit ∷ []) = read_frequency unit (atoi count)
frequency_of _ = (pos 0, [])

unfoldable pub get_frequency : GlobalObj → ℤ × Bytes
get_frequency g = frequency_of (split g.frequency_control (b'/' ∷ []))

unfoldable pub is_gate : GlobalObj → Bool
is_gate g = contains_text g.name (codes "gate")

unfoldable pub is_net : GlobalObj → Bool
is_net g = contains_text g.name (codes "net")

unfoldable pub is_admin : GlobalObj → Bool
is_admin g = contains_text g.name (codes "admin")

unfoldable pub is_master : GlobalObj → Bool
is_master g = bytes_eq g.name (codes "master")

-- The tests of `DeliverToMsgQueue`, in its order.
unfoldable pub node_kind : GlobalObj → NodeKind
node_kind g = if is_gate g then gate else if is_net g then net else other

-- The end of a window of so many milliseconds, as the code computes it from `UnixNano()`.
abbrev pub window_end : ℕ → ℕ → ℤ
window_end nanos millis = signed64 ((nanos * 1_000_000 + millis) % 2 ^ 64)

abbrev pub set_window : ℤ → ℤ → PropertyBag → PropertyBag
set_window fc0 fc1 bag =
    insert "xingo_fc1" (number fc1)
      (insert "xingo_fc0" (number fc0) (insert "xingo_fc" (number (pos 0)) bag))

-- `SetFrequencyControl` of fnet/protocol.go, at the time `nanos`.
unfoldable pub set_frequency_control : GlobalObj → ℕ → PropertyBag → PropertyBag
set_frequency_control g nanos bag =
    let (fc0, fc1) = get_frequency g in
    if bytes_eq fc1 (codes "h")
    then set_window fc0 (window_end nanos 3600000) bag
    else if bytes_eq fc1 (codes "m")
    then set_window fc0 (window_end nanos 60000) bag
    else if bytes_eq fc1 (codes "s")
    then set_window fc0 (window_end nanos 1000) bag
    else bag
