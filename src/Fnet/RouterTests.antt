-- ===== src/Fnet/RouterTests.antt =====
-- fnet/msghandle.go and utils/globalobj.go at concrete inputs.
use my_cluster.Common.{
  ℕ, pos, ◌≡◌, ◌++◌, refl, true, List, [], ◌∷◌, none, some, lookup, insert, nat_eq, string_eq,
  arith,
}
use my_cluster.Wire.{Bytes}
use my_cluster.Strings.{codes, split, split_from, has_prefix, contains_text}
use my_cluster.Strings.Decimal.{itoa, digits}
use my_cluster.Strings.Pieces.{join}
use my_cluster.Strings.Atoi.{atoi, unsigned, read_digits, positive, negative}
use my_cluster.Fnet.MsgHandle.{net}
use my_cluster.Fnet.MsgHandle.Router.{
  api_index, add_method, then_methods, add_router_raw, func_msg2gate, to_gate, msg_add_router,
}
use my_cluster.Fnet.MsgHandle.Router.Numbers.{NoMethod, msg_add_router-net}
use my_cluster.Fnet.MsgHandle.Router.Gate.{LastForGate}
use my_cluster.Fnet.MsgHandle.Router.Named.{
  MethodName, api_name, helper_name, router, handler_of, add_router_raw_lem,
}
use my_cluster.Fnet.Connection.{new_connection, set_property}
use my_cluster.Fnet.Connection.Writing.{
  Event, buffers, turns, collect, joined, sending_run, sending_run-bytes,
}
use my_cluster.Globals.{GlobalObj, node_kind, is_gate, is_net}

-- A handler as a number; the third method has no number.
abbrev methods : List (Bytes × ℕ)
methods =
    (codes "Api_msg2gate_all", 1)
    ∷ (codes "Api_4001", 2)
    ∷ (codes "Api_x", 3)
    ∷ (codes "Helper_7", 4)
    ∷ []

abbrev no_apis : List (ℕ × ℕ)
no_apis = []

abbrev raw_apis : List (ℕ × ℕ)
raw_apis = (4001, 2) ∷ []

numbers : add_router_raw methods no_apis ≡ some raw_apis
unfolding add_router_raw then_methods add_method api_index contains_text has_prefix split split_from
    atoi unsigned read_digits positive negative lookup insert
numbers = refl

-- A number that is out of range for `uint32` wraps.
sign_wraps : api_index (codes "Api_-1") ≡ some 4294967295
unfolding api_index contains_text has_prefix split split_from atoi unsigned read_digits positive
    negative
sign_wraps = refl

-- A net node refuses a method below 3000.
net_panics : msg_add_router true 0 ((codes "Api_112", 5) ∷ []) no_apis ≡ none
unfolding msg_add_router add_router_raw then_methods add_method api_index contains_text has_prefix
    split split_from atoi unsigned read_digits positive negative lookup insert to_gate
net_panics = refl

abbrev global_obj : GlobalObj
global_obj = record { name = codes "net1"; frequency_control = codes "100/m"; max_rid = 0 }

net_node : node_kind global_obj ≡ net
unfolding node_kind is_gate is_net contains_text has_prefix
net_node = refl

-- The names of the methods that have one of the two forms.
abbrev named_methods : List (MethodName × ℕ)
named_methods =
    (api_name [] (codes "login" ∷ []) 4001, 2)
    ∷ (api_name (codes "x") [] 7, 3)
    ∷ (helper_name (codes "Helper_7"), 4)
    ∷ []

abbrev named_apis : List (ℕ × ℕ)
named_apis = (4001, 2) ∷ (7, 3) ∷ []

named : add_router_raw (router named_methods) no_apis ≡ some named_apis
unfolding add_router_raw then_methods add_method api_index contains_text has_prefix split split_from
    atoi unsigned read_digits positive negative lookup insert join itoa digits
named = refl

add_router_raw_lem_example :
    lookup 4001 named_apis ≡ handler_of 4001 named_methods (lookup 4001 no_apis)
unfolding contains_text has_prefix
add_router_raw_lem_example =
    add_router_raw_lem named_methods no_apis named_apis
      (((refl, (refl, tt)), omega arith), (((refl, tt), omega arith), (refl, tt))) named 4001

abbrev gate_methods : List (Bytes × ℕ)
gate_methods = (codes "Api_msg2gate_all", 1) ∷ []

abbrev net_apis : List (ℕ × ℕ)
net_apis = to_gate 3000 (func_msg2gate 0 gate_methods) no_apis

net_added : msg_add_router true 0 gate_methods no_apis ≡ some net_apis
unfolding msg_add_router add_router_raw then_methods add_method api_index contains_text has_prefix
    split split_from atoi unsigned read_digits positive negative
net_added = refl

msg_add_router-net_example :
    (lookup 112 net_apis ≡ some (func_msg2gate 0 gate_methods))
    × NoMethod 112 gate_methods
    × LastForGate 0 gate_methods (func_msg2gate 0 gate_methods)
msg_add_router-net_example =
    msg_add_router-net 0 gate_methods no_apis net_apis 112 net_added (omega arith)

abbrev some_traffic : List Event
some_traffic = buffers (codes "ab") ∷ turns ∷ buffers (codes "c") ∷ []

sending_run-bytes_example :
    let s =
      sending_run some_traffic
        (record { conn = new_connection 1 (pos 0); pkg_chan = []; taken = [] }) in
    s.conn.written ++ joined s.conn.send_buff_chan.items ≡ s.taken
unfolding new_connection set_property
sending_run-bytes_example = sending_run-bytes some_traffic (new_connection 1 (pos 0)) refl refl

-- Of two packets that were in `pkg_chan` at once only the first would be written.
half_collected : collect 2 0 (codes "a" ∷ codes "b" ∷ []) ≡ (codes "a" ∷ [], codes "b" ∷ [])
unfolding collect
half_collected = refl
