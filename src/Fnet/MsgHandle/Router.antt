-- ===== src/Fnet/MsgHandle/Router.antt =====
-- fnet/msghandle.go, `AddRouter`: which handler a message number has. The methods of a router come
-- in the order that reflect gives them; a method is its name and what is called.
pub mod Gate
pub mod Numbers
pub mod Named
use my_cluster.Common.{
  ℕ, zero, suc, ◌+◌, ◌-◌, ◌%◌, ◌^◌, ◌<◌, ◌≤◌, ◌≡◌, refl, ap, sym, ◌∙◌, Bool, true, false, List, [],
  ◌∷◌, ◌++◌, Option, none, some, ℤ, pos, negsuc, if◌then◌else◌, lookup, insert, has_key, nat_eq,
  lookup-insert, beq, Bool-cases, inl, inr, some_inj, arith, contains, ltb, is_some,
}
use my_cluster.Wire.{Bytes}
use my_cluster.Strings.{codes, split, contains_text, has_prefix}
use my_cluster.Strings.Atoi.{atoi}

-- `k[len(k)-1]`
abbrev pub last_of : Bytes → List Bytes → Bytes
last_of p [] = p
last_of p (q ∷ qs) = last_of q qs

abbrev pub last_piece : List Bytes → Bytes
last_piece [] = []
last_piece (p ∷ ps) = last_of p ps

-- `uint32(index)`
abbrev pub to_uint32 : ℤ → ℕ
to_uint32 (pos n) = n % 2 ^ 32
to_uint32 (negsuc n) = 2 ^ 32 - 1 - n % 2 ^ 32

abbrev pub index_of : Option ℤ → Option ℕ
index_of none = none
index_of (some n) = some (to_uint32 n)

-- The message number of a method; `none` for a method that is left out.
unfoldable pub api_index : Bytes → Option ℕ
api_index name =
    if contains_text name (codes "Api")
    then index_of (atoi (last_piece (split name (b'_' ∷ []))))
    else none

module _ {H : Type 0} where
  -- A method with a number goes into the map; `none` is the panic on a number that is there.
  unfoldable pub add_method : Option ℕ → H → List (ℕ × H) → Option (List (ℕ × H))
  add_method none f apis = some apis
  add_method (some index) f apis = if has_key index apis then none else some (insert index f apis)

  unfoldable pub then_methods :
      (List (ℕ × H) → Option (List (ℕ × H))) → Option (List (ℕ × H)) → Option (List (ℕ × H))
  then_methods rest none = none
  then_methods rest (some apis) = rest apis

  unfoldable pub add_router_raw : List (Bytes × H) → List (ℕ × H) → Option (List (ℕ × H))
  add_router_raw [] apis = some apis
  add_router_raw ((name, f) ∷ methods) apis =
      then_methods (add_router_raw methods) (add_method (api_index name) f apis)

  -- The method for a gate: the last whose name has `Api_msg2gate`, or the zero value of reflect.
  unfoldable pub func_msg2gate : H → List (Bytes × H) → H
  func_msg2gate f [] = f
  func_msg2gate f ((name, g) ∷ methods) =
      func_msg2gate (if contains_text name (codes "Api_msg2gate") then g else f) methods

  -- The loop over the numbers below `n`.
  unfoldable pub to_gate : ℕ → H → List (ℕ × H) → List (ℕ × H)
  to_gate zero f apis = apis
  to_gate (suc n) f apis = insert n f (to_gate n f apis)

  unfoldable pub msg_add_router : Bool → H → List (Bytes × H) → List (ℕ × H) → Option (List (ℕ × H))
  msg_add_router is_net zero_value methods apis =
      if is_net
      then add_router_raw methods (to_gate 3000 (func_msg2gate zero_value methods) apis)
      else add_router_raw methods apis
