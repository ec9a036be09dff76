-- ===== src/Cluster/ChildMgr.antt =====
-- cluster/child.go: the connected nodes by their names.
use my_cluster.Common.{
  ℕ, List, [], ◌∷◌, Option, none, some, if◌then◌else◌, String, lookup, insert, delete, string_eq,
  beq, length, ltb, zero, suc,
}
use text.Mathlib.Text.{starts_with}

-- A connection is known by a number; its writer is reached through it.
pub record Child : Type 0 where
  pub name : String
  pub conn : ℕ

abbrev pub Childs : Type 0
Childs = List (String × Child)

unfoldable pub add_child : String → ℕ → Childs → Childs
add_child name conn childs = insert name (record { name = name; conn = conn }) childs

unfoldable pub remove_child : String → Childs → Childs
remove_child name childs = delete name childs

unfoldable pub get_child : String → Childs → Option Child
get_child name childs = lookup name childs

unfoldable pub get_childs_by_prefix : String → Childs → List Child
get_childs_by_prefix name_prefix [] = []
get_childs_by_prefix name_prefix ((k, v) ∷ childs) =
    if starts_with k name_prefix
    then v ∷ get_childs_by_prefix name_prefix childs
    else get_childs_by_prefix name_prefix childs

unfoldable pub get_childs : Childs → List Child
get_childs [] = []
get_childs ((k, v) ∷ childs) = v ∷ get_childs childs

-- `pos` is the result of `rand.Intn(len(childs))`, which is not drawn from an empty list.
pick : ℕ → List Child → Option Child
pick pos [] = none
pick zero (c ∷ childs) = some c
pick (suc pos) (c ∷ childs) = pick pos childs

unfoldable pub get_random_child : (ℕ → ℕ) → String → Childs → Option Child
unfolding pick
get_random_child intn namesuffix childs =
    let found =
      if beq namesuffix "" then get_childs childs else get_childs_by_prefix namesuffix childs in
    if ltb 0 (length found) then pick (intn (length found)) found else none
