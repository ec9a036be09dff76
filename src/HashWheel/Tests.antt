-- ===== src/HashWheel/Tests.antt =====
-- timer/hashwheel.go: the theorems on a chain of two small wheels.
use my_cluster.Common.{ℕ, ◌≡◌, refl, true, false, [], ◌∷◌, arith, insert, lookup, nat_eq}
use my_cluster.HashWheel.{
  SafeTimer, Wheel, new_hash_wheel, add2wheel_chain, put, put_ahead, add_here, add_chain, find_slot,
}
use my_cluster.HashWheel.Adds.{holds, IsWheel}

-- A wheel of ten seconds over one of a second, with three slots each.
abbrev tens : Wheel ℕ
tens = new_hash_wheel 3 10000

abbrev ones : Wheel ℕ
ones = new_hash_wheel 3 1000

tens-IsWheel : IsWheel tens
unfolding new_hash_wheel
tens-IsWheel = record { some_level = omega arith; all_slots = refl }

ones-IsWheel : IsWheel ones
unfolding new_hash_wheel
ones-IsWheel = record { some_level = omega arith; all_slots = refl }

abbrev soon : SafeTimer ℕ
soon = record { delay_call = 42; unixts = 5500; interval = 0; tid = 0 }

-- A timer for a time that has come is lost before the wheel first turns, without an error.
late_is_lost : holds 1 (add2wheel_chain 5501 1 soon (tens ∷ ones ∷ [])) ≡ false
unfolding add2wheel_chain add_chain add_here put_ahead put find_slot new_hash_wheel insert lookup
late_is_lost = refl

in_time_is_held : holds 1 (add2wheel_chain 4000 1 soon (tens ∷ ones ∷ [])) ≡ true
unfolding add2wheel_chain add_chain add_here put_ahead put find_slot new_hash_wheel insert lookup
in_time_is_held = refl

-- The wheel of a second with the timer in its current slot.
abbrev ones_with : Wheel ℕ
ones_with = record ones { timer_queue = ((1, soon) ∷ []) ∷ [] ∷ [] ∷ [] }

ones_with-IsWheel : IsWheel ones_with
unfolding new_hash_wheel
ones_with-IsWheel = record { some_level = omega arith; all_slots = refl }
