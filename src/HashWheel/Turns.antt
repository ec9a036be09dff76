-- ===== src/HashWheel/Turns.antt =====
-- timer/hashwheel.go: which timers a chain of wheels holds after a turn of `RunWheel`.
use my_cluster.Common.{
  ℕ, ◌<◌, ◌≡◌, refl, ap, ◌∙◌, Bool, true, false, ◌&&◌, ◌||◌, List, [], ◌∷◌, leb, ◌==◌, get_or, set,
  length, length-set, nat_eq, or_moved, arith, Bool-cases, inl, inr,
}
use my_cluster.HashWheel.{Slot, Wheel, add_chain, add_again, next_slot, turn_first}
use my_cluster.HashWheel.Adds.{any_slot, holds, IsWheel, AllWheels, add_chain-due, add_chain-past}

module _ {C : Type 0} where
  -- A slot has a timer with this id whose time has not passed.
  abbrev pub due_in : ℕ → ℕ → Slot C → Bool
  due_in k now [] = false
  due_in k now ((j, v) ∷ s) = (leb now v.unixts && (j == k)) || due_in k now s

  add_again-holds :
      (k now : ℕ) (s : Slot C) (ws : List (Wheel C))
      → AllWheels ws
      → 0 < length ws
      → holds k (add_again now s ws) ≡ (due_in k now s || holds k ws)
  unfolding add_again
  add_again-holds k now [] ws v p = refl
  add_again-holds k now ((j, t) ∷ s) ws v p = elim (Bool-cases (leb now t.unixts)) [
    | inl e ↦
        let one = add_chain-due k now j true t ws v p (ground (arith, e)) in
        rw e (
          add_again-holds k now s (add_chain true now j t ws) one.0 one.1
          ∙ ap (λ b. due_in k now s || b) one.2
          ∙ or_moved (due_in k now s) (j == k) (holds k ws))
    | inr e ↦ rw e (
        ap (λ us. holds k (add_again now s us)) (add_chain-past now j true t ws (ground (arith, e)))
        ∙ add_again-holds k now s ws v p)
  ]

  next_slot-holds : (k : ℕ) (ws : List (Wheel C)) → holds k (next_slot ws) ≡ holds k ws
  unfolding next_slot
  next_slot-holds k [] = refl
  next_slot-holds k (w ∷ ws) = refl

  -- A turn of a wheel keeps the timers of its other slots and of the wheels below it, and those of
  -- its current slot whose time has not passed; the others of that slot are dropped.
  pub turn_first_lem :
      (k now : ℕ) (w : Wheel C) (ws : List (Wheel C))
      → AllWheels (w ∷ ws)
      → holds k (turn_first now (w ∷ ws)) ≡ (
          due_in k now (get_or w.timer_queue w.index [])
          || (any_slot k (set w.timer_queue w.index []) || holds k ws))
  unfolding turn_first
  turn_first_lem k now w ws v =
      let emptied = record w { timer_queue = set w.timer_queue w.index [] } in
      let s = get_or w.timer_queue w.index [] in
      let fine : IsWheel emptied = record {
        some_level = v.0.some_level;
        all_slots = length-set w.timer_queue w.index [] ∙ v.0.all_slots;
      } in
      next_slot-holds k (add_again now s (emptied ∷ ws))
      ∙ add_again-holds k now s (emptied ∷ ws) (fine, v.1) (omega arith)
