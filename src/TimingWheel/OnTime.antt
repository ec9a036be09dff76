-- ===== src/TimingWheel/OnTime.antt =====
-- timer_256/timingwheel.go: when `Run` starts a job that `AddFunc` put on the lowest wheel.
use my_cluster.Common.{
  ℕ, zero, suc, ◌+◌, ◌-◌, ◌%◌, ◌≤◌, ◌<◌, Bool, true, List, [], ◌∷◌, ◌≡◌, ◌≢◌, refl, ap, sym, ◌∙◌,
  arith, ltb, if◌then◌else◌, length, get_or, count, count-append, ℤ, Bool-cases, inl, inr,
}
use my_cluster.TimingWheel.{
  Job, LevelWheel, TimingWheel, add_func, tick, tick_count, run, slot_indices, top_slot,
  new_level_wheel,
}
use my_cluster.TimingWheel.Counts.{slots_count, wheels_count}
use my_cluster.TimingWheel.Slots.{tick_wheels-slot, slot_of, position}
use my_cluster.TimingWheel.Ticks.{IsValid, waiting, started, add_func_lem}
use my_cluster.TimingWheel.History.{tick_lem}
use my_cluster.TimingWheel.Placement.{
  AtZero, place_low, add_func-slot, add_func-cur_pos, cur_pos_at,
}

module _ {F : Type 0} where
  pub run_lem :
      (n : ℕ) (tw : TimingWheel F)
      → IsValid tw
      → IsValid (run n tw).0
        × ((q : F → Bool) → waiting q (run n tw).0 + started q (run n tw).1 ≡ waiting q tw)
  unfolding run
  run_lem zero tw v = (v, λ q. omega arith)
  run_lem (suc n) tw v =
      let one = tick_lem tw v in
      let rest = run_lem n (tick tw).0 one.0 in
      (
        rest.0,
        λ q. omega (
          arith,
          one.1 q,
          rest.1 q,
          count-append (λ (j : Job F). q j.callback) (tick tw).1 (run n (tick tw).0).1,
        ),
      )

  tick-slot :
      (p : Job F → Bool) (s : ℕ) (tw : TimingWheel F)
      → IsValid tw
      → (position (tick tw).0.wheels ≡ (position tw.wheels + 1) % 256)
        × ((tick tw).1 ≡ slot_of tw.wheels ((position tw.wheels + 1) % 256))
        × (s ≢ (position tw.wheels + 1) % 256
            → count p (slot_of tw.wheels s) ≤ count p (slot_of (tick tw).0.wheels s))
  unfolding tick
  tick-slot p s tw v =
      let h = tick_wheels-slot p s tw.wheels (omega (arith, v.all_levels)) in (h.0, h.1, h.2)

  -- A job in the slot that is `d + 1` ticks ahead stays there for the first `d` ticks.
  run-slot_stays :
      (p : Job F → Bool) (n d s : ℕ) (tw : TimingWheel F)
      → IsValid tw
      → d < 256
      → (position tw.wheels + 1 + d) % 256 ≡ s
      → n ≤ d
      → count p (slot_of tw.wheels s) ≤ count p (slot_of (run n tw).0.wheels s)
  unfolding run
  run-slot_stays p zero d s tw v b e h = omega arith
  run-slot_stays p (suc n) zero s tw v b e h = absurd (omega arith)
  run-slot_stays p (suc n) (suc d) s tw v b e h =
      let t = tick-slot p s tw v in
      let v' = (tick_lem tw v).0 in
      omega (
        arith,
        t.2 (omega arith),
        run-slot_stays p n d s (tick tw).0 v' (omega arith) (omega (arith, t.0)) (omega arith),
      )

  -- The next tick starts it.
  run-slot_starts :
      (p : Job F → Bool) (n d s : ℕ) (tw : TimingWheel F)
      → IsValid tw
      → d < 256
      → (position tw.wheels + 1 + d) % 256 ≡ s
      → d < n
      → count p (slot_of tw.wheels s) ≤ count p (run n tw).1
  unfolding run
  run-slot_starts p zero d s tw v b e h = elim h [ ]
  run-slot_starts p (suc n) zero s tw v b e h =
      let t = tick-slot p s tw v in
      let now : (position tw.wheels + 1) % 256 ≡ s = omega arith in
      omega (
        arith,
        ap (count p) t.1,
        ap (λ (k : ℕ). count p (slot_of tw.wheels k)) now,
        count-append p (tick tw).1 (run n (tick tw).0).1,
      )
  run-slot_starts p (suc n) (suc d) s tw v b e h =
      let t = tick-slot p s tw v in
      let v' = (tick_lem tw v).0 in
      omega (
        arith,
        t.2 (omega arith),
        count-append p (tick tw).1 (run n (tick tw).0).1,
        run-slot_starts p n d s (tick tw).0 v' (omega arith) (omega (arith, t.0)) (omega arith),
      )

  pub count-le_slots :
      (p : Job F → Bool) (ss : List (List (Job F))) (s : ℕ)
      → count p (get_or ss s []) ≤ slots_count p ss
  count-le_slots p [] s = omega arith
  count-le_slots p (x ∷ ss) zero = omega arith
  count-le_slots p (x ∷ ss) (suc s) = omega (arith, count-le_slots p ss s)

  slot_of-le :
      (p : Job F → Bool) (ws : List (LevelWheel F)) (s : ℕ)
      → count p (slot_of ws s) ≤ wheels_count p ws
  slot_of-le p [] s = omega arith
  slot_of-le p (w ∷ ws) s = omega (arith, count-le_slots p w.slots s)

  pub position-cur_pos_at :
      (ws : List (LevelWheel F)) → 0 < length ws → position ws ≡ cur_pos_at ws 0
  position-cur_pos_at [] h = elim h [ ]
  position-cur_pos_at (w ∷ ws) h = refl

  pub slot_of-get_or :
      (ws : List (LevelWheel F)) (s : ℕ)
      → 0 < length ws
      → slot_of ws s ≡ get_or (get_or ws 0 new_level_wheel).slots s []
  slot_of-get_or [] s h = elim h [ ]
  slot_of-get_or (w ∷ ws) s h = refl

  -- The wheels above the lowest one stand at zero.
  abbrev pub UpperAtZero : List (LevelWheel F) → Type 0
  UpperAtZero [] = Unit
  UpperAtZero (w ∷ ws) = AtZero ws

  place :
      (ws : List (LevelWheel F)) (tc : ℕ)
      → 0 < length ws
      → UpperAtZero ws
      → tc < 256
      → top_slot 7 (slot_indices 6 ws tc) ≡ (0, (position ws + tc) % 256)
  place [] tc h u b = elim h [ ]
  place (w ∷ ws) tc h u b = place_low w ws tc u b

  module _ (q : F → Bool) (tw : TimingWheel F) (delay : ℤ) (f : F) (now : ℕ) (v : IsValid tw)
      (upper : UpperAtZero tw.wheels) (some_tick : 0 < tick_count delay tw.tick_dur)
      (one_turn : tick_count delay tw.tick_dur < 256) (marked : q f ≡ true)
      (alone : waiting q tw ≡ 0) where
    added : IsValid (add_func tw delay f now).0 × (waiting q (add_func tw delay f now).0 ≡ 1)
    added = elim (add_func_lem tw delay f now v) [
      | inl (late, _) ↦ absurd (omega arith)
      | inr (_, _, v', c) ↦ (v', omega (arith, c q, rw marked at (c q)))
    ]

    in_slot :
        0
        < count
            (λ j. q j.callback)
            (slot_of
              (add_func tw delay f now).0.wheels
              ((position tw.wheels + tick_count delay tw.tick_dur) % 256))
    in_slot =
        let tw' = (add_func tw delay f now).0 in
        let s = (position tw.wheels + tick_count delay tw.tick_dur) % 256 in
        let h : 0 < length tw'.wheels = omega (arith, added.0.all_levels) in
        rw (slot_of-get_or tw'.wheels s h) (
          add_func-slot q tw delay f now 0 s v one_turn
            (place tw.wheels (tick_count delay tw.tick_dur) (omega (arith, v.all_levels)) upper
              one_turn)
            (omega arith) (omega arith) marked)

    position_kept : position (add_func tw delay f now).0.wheels ≡ position tw.wheels
    position_kept =
        position-cur_pos_at (add_func tw delay f now).0.wheels (omega (arith, added.0.all_levels))
        ∙ add_func-cur_pos tw delay f now 0
        ∙ sym (position-cur_pos_at tw.wheels (omega (arith, v.all_levels)))

    -- On a valid timer whose wheels above the lowest stand at zero, a callback added with a delay of
    -- 1 to 255 ticks (the only one of its mark) is started by exactly that tick: not by an earlier
    -- one, and once from then on.
    pub starts_on_time :
        (n : ℕ)
        → started q (run n (add_func tw delay f now).0).1
          ≡ (if ltb n (tick_count delay tw.tick_dur) then 0 else 1)
    starts_on_time n =
        let tc = tick_count delay tw.tick_dur in
        let tw' = (add_func tw delay f now).0 in
        let s = (position tw.wheels + tc) % 256 in
        let ahead : (position tw'.wheels + 1 + (tc - 1)) % 256 ≡ s = omega (arith, position_kept) in
        let kept = (run_lem n tw' added.0).1 q in
        elim (Bool-cases (ltb n tc)) [
          | inl early ↦ rw early (
              omega (
                arith,
                kept,
                added.1,
                in_slot,
                slot_of-le (λ j. q j.callback) (run n tw').0.wheels s,
                run-slot_stays (λ j. q j.callback) n (tc - 1) s tw' added.0 (omega arith) ahead
                    (ground arith),
              ))
          | inr due ↦ rw due (
              omega (
                arith,
                kept,
                added.1,
                in_slot,
                run-slot_starts (λ j. q j.callback) n (tc - 1) s tw' added.0 (omega arith) ahead
                    (ground arith),
              ))
        ]
