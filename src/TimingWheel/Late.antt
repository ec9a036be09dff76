-- ===== src/TimingWheel/Late.antt =====
-- timer_256/timingwheel.go: short delays when the second wheel has left zero. `AddFunc` looks for
-- the highest level whose index is not zero, and an index holds the wheel's position too.
use my_cluster.Common.{
  ℕ, zero, suc, ◌+◌, ◌-◌, ◌*◌, ◌/◌, ◌%◌, ◌≤◌, ◌<◌, Bool, true, List, [], ◌∷◌, ◌≡◌, ◌≢◌, refl, ap,
  sym, ◌∙◌, arith, ltb, ◌==◌, length, get_or, count, set, get_or-set_ne, ℤ, Bool-cases, inl, inr,
}
use my_cluster.TimingWheel.{
  Job, LevelWheel, TimingWheel, add_func, tick_count, slot_indices, top_slot, advance,
  new_level_wheel, turn, fire_events, tick_wheels, tick, run,
}
use my_cluster.TimingWheel.Counts.{AllFit, wheels_count}
use my_cluster.TimingWheel.Slots.{turn-slot, turn-length}
use my_cluster.TimingWheel.Ticks.{IsValid, waiting, started, add_func_lem}
use my_cluster.TimingWheel.History.{tick_lem}
use my_cluster.TimingWheel.OnTime.{run_lem, count-le_slots, position-cur_pos_at, slot_of-get_or}
use my_cluster.TimingWheel.Placement.{
  AtZero, place_one, add_func-slot, add_func-cur_pos, cur_pos_at,
}

module _ {F : Type 0} where
  -- A slot of the second wheel.
  abbrev slot_one : List (LevelWheel F) → ℕ → List (Job F)
  slot_one ws s = get_or (get_or ws 1 new_level_wheel).slots s []

  -- After a tick the second wheel has moved if the lowest one came round, and a slot that it did not
  -- move to has kept its jobs.
  abbrev Passes : (Job F → Bool) → ℕ → List (LevelWheel F) → List (LevelWheel F) → Type 0
  Passes p s ws us =
      (cur_pos_at us 0 ≡ (cur_pos_at ws 0 + 1) % 256)
      × (cur_pos_at us 1 ≡ (cur_pos_at ws 1 + (cur_pos_at ws 0 + 1) / 256) % 256)
      × ((0 < (cur_pos_at ws 0 + 1) / 256 → s ≢ (cur_pos_at ws 1 + 1) % 256)
          → count p (slot_one ws s) ≤ count p (slot_one us s))

  turn-head :
      (p : Job F → Bool) (i s : ℕ) (lower : LevelWheel F) (ws : List (LevelWheel F))
      → (count p (get_or lower.slots s [])
          ≤ count p (get_or (get_or (turn i lower ws) 0 new_level_wheel).slots s []))
        × (cur_pos_at (turn i lower ws) 0 ≡ lower.cur_pos)
  turn-head p i s lower ws =
      let us = turn i lower ws in
      let h : 0 < length us = omega (arith, turn-length i lower ws) in
      let t = turn-slot p i s lower ws in
      (
        omega (arith, t.0, ap (count p) (slot_of-get_or us s h)),
        sym (position-cur_pos_at us h) ∙ t.1,
      )

  turn-Passes :
      (p : Job F → Bool) (s : ℕ) (low w : LevelWheel F) (ws : List (LevelWheel F))
      → w.cur_pos < 256
      → (cur_pos_at (turn 0 low (w ∷ ws)) 1 ≡ (w.cur_pos + 1) % 256)
        × (s ≢ (w.cur_pos + 1) % 256
            → count p (get_or w.slots s []) ≤ count p (slot_one (turn 0 low (w ∷ ws)) s))
  unfolding turn advance
  turn-Passes p s low w ws b =
      let w' = advance w in
      let emptied = record w' { slots = set w'.slots w'.cur_pos [] } in
      let kept : s ≢ w'.cur_pos
          → count p (get_or w.slots s []) ≤ count p (get_or emptied.slots s []) =
        λ ne.
          omega
            (arith, ap (count p) (get_or-set_ne w.slots w'.cur_pos s [] [] (λ e. ne (sym e)))) in
      let up = turn-head p 1 s emptied ws in
      elim (Bool-cases (w'.cur_pos == 0)) [
        | inl e ↦ rw e (up.1, (λ ne. omega (arith, kept ne, up.0)))
        | inr e ↦ rw e (refl, kept)
      ]

  tick_wheels-Passes :
      (p : Job F → Bool) (s : ℕ) (ws : List (LevelWheel F))
      → AllFit ws
      → 1 < length ws
      → Passes p s ws (tick_wheels ws).0
  unfolding tick_wheels fire_events advance
  tick_wheels-Passes p s [] a h = elim h [ ]
  tick_wheels-Passes p s (w ∷ []) a h = absurd (omega arith)
  tick_wheels-Passes p s (w ∷ w1 ∷ ws) a h =
      let w' = advance w in
      let low = record w' { slots = set w'.slots w'.cur_pos [] } in
      let b0 = a.0.pos_fits in
      let b1 = a.1.0.pos_fits in
      let round = turn-Passes p s low w1 ws b1 in
      elim (Bool-cases (w'.cur_pos == 0)) [
        | inl e ↦
            let at_zero : (w.cur_pos + 1) % 256 ≡ 0 = ground arith in
            rw e (
              (turn-head p 0 s low (w1 ∷ ws)).1,
              omega (arith, round.0),
              (λ c. round.1 (c (omega arith))),
            )
        | inr e ↦
            let off_zero : (w.cur_pos + 1) % 256 ≢ 0 = ground arith in
            rw e (refl, omega arith, (λ c. omega arith))
      ]

  tick-Passes :
      (p : Job F → Bool) (s : ℕ) (tw : TimingWheel F)
      → IsValid tw
      → Passes p s tw.wheels (tick tw).0.wheels
  unfolding tick
  tick-Passes p s tw v = tick_wheels-Passes p s tw.wheels v.wheels_fit (omega (arith, v.all_levels))

  -- A job in the slot where the second wheel will be after `d + 1` of its moves stays there until
  -- the lowest wheel has made that many rounds.
  run-slot_one :
      (p : Job F → Bool) (n d s : ℕ) (tw : TimingWheel F)
      → IsValid tw
      → d < 256
      → (cur_pos_at tw.wheels 1 + 1 + d) % 256 ≡ s
      → cur_pos_at tw.wheels 0 < 256
      → cur_pos_at tw.wheels 0 + n < 256 * (d + 1)
      → count p (slot_one tw.wheels s) ≤ count p (slot_one (run n tw).0.wheels s)
  unfolding run
  run-slot_one p zero d s tw v b e c h = omega arith
  run-slot_one p (suc n) d s tw v b e c h =
      let t = tick-Passes p s tw v in
      let v' = (tick_lem tw v).0 in
      elim (Bool-cases (ltb (cur_pos_at tw.wheels 0) 255)) [
        | inl stays ↦
            let low : cur_pos_at tw.wheels 0 < 255 = ground arith in
            omega (
              arith,
              t.2 (λ k. absurd (omega arith)),
              run-slot_one p n d s (tick tw).0 v' b (omega (arith, t.1)) (omega (arith, t.0))
                  (omega (arith, t.0)),
            )
        | inr wraps ↦
            let last : cur_pos_at tw.wheels 0 ≡ 255 = ground arith in
            omega (
              arith,
              t.2 (λ k. omega arith),
              run-slot_one p n (d - 1) s (tick tw).0 v' (omega arith) (omega (arith, t.1))
                  (omega (arith, t.0)) (omega (arith, t.0)),
            )
      ]

  slot_one-le :
      (p : Job F → Bool) (ws : List (LevelWheel F)) (s : ℕ)
      → 1 < length ws
      → count p (slot_one ws s) ≤ wheels_count p ws
  slot_one-le p [] s h = elim h [ ]
  slot_one-le p (w ∷ []) s h = absurd (omega arith)
  slot_one-le p (w ∷ w1 ∷ ws) s h = omega (arith, count-le_slots p w1.slots s)

  -- The wheels above the second one stand at zero.
  abbrev pub AboveAtZero : List (LevelWheel F) → Type 0
  AboveAtZero [] = Unit
  AboveAtZero (w ∷ []) = Unit
  AboveAtZero (w ∷ w1 ∷ ws) = AtZero ws

  cur_pos_at-lt :
      (ws : List (LevelWheel F)) (i : ℕ) → i < length ws → AllFit ws → cur_pos_at ws i < 256
  cur_pos_at-lt [] i h a = elim h [ ]
  cur_pos_at-lt (w ∷ ws) zero h a = a.0.pos_fits
  cur_pos_at-lt (w ∷ ws) (suc i) h a = cur_pos_at-lt ws i (omega arith) a.1

  place :
      (ws : List (LevelWheel F)) (tc : ℕ)
      → 1 < length ws
      → AllFit ws
      → AboveAtZero ws
      → tc < 256
      → cur_pos_at ws 1 ≢ 0
      → top_slot 7 (slot_indices 6 ws tc) ≡ (1, cur_pos_at ws 1)
  place [] tc h a u b k = elim h [ ]
  place (w ∷ []) tc h a u b k = absurd (omega arith)
  place (w ∷ w1 ∷ ws) tc h a u b k = place_one w w1 ws tc u b a.1.0.pos_fits k

  -- The case that is missed: on a valid timer whose second wheel has left zero, and those above it
  -- have not, a callback added with a delay below 256 ticks (the only one of its mark) is not
  -- started by any of the ticks that come before the lowest wheel has made 256 rounds.
  pub starts_late :
      (q : F → Bool) (tw : TimingWheel F) (delay : ℤ) (f : F) (now n : ℕ)
      → IsValid tw
      → AboveAtZero tw.wheels
      → cur_pos_at tw.wheels 1 ≢ 0
      → tick_count delay tw.tick_dur < 256
      → q f ≡ true
      → waiting q tw ≡ 0
      → cur_pos_at tw.wheels 0 + n < 65536
      → started q (run n (add_func tw delay f now).0).1 ≡ 0
  starts_late q tw delay f now n v above moved small marked alone before =
      elim (add_func_lem tw delay f now v) [
        | inl (late, _) ↦ absurd (omega arith)
        | inr (_, _, v', c) ↦
            let p : Job F → Bool = λ j. q j.callback in
            let tw' = (add_func tw delay f now).0 in
            let s = cur_pos_at tw.wheels 1 in
            let fits : s < 256 =
              cur_pos_at-lt tw.wheels 1 (omega (arith, v.all_levels)) v.wheels_fit in
            let low : cur_pos_at tw.wheels 0 < 256 =
              cur_pos_at-lt tw.wheels 0 (omega (arith, v.all_levels)) v.wheels_fit in
            let zero_kept = add_func-cur_pos tw delay f now 0 in
            let one_kept = add_func-cur_pos tw delay f now 1 in
            let run' = run_lem n tw' v' in
            omega (
              arith,
              rw marked at (c q),
              run'.1 q,
              add_func-slot q tw delay f now 1 s v small
                  (place tw.wheels (tick_count delay tw.tick_dur) (omega (arith, v.all_levels))
                    v.wheels_fit above small moved)
                  (omega arith) fits marked,
              run-slot_one p n 255 s tw' v' (omega arith) (omega (arith, one_kept))
                  (omega (arith, zero_kept)) (omega (arith, zero_kept)),
              slot_one-le p (run n tw').0.wheels s (omega (arith, run'.0.all_levels)),
            )
      ]
