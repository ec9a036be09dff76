-- ===== src/TimingWheel/Slots.antt =====
-- timer_256/timingwheel.go: what a tick does to the slots of the lowest wheel.
use my_cluster.Common.{
  ℕ, zero, suc, ◌+◌, ◌%◌, ◌≤◌, ◌<◌, Bool, List, [], ◌∷◌, ◌++◌, ◌≡◌, refl, sym, ◌∙◌, arith, leb,
  ◌==◌, length, get_or, set, count, count-append, Bool-cases, inl, inr, ◌≢◌, ap, get_or-set_ne,
}
use my_cluster.TimingWheel.{
  Job, LevelWheel, level_add_job, tick_wheels, turn, move_jobs, advance, fire_events, fire_events,
}

module _ {F : Type 0} where
  -- A slot of the lowest wheel, and the position of that wheel.
  abbrev pub slot_of : List (LevelWheel F) → ℕ → List (Job F)
  slot_of [] s = []
  slot_of (w ∷ ws) s = get_or w.slots s []

  abbrev pub position : List (LevelWheel F) → ℕ
  position [] = 0
  position (w ∷ ws) = w.cur_pos

  level_add_job-slot :
      (p : Job F → Bool) (w : LevelWheel F) (i s : ℕ) (j : Job F)
      → count p (get_or w.slots s []) ≤ count p (get_or (level_add_job w i j).0.slots s [])
  unfolding level_add_job
  level_add_job-slot p w i s j = elim (Bool-cases (leb 256 i)) [
    | inl e ↦ rw e (omega arith)
    | inr e ↦ rw e (written w.slots i s)
  ]
    where
      written :
          (ss : List (List (Job F))) (i s : ℕ)
          → count p (get_or ss s []) ≤ count p (get_or (set ss i (get_or ss i [] ++ j ∷ [])) s [])
      written [] i s = omega arith
      written (x ∷ ss) zero zero = omega (arith, count-append p x (j ∷ []))
      written (x ∷ ss) zero (suc s) = omega arith
      written (x ∷ ss) (suc i) zero = omega arith
      written (x ∷ ss) (suc i) (suc s) = written ss i s

  move_jobs-slot :
      (p : Job F → Bool) (i s : ℕ) (w : LevelWheel F) (js : List (Job F))
      → count p (get_or w.slots s []) ≤ count p (get_or (move_jobs i w js).slots s [])
  unfolding move_jobs
  move_jobs-slot p i s w [] = omega arith
  move_jobs-slot p i s w (j ∷ js) = omega (
    arith,
    level_add_job-slot p w (get_or j.level_slot_idx i 0) s j,
    move_jobs-slot p i s (level_add_job w (get_or j.level_slot_idx i 0) j).0 js,
  )

  level_add_job-cur_pos :
      (w : LevelWheel F) (i : ℕ) (j : Job F) → (level_add_job w i j).0.cur_pos ≡ w.cur_pos
  unfolding level_add_job
  level_add_job-cur_pos w i j = ground arith

  pub move_jobs-cur_pos :
      (i : ℕ) (w : LevelWheel F) (js : List (Job F)) → (move_jobs i w js).cur_pos ≡ w.cur_pos
  unfolding move_jobs
  move_jobs-cur_pos i w [] = refl
  move_jobs-cur_pos i w (j ∷ js) =
      move_jobs-cur_pos i (level_add_job w (get_or j.level_slot_idx i 0) j).0 js
      ∙ level_add_job-cur_pos w (get_or j.level_slot_idx i 0) j

  -- Turning the upper wheels only adds jobs to the lowest one.
  pub turn-slot :
      (p : Job F → Bool) (i s : ℕ) (lower : LevelWheel F) (ws : List (LevelWheel F))
      → (count p (get_or lower.slots s []) ≤ count p (slot_of (turn i lower ws) s))
        × (position (turn i lower ws) ≡ lower.cur_pos)
  unfolding turn advance
  turn-slot p i s lower [] = (omega arith, refl)
  turn-slot p i s lower (w ∷ ws) =
      let w' = advance w in
      let js = get_or w'.slots w'.cur_pos [] in
      elim (Bool-cases (w'.cur_pos == 0)) [
        | inl e ↦ rw e (move_jobs-slot p i s lower js, move_jobs-cur_pos i lower js)
        | inr e ↦ rw e (move_jobs-slot p i s lower js, move_jobs-cur_pos i lower js)
      ]

  pub turn-length :
      (i : ℕ) (lower : LevelWheel F) (ws : List (LevelWheel F))
      → length (turn i lower ws) ≡ suc (length ws)
  unfolding turn advance
  turn-length i lower [] = refl
  turn-length i lower (w ∷ ws) =
      let w' = advance w in
      elim (Bool-cases (w'.cur_pos == 0)) [
        | inl e ↦ rw e (
            omega
              (arith, turn-length (i + 1) (record w' { slots = set w'.slots w'.cur_pos [] }) ws))
        | inr e ↦ rw e refl
      ]

  -- A tick moves the position by one, starts that slot, and takes nothing from the other slots of
  -- the lowest wheel.
  pub tick_wheels-slot :
      (p : Job F → Bool) (s : ℕ) (ws : List (LevelWheel F))
      → 0 < length ws
      → (position (tick_wheels ws).0 ≡ (position ws + 1) % 256)
        × ((tick_wheels ws).1 ≡ slot_of ws ((position ws + 1) % 256))
        × (s ≢ (position ws + 1) % 256
            → count p (slot_of ws s) ≤ count p (slot_of (tick_wheels ws).0 s))
        × (length (tick_wheels ws).0 ≡ length ws)
  unfolding tick_wheels fire_events advance
  tick_wheels-slot p s [] h = elim h [ ]
  tick_wheels-slot p s (w ∷ ws) h =
      let w' = advance w in
      let low = record w' { slots = set w'.slots w'.cur_pos [] } in
      let kept : s ≢ w'.cur_pos → count p (get_or w.slots s []) ≤ count p (get_or low.slots s []) =
        λ ne.
          omega
            (arith, ap (count p) (get_or-set_ne w.slots w'.cur_pos s [] [] (λ e. ne (sym e)))) in
      let up = turn-slot p 0 s low ws in
      elim (Bool-cases (w'.cur_pos == 0)) [
        | inl e ↦ rw e (up.1, refl, (λ ne. omega (arith, kept ne, up.0)), turn-length 0 low ws)
        | inr e ↦ rw e (refl, refl, kept, refl)
      ]
