-- ===== src/TimingWheel/Counts.antt =====
-- timer_256: the jobs that wait in the wheels, counted by any test, and what an operation does to
-- that count.
use my_cluster.Common.{
  ℕ, zero, suc, ◌+◌, ◌<◌, Bool, List, [], ◌∷◌, ◌++◌, ◌≡◌, arith, leb, ◌==◌, length, get_or, set,
  count, count-append, length-set, Bool-cases, inl, inr,
}
use my_cluster.TimingWheel.{
  Job, LevelWheel, level_add_job, fire_events, move_jobs, advance, turn, fire_events, tick_wheels,
}

-- Every job of a list, of a slot table, of the wheels has slot numbers below 256.
abbrev pub IndexFits : List ℕ → Type 0
IndexFits [] = Unit
IndexFits (i ∷ is) = (i < 256) × IndexFits is

pub get_or-IndexFits : (is : List ℕ) (i : ℕ) → IndexFits is → get_or is i 0 < 256
get_or-IndexFits [] i h = omega arith
get_or-IndexFits (x ∷ is) zero h = h.0
get_or-IndexFits (x ∷ is) (suc i) h = get_or-IndexFits is i h.1

module _ {F : Type 0} where
  abbrev pub slots_count : (Job F → Bool) → List (List (Job F)) → ℕ
  slots_count p [] = 0
  slots_count p (s ∷ ss) = count p s + slots_count p ss

  -- The jobs that wait and pass the test.
  abbrev pub wheels_count : (Job F → Bool) → List (LevelWheel F) → ℕ
  wheels_count p [] = 0
  wheels_count p (w ∷ ws) = slots_count p w.slots + wheels_count p ws

  abbrev pub JobsFit : List (Job F) → Type 0
  JobsFit [] = Unit
  JobsFit (j ∷ js) = IndexFits j.level_slot_idx × JobsFit js

  abbrev pub SlotsFit : List (List (Job F)) → Type 0
  SlotsFit [] = Unit
  SlotsFit (s ∷ ss) = JobsFit s × SlotsFit ss

  pub record LevelFits (w : LevelWheel F) : Type 0 where
    pub pos_fits : w.cur_pos < 256
    pub slots_full : length w.slots ≡ 256
    pub jobs_fit : SlotsFit w.slots

  abbrev pub AllFit : List (LevelWheel F) → Type 0
  AllFit [] = Unit
  AllFit (w ∷ ws) = LevelFits w × AllFit ws

  slots_count-set :
      (p : Job F → Bool) (ss : List (List (Job F))) (i : ℕ) (s : List (Job F))
      → i < length ss
      → slots_count p (set ss i s) + count p (get_or ss i []) ≡ slots_count p ss + count p s
  slots_count-set p [] i s h = elim h [ ]
  slots_count-set p (x ∷ ss) zero s h = omega arith
  slots_count-set p (x ∷ ss) (suc i) s h = omega (arith, slots_count-set p ss i s (omega arith))

  get_or-JobsFit : (ss : List (List (Job F))) (i : ℕ) → SlotsFit ss → JobsFit (get_or ss i [])
  get_or-JobsFit [] i h = tt
  get_or-JobsFit (s ∷ ss) zero h = h.0
  get_or-JobsFit (s ∷ ss) (suc i) h = get_or-JobsFit ss i h.1

  set-SlotsFit :
      (ss : List (List (Job F))) (i : ℕ) (s : List (Job F))
      → SlotsFit ss
      → JobsFit s
      → SlotsFit (set ss i s)
  set-SlotsFit [] i s h k = tt
  set-SlotsFit (x ∷ ss) zero s h k = (k, h.1)
  set-SlotsFit (x ∷ ss) (suc i) s h k = (h.0, set-SlotsFit ss i s h.1 k)

  JobsFit-append :
      (xs : List (Job F)) (j : Job F)
      → JobsFit xs
      → IndexFits j.level_slot_idx
      → JobsFit (xs ++ j ∷ [])
  JobsFit-append [] j h k = (k, tt)
  JobsFit-append (x ∷ xs) j h k = (h.0, JobsFit-append xs j h.1 k)

  -- A job whose slot exists is added, and nothing else changes.
  pub level_add_job-count :
      (p : Job F → Bool) (w : LevelWheel F) (i : ℕ) (j : Job F)
      → length w.slots ≡ 256
      → i < 256
      → slots_count p (level_add_job w i j).0.slots ≡ slots_count p w.slots + count p (j ∷ [])
  unfolding level_add_job
  level_add_job-count p w i j full h = ground (
    arith,
    slots_count-set p w.slots i (get_or w.slots i [] ++ j ∷ []) (omega arith),
    count-append p (get_or w.slots i []) (j ∷ []),
  )

  pub level_add_job-LevelFits :
      (w : LevelWheel F) (i : ℕ) (j : Job F)
      → LevelFits w
      → IndexFits j.level_slot_idx
      → LevelFits (level_add_job w i j).0
  unfolding level_add_job
  level_add_job-LevelFits w i j f k = elim (Bool-cases (leb 256 i)) [
    | inl e ↦ rw e f
    | inr e ↦ rw e (record {
      pos_fits = f.pos_fits;
      slots_full =
          omega (arith, length-set w.slots i (get_or w.slots i [] ++ j ∷ []), f.slots_full);
      jobs_fit =
          set-SlotsFit w.slots i _ f.jobs_fit
            (JobsFit-append _ j (get_or-JobsFit w.slots i f.jobs_fit) k);
    })
  ]

  pub move_jobs-LevelFits :
      (i : ℕ) (w : LevelWheel F) (js : List (Job F))
      → LevelFits w
      → JobsFit js
      → LevelFits (move_jobs i w js)
  unfolding move_jobs
  move_jobs-LevelFits i w [] f h = f
  move_jobs-LevelFits i w (j ∷ js) f h =
      move_jobs-LevelFits i (level_add_job w (get_or j.level_slot_idx i 0) j).0 js
        (level_add_job-LevelFits w (get_or j.level_slot_idx i 0) j f h.0) h.1

  pub move_jobs-count :
      (p : Job F → Bool) (i : ℕ) (w : LevelWheel F) (js : List (Job F))
      → LevelFits w
      → JobsFit js
      → slots_count p (move_jobs i w js).slots ≡ slots_count p w.slots + count p js
  unfolding move_jobs
  move_jobs-count p i w [] f h = omega arith
  move_jobs-count p i w (j ∷ js) f h = omega (
    arith,
    move_jobs-count p i (level_add_job w (get_or j.level_slot_idx i 0) j).0 js
        (level_add_job-LevelFits w (get_or j.level_slot_idx i 0) j f h.0) h.1,
    level_add_job-count p w (get_or j.level_slot_idx i 0) j f.slots_full
        (get_or-IndexFits j.level_slot_idx i h.0),
  )

  advance-LevelFits : (w : LevelWheel F) → LevelFits w → LevelFits (advance w)
  unfolding advance
  advance-LevelFits w f = record {
    pos_fits = omega arith;
    slots_full = f.slots_full;
    jobs_fit = f.jobs_fit;
  }

  -- The wheel with its current slot emptied.
  abbrev emptied : LevelWheel F → LevelWheel F
  emptied w = record w { slots = set w.slots w.cur_pos [] }

  emptied-LevelFits : (w : LevelWheel F) → LevelFits w → LevelFits (emptied w)
  emptied-LevelFits w f = record {
    pos_fits = f.pos_fits;
    slots_full = omega (arith, length-set w.slots w.cur_pos [], f.slots_full);
    jobs_fit = set-SlotsFit w.slots w.cur_pos [] f.jobs_fit tt;
  }

  emptied-count :
      (p : Job F → Bool) (w : LevelWheel F)
      → LevelFits w
      → slots_count p (emptied w).slots + count p (get_or w.slots w.cur_pos [])
        ≡ slots_count p w.slots
  emptied-count p w f =
      let h : w.cur_pos < length w.slots = omega (arith, f.pos_fits, f.slots_full) in
      omega (arith, slots_count-set p w.slots w.cur_pos [] h)

  pub turn-AllFit :
      (i : ℕ) (lower : LevelWheel F) (ws : List (LevelWheel F))
      → LevelFits lower
      → AllFit ws
      → AllFit (turn i lower ws)
  unfolding turn advance
  turn-AllFit i lower [] l a = (l, tt)
  turn-AllFit i lower (w ∷ ws) l a =
      let w' = advance w in
      let f = advance-LevelFits w a.0 in
      let moved =
        move_jobs-LevelFits i lower (get_or w'.slots w'.cur_pos []) l
          (get_or-JobsFit w'.slots w'.cur_pos f.jobs_fit) in
      let e = emptied-LevelFits w' f in
      elim (Bool-cases (w'.cur_pos == 0)) [
        | inl wraps ↦ rw wraps (moved, turn-AllFit (i + 1) (emptied w') ws e a.1)
        | inr stays ↦ rw stays (moved, (e, a.1))
      ]

  pub turn-count :
      (p : Job F → Bool) (i : ℕ) (lower : LevelWheel F) (ws : List (LevelWheel F))
      → LevelFits lower
      → AllFit ws
      → wheels_count p (turn i lower ws) ≡ slots_count p lower.slots + wheels_count p ws
  unfolding turn advance
  turn-count p i lower [] l a = omega arith
  turn-count p i lower (w ∷ ws) l a =
      let w' = advance w in
      let f = advance-LevelFits w a.0 in
      let moving = get_or-JobsFit w'.slots w'.cur_pos f.jobs_fit in
      let e = emptied-LevelFits w' f in
      let gone = emptied-count p w' f in
      let moved = move_jobs-count p i lower (get_or w'.slots w'.cur_pos []) l moving in
      elim (Bool-cases (w'.cur_pos == 0)) [
        | inl wraps ↦
            rw wraps (omega (arith, turn-count p (i + 1) (emptied w') ws e a.1, gone, moved))
        | inr stays ↦ rw stays (omega (arith, gone, moved))
      ]

  pub tick_wheels-AllFit : (ws : List (LevelWheel F)) → AllFit ws → AllFit (tick_wheels ws).0
  unfolding tick_wheels fire_events advance
  tick_wheels-AllFit [] a = tt
  tick_wheels-AllFit (w ∷ ws) a =
      let w' = advance w in
      let e = emptied-LevelFits w' (advance-LevelFits w a.0) in
      elim (Bool-cases (w'.cur_pos == 0)) [
        | inl wraps ↦ rw wraps (turn-AllFit 0 (emptied w') ws e a.1)
        | inr stays ↦ rw stays (e, a.1)
      ]

  pub tick_wheels-count :
      (p : Job F → Bool) (ws : List (LevelWheel F))
      → AllFit ws
      → wheels_count p (tick_wheels ws).0 + count p (tick_wheels ws).1 ≡ wheels_count p ws
  unfolding tick_wheels fire_events advance
  tick_wheels-count p [] a = omega arith
  tick_wheels-count p (w ∷ ws) a =
      let w' = advance w in
      let f = advance-LevelFits w a.0 in
      let gone = emptied-count p w' f in
      elim (Bool-cases (w'.cur_pos == 0)) [
        | inl wraps ↦
            rw wraps
              (omega (arith, turn-count p 0 (emptied w') ws (emptied-LevelFits w' f) a.1, gone))
        | inr stays ↦ rw stays (omega (arith, gone))
      ]
