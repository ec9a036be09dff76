-- ===== src/TimingWheel/Ticks.antt =====
-- timer_256/timingwheel.go: what `NewTimingWheel`, `AddFunc` and `tick` do to the jobs that wait.
use my_cluster.Common.{
  ℕ, zero, suc, ◌+◌, ◌-◌, ◌/◌, ◌^◌, ◌≤◌, ◌<◌, Bool, List, [], ◌∷◌, ◌≡◌, refl, ◌⊎◌, none, some,
  arith, ltb, leb, if◌then◌else◌, length, get_or, set, replicate, count, length-set,
  length-replicate, ℤ, pos, negsuc, Bool-cases, inl, inr,
}
use my_cluster.TimingWheel.{
  Job, LevelWheel, TimingWheel, slot_cnt, level_cnt, level_add_job, new_level_wheel,
  new_timing_wheel, add_job, add_func, slot_indices, top_slot, tick_count, delay_overflow,
}
use my_cluster.TimingWheel.Counts.{
  slots_count, wheels_count, IndexFits, SlotsFit, LevelFits, AllFit, get_or-IndexFits,
  level_add_job-count, level_add_job-LevelFits,
}

SlotsFit-empty : (F : Type 0) (n : ℕ) → SlotsFit {F = F} (replicate n [])
SlotsFit-empty F zero = tt
SlotsFit-empty F (suc n) = (tt, SlotsFit-empty F n)

pub new_level_wheel-LevelFits : (F : Type 0) → LevelFits (new_level_wheel {F = F})
unfolding new_level_wheel
new_level_wheel-LevelFits F = record {
  pos_fits = omega arith;
  slots_full = length-replicate {A = List (Job F)} 256 [];
  jobs_fit = SlotsFit-empty F 256;
}

pub AllFit-replicate : (F : Type 0) (n : ℕ) → AllFit (replicate n (new_level_wheel {F = F}))
AllFit-replicate F zero = tt
AllFit-replicate F (suc n) = (new_level_wheel-LevelFits F, AllFit-replicate F n)

module _ {F : Type 0} where
  pub record IsValid (tw : TimingWheel F) : Type 0 where
    pub dur_positive : 0 < tw.tick_dur
    pub all_levels : length tw.wheels ≡ level_cnt
    pub wheels_fit : AllFit tw.wheels

  -- How many waiting jobs have a callback that passes the test.
  abbrev pub waiting : (F → Bool) → TimingWheel F → ℕ
  waiting q tw = wheels_count (λ j. q j.callback) tw.wheels

  abbrev pub started : (F → Bool) → List (Job F) → ℕ
  started q = count (λ j. q j.callback)

  slots_count-empty : (p : Job F → Bool) (n : ℕ) → slots_count p (replicate n []) ≡ 0
  slots_count-empty p zero = refl
  slots_count-empty p (suc n) = omega (arith, slots_count-empty p n)

  new_level_wheel-count : (p : Job F → Bool) → slots_count p new_level_wheel.slots ≡ 0
  unfolding new_level_wheel
  new_level_wheel-count p = slots_count-empty p 256

  wheels_count-replicate :
      (p : Job F → Bool) (n : ℕ) → wheels_count p (replicate n new_level_wheel) ≡ 0
  wheels_count-replicate p zero = refl
  wheels_count-replicate p (suc n) =
      omega (arith, new_level_wheel-count p, wheels_count-replicate p n)

  slot_indices-IndexFits : (n tc : ℕ) (ws : List (LevelWheel F)) → IndexFits (slot_indices n ws tc)
  unfolding slot_indices
  slot_indices-IndexFits zero tc ws = omega arith
  slot_indices-IndexFits (suc n) tc [] = (omega arith, (omega arith, zeros n))
    where
      zeros : (k : ℕ) → IndexFits (replicate k 0)
      zeros zero = tt
      zeros (suc k) = (omega arith, zeros k)
  slot_indices-IndexFits (suc n) tc (w ∷ ws) = (omega arith, slot_indices-IndexFits n (tc / 256) ws)

  pub get_or-LevelFits :
      (ws : List (LevelWheel F)) (i : ℕ) → AllFit ws → LevelFits (get_or ws i new_level_wheel)
  get_or-LevelFits [] i a = new_level_wheel-LevelFits F
  get_or-LevelFits (w ∷ ws) zero a = a.0
  get_or-LevelFits (w ∷ ws) (suc i) a = get_or-LevelFits ws i a.1

  set-AllFit :
      (ws : List (LevelWheel F)) (i : ℕ) (w : LevelWheel F)
      → AllFit ws
      → LevelFits w
      → AllFit (set ws i w)
  set-AllFit [] i w a f = tt
  set-AllFit (x ∷ ws) zero w a f = (f, a.1)
  set-AllFit (x ∷ ws) (suc i) w a f = (a.0, set-AllFit ws i w a.1 f)

  wheels_count-set :
      (p : Job F → Bool) (ws : List (LevelWheel F)) (i : ℕ) (w : LevelWheel F)
      → i < length ws
      → wheels_count p (set ws i w) + slots_count p (get_or ws i new_level_wheel).slots
        ≡ wheels_count p ws + slots_count p w.slots
  wheels_count-set p [] i w h = elim h [ ]
  wheels_count-set p (x ∷ ws) zero w h = omega arith
  wheels_count-set p (x ∷ ws) (suc i) w h = omega (arith, wheels_count-set p ws i w (omega arith))

top_slot-level : (n : ℕ) (idx : List ℕ) → (top_slot n idx).0 ≤ n - 1
unfolding top_slot
top_slot-level zero idx = omega arith
top_slot-level (suc n) idx = ground (arith, top_slot-level n idx)

top_slot-slot : (n : ℕ) (idx : List ℕ) → IndexFits idx → (top_slot n idx).1 < 256
unfolding top_slot
top_slot-slot zero idx h = omega arith
top_slot-slot (suc n) idx h = ground (arith, top_slot-slot n idx h, get_or-IndexFits idx n h)

module _ {F : Type 0} where
  -- A job whose level and slot exist is added, whatever the test.
  add_job-count :
      (p : Job F → Bool) (tw : TimingWheel F) (level slot : ℕ) (job : Job F)
      → IsValid tw
      → level < level_cnt
      → slot < slot_cnt
      → wheels_count p (add_job tw level slot job).0.wheels
        ≡ wheels_count p tw.wheels + count p (job ∷ [])
  unfolding add_job
  add_job-count p tw level slot job v l s =
      let w = get_or tw.wheels level new_level_wheel in
      let f = get_or-LevelFits tw.wheels level v.wheels_fit in
      ground (
        arith,
        v.all_levels,
        wheels_count-set p tw.wheels level (level_add_job w slot job).0
            (omega (arith, v.all_levels)),
        level_add_job-count p w slot job f.slots_full s,
      )

  add_job-IsValid :
      (tw : TimingWheel F) (level slot : ℕ) (job : Job F)
      → IsValid tw
      → IndexFits job.level_slot_idx
      → IsValid (add_job tw level slot job).0
  unfolding add_job
  add_job-IsValid tw level slot job v k =
      let w = get_or tw.wheels level new_level_wheel in
      let f = get_or-LevelFits tw.wheels level v.wheels_fit in
      let f' = level_add_job-LevelFits w slot job f k in
      elim (Bool-cases (leb (length tw.wheels) level)) [
        | inl e ↦ rw e v
        | inr e ↦ elim (Bool-cases (leb 256 slot)) [
          | inl e' ↦ rw (e, e') v
          | inr e' ↦
              rw (e, e')
                (record {
                  dur_positive = v.dur_positive;
                  all_levels = omega (
                    arith,
                    v.all_levels,
                    length-set tw.wheels level (level_add_job w slot job).0,
                  );
                  wheels_fit = set-AllFit tw.wheels level _ v.wheels_fit f';
                })
        ]
      ]

  add_job-ok :
      (tw : TimingWheel F) (level slot : ℕ) (job : Job F)
      → IsValid tw
      → level < level_cnt
      → slot < slot_cnt
      → (add_job tw level slot job).1 ≡ none
  unfolding add_job
  add_job-ok tw level slot job v l s = ground (arith, v.all_levels)

  -- A new timer is refused for a duration that is not positive; otherwise it is valid, with seven
  -- levels, and no job waits in it.
  pub new_timing_wheel_lem :
      (d : ℕ)
      → (new_timing_wheel {F = F} (negsuc d) ≡ none)
        × (new_timing_wheel {F = F} (pos 0) ≡ none)
        × ((tw : TimingWheel F) × (new_timing_wheel (pos (suc d)) ≡ some tw)
            × IsValid tw
            × (tw.tick_dur ≡ suc d)
            × ((q : F → Bool) → waiting q tw ≡ 0))
  unfolding new_timing_wheel
  new_timing_wheel_lem d = (
    refl,
    refl,
    (
      record { tick_dur = suc d; wheels = replicate level_cnt new_level_wheel },
      ground arith,
      record { dur_positive = omega arith; all_levels = refl; wheels_fit = AllFit-replicate F 7 },
      refl,
      λ q. wheels_count-replicate (λ j. q j.callback) 7,
    ),
  )

  -- `AddFunc` on a valid timer: past 2 ^ 56 ticks it reports an overflow and changes nothing; at any
  -- other delay it reports no error, the timer stays valid, and its callback is the one job more
  -- that waits, whatever test counts the jobs.
  pub add_func_lem :
      (tw : TimingWheel F) (delay : ℤ) (f : F) (now : ℕ)
      → IsValid tw
      → let r = add_func tw delay f now in
        let tc = tick_count delay tw.tick_dur in
        ((2 ^ 56 < tc) × (r ≡ (tw, some delay_overflow)))
        ⊎ ((tc ≤ 2 ^ 56)
            × (r.1 ≡ none)
            × IsValid r.0
            × ((q : F → Bool) → waiting q r.0 ≡ waiting q tw + (if q f then 1 else 0)))
  unfolding add_func
  add_func_lem tw delay f now v =
      let tc = tick_count delay tw.tick_dur in
      let idx = slot_indices 6 tw.wheels tc in
      let fit = slot_indices-IndexFits 6 tc tw.wheels in
      let at = top_slot 7 idx in
      let job : Job F = record { level_slot_idx = idx; callback = f; create_time = now } in
      let lvl : at.0 < 7 = omega (arith, top_slot-level 7 idx) in
      elim (Bool-cases (ltb (2 ^ 56) tc)) [
        | inl e ↦ rw e (inl (ground arith, refl))
        | inr e ↦ rw e (
            inr (
              ground arith,
              add_job-ok tw at.0 at.1 job v lvl (top_slot-slot 7 idx fit),
              add_job-IsValid tw at.0 at.1 job v fit,
              λ q. omega (
                arith,
                add_job-count (λ j. q j.callback) tw at.0 at.1 job v lvl (top_slot-slot 7 idx fit),
              ),
            ))
      ]
