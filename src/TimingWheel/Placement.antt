-- ===== src/TimingWheel/Placement.antt =====
-- timer_256/timingwheel.go: the level and the slot at which `AddFunc` puts a job.
use my_cluster.Common.{
  ℕ, zero, suc, ◌+◌, ◌/◌, ◌%◌, ◌^◌, ◌<◌, Bool, true, false, List, [], ◌∷◌, ◌++◌, ◌≡◌, ◌≢◌, refl, ap,
  ◌∙◌, none, arith, ltb, leb, length, get_or, count, set, count-append, get_or-set_self,
  get_or-replicate, ℤ, Bool-cases, inl, inr,
}
use my_cluster.TimingWheel.{
  Job, LevelWheel, TimingWheel, level_cnt, add_job, add_func, tick_count, slot_indices, top_slot,
  level_add_job, new_level_wheel,
}
use my_cluster.TimingWheel.Counts.{LevelFits}
use my_cluster.TimingWheel.Ticks.{IsValid, get_or-LevelFits}

-- If only the lowest index may differ from zero, the job goes to the lowest wheel.
top_slot-zero :
    (n : ℕ) (idx : List ℕ)
    → ((i : ℕ) → get_or idx (suc i) 0 ≡ 0)
    → top_slot (suc n) idx ≡ (0, get_or idx 0 0)
unfolding top_slot
top_slot-zero zero idx h = ground arith
top_slot-zero (suc n) idx h = rw (h n) (top_slot-zero n idx h)

-- If the index of level 1 differs from zero and no higher one does, it goes to level 1.
top_slot-one :
    (n : ℕ) (idx : List ℕ)
    → get_or idx 1 0 ≢ 0
    → ((i : ℕ) → get_or idx (suc (suc i)) 0 ≡ 0)
    → top_slot (suc (suc n)) idx ≡ (1, get_or idx 1 0)
unfolding top_slot
top_slot-one zero idx k h = ground arith
top_slot-one (suc n) idx k h = rw (h n) (top_slot-one n idx k h)

module _ {F : Type 0} where
  abbrev pub AtZero : List (LevelWheel F) → Type 0
  AtZero [] = Unit
  AtZero (w ∷ ws) = (w.cur_pos ≡ 0) × AtZero ws

  slot_indices-AtZero :
      (n i : ℕ) (ws : List (LevelWheel F)) → AtZero ws → get_or (slot_indices n ws 0) i 0 ≡ 0
  unfolding slot_indices
  slot_indices-AtZero zero zero ws a = refl
  slot_indices-AtZero zero (suc i) ws a = refl
  slot_indices-AtZero (suc n) i [] a = get_or-replicate (suc (suc n)) i 0
  slot_indices-AtZero (suc n) zero (w ∷ ws) a = omega (arith, a.0)
  slot_indices-AtZero (suc n) (suc i) (w ∷ ws) a = slot_indices-AtZero n i ws a.1

  -- A delay below 256 ticks, and every wheel above the lowest at zero: the slot so many places on.
  pub place_low :
      (w : LevelWheel F) (ws : List (LevelWheel F)) (tc : ℕ)
      → AtZero ws
      → tc < 256
      → top_slot 7 (slot_indices 6 (w ∷ ws) tc) ≡ (0, (w.cur_pos + tc) % 256)
  unfolding slot_indices
  place_low w ws tc a h =
      let none_left : tc / 256 ≡ 0 = omega arith in
      top_slot-zero 6 ((w.cur_pos + tc % 256) % 256 ∷ slot_indices 5 ws (tc / 256))
        (λ i. rw none_left (slot_indices-AtZero 5 i ws a))
      ∙ ap (λ (k : ℕ). (0, k)) (omega arith)

  -- The same delay with the second wheel away from zero: the slot where that wheel stands.
  pub place_one :
      (w w1 : LevelWheel F) (ws : List (LevelWheel F)) (tc : ℕ)
      → AtZero ws
      → tc < 256
      → w1.cur_pos < 256
      → w1.cur_pos ≢ 0
      → top_slot 7 (slot_indices 6 (w ∷ w1 ∷ ws) tc) ≡ (1, w1.cur_pos)
  unfolding slot_indices
  place_one w w1 ws tc a h b k =
      let none_left : tc / 256 / 256 ≡ 0 = omega arith in
      let at : (w1.cur_pos + tc / 256 % 256) % 256 ≡ w1.cur_pos = omega arith in
      top_slot-one 5 (slot_indices 6 (w ∷ w1 ∷ ws) tc) (omega arith)
        (λ i. rw none_left (slot_indices-AtZero 4 i ws a))
      ∙ ap (λ (k : ℕ). (1, k)) at

  add_job-eq :
      (tw : TimingWheel F) (level slot : ℕ) (job : Job F)
      → IsValid tw
      → level < level_cnt
      → slot < 256
      → add_job tw level slot job ≡ (
        record tw {
          wheels =
              set tw.wheels level
                (level_add_job (get_or tw.wheels level new_level_wheel) slot job).0;
        },
        none,
      )
  unfolding add_job
  add_job-eq tw level slot job v l s =
      let e : leb (length tw.wheels) level ≡ false = ground (arith, v.all_levels) in
      let e' : leb 256 slot ≡ false = ground arith in rw (e, e')

  level_add_job-slot_self :
      (p : Job F → Bool) (w : LevelWheel F) (slot : ℕ) (job : Job F)
      → LevelFits w
      → slot < 256
      → count p (get_or (level_add_job w slot job).0.slots slot [])
        ≡ count p (get_or w.slots slot []) + count p (job ∷ [])
  unfolding level_add_job
  level_add_job-slot_self p w slot job f s =
      let e' : leb 256 slot ≡ false = ground arith in
      rw e' (
        ap (count p) (
          get_or-set_self w.slots slot (get_or w.slots slot [] ++ job ∷ []) []
            (omega (arith, f.slots_full)))
        ∙ count-append p (get_or w.slots slot []) (job ∷ []))

  -- The slot of the level that is written gains the job.
  add_job-slot :
      (p : Job F → Bool) (tw : TimingWheel F) (level slot : ℕ) (job : Job F)
      → IsValid tw
      → level < level_cnt
      → slot < 256
      → count p
          (get_or (get_or (add_job tw level slot job).0.wheels level new_level_wheel).slots slot [])
        ≡ count p (get_or (get_or tw.wheels level new_level_wheel).slots slot [])
          + count p (job ∷ [])
  add_job-slot p tw level slot job v l s =
      let w = get_or tw.wheels level new_level_wheel in
      rw (add_job-eq tw level slot job v l s) (
        rw
          (get_or-set_self tw.wheels level (level_add_job w slot job).0 new_level_wheel
            (omega (arith, v.all_levels)))
          (level_add_job-slot_self p w slot job (get_or-LevelFits tw.wheels level v.wheels_fit) s))

  -- Where `AddFunc` finds level and slot, there the callback waits, and the positions are as before.
  pub add_func-slot :
      (q : F → Bool) (tw : TimingWheel F) (delay : ℤ) (f : F) (now level slot : ℕ)
      → IsValid tw
      → tick_count delay tw.tick_dur < 256
      → top_slot 7 (slot_indices 6 tw.wheels (tick_count delay tw.tick_dur)) ≡ (level, slot)
      → level < level_cnt
      → slot < 256
      → q f ≡ true
      → 0
        < count
            (λ j. q j.callback)
            (get_or (get_or (add_func tw delay f now).0.wheels level new_level_wheel).slots slot [])
  unfolding add_func
  add_func-slot q tw delay f now level slot v small at l s yes_q =
      let tc = tick_count delay tw.tick_dur in
      let in_range : ltb (2 ^ 56) tc ≡ false = ground arith in
      let job : Job F = record {
        level_slot_idx = slot_indices 6 tw.wheels tc;
        callback = f;
        create_time = now;
      } in
      let counted : count (λ (j : Job F). q j.callback) (job ∷ []) ≡ 1 = rw yes_q refl in
      rw (in_range, at)
        (omega (arith, add_job-slot (λ j. q j.callback) tw level slot job v l s, counted))

  level_add_job-cur_pos :
      (w : LevelWheel F) (i : ℕ) (j : Job F) → (level_add_job w i j).0.cur_pos ≡ w.cur_pos
  unfolding level_add_job
  level_add_job-cur_pos w i j = ground arith

  abbrev pub cur_pos_at : List (LevelWheel F) → ℕ → ℕ
  cur_pos_at ws i = (get_or ws i new_level_wheel).cur_pos

  set-cur_pos :
      (ws : List (LevelWheel F)) (k i : ℕ) (w : LevelWheel F)
      → w.cur_pos ≡ cur_pos_at ws k
      → cur_pos_at (set ws k w) i ≡ cur_pos_at ws i
  set-cur_pos [] k i w e = refl
  set-cur_pos (x ∷ ws) zero zero w e = e
  set-cur_pos (x ∷ ws) zero (suc i) w e = refl
  set-cur_pos (x ∷ ws) (suc k) zero w e = refl
  set-cur_pos (x ∷ ws) (suc k) (suc i) w e = set-cur_pos ws k i w e

  add_job-cur_pos :
      (tw : TimingWheel F) (level slot : ℕ) (job : Job F) (i : ℕ)
      → cur_pos_at (add_job tw level slot job).0.wheels i ≡ cur_pos_at tw.wheels i
  unfolding add_job
  add_job-cur_pos tw level slot job i = elim (Bool-cases (leb (length tw.wheels) level)) [
    | inl e ↦ rw e refl
    | inr e ↦ elim (Bool-cases (leb 256 slot)) [
      | inl e' ↦ rw (e, e') refl
      | inr e' ↦
          rw (e, e')
            (set-cur_pos tw.wheels level i _
              (level_add_job-cur_pos (get_or tw.wheels level new_level_wheel) slot job))
    ]
  ]

  -- `AddFunc` moves no wheel.
  pub add_func-cur_pos :
      (tw : TimingWheel F) (delay : ℤ) (f : F) (now i : ℕ)
      → cur_pos_at (add_func tw delay f now).0.wheels i ≡ cur_pos_at tw.wheels i
  unfolding add_func
  add_func-cur_pos tw delay f now i =
      elim (Bool-cases (ltb (2 ^ 56) (tick_count delay tw.tick_dur))) [
        | inl e ↦ rw e refl
        | inr e ↦ rw e (add_job-cur_pos tw _ _ _ i)
      ]
