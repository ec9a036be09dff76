-- ===== src/Fserver/Delays/Sent.antt =====
-- fserver/server.go with timer/timer.go: what the goroutine of a call sends to TimeChan.
use my_cluster.Common.{
  ℕ, ◌+◌, ◌-◌, ◌*◌, ◌≤◌, ◌<◌, ◌≡◌, refl, ap, sym, subst, ◌∙◌, true, false, List, [], ◌∷◌, ◌++◌,
  Option, none, some, ltb, if◌then◌else◌, lookup, insert, nat_eq, lookup-insert, beq, Bool-cases,
  inl, inr, arith, some_inj, Option-cases, ◌⊎◌, eq_of_beq, beq_refl,
}
use my_cluster.Fserver.Delays.{
  Timer, Repeat, once, loops, Sleeper, Delays, new_timer, go, call_later, call_loop, call_at,
  after_send, ended, send_timer, runs,
}
use my_cluster.Fserver.Delays.Waits.{
  Event, later, looped, at_time, passes, ran, Few, delay_step, delay_run, AllInTime,
  delay_step-AllInTime, no_delays, no_delays-AllInTime,
}

module _ {F : Type 0} where
  -- How often the timer of a goroutine was sent.
  abbrev pub times_sent : ℕ → List (ℕ × Timer F) → ℕ
  times_sent id [] = 0
  times_sent id (x ∷ xs) = (if beq x.0 id then 1 else 0) + times_sent id xs

  times_sent-append :
      (id : ℕ) (xs : List (ℕ × Timer F)) (x : ℕ × Timer F)
      → times_sent id (xs ++ x ∷ []) ≡ times_sent id xs + (if beq x.0 id then 1 else 0)
  times_sent-append id [] x = omega arith
  times_sent-append id (y ∷ xs) x =
      ap (λ (n : ℕ). (if beq y.0 id then 1 else 0) + n) (times_sent-append id xs x) ∙ omega arith

  abbrev sent_of : Option (Sleeper F) → ℕ
  sent_of none = 0
  sent_of (some g) = g.sent

  -- What a call gave to its goroutine, and when.
  abbrev origin : Option (Sleeper F) → Option (Repeat × Timer F × ℕ)
  origin none = none
  origin (some g) = some (g.repeat, g.timer, g.made)

  after_send-origin :
      (now : ℕ) (r : Repeat) (g : Sleeper F) → origin (some (after_send now r g)) ≡ origin (some g)
  unfolding after_send
  after_send-origin now once g = refl
  after_send-origin now loops g = refl

  after_send-sent : (now : ℕ) (r : Repeat) (g : Sleeper F) → (after_send now r g).sent ≡ g.sent + 1
  unfolding after_send
  after_send-sent now once g = refl
  after_send-sent now loops g = refl

  insert_same :
      (k j : ℕ) (g : Sleeper F) (m : List (ℕ × Sleeper F))
      → beq k j ≡ true
      → lookup j (insert k g m) ≡ some g
  insert_same k j g m e = lookup-insert k j g m ∙ rw e refl

  insert_ne :
      (k j : ℕ) (g : Sleeper F) (m : List (ℕ × Sleeper F))
      → beq k j ≡ false
      → lookup j (insert k g m) ≡ lookup j m
  insert_ne k j g m e = lookup-insert k j g m ∙ rw e refl

  -- What a goroutine does when it runs.
  abbrev sends : ℕ → Sleeper F → Delays F → Delays F
  sends id g s = record s {
    sleepers = insert id (after_send s.now g.repeat g) s.sleepers;
    time_chan = s.time_chan ++ (id, g.timer) ∷ [];
  }

  runs-cases :
      (id : ℕ) (s : Delays F)
      → (runs id s ≡ s)
        ⊎ ((g : Sleeper F) × (lookup id s.sleepers ≡ some g) × (runs id s ≡ sends id g s))
  unfolding runs send_timer
  runs-cases id s = elim (Option-cases (lookup id s.sleepers)) [
    | inl e ↦ inl (rw e refl)
    | inr (g, e) ↦ elim (Bool-cases (ltb s.now g.wakes_at)) [
      | inl asleep ↦ inl (rw (e, asleep) refl)
      | inr awake ↦ elim (Bool-cases (ended g.repeat g.sent)) [
        | inl over ↦ inl (rw (e, awake, over) refl)
        | inr more ↦ inr (g, e, rw (e, awake, more) refl)
      ]
    ]
  ]

  -- The counters are how often the timers stand in TimeChan, and numbers are given once.
  record Counted (s : Delays F) : Type 0 where
    counts : (id : ℕ) → times_sent id s.time_chan ≡ sent_of (lookup id s.sleepers)
    unused : (id : ℕ) → s.next ≤ id → lookup id s.sleepers ≡ none

  go-Counted :
      (repeat : Repeat) (timer : Timer F) (s : Delays F) → Counted s → Counted (go repeat timer s)
  go-Counted repeat timer s v = record {
    counts = λ id. elim (Bool-cases (beq s.next id)) [
      | inl same ↦
          v.counts id
          ∙ ap sent_of (v.unused id (ground (arith, eq_of_beq s.next id same)))
          ∙ ap sent_of (sym (insert_same s.next id _ s.sleepers same))
      | inr other ↦ v.counts id ∙ ap sent_of (sym (insert_ne s.next id _ s.sleepers other))
    ];
    unused = λ id h.
        let other : beq s.next id ≡ false = ground (arith, h) in
        lookup-insert s.next id _ s.sleepers ∙ rw other (v.unused id (omega (arith, h)));
  }

  no_sleeper {ℓ} : {P : Type ℓ} (g : Sleeper F) → none ≡ some g → P
  no_sleeper g e = cc

  sends-Counted :
      (id : ℕ) (g : Sleeper F) (s : Delays F)
      → lookup id s.sleepers ≡ some g
      → Counted s
      → Counted (sends id g s)
  sends-Counted id g s e v = record {
    counts = λ k. times_sent-append k s.time_chan (id, g.timer) ∙ elim (Bool-cases (beq id k)) [
      | inl same ↦
          let here : lookup k s.sleepers ≡ some g =
            ap (λ j. lookup j s.sleepers) (sym (eq_of_beq id k same)) ∙ e in
          rw same (
            ap (λ (n : ℕ). n + 1) (v.counts k ∙ ap sent_of here)
            ∙ sym (after_send-sent s.now g.repeat g))
          ∙ ap sent_of (sym (insert_same id k _ s.sleepers same))
      | inr other ↦
          rw other (omega arith) ∙ v.counts k ∙ ap sent_of (sym (insert_ne id k _ s.sleepers other))
    ];
    unused = λ k h. elim (Bool-cases (beq id k)) [
      | inl same ↦
          no_sleeper g
            (sym (v.unused k h) ∙ ap (λ j. lookup j s.sleepers) (sym (eq_of_beq id k same)) ∙ e)
      | inr other ↦ lookup-insert id k _ s.sleepers ∙ rw other (v.unused k h)
    ];
  }

  -- A goroutine that was made keeps what its call gave it.
  Keeps : ℕ → Delays F → Delays F → Type 0
  Keeps id s s' =
      (origin (lookup id s'.sleepers) ≡ origin (lookup id s.sleepers)) × (s.next ≤ s'.next)

  go-Keeps :
      (id : ℕ) (repeat : Repeat) (timer : Timer F) (s : Delays F)
      → id < s.next
      → Keeps id s (go repeat timer s)
  unfolding Keeps
  go-Keeps id repeat timer s h =
      let other : beq s.next id ≡ false = ground (arith, h) in
      (ap origin (insert_ne s.next id _ s.sleepers other), omega arith)

  sends-Keeps :
      (id k : ℕ) (g : Sleeper F) (s : Delays F)
      → lookup k s.sleepers ≡ some g
      → Keeps id s (sends k g s)
  unfolding Keeps
  sends-Keeps id k g s e = elim (Bool-cases (beq k id)) [
    | inl same ↦ (
      ap origin (insert_same k id _ s.sleepers same)
          ∙ after_send-origin s.now g.repeat g
          ∙ ap origin (sym e ∙ ap (λ j. lookup j s.sleepers) (eq_of_beq k id same)),
      omega arith,
    )
    | inr other ↦ (ap origin (insert_ne k id _ s.sleepers other), omega arith)
  ]

  delay_step-Counted : (e : Event F) (s : Delays F) → Counted s → Counted (delay_step e s)
  unfolding delay_step call_later call_loop call_at new_timer
  delay_step-Counted (later d f) s v = go-Counted once (new_timer d f) s v
  delay_step-Counted (looped d f) s v = go-Counted loops (new_timer d f) s v
  delay_step-Counted (at_time none f) s v = v
  delay_step-Counted (at_time (some t) f) s v = elim (Bool-cases (ltb s.now t)) [
    | inl ahead ↦ rw ahead (go-Counted once (new_timer (t - s.now) f) s v)
    | inr past ↦ rw past v
  ]
  delay_step-Counted (passes n) s v = record { counts = v.counts; unused = v.unused }
  delay_step-Counted (ran id) s v = elim (runs-cases id s) [
    | inl e ↦ subst Counted (sym e) v
    | inr (g, found, e) ↦ subst Counted (sym e) (sends-Counted id g s found v)
  ]

  delay_step-Keeps :
      (id : ℕ) (e : Event F) (s : Delays F) → id < s.next → Keeps id s (delay_step e s)
  unfolding delay_step call_later call_loop call_at new_timer Keeps
  delay_step-Keeps id (later d f) s h = go-Keeps id once (new_timer d f) s h
  delay_step-Keeps id (looped d f) s h = go-Keeps id loops (new_timer d f) s h
  delay_step-Keeps id (at_time none f) s h = (refl, omega arith)
  delay_step-Keeps id (at_time (some t) f) s h = elim (Bool-cases (ltb s.now t)) [
    | inl ahead ↦ rw ahead (go-Keeps id once (new_timer (t - s.now) f) s h)
    | inr past ↦ rw past (refl, omega arith)
  ]
  delay_step-Keeps id (passes n) s h = (refl, omega arith)
  delay_step-Keeps id (ran k) s h = elim (runs-cases k s) [
    | inl e ↦ subst (Keeps id s) (sym e) (refl, omega arith)
    | inr (g, found, e) ↦ subst (Keeps id s) (sym e) (sends-Keeps id k g s found)
  ]

  delay_run-Counted : (es : List (Event F)) (s : Delays F) → Counted s → Counted (delay_run es s)
  delay_run-Counted [] s v = v
  delay_run-Counted (e ∷ es) s v = delay_run-Counted es (delay_step e s) (delay_step-Counted e s v)

  delay_run-Keeps :
      (id : ℕ) (es : List (Event F)) (s : Delays F) → id < s.next → Keeps id s (delay_run es s)
  unfolding Keeps
  delay_run-Keeps id [] s h = (refl, omega arith)
  delay_run-Keeps id (e ∷ es) s h =
      let (same, more) = delay_step-Keeps id e s h in
      let (same', more') = delay_run-Keeps id es (delay_step e s) (omega (arith, h, more)) in
      (same' ∙ same, omega (arith, more, more'))

  -- `CallLater` or `CallLoop`.
  abbrev pub delayed : Repeat → ℕ → F → Event F
  delayed once d f = later d f
  delayed loops d f = looped d f

  made_by :
      (r : Repeat) (d : ℕ) (f : F) (s : Delays F)
      → (origin (lookup s.next (delay_step (delayed r d f) s).sleepers)
          ≡ some (r, record { durations = d; delay_call = f }, s.now))
        × (s.next < (delay_step (delayed r d f) s).next)
  unfolding delay_step call_later call_loop new_timer
  made_by once d f s =
      (ap origin (insert_same s.next s.next _ s.sleepers (beq_refl s.next)), omega arith)
  made_by loops d f s =
      (ap origin (insert_same s.next s.next _ s.sleepers (beq_refl s.next)), omega arith)

  in_time :
      (r : Repeat) (d : ℕ) (f : F) (made id : ℕ) (s : Delays F) (o : Option (Sleeper F))
      → lookup id s.sleepers ≡ o
      → AllInTime s
      → origin o ≡ some (r, record { durations = d; delay_call = f }, made)
      → Few r (sent_of o) × (made + sent_of o * d ≤ s.now)
  in_time r d f made id s none e v h = no_origin h
    where
      no_origin : {P : Type 0} {x : Repeat × Timer F × ℕ} → none ≡ some x → P
      no_origin h' = cc
  in_time r d f made id s (some g) e v h =
      let same = some_inj (g.repeat, g.timer, g.made) _ h in
      let w = v id g e in
      (
        subst (λ k. Few k g.sent) (ap (λ (x : Repeat × Timer F × ℕ). x.0) same) w.few,
        subst (λ (x : Repeat × Timer F × ℕ). x.2 + g.sent * x.1.durations ≤ s.now) same w.not_early,
      )

  start_Counted : Counted no_delays
  unfolding lookup
  start_Counted = record { counts = λ id. refl; unused = λ id h. refl }

  run-AllInTime : (es : List (Event F)) (s : Delays F) → AllInTime s → AllInTime (delay_run es s)
  run-AllInTime [] s v = v
  run-AllInTime (e ∷ es) s v = run-AllInTime es (delay_step e s) (delay_step-AllInTime e s v)

  -- A call of CallLater or CallLoop with a duration, after any calls of CallLater, CallLoop and
  -- CallWhen in any order with time that passes and goroutines that run, and any more of them
  -- afterwards: the timer of the call stands in TimeChan at most once if it was CallLater, and its
  -- number there times the duration is at most the time since the call.
  pub delay_run-not_early :
      (before after : List (Event F)) (r : Repeat) (d : ℕ) (f : F)
      → let s = delay_run before no_delays in
        let s' = delay_run after (delay_step (delayed r d f) s) in
        Few r (times_sent s.next s'.time_chan)
        × (s.now + times_sent s.next s'.time_chan * d ≤ s'.now)
  unfolding Keeps
  delay_run-not_early before after r d f =
      let s = delay_run before no_delays in
      let s1 = delay_step (delayed r d f) s in
      let s' = delay_run after s1 in
      let counted =
        delay_run-Counted after s1 (
          delay_step-Counted (delayed r d f) s
            (delay_run-Counted before no_delays start_Counted)) in
      let (made, older) = made_by r d f s in
      let (kept, _) = delay_run-Keeps s.next after s1 older in
      let timely = run-AllInTime after s1 (
        delay_step-AllInTime (delayed r d f) s
          (run-AllInTime before no_delays no_delays-AllInTime)) in
      subst (λ (n : ℕ). Few r n × (s.now + n * d ≤ s'.now)) (sym (counted.counts s.next))
        (in_time r d f s.now s.next s' (lookup s.next s'.sleepers) refl timely (kept ∙ made))
