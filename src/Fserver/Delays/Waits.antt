-- ===== src/Fserver/Delays/Waits.antt =====
-- fserver/server.go with timer/timer.go: no call is too early, and none too often.
use my_cluster.Common.{
  ℕ, suc, ◌+◌, ◌-◌, ◌*◌, ◌≤◌, ◌≡◌, refl, ap, sym, subst, ◌∙◌, false, List, [], ◌∷◌, Option, none,
  some, ltb, lookup, insert, nat_eq, lookup-insert, beq, Bool-cases, inl, inr, arith, some_inj,
  Option-cases,
}
use my_cluster.Fserver.Delays.{
  Timer, Repeat, once, loops, Sleeper, Delays, new_timer, go, call_later, call_loop, call_at,
  after_send, ended, send_timer, runs,
}

pub data Event (F : Type 0) : Type 0 where
  later looped : ℕ → F → Event F
  at_time : Option ℕ → F → Event F
  passes : ℕ → Event F
  ran : ℕ → Event F

-- At most once for a call that is not a loop.
abbrev pub Few : Repeat → ℕ → Type 0
Few once sent = sent ≤ 1
Few loops sent = Unit

times_suc : (n d : ℕ) → suc n * d ≡ n * d + d
times_suc n d = grind arith

module _ {F : Type 0} where
  unfoldable pub delay_step : Event F → Delays F → Delays F
  delay_step (later d f) s = call_later d f s
  delay_step (looped d f) s = call_loop d f s
  delay_step (at_time t f) s = call_at t f s
  delay_step (passes n) s = record s { now = s.now + n }
  delay_step (ran id) s = runs id s

  abbrev pub delay_run : List (Event F) → Delays F → Delays F
  delay_run [] s = s
  delay_run (e ∷ es) s = delay_run es (delay_step e s)

  -- Each time was sent at least the duration after the one before, and the end of the sleep is
  -- another duration later.
  pub record InTime (now : ℕ) (g : Sleeper F) : Type 0 where
    pub few : Few g.repeat g.sent
    pub not_early : g.made + g.sent * g.timer.durations ≤ now
    pub asleep :
        ended g.repeat g.sent ≡ false → g.made + suc g.sent * g.timer.durations ≤ g.wakes_at

  abbrev pub AllInTime : Delays F → Type 0
  AllInTime s = (id : ℕ) (g : Sleeper F) → lookup id s.sleepers ≡ some g → InTime s.now g

  InTime-later : (n now : ℕ) (g : Sleeper F) → InTime now g → InTime (now + n) g
  InTime-later n now g v = record {
    few = v.few;
    not_early = omega (arith, v.not_early);
    asleep = v.asleep;
  }

  insert-AllInTime :
      (id : ℕ) (g : Sleeper F) (s : Delays F) (sleepers' : List (ℕ × Sleeper F))
      → AllInTime s
      → InTime s.now g
      → (id' : ℕ) (g' : Sleeper F) → lookup id' (insert id g s.sleepers) ≡ some g'
      → InTime s.now g'
  insert-AllInTime id g s sleepers' v w id' g' e = elim (Bool-cases (beq id id')) [
    | inl same ↦
        subst (InTime s.now)
          (some_inj g g' (sym (lookup-insert id id' g s.sleepers ∙ rw same refl) ∙ e)) w
    | inr other ↦ v id' g' (sym (lookup-insert id id' g s.sleepers ∙ rw other refl) ∙ e)
  ]

  go-AllInTime :
      (repeat : Repeat) (timer : Timer F) (s : Delays F)
      → AllInTime s
      → AllInTime (go repeat timer s)
  go-AllInTime once timer s v =
      insert-AllInTime s.next _ s s.sleepers v
        (record { few = omega arith; not_early = omega arith; asleep = λ e. omega arith })
  go-AllInTime loops timer s v =
      insert-AllInTime s.next _ s s.sleepers v
        (record { few = tt; not_early = omega arith; asleep = λ e. omega arith })

  after_send-InTime :
      (g : Sleeper F) (now : ℕ) (r : Repeat)
      → r ≡ g.repeat
      → InTime now g
      → ltb now g.wakes_at ≡ false
      → ended r g.sent ≡ false
      → InTime now (after_send now r g)
  unfolding after_send
  after_send-InTime g now once e v awake open_end =
      let first : g.sent ≡ 0 = ground arith in
      let reached = v.asleep (subst (λ k. ended k g.sent ≡ false) e open_end) in
      let woken : g.wakes_at ≤ now = ground (arith, awake) in
      let plus : (g.sent + 1) * g.timer.durations ≡ suc g.sent * g.timer.durations =
        ap (λ (k : ℕ). k * g.timer.durations) (omega arith) in
      record {
        few = subst (λ k. Few k (g.sent + 1)) e (omega arith);
        not_early = omega (arith, reached, woken, plus);
        asleep = λ h. absurd (still_open (subst (λ k. ended k (g.sent + 1) ≡ false) (sym e) h));
      }
    where
      still_open : ended once (g.sent + 1) ≡ false → ⊥
      still_open h = ground arith
  after_send-InTime g now loops e v awake open_end =
      let reached = v.asleep (subst (λ k. ended k g.sent ≡ false) e refl) in
      let woken : g.wakes_at ≤ now = ground (arith, awake) in
      let plus : (g.sent + 1) * g.timer.durations ≡ suc g.sent * g.timer.durations =
        ap (λ (k : ℕ). k * g.timer.durations) (omega arith) in
      record {
        few = subst (λ k. Few k (g.sent + 1)) e tt;
        not_early = omega (arith, reached, woken, plus);
        asleep = λ h. omega (arith, reached, woken, plus, times_suc (g.sent + 1) g.timer.durations);
      }

  runs-AllInTime : (id : ℕ) (s : Delays F) → AllInTime s → AllInTime (runs id s)
  unfolding runs send_timer
  runs-AllInTime id s v = elim (Option-cases (lookup id s.sleepers)) [
    | inl e ↦ rw e v
    | inr found ↦
        let (g, e) = found in
        rw e (elim (Bool-cases (ltb s.now g.wakes_at)) [
          | inl asleep ↦ rw asleep v
          | inr awake ↦ elim (Bool-cases (ended g.repeat g.sent)) [
            | inl over ↦ rw (awake, over) v
            | inr more ↦
                rw (awake, more)
                  (insert-AllInTime id (after_send s.now g.repeat g) s s.sleepers v
                    (after_send-InTime g s.now g.repeat refl (v id g e) awake more))
          ]
        ])
  ]

  pub delay_step-AllInTime : (e : Event F) (s : Delays F) → AllInTime s → AllInTime (delay_step e s)
  unfolding delay_step call_later call_loop call_at new_timer
  delay_step-AllInTime (later d f) s v = go-AllInTime once (new_timer d f) s v
  delay_step-AllInTime (looped d f) s v = go-AllInTime loops (new_timer d f) s v
  delay_step-AllInTime (at_time none f) s v = v
  delay_step-AllInTime (at_time (some t) f) s v = elim (Bool-cases (ltb s.now t)) [
    | inl ahead ↦ rw ahead (go-AllInTime once (new_timer (t - s.now) f) s v)
    | inr past ↦ rw past v
  ]
  delay_step-AllInTime (passes n) s v = λ id g e. InTime-later n s.now g (v id g e)
  delay_step-AllInTime (ran id) s v = runs-AllInTime id s v

  abbrev pub no_delays : Delays F
  no_delays = record { now = 0; sleepers = []; next = 0; time_chan = [] }

  pub no_delays-AllInTime : AllInTime no_delays
  unfolding lookup
  no_delays-AllInTime id g e = start e
    where
      start : {P : Type 0} {g' : Sleeper F} → none ≡ some g' → P
      start e' = cc
