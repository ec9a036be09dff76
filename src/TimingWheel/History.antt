-- ===== src/TimingWheel/History.antt =====
-- timer_256/timingwheel.go: any history of `AddFunc` calls and ticks.
use my_cluster.Common.{
  ℕ, ◌+◌, ◌^◌, Bool, true, List, [], ◌∷◌, ◌++◌, ◌≡◌, refl, ap, arith, ltb, if◌then◌else◌,
  count-append, ℤ, inl, inr,
}
use my_cluster.TimingWheel.{Job, TimingWheel, add_job, add_func, tick, tick_count}
use my_cluster.TimingWheel.Counts.{tick_wheels-AllFit, tick_wheels-count}
use my_cluster.TimingWheel.Slots.{tick_wheels-slot}
use my_cluster.TimingWheel.Ticks.{IsValid, waiting, started, add_func_lem}

-- What happens to a timer: a call of `AddFunc`, at a time, or a tick.
pub data Event (F : Type 0) : Type 0 where
  adds : ℤ → F → ℕ → Event F
  ticks : Event F

module _ {F : Type 0} where
  unfoldable pub step : TimingWheel F → Event F → TimingWheel F × List (Job F)
  step tw (adds delay f now) = ((add_func tw delay f now).0, [])
  step tw ticks = tick tw

  unfoldable pub history : TimingWheel F → List (Event F) → TimingWheel F × List (Job F)
  history tw [] = (tw, [])
  history tw (e ∷ es) =
      let (tw', first) = step tw e in let (last, later) = history tw' es in (last, first ++ later)

  -- The added callbacks that pass the test, less those refused for an overflow.
  abbrev pub accepted : (F → Bool) → ℕ → List (Event F) → ℕ
  accepted q dur [] = 0
  accepted q dur (adds delay f now ∷ es) =
      (if ltb (2 ^ 56) (tick_count delay dur) then 0 else if q f then 1 else 0) + accepted q dur es
  accepted q dur (ticks ∷ es) = accepted q dur es

  -- A tick keeps a timer valid, and every job waits after it or was started by it, once.
  pub tick_lem :
      (tw : TimingWheel F)
      → IsValid tw
      → IsValid (tick tw).0
        × ((q : F → Bool) → waiting q (tick tw).0 + started q (tick tw).1 ≡ waiting q tw)
        × ((tick tw).0.tick_dur ≡ tw.tick_dur)
  unfolding tick
  tick_lem tw v = (
    record {
      dur_positive = v.dur_positive;
      all_levels = omega (
        arith,
        v.all_levels,
        (tick_wheels-slot (λ j. true) 0 tw.wheels (omega (arith, v.all_levels))).3,
      );
      wheels_fit = tick_wheels-AllFit tw.wheels v.wheels_fit;
    },
    (λ q. tick_wheels-count (λ j. q j.callback) tw.wheels v.wheels_fit),
    refl,
  )

  add_func-tick_dur :
      (tw : TimingWheel F) (delay : ℤ) (f : F) (now : ℕ)
      → (add_func tw delay f now).0.tick_dur ≡ tw.tick_dur
  unfolding add_func add_job
  add_func-tick_dur tw delay f now = ground arith

  step_lem :
      (tw : TimingWheel F) (e : Event F)
      → IsValid tw
      → IsValid (step tw e).0
        × ((q : F → Bool)
            → waiting q (step tw e).0 + started q (step tw e).1
              ≡ waiting q tw + accepted q tw.tick_dur (e ∷ []))
        × ((step tw e).0.tick_dur ≡ tw.tick_dur)
  unfolding step
  step_lem tw ticks v = let t = tick_lem tw v in (t.0, (λ q. omega (arith, t.1 q)), t.2)
  step_lem tw (adds delay f now) v = elim (add_func_lem tw delay f now v) [
    | inl (late, e) ↦ rw e (v, (λ q. ground arith), refl)
    | inr (fits, e, v', c) ↦ (v', (λ q. ground (arith, c q)), add_func-tick_dur tw delay f now)
  ]

  accepted-cons :
      (q : F → Bool) (dur : ℕ) (e : Event F) (es : List (Event F))
      → accepted q dur (e ∷ es) ≡ accepted q dur (e ∷ []) + accepted q dur es
  accepted-cons q dur (adds delay f now) es = omega arith
  accepted-cons q dur ticks es = omega arith

  -- Over any history of a valid timer, each job that waited at first or was accepted since either
  -- still waits or was started, once: the counts agree for every test on the callbacks, and the
  -- timer is valid in the end.
  pub history_lem :
      (tw : TimingWheel F) (es : List (Event F))
      → IsValid tw
      → IsValid (history tw es).0
        × ((q : F → Bool)
            → waiting q (history tw es).0 + started q (history tw es).1
              ≡ waiting q tw + accepted q tw.tick_dur es)
  unfolding history
  history_lem tw [] v = (v, λ q. omega arith)
  history_lem tw (e ∷ es) v =
      let one = step_lem tw e v in
      let rest = history_lem (step tw e).0 es one.0 in
      (
        rest.0,
        λ q. omega (
          arith,
          one.1 q,
          rest.1 q,
          accepted-cons q tw.tick_dur e es,
          count-append (λ (j : Job F). q j.callback) (step tw e).1 (history (step tw e).0 es).1,
          ap (λ (d : ℕ). accepted q d es) one.2,
        ),
      )
