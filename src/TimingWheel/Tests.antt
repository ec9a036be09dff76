-- ===== src/TimingWheel/Tests.antt =====
-- timer_256: tests of the timer, and its theorems on a small timer.
use my_cluster.Common.{
  ℕ, ◌+◌, ◌-◌, ◌<◌, ◌^◌, Bool, [], ◌∷◌, ◌≡◌, refl, arith, ltb, ◌==◌, if◌then◌else◌, replicate, pos,
  negsuc,
}
use my_cluster.TimingWheel.{
  LevelWheel, TimingWheel, new_level_wheel, add_func, tick, run, tick_count,
}
use my_cluster.TimingWheel.Counts.{LevelFits}
use my_cluster.TimingWheel.Ticks.{
  IsValid, waiting, started, AllFit-replicate, new_level_wheel-LevelFits,
}
use my_cluster.TimingWheel.History.{adds, ticks, history, accepted, history_lem}
use my_cluster.TimingWheel.Odometer.{clock, tick-clock}
use my_cluster.TimingWheel.Placement.{cur_pos_at}
use my_cluster.TimingWheel.OnTime.{UpperAtZero, starts_on_time}
use my_cluster.TimingWheel.Late.{AboveAtZero, starts_late}

-- A new timer with ticks of ten nanoseconds; its callbacks are numbers.
abbrev small : TimingWheel ℕ
small = record { tick_dur = 10; wheels = replicate 7 new_level_wheel }

small-IsValid : IsValid small
small-IsValid = record {
  dur_positive = omega arith;
  all_levels = refl;
  wheels_fit = AllFit-replicate ℕ 7;
}

-- The same after the second wheel has moved once.
abbrev moved_wheel : LevelWheel ℕ
moved_wheel = record new_level_wheel { cur_pos = 1 }

abbrev moved : TimingWheel ℕ
moved = record small { wheels = new_level_wheel ∷ moved_wheel ∷ replicate 5 new_level_wheel }

moved_wheel-LevelFits : LevelFits moved_wheel
moved_wheel-LevelFits =
    let f = new_level_wheel-LevelFits ℕ in
    record { pos_fits = omega arith; slots_full = f.slots_full; jobs_fit = f.jobs_fit }

moved-IsValid : IsValid moved
moved-IsValid = record {
  dur_positive = omega arith;
  all_levels = refl;
  wheels_fit = (new_level_wheel-LevelFits ℕ, (moved_wheel-LevelFits, AllFit-replicate ℕ 5));
}

abbrev is_seven : ℕ → Bool
is_seven f = f == 7

small-empty : waiting is_seven small ≡ 0
unfolding new_level_wheel
small-empty = refl

moved-empty : waiting is_seven moved ≡ 0
unfolding new_level_wheel
moved-empty = refl

small-UpperAtZero : UpperAtZero small.wheels
unfolding new_level_wheel
small-UpperAtZero = (refl, (refl, (refl, (refl, (refl, (refl, tt))))))

moved-AboveAtZero : AboveAtZero moved.wheels
unfolding new_level_wheel
moved-AboveAtZero = (refl, (refl, (refl, (refl, (refl, tt)))))

moved-before : cur_pos_at moved.wheels 0 + 255 < 65536
unfolding new_level_wheel
moved-before = omega arith

counts : tick_count (pos 35) 10 ≡ 3
unfolding tick_count
counts = refl

-- Delays are cut to ticks, and a negative one wraps to a great one.
counts_negative : tick_count (negsuc 34) 10 ≡ 2 ^ 64 - 3
unfolding tick_count
counts_negative = refl

history_lem_example :
    let r = history small (adds (pos 35) 7 100 ∷ ticks ∷ adds (pos 0) 8 101 ∷ ticks ∷ []) in
    IsValid r.0
    × ((q : ℕ → Bool)
        → waiting q r.0 + started q r.1
          ≡ waiting q small
            + accepted q 10 (adds (pos 35) 7 100 ∷ ticks ∷ adds (pos 0) 8 101 ∷ ticks ∷ []))
history_lem_example =
    history_lem small (adds (pos 35) 7 100 ∷ ticks ∷ adds (pos 0) 8 101 ∷ ticks ∷ []) small-IsValid

starts_on_time_example :
    started is_seven (run 3 (add_func small (pos 35) 7 100).0).1
    ≡ (if ltb 3 (tick_count (pos 35) 10) then 0 else 1)
starts_on_time_example =
    starts_on_time is_seven small (pos 35) 7 100 small-IsValid small-UpperAtZero
      (omega (arith, counts)) (omega (arith, counts)) refl small-empty 3

starts_late_example : started is_seven (run 255 (add_func moved (pos 35) 7 100).0).1 ≡ 0
starts_late_example =
    starts_late is_seven moved (pos 35) 7 100 255 moved-IsValid moved-AboveAtZero (omega arith)
      (omega (arith, counts)) refl moved-empty moved-before

tick-clock_example :
    clock (tick moved).0.wheels
    ≡ (if clock moved.wheels + 1 == 256 ^ 7 then 0 else clock moved.wheels + 1)
tick-clock_example = tick-clock moved moved-IsValid
