-- ===== src/TimingWheel.antt =====
-- timer_256/levelwheel.go and timer_256/timingwheel.go: a timer of seven wheels with 256 slots
-- each. A callback is a value of the type `F`; starting one (`go job.f()`) puts its job on the list
-- that `tick` returns. The mutex makes each call one step. A `uint8` is a number below 256.
pub mod Counts
pub mod Odometer
pub mod OnTime
pub mod Late
pub mod Placement
pub mod Slots
pub mod History
pub mod Ticks
mod Tests
use my_cluster.Common.{
  ℕ, zero, suc, ◌+◌, ◌-◌, ◌*◌, ◌/◌, ◌%◌, ◌^◌, Bool, true, false, not, ◌||◌, List, [], ◌∷◌, ◌++◌,
  Option, none, some, ltb, leb, ◌==◌, if◌then◌else◌, length, get_or, set, replicate, ℤ, pos, negsuc,
}

abbrev pub slot_cnt : ℕ
slot_cnt = 256

abbrev pub level_cnt : ℕ
level_cnt = 7

pub data WheelError : Type 0 where
  level_invalid slot_invalid tick_dur_invalid delay_overflow : WheelError

pub record Job (F : Type 0) : Type 0 where
  pub level_slot_idx : List ℕ
  pub callback : F
  pub create_time : ℕ

pub record LevelWheel (F : Type 0) : Type 0 where
  pub cur_pos : ℕ
  pub slots : List (List (Job F))

-- The channel `exit` only ends the loop that calls `tick`.
pub record TimingWheel (F : Type 0) : Type 0 where
  pub tick_dur : ℕ
  pub wheels : List (LevelWheel F)

-- `uint64(delay / tw.tickDur)`: the quotient is cut towards zero and then taken mod 2 ^ 64.
unfoldable pub tick_count : ℤ → ℕ → ℕ
tick_count (pos d) dur = d / dur
tick_count (negsuc d) dur = (2 ^ 64 - suc d / dur) % 2 ^ 64

-- The second loop, from level `i - 1` down: the highest level whose index is not zero.
unfoldable pub top_slot : ℕ → List ℕ → ℕ × ℕ
top_slot zero idx = (0, 0)
top_slot (suc i) idx = if get_or idx i 0 == 0 then top_slot i idx else (i, get_or idx i 0)

module _ {F : Type 0} where
  unfoldable pub new_level_wheel : LevelWheel F
  new_level_wheel = record { cur_pos = 0; slots = replicate slot_cnt [] }

  -- Callers convert the index from a `uint8`, so it is never negative.
  unfoldable pub level_add_job : LevelWheel F → ℕ → Job F → LevelWheel F × Option WheelError
  level_add_job lw slot_idx job = if leb slot_cnt slot_idx then (lw, some slot_invalid) else (
    record lw { slots = set lw.slots slot_idx (get_or lw.slots slot_idx [] ++ job ∷ []) },
    none,
  )

  -- The wheel with its current slot emptied, and the jobs that were started.
  unfoldable pub fire_events : LevelWheel F → LevelWheel F × List (Job F)
  fire_events lw = (record lw { slots = set lw.slots lw.cur_pos [] }, get_or lw.slots lw.cur_pos [])

  unfoldable pub new_timing_wheel : ℤ → Option (TimingWheel F)
  unfolding new_level_wheel
  new_timing_wheel (negsuc _) = none
  new_timing_wheel (pos tick_dur) =
      if tick_dur == 0
      then none
      else some (record { tick_dur = tick_dur; wheels = replicate level_cnt new_level_wheel })

  unfoldable pub add_job : TimingWheel F → ℕ → ℕ → Job F → TimingWheel F × Option WheelError
  add_job tw level slot_idx job =
      if leb (length tw.wheels) level
      then (tw, some level_invalid)
      else if leb slot_cnt slot_idx
      then (tw, some slot_invalid)
      else (
        record tw {
          wheels =
              set tw.wheels level
                (level_add_job (get_or tw.wheels level new_level_wheel) slot_idx job).0;
        },
        none,
      )

  -- The first loop of `AddFunc`, along the wheels. The last index of the slice keeps its zero.
  unfoldable pub slot_indices : ℕ → List (LevelWheel F) → ℕ → List ℕ
  slot_indices zero ws tc = 0 ∷ []
  slot_indices (suc n) [] tc = replicate (suc (suc n)) 0
  slot_indices (suc n) (w ∷ ws) tc = (w.cur_pos + tc % 256) % 256 ∷ slot_indices n ws (tc / 256)

  unfoldable pub add_func : TimingWheel F → ℤ → F → ℕ → TimingWheel F × Option WheelError
  add_func tw delay f now =
      let tc = tick_count delay tw.tick_dur in
      let idx = slot_indices (level_cnt - 1) tw.wheels tc in
      let (level, slot_idx) = top_slot level_cnt idx in
      if ltb (2 ^ (level_cnt * 8)) tc
      then (tw, some delay_overflow)
      else add_job tw level slot_idx
          (record { level_slot_idx = idx; callback = f; create_time = now })

  -- The inner loop of `tick`: the jobs of a slot of level `i + 1` go down to level `i`.
  unfoldable pub move_jobs : ℕ → LevelWheel F → List (Job F) → LevelWheel F
  move_jobs i lower [] = lower
  move_jobs i lower (job ∷ jobs) =
      move_jobs i (level_add_job lower (get_or job.level_slot_idx i 0) job).0 jobs

  -- `curPos++` on a `uint8`.
  unfoldable pub advance : LevelWheel F → LevelWheel F
  advance w = record w { cur_pos = (w.cur_pos + 1) % 256 }

  -- The outer loop of `tick` along the wheels: `lower` is wheel `i`, and the list holds the wheels
  -- from `i + 1` on, so the level that `addJob` is given always exists.
  unfoldable pub turn : ℕ → LevelWheel F → List (LevelWheel F) → List (LevelWheel F)
  turn i lower [] = lower ∷ []
  turn i lower (w ∷ ws) =
      let w' = advance w in
      let lower' = move_jobs i lower (get_or w'.slots w'.cur_pos []) in
      let emptied = record w' { slots = set w'.slots w'.cur_pos [] } in
      let rest = turn (i + 1) emptied ws in
      if w'.cur_pos == 0 then lower' ∷ rest else lower' ∷ emptied ∷ ws

  unfoldable pub tick_wheels : List (LevelWheel F) → List (LevelWheel F) × List (Job F)
  tick_wheels [] = ([], [])
  tick_wheels (w ∷ ws) =
      let (w', fired) = fire_events (advance w) in
      if w'.cur_pos == 0 then (turn 0 w' ws, fired) else (w' ∷ ws, fired)

  -- The wheel after a tick, and the jobs that the tick started.
  unfoldable pub tick : TimingWheel F → TimingWheel F × List (Job F)
  tick tw = let (ws, fired) = tick_wheels tw.wheels in (record tw { wheels = ws }, fired)

  -- The loop of `Run` over `n` ticks of its ticker before `exit` is closed: the timer after it, and
  -- the jobs that it started, the oldest first.
  unfoldable pub run : ℕ → TimingWheel F → TimingWheel F × List (Job F)
  run zero tw = (tw, [])
  run (suc n) tw =
      let (tw', first) = tick tw in let (last, later) = run n tw' in (last, first ++ later)
