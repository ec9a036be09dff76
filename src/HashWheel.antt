-- ===== src/HashWheel.antt =====
-- timer/hashwheel.go and timer/safetimer.go: the timer of hours, minutes and seconds. The wheels that
-- follow one another are a list, the leaf last. Times are milliseconds; the clock is read at the
-- start of a call and does not move within it. The locks make each call one step.
pub mod Adds
pub mod Turns
mod Tests
use my_cluster.Common.{
  ℕ, zero, suc, ◌+◌, ◌*◌, ◌%◌, ◌^◌, Bool, true, false, ◌&&◌, ◌||◌, List, [], ◌∷◌, ◌++◌, Option,
  none, some, if◌then◌else◌, leb, ltb, ◌==◌, get_or, set, replicate, length, lookup, insert, delete,
  nat_eq, has_key, ℤ, pos, negsuc,
}

pub record SafeTimer (C : Type 0) : Type 0 where
  pub delay_call : C
  pub unixts : ℕ
  pub interval : ℕ
  pub tid : ℕ

abbrev pub Slot : Type 0 → Type 0
Slot C = List (ℕ × SafeTimer C)

-- `timerQueue` has a map for each number below `level`.
pub record Wheel (C : Type 0) : Type 0 where
  pub index : ℕ
  pub level : ℕ
  pub level_interval : ℕ
  pub timer_queue : List (Slot C)

-- The chain of the wheels, and the id that was given last.
pub record Scheduel (C : Type 0) : Type 0 where
  pub hashwheel : List (Wheel C)
  pub id_gen : ℕ

-- The loop of `_add2WheelChain`, from `n - 1` down.
unfoldable pub find_slot : ℕ → ℕ → ℕ → ℕ → Option ℕ
find_slot interval now unixts zero = none
find_slot interval now unixts (suc i) =
    if leb (now + i * interval) unixts then some i else find_slot interval now unixts i

module _ {C : Type 0} where
  unfoldable pub reset_unixts : ℕ → SafeTimer C → SafeTimer C
  reset_unixts now t = record t { unixts = now + t.interval }

  unfoldable pub new_safe_timer : ℕ → ℤ → Bool → C → SafeTimer C
  new_safe_timer now (negsuc d) loop call = record {
    delay_call = call;
    unixts = now;
    interval = 0;
    tid = 0;
  }
  new_safe_timer now (pos d) loop call = record {
    delay_call = call;
    unixts = now + d;
    interval = if loop then d else 0;
    tid = 0;
  }

  unfoldable pub new_hash_wheel : ℕ → ℕ → Wheel C
  new_hash_wheel level interval = record {
    index = 0;
    level = level;
    level_interval = interval;
    timer_queue = replicate level [];
  }

  unfoldable pub put : ℕ → ℕ → SafeTimer C → Wheel C → Wheel C
  put i tid t w = record w {
    timer_queue = set w.timer_queue i (insert tid t (get_or w.timer_queue i []));
  }

  -- The slot `i` ahead of the current one, or the one behind that if it must not be the current one.
  unfoldable pub put_ahead : Bool → ℕ → SafeTimer C → Wheel C → Option ℕ → Wheel C
  put_ahead force_next tid t w none = w
  put_ahead force_next tid t w (some i) =
      if ((i + w.index) % w.level == w.index) && force_next
      then put ((i + w.index + 1) % w.level) tid t w
      else put ((i + w.index) % w.level) tid t w

  unfoldable pub add_here : Bool → ℕ → ℕ → SafeTimer C → Wheel C → Wheel C
  add_here force_next now tid t w =
      put_ahead force_next tid t w (find_slot w.level_interval now t.unixts w.level)

  -- `_add2WheelChain` on a wheel and those below it; the wheels below are never forced.
  unfoldable pub add_chain : Bool → ℕ → ℕ → SafeTimer C → List (Wheel C) → List (Wheel C)
  add_chain force_next now tid t [] = []
  add_chain force_next now tid t (w ∷ []) = add_here force_next now tid t w ∷ []
  add_chain force_next now tid t (w ∷ w' ∷ ws) =
      let below = add_chain false now tid t (w' ∷ ws) in
      if leb (now + w.level_interval) t.unixts
      then add_here force_next now tid t w ∷ w' ∷ ws
      else w ∷ below

  unfoldable pub add2wheel_chain : ℕ → ℕ → SafeTimer C → List (Wheel C) → List (Wheel C)
  add2wheel_chain now tid t ws = add_chain false now tid (record t { tid = tid }) ws

  -- The loop of `RemoveFromWheelChain` over the slots: `none` if the timer is in none of them.
  unfoldable pub remove_in : ℕ → List (Slot C) → Option (List (Slot C))
  remove_in tid [] = none
  remove_in tid (s ∷ ss) =
      let rest = remove_in tid ss in
      if has_key tid s
      then some (delete tid s ∷ ss)
      else elim rest [ none ↦ none | some ss' ↦ some (s ∷ ss') ]

  unfoldable pub remove_from_wheel_chain : ℕ → List (Wheel C) → List (Wheel C)
  remove_from_wheel_chain tid [] = []
  remove_from_wheel_chain tid (w ∷ ws) =
      let below = remove_from_wheel_chain tid ws in
      elim (remove_in tid w.timer_queue) [
        | none ↦ w ∷ below
        | some queue ↦ record w { timer_queue = queue } ∷ ws
      ]

  -- `GetTriggerWithIn` on the current slot of the leaf: what is left there, and the calls.
  unfoldable pub trigger_slot : ℕ → ℕ → Slot C → Slot C × List C
  trigger_slot now ms [] = ([], [])
  trigger_slot now ms ((k, v) ∷ s) =
      let (left, calls) = trigger_slot now ms s in
      if leb v.unixts (now + ms)
      then (if v.interval == 0
          then (left, v.delay_call ∷ calls)
          else ((k, reset_unixts now v) ∷ left, v.delay_call ∷ calls))
      else ((k, v) ∷ left, calls)

  unfoldable pub get_trigger_with_in : ℕ → ℕ → List (Wheel C) → List (Wheel C) × List C
  get_trigger_with_in now ms [] = ([], [])
  get_trigger_with_in now ms (w ∷ []) =
      let (left, calls) = trigger_slot now ms (get_or w.timer_queue w.index []) in
      (record w { timer_queue = set w.timer_queue w.index left } ∷ [], calls)
  get_trigger_with_in now ms (w ∷ w' ∷ ws) =
      let (below, calls) = get_trigger_with_in now ms (w' ∷ ws) in (w ∷ below, calls)

  -- `RunWheel` adds the timers of the slot again.
  unfoldable pub add_again : ℕ → Slot C → List (Wheel C) → List (Wheel C)
  add_again now [] ws = ws
  add_again now ((k, v) ∷ s) ws = add_again now s (add_chain true now k v ws)

  unfoldable pub next_slot : List (Wheel C) → List (Wheel C)
  next_slot [] = []
  next_slot (w ∷ ws) = record w { index = (w.index + 1) % w.level } ∷ ws

  -- A turn of `RunWheel` on the first wheel of a chain.
  unfoldable pub turn_first : ℕ → List (Wheel C) → List (Wheel C)
  turn_first now [] = []
  turn_first now (w ∷ ws) =
      let emptied = record w { timer_queue = set w.timer_queue w.index [] } in
      next_slot (add_again now (get_or w.timer_queue w.index []) (emptied ∷ ws))

  -- Each wheel has a goroutine of its own; this is a turn of the wheel at a depth.
  unfoldable pub run_wheel : ℕ → ℕ → List (Wheel C) → List (Wheel C)
  run_wheel now depth [] = []
  run_wheel now zero (w ∷ ws) = turn_first now (w ∷ ws)
  run_wheel now (suc depth) (w ∷ ws) = w ∷ run_wheel now depth ws

  unfoldable pub new_safe_timer_scheduel : Scheduel C
  new_safe_timer_scheduel = record {
    hashwheel = new_hash_wheel 36 3600000 ∷ new_hash_wheel 36 60000 ∷ new_hash_wheel 36 1000 ∷ [];
    id_gen = 0;
  }

  unfoldable pub create_timer : ℕ → ℤ → Bool → C → Scheduel C → Scheduel C × ℕ
  create_timer now delay loop call s =
      let id = (s.id_gen + 1) % 2 ^ 32 in
      (
        record {
          hashwheel = add2wheel_chain now id (new_safe_timer now delay loop call) s.hashwheel;
          id_gen = id;
        },
        id,
      )

  unfoldable pub cancel_timer : ℕ → Scheduel C → Scheduel C
  cancel_timer id s = record s { hashwheel = remove_from_wheel_chain id s.hashwheel }
