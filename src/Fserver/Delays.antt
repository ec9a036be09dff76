-- ===== src/Fserver/Delays.antt =====
-- fserver/server.go, `CallLater`, `CallLoop` and `CallWhen`, with timer/timer.go. Each call makes a
-- goroutine that sleeps and then sends its timer to TimeChan; how often it has sent it is kept
-- beside it. Durations that are not negative are numbers, and so are points in time; `f` with its
-- arguments is a value of the type `F`.
pub mod Waits
pub mod Sent
use my_cluster.Common.{
  ℕ, zero, suc, ◌+◌, ◌-◌, Bool, true, false, List, [], ◌∷◌, ◌++◌, Option, none, some, if◌then◌else◌,
  ltb, lookup, insert, nat_eq,
}
use my_cluster.Wire.{Bytes}

-- `Timer` with its `DelayCall`.
pub record Timer (F : Type 0) : Type 0 where
  pub durations : ℕ
  pub delay_call : F

pub data Repeat : Type 0 where
  once loops : Repeat

-- A goroutine: when it was made, when its sleep ends, and how often it has sent its timer.
pub record Sleeper (F : Type 0) : Type 0 where
  pub timer : Timer F
  pub repeat : Repeat
  pub made : ℕ
  pub wakes_at : ℕ
  pub sent : ℕ

pub record Delays (F : Type 0) : Type 0 where
  pub now : ℕ
  pub sleepers : List (ℕ × Sleeper F)
  pub next : ℕ
  -- What was sent to TimeChan, the oldest first: the timer, which is known by its goroutine's number.
  pub time_chan : List (ℕ × Timer F)

-- The goroutine of a call that is no loop is at its end when it has sent its timer.
abbrev pub ended : Repeat → ℕ → Bool
ended once sent = ltb 0 sent
ended loops sent = false

module _ {F : Type 0} where
  unfoldable pub new_timer : ℕ → F → Timer F
  new_timer durations f = record { durations = durations; delay_call = f }

  abbrev pub go : Repeat → Timer F → Delays F → Delays F
  go repeat timer s = record s {
    sleepers =
        insert s.next
          (record {
            timer = timer;
            repeat = repeat;
            made = s.now;
            wakes_at = s.now + timer.durations;
            sent = 0;
          })
          s.sleepers;
    next = s.next + 1;
  }

  unfoldable pub call_later : ℕ → F → Delays F → Delays F
  call_later durations f s = go once (new_timer durations f) s

  unfoldable pub call_loop : ℕ → F → Delays F → Delays F
  call_loop durations f s = go loops (new_timer durations f) s

  -- `CallWhen` with the time that its text was parsed to; the errors are only logged.
  unfoldable pub call_at : Option ℕ → F → Delays F → Delays F
  call_at none f s = s
  call_at (some t) f s = if ltb s.now t then call_later (t - s.now) f s else s

  unfoldable pub call_when : (Bytes → Option ℕ) → Bytes → F → Delays F → Delays F
  call_when parse ts f s = call_at (parse ts) f s

  -- After the send a loop sleeps again, and the other goroutine is at its end.
  unfoldable pub after_send : ℕ → Repeat → Sleeper F → Sleeper F
  after_send now once g = record g { sent = g.sent + 1 }
  after_send now loops g = record g { wakes_at = now + g.timer.durations; sent = g.sent + 1 }

  unfoldable pub send_timer : ℕ → Option (Sleeper F) → Delays F → Delays F
  send_timer id none s = s
  send_timer id (some g) s =
      if ltb s.now g.wakes_at then s else if ended g.repeat g.sent then s else record s {
        sleepers = insert id (after_send s.now g.repeat g) s.sleepers;
        time_chan = s.time_chan ++ (id, g.timer) ∷ [];
      }

  -- The goroutine `id` runs: nothing happens while it sleeps.
  unfoldable pub runs : ℕ → Delays F → Delays F
  runs id s = send_timer id (lookup id s.sleepers) s
