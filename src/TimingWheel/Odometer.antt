-- ===== src/TimingWheel/Odometer.antt =====
-- timer_256/timingwheel.go: the positions of the wheels as the digits of one number.
use my_cluster.Common.{
  ℕ, ◌+◌, ◌*◌, ◌^◌, ◌<◌, List, [], ◌∷◌, ◌≡◌, refl, ap, ◌∙◌, arith, ◌==◌, if◌then◌else◌, length,
  get_or, set, Bool-cases, inl, inr,
}
use native.Mathlib.Nat.{pow-succ'}
use my_cluster.TimingWheel.{LevelWheel, TimingWheel, advance, turn, fire_events, tick_wheels, tick}
use my_cluster.TimingWheel.Counts.{AllFit}
use my_cluster.TimingWheel.Slots.{move_jobs-cur_pos}
use my_cluster.TimingWheel.Ticks.{IsValid}

-- The next number below `m`, with 0 behind the greatest.
abbrev next : ℕ → ℕ → ℕ
next m c = if c + 1 == m then 0 else c + 1

module _ {F : Type 0} where
  -- The number whose base 256 digits are the positions, the lowest wheel first.
  abbrev pub clock : List (LevelWheel F) → ℕ
  clock [] = 0
  clock (w ∷ ws) = w.cur_pos + 256 * clock ws

  -- One more than the greatest such number.
  abbrev pub span : List (LevelWheel F) → ℕ
  span [] = 1
  span (w ∷ ws) = 256 * span ws

  clock-lt : (ws : List (LevelWheel F)) → AllFit ws → clock ws < span ws
  clock-lt [] a = omega arith
  clock-lt (w ∷ ws) a = omega (arith, a.0.pos_fits, clock-lt ws a.1)

  turn-clock :
      (i : ℕ) (lower : LevelWheel F) (ws : List (LevelWheel F))
      → AllFit ws
      → clock (turn i lower ws) ≡ lower.cur_pos + 256 * next (span ws) (clock ws)
  unfolding turn advance
  turn-clock i lower [] a = ground arith
  turn-clock i lower (w ∷ ws) a =
      let w' = advance w in
      let js = get_or w'.slots w'.cur_pos [] in
      let emptied = record w' { slots = set w'.slots w'.cur_pos [] } in
      let b = a.0.pos_fits in
      let c = clock-lt ws a.1 in
      elim (Bool-cases (w'.cur_pos == 0)) [
        | inl e ↦ rw e (
            ground
              (arith, b, c, e, move_jobs-cur_pos i lower js, turn-clock (i + 1) emptied ws a.1))
        | inr e ↦ rw e (ground (arith, b, c, e, move_jobs-cur_pos i lower js))
      ]

  tick_wheels-clock :
      (ws : List (LevelWheel F))
      → AllFit ws
      → 0 < length ws
      → clock (tick_wheels ws).0 ≡ next (span ws) (clock ws)
  unfolding tick_wheels fire_events advance
  tick_wheels-clock [] a h = elim h [ ]
  tick_wheels-clock (w ∷ ws) a h =
      let w' = advance w in
      let emptied = record w' { slots = set w'.slots w'.cur_pos [] } in
      let b = a.0.pos_fits in
      let c = clock-lt ws a.1 in
      elim (Bool-cases (w'.cur_pos == 0)) [
        | inl e ↦ rw e (ground (arith, b, c, e, turn-clock 0 emptied ws a.1))
        | inr e ↦ rw e (ground (arith, b, c, e))
      ]

  span-length : (ws : List (LevelWheel F)) → span ws ≡ 256 ^ length ws
  span-length [] = refl
  span-length (w ∷ ws) = omega (arith, span-length ws, pow-succ' 256 (length ws))

  -- A tick of a valid timer adds one to the number whose base 256 digits are the positions of the
  -- wheels, the lowest first, and takes 256 ^ 7 - 1 to zero.
  pub tick-clock :
      (tw : TimingWheel F)
      → IsValid tw
      → clock (tick tw).0.wheels
        ≡ (if clock tw.wheels + 1 == 256 ^ 7 then 0 else clock tw.wheels + 1)
  unfolding tick
  tick-clock tw v =
      let all : span tw.wheels ≡ 256 ^ 7 =
        span-length tw.wheels ∙ ap (λ (n : ℕ). 256 ^ n) v.all_levels in
      ground (arith, all, tick_wheels-clock tw.wheels v.wheels_fit (omega (arith, v.all_levels)))
