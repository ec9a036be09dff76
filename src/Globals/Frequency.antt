-- ===== src/Globals/Frequency.antt =====
-- utils/globalobj.go and `SetFrequencyControl` of fnet/protocol.go: a limit as it is configured.
use my_cluster.Common.{
  ℕ, ◌<◌, ◌^◌, ◌≡◌, refl, ap, ◌∙◌, false, [], ◌∷◌, ◌++◌, ℤ, pos, contains, nat_eq, insert,
  lookup-insert, string_eq, arith,
}
use my_cluster.Wire.{Bytes}
use my_cluster.Strings.{codes, split, bytes_eq}
use my_cluster.Strings.Pieces.{join, split-join}
use my_cluster.Strings.Decimal.{itoa, itoa-IsFree}
use my_cluster.Strings.Atoi.{atoi-itoa}
use my_cluster.Globals.{
  GlobalObj, get_frequency, frequency_of, read_frequency, set_frequency_control, window_end,
  set_window,
}
use my_cluster.Fnet.Reader.{PropertyBag, number}
use my_cluster.Fnet.Reader.Frequency.{Counts}

-- The units that `SetFrequencyControl` knows.
pub data TimeUnit : Type 0 where
  hour minute second : TimeUnit

abbrev pub unit_text : TimeUnit → Bytes
unit_text hour = codes "h"
unit_text minute = codes "m"
unit_text second = codes "s"

abbrev pub unit_millis : TimeUnit → ℕ
unit_millis hour = 3600000
unit_millis minute = 60000
unit_millis second = 1000

abbrev pub config_text : ℕ → TimeUnit → Bytes
config_text n unit = itoa n ++ b'/' ∷ unit_text unit

unit-IsFree : (unit : TimeUnit) → contains b'/' (unit_text unit) ≡ false
unit-IsFree hour = refl
unit-IsFree minute = refl
unit-IsFree second = refl

get_frequency-config :
    (g : GlobalObj) (n : ℕ) (unit : TimeUnit)
    → n < 2 ^ 63
    → g.frequency_control ≡ config_text n unit
    → get_frequency g ≡ (pos n, unit_text unit)
unfolding get_frequency frequency_of itoa join read_frequency
get_frequency-config g n unit h e =
    ap (λ (s : Bytes). frequency_of (split s (b'/' ∷ []))) e
    ∙ ap frequency_of (
        split-join b'/' (itoa n) (unit_text unit ∷ [])
          (itoa-IsFree b'/' n (λ d k. ground arith), (unit-IsFree unit, tt)))
    ∙ ap (read_frequency (unit_text unit)) (atoi-itoa n h)

set_window-Counts :
    (fc1 : ℤ) (n : ℕ) (bag : PropertyBag) → Counts fc1 0 n (set_window (pos n) fc1 bag)
set_window-Counts fc1 n bag =
    let counted = insert "xingo_fc" (number (pos 0)) bag in
    let limited = insert "xingo_fc0" (number (pos n)) counted in
    record {
      has_end = lookup-insert "xingo_fc1" "xingo_fc1" (number fc1) limited;
      has_count =
          lookup-insert "xingo_fc1" "xingo_fc" (number fc1) limited
          ∙ lookup-insert "xingo_fc0" "xingo_fc" (number (pos n)) counted
          ∙ lookup-insert "xingo_fc" "xingo_fc" (number (pos 0)) bag;
      has_limit =
          lookup-insert "xingo_fc1" "xingo_fc0" (number fc1) limited
          ∙ lookup-insert "xingo_fc0" "xingo_fc0" (number (pos n)) counted;
    }

-- For a limit that is configured as a number and `/h`, `/m` or `/s`: SetFrequencyControl gives a
-- connection a count of zero, that number as its limit, and a window that ends where the code's sum
-- puts it.
pub set_frequency_control-Counts :
    (g : GlobalObj) (n nanos : ℕ) (unit : TimeUnit) (bag : PropertyBag)
    → n < 2 ^ 63
    → g.frequency_control ≡ config_text n unit
    → Counts (window_end nanos (unit_millis unit)) 0 n (set_frequency_control g nanos bag)
unfolding set_frequency_control bytes_eq
set_frequency_control-Counts g n nanos hour bag h e =
    rw (get_frequency-config g n hour h e) (set_window-Counts (window_end nanos 3600000) n bag)
set_frequency_control-Counts g n nanos minute bag h e =
    rw (get_frequency-config g n minute h e) (set_window-Counts (window_end nanos 60000) n bag)
set_frequency_control-Counts g n nanos second bag h e =
    rw (get_frequency-config g n second h e) (set_window-Counts (window_end nanos 1000) n bag)
