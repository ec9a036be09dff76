-- ===== src/Logger/Tests.antt =====
-- logger/logger.go at concrete inputs.
use my_cluster.Common.{
  some, ℕ, ◌≡◌, ◌++◌, refl, List, [], ◌∷◌, none, lookup, insert, delete, arith, true, false,
}
use my_cluster.Wire.{Bytes}
use my_cluster.Strings.{codes, bytes_eq, bytes_instance}
use my_cluster.Strings.Decimal.{itoa, digits}
use my_cluster.Logger.{
  Logger, LogFile, Files, to_file, path_of, slot_name, set_rolling_file, last_slot, is_exist,
  is_must_rename, file_size, file_check, checked, rename, cover_next_one, rename_file, moved,
  next_suffix, open_file, output, write_line,
}
use my_cluster.Logger.Levels.{Call, infos, debugs, errors}
use my_cluster.Logger.Slots.{
  Spec, Event, logged, looked, Shows, step, run, rolling, spec_run, run-Shows,
}
use my_cluster.Logger.Daily.{texts, log_lines, daily, file_check-log_lines}

abbrev log_file : LogFile
log_file = record {
  dir = codes "log";
  filename = codes "a.log";
  suffix = 0;
  date = 3;
  sink = to_file;
  buf = [];
}

-- Level INFO, and two slots for texts of four bytes.
abbrev logger : Logger
logger = record {
  log_level = 3;
  max_file_size = 4;
  max_file_count = 2;
  daily_rolling = false;
  console_appender = true;
  log_obj = none;
  files = [];
  console_out = [];
}

abbrev empty_file : Files
empty_file = (path_of log_file, []) ∷ []

abbrev named : Bytes → Bytes → Bytes
named tag level = level ++ tag

abbrev calls : List Call
calls = debugs (named (codes "1")) ∷ infos (named (codes "2")) ∷ errors (named (codes "3")) ∷ []

abbrev events : List Event
events =
    logged (codes "ab")
    ∷ looked
    ∷ logged (codes "cd")
    ∷ looked
    ∷ logged (codes "efgh")
    ∷ looked
    ∷ logged (codes "ijkl")
    ∷ looked
    ∷ []

abbrev day_name : ℕ → Bytes
day_name n = itoa n

-- Three texts were full: the third took the slot of the first.
three_full :
    (run day_name 0 events (rolling logger log_file 0 empty_file)).files
    ≡ (slot_name log_file 2, codes "efgh")
      ∷ (slot_name log_file 1, codes "ijkl")
      ∷ (path_of log_file, [])
      ∷ []
unfolding step file_check checked is_must_rename file_size rename cover_next_one rename_file moved
    next_suffix output write_line insert lookup delete bytes_eq itoa digits is_exist
three_full = refl

-- A fresh directory.
fresh_start : (set_rolling_file (codes "log") (codes "a.log") 2 4 logger).files ≡ empty_file
unfolding set_rolling_file last_slot is_must_rename file_size open_file lookup insert bytes_eq
    is_exist itoa digits
fresh_start = refl

abbrev nothing_yet : Spec
nothing_yet = record { current = []; full = [] }

empty_file-Shows : Shows 2 log_file 0 empty_file nothing_yet
unfolding lookup bytes_eq
empty_file-Shows = record {
  within = omega arith;
  current = refl;
  slots = λ i k l. absurd (omega arith);
}

run-Shows_example :
    (suffix' : ℕ) × (files' : Files) × (run day_name 0 events (rolling logger log_file 0 empty_file)
      ≡ rolling logger log_file suffix' files')
    × Shows 2 log_file suffix' files' (spec_run 4 events nothing_yet)
run-Shows_example =
    run-Shows day_name 0 logger log_file events 0 empty_file nothing_yet (omega arith)
      empty_file-Shows

file_check-log_lines_example :
    let kept = log_lines (codes "lost" ∷ []) (daily logger log_file [] empty_file) in
    let next = file_check day_name 4 kept in
    let plain = file_check day_name 4 (daily logger log_file [] empty_file) in
    ((log_lines (codes "more" ∷ []) next).files ≡ (log_lines (codes "more" ∷ []) plain).files)
    × ((log_lines (codes "more" ∷ []) next).log_obj
        ≡ some (record log_file { date = 4; sink = to_file; buf = texts (codes "lost" ∷ []) }))
unfolding is_exist lookup bytes_eq itoa digits
file_check-log_lines_example =
    file_check-log_lines day_name 4 logger log_file (codes "lost" ∷ []) (codes "more" ∷ [])
      empty_file (omega arith) refl (omega arith)
