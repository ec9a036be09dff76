-- ===== src/Logger.antt =====
-- logger/logger.go: the levels, and the rotation of the log files. The file system is a map from
-- names to contents, and a log line is the bytes that log.Logger writes for it.
pub mod Levels
pub mod Rotation
pub mod Slots
pub mod Daily
mod Tests
use my_cluster.Common.{
  ℕ, zero, suc, ◌+◌, ◌-◌, ◌%◌, ◌*◌, Bool, true, false, not, ◌&&◌, List, [], ◌∷◌, ◌++◌, Option, none,
  some, ltb, leb, if◌then◌else◌, length, take, drop, lookup, insert, delete, has_key,
}
use my_cluster.Wire.{Bytes}
use my_cluster.Strings.{codes, bytes_instance}
use my_cluster.Strings.Decimal.{itoa}

abbrev pub Files : Type 0
Files = List (Bytes × Bytes)

-- The levels, as numbers.
abbrev pub trace_level : ℕ
trace_level = 1

abbrev pub debug_level : ℕ
debug_level = 2

abbrev pub info_level : ℕ
info_level = 3

abbrev pub warn_level : ℕ
warn_level = 4

abbrev pub error_level : ℕ
error_level = 5

abbrev pub fatal_level : ℕ
fatal_level = 6

abbrev pub profile_level : ℕ
profile_level = 7

-- `*log.Logger` with where it writes: the open file, or the writer `buf`.
pub data Sink : Type 0 where
  to_file to_buffer : Sink

-- `_FILE`. The open file is the one named `dir/filename`; a date is a number of days; of `buf` there
-- is what it has not yet given to its file.
pub record LogFile : Type 0 where
  pub dir : Bytes
  pub filename : Bytes
  pub suffix : ℕ
  pub date : ℕ
  pub sink : Sink
  pub buf : Bytes

-- The variables of the package, and what the program has written.
pub record Logger : Type 0 where
  pub log_level : ℕ
  pub max_file_size : ℕ
  pub max_file_count : ℕ
  pub daily_rolling : Bool
  pub console_appender : Bool
  pub log_obj : Option LogFile
  pub files : Files
  pub console_out : List Bytes

abbrev pub text_of : Option Bytes → Bytes
text_of none = []
text_of (some s) = s

-- A write to an open file goes to its end.
abbrev pub append_to : Bytes → Bytes → Files → Files
append_to name line files = insert name (text_of (lookup name files) ++ line) files

-- What a writer with a buffer gives to its file: nothing is no write.
unfoldable pub flushed : Bytes → Bytes → Files → Files
flushed name [] files = files
flushed name (c ∷ s) files = append_to name (c ∷ s) files

abbrev pub buffer_size : ℕ
buffer_size = 4096 * 1024

-- `bufio.Writer.Write`: what it gives to the file, and what it keeps.
unfoldable pub buffered : Bytes → Bytes → Bytes × Bytes
buffered kept line =
    if leb (length kept + length line) buffer_size
    then ([], kept ++ line)
    else (let room = buffer_size - length kept in
        let rest = (if ltb 0 (length kept) then drop room line else line) in
        let head = (if ltb 0 (length kept) then kept ++ take room line else []) in
        if leb (length rest) buffer_size then (head, rest) else (head ++ rest, []))

abbrev pub path_of : LogFile → Bytes
path_of f = f.dir ++ b'/' ∷ f.filename

unfoldable pub write_line : LogFile → Sink → Bytes → Files → Bytes × Files
write_line f to_file line files = (f.buf, append_to (path_of f) line files)
write_line f to_buffer line files =
    let out = buffered f.buf line in (out.1, flushed (path_of f) out.0 files)

-- `console`
unfoldable pub console : Bytes → Logger → Logger
console line st =
    if st.console_appender then record st { console_out = st.console_out ++ line ∷ [] } else st

unfoldable pub output : Bytes → Logger → Option LogFile → Logger
output line st none = console line st
output line st (some f) =
    let out = write_line f f.sink line st.files in
    record st { log_obj = some (record f { buf = out.0 }); files = out.1 }

-- `Trace` to `Fatal`: `line` is what the logger makes of the arguments behind the level's name.
module _ (line : Bytes → Bytes) where
  unfoldable pub trace : Logger → Logger
  trace st =
      if leb st.log_level trace_level then output (line (codes "trace")) st st.log_obj else st

  unfoldable pub debug : Logger → Logger
  debug st =
      if leb st.log_level debug_level then output (line (codes "debug")) st st.log_obj else st

  unfoldable pub info : Logger → Logger
  info st = if leb st.log_level info_level then output (line (codes "info")) st st.log_obj else st

  unfoldable pub warn : Logger → Logger
  warn st = if leb st.log_level warn_level then output (line (codes "warn")) st st.log_obj else st

  unfoldable pub error : Logger → Logger
  error st =
      if leb st.log_level error_level then output (line (codes "error")) st st.log_obj else st

  unfoldable pub profile : Logger → Logger
  profile st =
      if leb st.log_level profile_level then output (line (codes "profile")) st st.log_obj else st

  unfoldable pub fatal : Logger → Logger
  fatal st =
      if leb st.log_level fatal_level then output (line (codes "fatal")) st st.log_obj else st

unfoldable pub set_console : Bool → Logger → Logger
set_console is_console st = record st { console_appender = is_console }

unfoldable pub set_level : ℕ → Logger → Logger
set_level level st = record st { log_level = level }

-- `isExist`
unfoldable pub is_exist : Bytes → Files → Bool
is_exist path files = has_key path files

-- `fileSize`
unfoldable pub file_size : Bytes → Files → ℕ
file_size path files = length (text_of (lookup path files))

-- `isMustRename` on the day `now`.
unfoldable pub is_must_rename : ℕ → Logger → LogFile → Bool
is_must_rename now st f =
    if st.daily_rolling
    then ltb f.date now
    else ltb 1 st.max_file_count && leb st.max_file_size (file_size (path_of f) st.files)

-- `os.Rename`, which fails when there is nothing under the old name.
unfoldable pub moved : Bytes → Option Bytes → Bytes → Files → Files
moved old none new files = files
moved old (some content) new files = insert new content (delete old files)

unfoldable pub rename_file : Bytes → Bytes → Files → Files
rename_file old new files = moved old (lookup old files) new files

-- `nextSuffix`
unfoldable pub next_suffix : ℕ → ℕ → ℕ
next_suffix max suffix = suffix % max + 1

-- The name of a slot.
abbrev pub slot_name : LogFile → ℕ → Bytes
slot_name f i = path_of f ++ b'.' ∷ itoa i

-- `coverNextOne`
unfoldable pub cover_next_one : Logger → LogFile → Logger
cover_next_one st f =
    let suffix = next_suffix st.max_file_count f.suffix in
    let target = slot_name f suffix in
    let cleared = (if is_exist target st.files then delete target st.files else st.files) in
    record st {
      files = insert (path_of f) [] (rename_file (path_of f) target cleared);
      log_obj = some (record f { suffix = suffix; sink = to_file });
    }

-- `rename` of the daily files; `day` writes a date. `buf` stays, and nothing writes to it any more.
unfoldable pub roll_day : (ℕ → Bytes) → ℕ → Logger → LogFile → Logger
roll_day day now st f =
    let target = path_of f ++ b'.' ∷ day f.date in
    if not (is_exist target st.files) && is_must_rename now st f
    then record st {
      files = insert (path_of f) [] (rename_file (path_of f) target st.files);
      log_obj = some (record f { date = now; sink = to_file });
    }
    else st

-- `rename`
unfoldable pub rename : (ℕ → Bytes) → ℕ → Logger → LogFile → Logger
rename day now st f = if st.daily_rolling then roll_day day now st f else cover_next_one st f

-- `fileCheck`, with the test and the rename at one moment: no line is logged after the test, which
-- stands before the lock, and before the rename.
unfoldable pub checked : (ℕ → Bytes) → ℕ → Logger → Option LogFile → Logger
checked day now st none = st
checked day now st (some f) = if is_must_rename now st f then rename day now st f else st

unfoldable pub file_check : (ℕ → Bytes) → ℕ → Logger → Logger
file_check day now st = checked day now st st.log_obj

-- The last of the slots 1, 2, ... that are there without a gap; the loop of `SetRollingFile`, with
-- the rounds left.
unfoldable pub last_slot : LogFile → Files → ℕ → ℕ → ℕ
last_slot f files zero i = i - 1
last_slot f files (suc rounds) i =
    let later = last_slot f files rounds (i + 1) in
    if is_exist (slot_name f i) files then later else i - 1

-- `os.OpenFile` with O_CREATE.
unfoldable pub open_file : Bytes → Files → Files
open_file path files = if has_key path files then files else insert path [] files

abbrev pub opened : Logger → LogFile → Logger
opened st f = record st { files = open_file (path_of f) st.files; log_obj = some f }

-- `SetRollingFile` for a count that is not negative and a size in bytes.
unfoldable pub set_rolling_file : Bytes → Bytes → ℕ → ℕ → Logger → Logger
set_rolling_file dir filename max_number max_size st =
    let set_up = record st {
      max_file_count = max_number;
      max_file_size = max_size;
      daily_rolling = false;
    } in
    let f0 : LogFile = record {
      dir = dir;
      filename = filename;
      suffix = 0;
      date = 0;
      sink = to_file;
      buf = [];
    } in
    let f : LogFile = record f0 { suffix = last_slot f0 st.files max_number 1 } in
    if is_must_rename 0 set_up f then cover_next_one set_up f else opened set_up f

-- `SetRollingDaily` on the day `now`.
unfoldable pub set_rolling_daily : (ℕ → Bytes) → ℕ → Bytes → Bytes → Logger → Logger
set_rolling_daily day now dir filename st =
    let set_up = record st { daily_rolling = true } in
    let f : LogFile = record {
      dir = dir;
      filename = filename;
      suffix = 0;
      date = now;
      sink = to_buffer;
      buf = [];
    } in
    if is_must_rename now set_up f
    then rename day now set_up (record f { sink = to_file })
    else opened set_up f
