-- ===== src/Logger/Daily.antt =====
-- logger/logger.go, the daily files: what happens to the lines in the buffer.
use my_cluster.Common.{
  ℕ, ◌+◌, ◌≤◌, ◌<◌, ◌≡◌, refl, ap, sym, ◌∙◌, true, false, List, [], ◌∷◌, ◌++◌, some, insert, ltb,
  leb, length, arith, append_assoc, append-nil, length-append,
}
use my_cluster.Wire.{Bytes}
use my_cluster.Strings.{bytes_instance}
use my_cluster.Logger.{
  Logger, LogFile, Files, to_buffer, to_file, append_to, rename_file, path_of, is_must_rename,
  rename, roll_day, checked, file_check, output, write_line, buffered, flushed, buffer_size,
  is_exist,
}

-- The lines logged by calls whose level counts, in turn.
abbrev pub log_lines : List Bytes → Logger → Logger
log_lines [] st = st
log_lines (line ∷ lines) st = log_lines lines (output line st st.log_obj)

abbrev pub texts : List Bytes → Bytes
texts [] = []
texts (line ∷ lines) = line ++ texts lines

-- A state with daily files, with lines in the buffer.
abbrev pub daily : Logger → LogFile → Bytes → Files → Logger
daily st f kept files = record st {
  daily_rolling = true;
  log_obj = some (record f { sink = to_buffer; buf = kept });
  files = files;
}

output-daily :
    (st : Logger) (f : LogFile) (kept line : Bytes) (files : Files)
    → length kept + length line ≤ buffer_size
    → output line (daily st f kept files) (some (record f { sink = to_buffer; buf = kept }))
      ≡ daily st f (kept ++ line) files
unfolding output write_line buffered flushed
output-daily st f kept line files h =
    let fits : leb (length kept + length line) buffer_size ≡ true = ground arith in rw fits refl

log_lines-daily :
    (st : Logger) (f : LogFile) (lines : List Bytes) (kept : Bytes) (files : Files)
    → length kept + length (texts lines) ≤ buffer_size
    → log_lines lines (daily st f kept files) ≡ daily st f (kept ++ texts lines) files
log_lines-daily st f [] kept files h =
    ap (λ (s : Bytes). daily st f s files) (sym (append-nil kept))
log_lines-daily st f (line ∷ lines) kept files h =
    let fits : length kept + length line ≤ buffer_size =
      omega (arith, length-append line (texts lines)) in
    let more : length (kept ++ line) + length (texts lines) ≤ buffer_size =
      omega (arith, length-append line (texts lines), length-append kept line) in
    ap (log_lines lines) (output-daily st f kept line files fits)
    ∙ log_lines-daily st f lines (kept ++ line) files more
    ∙ ap (λ (s : Bytes). daily st f s files) (append_assoc kept line (texts lines))

-- A state in which lines go to the file, with an old buffer.
abbrev plain : Logger → LogFile → Bytes → Files → Logger
plain st f kept files = record st {
  daily_rolling = true;
  log_obj = some (record f { sink = to_file; buf = kept });
  files = files;
}

-- What is logged then stands in the file, and the old buffer is as it was.
log_lines-plain :
    (st : Logger) (f : LogFile) (lines : List Bytes) (kept : Bytes) (files : Files)
    → (files' : Files) × ((other : Bytes)
        → log_lines lines (plain st f other files) ≡ plain st f other files')
unfolding output write_line
log_lines-plain st f [] kept files = (files, λ other. refl)
log_lines-plain st f (line ∷ lines) kept files =
    log_lines-plain st f lines kept (append_to (path_of f) line files)

-- With a daily file just opened, whose day is over, and no file yet under the name for that day: when
-- any lines of at most 4096 * 1024 bytes in all were logged, the monitor has looked at the file, and
-- any more lines were logged, then the files are as if the first lines had never been logged, and
-- those are the text in the buffer of the logger, which writes to the new file without it.
pub file_check-log_lines :
    (day : ℕ → Bytes) (now : ℕ) (st : Logger) (f : LogFile) (lines more : List Bytes)
    (files : Files)
    → f.date < now
    → is_exist (path_of f ++ b'.' ∷ day f.date) files ≡ false
    → length (texts lines) ≤ buffer_size
    → let kept = file_check day now (log_lines lines (daily st f [] files)) in
      let none_kept = file_check day now (daily st f [] files) in
      ((log_lines more kept).files ≡ (log_lines more none_kept).files)
      × ((log_lines more kept).log_obj
          ≡ some (record f { date = now; sink = to_file; buf = texts lines }))
unfolding file_check checked is_must_rename rename roll_day
file_check-log_lines day now st f lines more files over free small =
    let later : ltb f.date now ≡ true = ground arith in
    let target = path_of f ++ b'.' ∷ day f.date in
    let renamed = insert (path_of f) [] (rename_file (path_of f) target files) in
    let next = record f { date = now } in
    let (files', logs) = log_lines-plain st next more [] renamed in
    let checks : (kept : Bytes)
        → file_check day now (daily st f kept files) ≡ plain st next kept renamed =
      λ kept. rw (later, free) refl in
    let here =
      ap (file_check day now) (log_lines-daily st f lines [] files (omega (arith, small)))
      ∙ checks (texts lines) in
    (
      ap (λ (l : Logger). (log_lines more l).files) here
          ∙ ap (λ (l : Logger). l.files) (logs (texts lines))
          ∙ sym (ap (λ (l : Logger). l.files) (logs []))
          ∙ sym (ap (λ (l : Logger). (log_lines more l).files) (checks [])),
      ap (λ (l : Logger). (log_lines more l).log_obj) here
          ∙ ap (λ (l : Logger). l.log_obj) (logs (texts lines)),
    )
