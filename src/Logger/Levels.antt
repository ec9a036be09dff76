-- ===== src/Logger/Levels.antt =====
-- logger/logger.go: which calls reach the file, and in which order.
use my_cluster.Common.{
  ℕ, ◌≡◌, refl, ap, sym, ◌∙◌, Bool, true, false, List, [], ◌∷◌, ◌++◌, some, leb, if◌then◌else◌,
  lookup, lookup-insert, append_assoc, append-nil, beq_refl,
}
use my_cluster.Wire.{Bytes}
use my_cluster.Strings.{codes, bytes_instance}
use my_cluster.Logger.{
  Logger, LogFile, Files, to_file, trace, debug, info, warn, error, fatal, profile, output,
  write_line, append_to, text_of, path_of, trace_level, debug_level, info_level, warn_level,
  error_level, fatal_level, profile_level,
}

-- A call of the package, with what the logger makes of its arguments.
pub data Call : Type 0 where
  traces debugs infos warns errors fatals profiles : (Bytes → Bytes) → Call

unfoldable pub run_call : Call → Logger → Logger
run_call (traces line) = trace line
run_call (debugs line) = debug line
run_call (infos line) = info line
run_call (warns line) = warn line
run_call (errors line) = error line
run_call (fatals line) = fatal line
run_call (profiles line) = profile line

unfoldable pub run_calls : List Call → Logger → Logger
run_calls [] st = st
run_calls (c ∷ cs) st = run_calls cs (run_call c st)

-- The level of a call and the line that it writes.
abbrev pub level_of : Call → ℕ
level_of (traces line) = trace_level
level_of (debugs line) = debug_level
level_of (infos line) = info_level
level_of (warns line) = warn_level
level_of (errors line) = error_level
level_of (fatals line) = fatal_level
level_of (profiles line) = profile_level

abbrev pub line_of : Call → Bytes
line_of (traces line) = line (codes "trace")
line_of (debugs line) = line (codes "debug")
line_of (infos line) = line (codes "info")
line_of (warns line) = line (codes "warn")
line_of (errors line) = line (codes "error")
line_of (fatals line) = line (codes "fatal")
line_of (profiles line) = line (codes "profile")

-- The lines that count at a level.
abbrev pub lines_at : ℕ → List Call → Bytes
lines_at level [] = []
lines_at level (c ∷ cs) =
    if leb level (level_of c) then line_of c ++ lines_at level cs else lines_at level cs

-- The state with an open file, without a buffer, among the files.
abbrev pub writing : Logger → LogFile → Files → Logger
writing st f files = record st { log_obj = some (record f { sink = to_file }); files = files }

run_call_lem :
    (c : Call) (st : Logger) (f : LogFile) (files : Files)
    → run_call c (writing st f files) ≡ (
        if leb st.log_level (level_of c)
        then writing st f (append_to (path_of f) (line_of c) files)
        else writing st f files)
unfolding run_call trace debug info warn error fatal profile output write_line
run_call_lem (traces line) st f files = refl
run_call_lem (debugs line) st f files = refl
run_call_lem (infos line) st f files = refl
run_call_lem (warns line) st f files = refl
run_call_lem (errors line) st f files = refl
run_call_lem (fatals line) st f files = refl
run_call_lem (profiles line) st f files = refl

text-append_to :
    (name line : Bytes) (files : Files)
    → text_of (lookup name (append_to name line files)) ≡ text_of (lookup name files) ++ line
text-append_to name line files =
    let found : lookup name (append_to name line files)
        ≡ some (text_of (lookup name files) ++ line) =
      lookup-insert name name (text_of (lookup name files) ++ line) files
      ∙ rw (beq_refl name) refl in
    ap text_of found

-- What the open file has.
abbrev content : LogFile → Logger → Bytes
content f st = text_of (lookup (path_of f) st.files)

-- With a log file open that has no buffer: after any calls of the package the file has what it had
-- before and then, in order, the lines of exactly the calls whose level is not below the level set.
pub run_calls_lem :
    (cs : List Call) (st : Logger) (f : LogFile) (files : Files)
    → text_of (lookup (path_of f) (run_calls cs (writing st f files)).files)
      ≡ text_of (lookup (path_of f) files) ++ lines_at st.log_level cs
unfolding run_calls
run_calls_lem [] st f files = sym (append-nil (text_of (lookup (path_of f) files)))
run_calls_lem (c ∷ cs) st f files =
    ap (λ (s : Logger). content f (run_calls cs s)) (run_call_lem c st f files)
    ∙ calls_after (run_calls_lem cs st f) (leb st.log_level (level_of c))
  where
    calls_after :
        ((files' : Files)
          → text_of (lookup (path_of f) (run_calls cs (writing st f files')).files)
            ≡ text_of (lookup (path_of f) files') ++ lines_at st.log_level cs)
        → (b : Bool)
        → content f (
            run_calls cs (
              if b
              then writing st f (append_to (path_of f) (line_of c) files)
              else writing st f files))
          ≡ text_of (lookup (path_of f) files)
            ++ (if b then line_of c ++ lines_at st.log_level cs else lines_at st.log_level cs)
    calls_after ih true =
        ih (append_to (path_of f) (line_of c) files)
        ∙ ap (λ (t : Bytes). t ++ lines_at st.log_level cs)
            (text-append_to (path_of f) (line_of c) files)
        ∙ append_assoc (text_of (lookup (path_of f) files)) (line_of c) (lines_at st.log_level cs)
    calls_after ih false = ih files
