-- ===== src/Logger/Slots.antt =====
-- logger/logger.go, a rolling file against its specification: the current text, and the texts
-- that were full, the newest first.
use my_cluster.Common.{
  ℕ, zero, suc, ◌+◌, ◌-◌, ◌≤◌, ◌<◌, ◌≡◌, ◌≢◌, refl, ap, sym, ◌∙◌, Bool, true, false, List, [], ◌∷◌,
  ◌++◌, Option, some, ltb, leb, if◌then◌else◌, lookup, lookup-insert, beq_refl, beq_ne, Bool-cases,
  inl, inr, length, get_or, arith, ◌⊎◌,
}
use native.Mathlib.Nat.{mod-eq_of_lt, mod_self}
use my_cluster.Wire.{Bytes}
use my_cluster.Strings.{bytes_instance}
use my_cluster.Logger.{
  Logger, LogFile, Files, to_file, append_to, text_of, path_of, slot_name, next_suffix,
  cover_next_one, is_must_rename, rename, checked, file_check, file_size, output, write_line,
}
use my_cluster.Logger.Rotation.{
  rotated_files, slot_name-ne, lookup-rotated_files_path, lookup-rotated_files_slot,
  lookup-rotated_files_other,
}

pub record Spec : Type 0 where
  pub current : Bytes
  pub full : List Bytes

-- What happens: a line is logged, or the monitor looks at the file.
pub data Event : Type 0 where
  logged : Bytes → Event
  looked : Event

unfoldable pub spec_step : ℕ → Event → Spec → Spec
spec_step max_size (logged line) p = record p { current = p.current ++ line }
spec_step max_size looked p =
    if leb max_size (length p.current)
    then record { current = []; full = p.current ∷ p.full }
    else p

abbrev pub spec_run : ℕ → List Event → Spec → Spec
spec_run max_size [] p = p
spec_run max_size (e ∷ es) p = spec_run max_size es (spec_step max_size e p)

module _ (day : ℕ → Bytes) (now : ℕ) where
  unfoldable pub step : Event → Logger → Logger
  step (logged line) st = output line st st.log_obj
  step looked st = file_check day now st

  abbrev pub run : List Event → Logger → Logger
  run [] st = st
  run (e ∷ es) st = run es (step e st)

-- The slot of the full text number `i`, 0 being the newest.
abbrev pub slot_ago : ℕ → ℕ → ℕ → ℕ
slot_ago max suffix i = if ltb i suffix then suffix - i else suffix + max - i

-- A state with rolling files.
abbrev pub rolling : Logger → LogFile → ℕ → Files → Logger
rolling st f suffix files = record st {
  daily_rolling = false;
  log_obj = some (record f { suffix = suffix; sink = to_file });
  files = files;
}

-- The files show the current text and the newest of the full ones, as many as there are slots.
pub record Shows (max : ℕ) (f : LogFile) (suffix : ℕ) (files : Files) (p : Spec) : Type 0 where
  pub within : suffix ≤ max
  pub current : lookup (path_of f) files ≡ some p.current
  pub slots :
      (i : ℕ)
      → i < max
      → i < length p.full
      → lookup (slot_name f (slot_ago max suffix i)) files ≡ some (get_or p.full i [])

next_suffix-cases :
    (max suffix : ℕ)
    → 1 < max
    → suffix ≤ max
    → ((next_suffix max suffix ≡ suffix + 1) × (suffix < max))
      ⊎ ((next_suffix max suffix ≡ 1) × (suffix ≡ max))
unfolding next_suffix
next_suffix-cases max suffix h k = elim (Bool-cases (ltb suffix max)) [
  | inl below ↦
      inl (let p : suffix < max = ground arith in (ap (λ (n : ℕ). n + 1) (mod-eq_of_lt p), p))
  | inr last ↦
      inr (let e : suffix ≡ max = ground arith in (rw e (ap (λ (n : ℕ). n + 1) (mod_self max)), e))
]

-- A full text moves one place back.
slot_ago-next :
    (max suffix i : ℕ)
    → 1 < max
    → suffix ≤ max
    → suc i < max
    → slot_ago max (next_suffix max suffix) (suc i) ≡ slot_ago max suffix i
slot_ago-next max suffix i h k l = ground (arith, next_suffix-cases max suffix h k)

slot_ago-ne :
    (max suffix i : ℕ)
    → 1 < max
    → suffix ≤ max
    → suc i < max
    → slot_ago max suffix i ≢ next_suffix max suffix
slot_ago-ne max suffix i h k l e = ground (arith, next_suffix-cases max suffix h k)

slot_ago-zero :
    (max suffix : ℕ)
    → 1 < max
    → suffix ≤ max
    → slot_ago max (next_suffix max suffix) 0 ≡ next_suffix max suffix
slot_ago-zero max suffix h k = ground (arith, next_suffix-cases max suffix h k)

module _ (st : Logger) (f : LogFile) (wraps : 1 < st.max_file_count) where
  abbrev max : ℕ
  max = st.max_file_count

  -- A rotation.
  Shows-rotated :
      (suffix : ℕ) (files : Files) (p : Spec)
      → Shows max f suffix files p
      → Shows max f
          (next_suffix max suffix)
          (rotated_files f (next_suffix max suffix) files)
          (record { current = []; full = p.current ∷ p.full })
  Shows-rotated suffix files p h = record {
    within = ground (arith, next_suffix-cases max suffix wraps h.within);
    current = lookup-rotated_files_path f (next_suffix max suffix) files h.current;
    slots = slots_after;
  }
    where
      slots_after :
          (i : ℕ)
          → i < max
          → i < length (p.current ∷ p.full)
          → lookup
              (slot_name f (slot_ago max (next_suffix max suffix) i))
              (rotated_files f (next_suffix max suffix) files)
            ≡ some (get_or (p.current ∷ p.full) i [])
      slots_after zero k l =
          rw (slot_ago-zero max suffix wraps h.within)
            (lookup-rotated_files_slot f (next_suffix max suffix) files h.current)
      slots_after (suc i) k l = rw (slot_ago-next max suffix i wraps h.within k) (
          lookup-rotated_files_other f (next_suffix max suffix) files h.current
            (slot_ago max suffix i) (slot_ago-ne max suffix i wraps h.within k)
          ∙ h.slots i (omega arith) (omega arith))

  -- A line goes to the end of the current text.
  Shows-logged :
      (suffix : ℕ) (files : Files) (p : Spec) (line : Bytes)
      → Shows max f suffix files p
      → Shows max f suffix
          (append_to (path_of f) line files)
          (record p { current = p.current ++ line })
  Shows-logged suffix files p line h = record {
    within = h.within;
    current =
        lookup-insert (path_of f) (path_of f) (text_of (lookup (path_of f) files) ++ line) files
        ∙ rw (beq_refl (path_of f)) (ap (λ (o : Option Bytes). some (text_of o ++ line)) h.current);
    slots = λ i k l.
        let other = slot_name f (slot_ago max suffix i) in
        let apart =
          beq_ne (path_of f) other (λ e. slot_name-ne f (slot_ago max suffix i) (sym e)) in
        lookup-insert (path_of f) other (text_of (lookup (path_of f) files) ++ line) files
        ∙ rw apart (h.slots i k l);
  }

  module _ (day : ℕ → Bytes) (now : ℕ) where
    -- The state after an event, and that it shows what the specification says.
    abbrev Shown : Logger → Spec → Type 0
    Shown after p =
        (suffix : ℕ) × (files : Files) × (after ≡ rolling st f suffix files)
        × Shows max f suffix files p

    file_check-rolling :
        (suffix : ℕ) (files : Files) (p : Spec)
        → lookup (path_of f) files ≡ some p.current
        → file_check day now (rolling st f suffix files) ≡ (
            if leb st.max_file_size (length p.current)
            then rolling st f
                (next_suffix max suffix)
                (rotated_files f (next_suffix max suffix) files)
            else rolling st f suffix files)
    unfolding file_check checked is_must_rename file_size rename cover_next_one
    file_check-rolling suffix files p h =
        let several : ltb 1 max ≡ true = ground arith in rw (several, h) refl

    step-Shown :
        (e : Event) (suffix : ℕ) (files : Files) (p : Spec)
        → Shows max f suffix files p
        → Shown (step day now e (rolling st f suffix files)) (spec_step st.max_file_size e p)
    unfolding step spec_step output write_line
    step-Shown (logged line) suffix files p h =
        (suffix, append_to (path_of f) line files, refl, Shows-logged suffix files p line h)
    step-Shown looked suffix files p h =
        looked_at (leb st.max_file_size (length p.current))
          (file_check-rolling suffix files p h.current)
      where
        looked_at :
            (b : Bool)
            → file_check day now (rolling st f suffix files) ≡ (
                if b
                then rolling st f
                    (next_suffix max suffix)
                    (rotated_files f (next_suffix max suffix) files)
                else rolling st f suffix files)
            → Shown
                (file_check day now (rolling st f suffix files))
                (if b then record { current = []; full = p.current ∷ p.full } else p)
        looked_at true e = (
          next_suffix max suffix,
          rotated_files f (next_suffix max suffix) files,
          e,
          Shows-rotated suffix files p h,
        )
        looked_at false e = (suffix, files, e, h)

-- With rolling files in more than one slot, the slot last used being one of them, and files that
-- show a text and the texts that were full: after any lines logged and any looks of the monitor the
-- file has the lines logged since it was last full, and the slots have the newest of the full texts,
-- as many as there are slots, each in its place; only the oldest is ever overwritten.
pub run-Shows :
    (day : ℕ → Bytes) (now : ℕ) (st : Logger) (f : LogFile) (es : List Event) (suffix : ℕ)
    (files : Files) (p : Spec)
    → 1 < st.max_file_count
    → Shows st.max_file_count f suffix files p
    → (suffix' : ℕ) × (files' : Files) × (run day now es (rolling st f suffix files)
        ≡ rolling st f suffix' files')
      × Shows st.max_file_count f suffix' files' (spec_run st.max_file_size es p)
run-Shows day now st f [] suffix files p wraps h = (suffix, files, refl, h)
run-Shows day now st f (e ∷ es) suffix files p wraps h =
    let (suffix1, files1, same, h1) = step-Shown st f wraps day now e suffix files p h in
    let (suffix2, files2, later, h2) =
      run-Shows day now st f es suffix1 files1 (spec_step st.max_file_size e p) wraps h1 in
    (suffix2, files2, ap (run day now es) same ∙ later, h2)
