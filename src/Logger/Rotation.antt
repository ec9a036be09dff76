-- ===== src/Logger/Rotation.antt =====
-- logger/logger.go, `coverNextOne`: what the slots of a rolling file hold.
use my_cluster.Common.{
  ℕ, ◌≡◌, ◌≢◌, refl, ap, sym, ◌∙◌, [], ◌∷◌, Option, none, some, if◌then◌else◌, lookup,
  lookup-insert, lookup-delete, insert, delete, Bool-cases, inl, inr, beq_refl, beq_ne, length,
  arith, length-append, append_cancel,
}
use my_cluster.Wire.{Bytes}
use my_cluster.Strings.{bytes_instance, bytes_eq}
use my_cluster.Strings.Decimal.{itoa, itoa_inj}
use my_cluster.Logger.{LogFile, Files, path_of, slot_name, rename_file, moved, is_exist}

-- The slots have names of their own.
slot_name_inj : (f : LogFile) (i j : ℕ) → slot_name f i ≡ slot_name f j → i ≡ j
slot_name_inj f i j e =
    let tails : b'.' ∷ itoa i ≡ b'.' ∷ itoa j =
      append_cancel (path_of f) (b'.' ∷ itoa i) (b'.' ∷ itoa j) e in
    itoa_inj i j cc

pub slot_name-ne : (f : LogFile) (i : ℕ) → slot_name f i ≢ path_of f
slot_name-ne f i e = absurd (omega (arith, ap length e, length-append (path_of f) (b'.' ∷ itoa i)))

-- The files after a rotation into the slot `suffix`.
abbrev pub rotated_files : LogFile → ℕ → Files → Files
rotated_files f suffix files =
    let target = slot_name f suffix in
    insert (path_of f) [] (
      rename_file (path_of f) target (if is_exist target files then delete target files else files))

module _ (f : LogFile) (suffix : ℕ) (files : Files) {content : Bytes}
    (here : lookup (path_of f) files ≡ some content) where
  abbrev cleared : Files
  cleared = if is_exist (slot_name f suffix) files then delete (slot_name f suffix) files else files

  lookup-cleared :
      (name : Bytes) → slot_name f suffix ≢ name → lookup name cleared ≡ lookup name files
  lookup-cleared name h = elim (Bool-cases (is_exist (slot_name f suffix) files)) [
    | inl old ↦ rw old (
        lookup-delete (slot_name f suffix) name files
        ∙ rw (beq_ne (slot_name f suffix) name h) refl)
    | inr new ↦ rw new refl
  ]

  lookup-rename_file :
      (name : Bytes)
      → lookup name (rename_file (path_of f) (slot_name f suffix) cleared) ≡ (
          if bytes_eq (slot_name f suffix) name
          then some content
          else if bytes_eq (path_of f) name
          then none
          else lookup name cleared)
  unfolding rename_file moved
  lookup-rename_file name = rw (lookup-cleared (path_of f) (slot_name-ne f suffix) ∙ here) (
      lookup-insert (slot_name f suffix) name content (delete (path_of f) cleared)
      ∙ ap (λ (o : Option Bytes). if bytes_eq (slot_name f suffix) name then some content else o)
          (lookup-delete (path_of f) name cleared))

  -- The file is empty, its content is in the slot, and the other slots are as they were.
  pub lookup-rotated_files_path : lookup (path_of f) (rotated_files f suffix files) ≡ some []
  lookup-rotated_files_path =
      lookup-insert (path_of f) (path_of f) [] _ ∙ rw (beq_refl (path_of f)) refl

  lookup-rotated_files_ne :
      (name : Bytes)
      → path_of f ≢ name
      → lookup name (rotated_files f suffix files)
        ≡ (if bytes_eq (slot_name f suffix) name then some content else lookup name cleared)
  lookup-rotated_files_ne name h =
      let apart = beq_ne (path_of f) name h in
      lookup-insert (path_of f) name [] (rename_file (path_of f) (slot_name f suffix) cleared)
      ∙ rw apart (lookup-rename_file name ∙ rw apart refl)

  pub lookup-rotated_files_slot :
      lookup (slot_name f suffix) (rotated_files f suffix files) ≡ some content
  lookup-rotated_files_slot =
      lookup-rotated_files_ne (slot_name f suffix) (λ e. slot_name-ne f suffix (sym e))
      ∙ rw (beq_refl (slot_name f suffix)) refl

  pub lookup-rotated_files_other :
      (i : ℕ)
      → i ≢ suffix
      → lookup (slot_name f i) (rotated_files f suffix files) ≡ lookup (slot_name f i) files
  lookup-rotated_files_other i h =
      let differs : slot_name f suffix ≢ slot_name f i =
        λ e. h (sym (slot_name_inj f suffix i e)) in
      lookup-rotated_files_ne (slot_name f i) (λ e. slot_name-ne f i (sym e))
      ∙ rw (beq_ne (slot_name f suffix) (slot_name f i) differs)
          (lookup-cleared (slot_name f i) differs)
