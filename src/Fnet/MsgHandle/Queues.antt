-- ===== src/Fnet/MsgHandle/Queues.antt =====
-- fnet/msghandle.go: the packets of one connection in the queues.
use my_cluster.Common.{
  ℕ, zero, suc, ◌<◌, ◌≡◌, ◌≢◌, refl, ap, sym, ◌∙◌, false, List, [], ◌∷◌, ◌++◌, ◌==◌, get_or, set,
  length, get_or-set_self, get_or-set_ne, select, append_assoc, append-nil, arith, Bool-cases, inl,
  inr,
}
use my_cluster.Fnet.MsgHandle.{PkgAll}

abbrev pub of_session : ℕ → List PkgAll → List PkgAll
of_session sid = select (λ p. p.session_id == sid)

pub select-append :
    (sid : ℕ) (xs ys : List PkgAll)
    → of_session sid (xs ++ ys) ≡ of_session sid xs ++ of_session sid ys
select-append sid [] ys = refl
select-append sid (x ∷ xs) ys = elim (Bool-cases (x.session_id == sid)) [
  | inl e ↦ rw e (ap (◌∷◌ x) (select-append sid xs ys))
  | inr e ↦ rw e (select-append sid xs ys)
]

-- A packet of a session that has none among some packets is not the first of them.
pub select-first :
    (sid : ℕ) (p : PkgAll) (ps : List PkgAll)
    → of_session sid (p ∷ ps) ≡ []
    → (of_session sid (p ∷ []) ≡ []) × (of_session sid ps ≡ [])
select-first sid p ps h = elim (Bool-cases (p.session_id == sid)) [
  | inl e ↦ absurd (full (rw e at h))
  | inr e ↦ (rw e refl, rw e at h)
]
  where
    full : p ∷ of_session sid ps ≡ [] → ⊥
    full e = cc

pub select-other : (sid : ℕ) (p : PkgAll) → p.session_id ≢ sid → of_session sid (p ∷ []) ≡ []
select-other sid p ne = let off : (p.session_id == sid) ≡ false = ground (arith, ne) in rw off refl

pub get_or-within :
    (q : List (List PkgAll)) (i : ℕ) (p : PkgAll) (ps : List PkgAll)
    → get_or q i [] ≡ p ∷ ps
    → i < length q
get_or-within [] i p ps e = cc
get_or-within (x ∷ q) zero p ps e = omega arith
get_or-within (x ∷ q) (suc i) p ps e = omega (arith, get_or-within q i p ps e)

-- A packet behind a queue stands behind what was accepted of its session.
pub push_same :
    (sid index : ℕ) (pkg : PkgAll) (q : List (List PkgAll)) (t a : List PkgAll)
    → index < length q
    → of_session sid t ++ of_session sid (get_or q index []) ≡ of_session sid a
    → of_session sid t
        ++ of_session sid (get_or (set q index (get_or q index [] ++ pkg ∷ [])) index [])
      ≡ of_session sid (a ++ pkg ∷ [])
push_same sid index pkg q t a within h =
    let waiting = get_or q index [] in
    ap (λ x. of_session sid t ++ of_session sid x)
      (get_or-set_self q index (waiting ++ pkg ∷ []) [] within)
    ∙ ap (λ x. of_session sid t ++ x) (select-append sid waiting (pkg ∷ []))
    ∙ sym (append_assoc (of_session sid t) (of_session sid waiting) (of_session sid (pkg ∷ [])))
    ∙ ap (λ x. x ++ of_session sid (pkg ∷ [])) h
    ∙ sym (select-append sid a (pkg ∷ []))

pub push_other :
    (sid index j : ℕ) (pkg : PkgAll) (q : List (List PkgAll)) (t a : List PkgAll)
    → index ≢ j
    → pkg.session_id ≢ sid
    → of_session sid t ++ of_session sid (get_or q j []) ≡ of_session sid a
    → of_session sid t ++ of_session sid (get_or (set q index (get_or q index [] ++ pkg ∷ [])) j [])
      ≡ of_session sid (a ++ pkg ∷ [])
push_other sid index j pkg q t a ne off h =
    ap (λ x. of_session sid t ++ of_session sid x)
      (get_or-set_ne q index j (get_or q index [] ++ pkg ∷ []) [] ne)
    ∙ h
    ∙ sym (
        select-append sid a (pkg ∷ [])
        ∙ ap (λ x. of_session sid a ++ x) (select-other sid pkg off)
        ∙ append-nil (of_session sid a))

-- The first packet of a queue is the next of its session to be taken.
pub pop_same :
    (sid i : ℕ) (p : PkgAll) (ps : List PkgAll) (q : List (List PkgAll)) (t a : List PkgAll)
    → i < length q
    → of_session sid t ++ of_session sid (p ∷ ps) ≡ of_session sid a
    → of_session sid (t ++ p ∷ []) ++ of_session sid (get_or (set q i ps) i []) ≡ of_session sid a
pop_same sid i p ps q t a within h =
    ap (λ x. of_session sid (t ++ p ∷ []) ++ of_session sid x) (get_or-set_self q i ps [] within)
    ∙ ap (λ x. x ++ of_session sid ps) (select-append sid t (p ∷ []))
    ∙ append_assoc (of_session sid t) (of_session sid (p ∷ [])) (of_session sid ps)
    ∙ ap (λ x. of_session sid t ++ x) (sym (select-append sid (p ∷ []) ps))
    ∙ h

pub pop_other :
    (sid i j : ℕ) (p : PkgAll) (ps : List PkgAll) (q : List (List PkgAll)) (t a : List PkgAll)
    → i ≢ j
    → of_session sid (p ∷ []) ≡ []
    → of_session sid t ++ of_session sid (get_or q j []) ≡ of_session sid a
    → of_session sid (t ++ p ∷ []) ++ of_session sid (get_or (set q i ps) j []) ≡ of_session sid a
pop_other sid i j p ps q t a ne off h =
    ap (λ x. of_session sid (t ++ p ∷ []) ++ of_session sid x) (get_or-set_ne q i j ps [] ne)
    ∙ ap (λ x. x ++ of_session sid (get_or q j []))
        (select-append sid t (p ∷ [])
          ∙ ap (λ x. of_session sid t ++ x) off
          ∙ append-nil (of_session sid t))
    ∙ h
