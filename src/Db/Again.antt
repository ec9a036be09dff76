-- ===== src/Db/Again.antt =====
-- db/db.go: commands that fail are kept, and what `ReConn` makes of them.
use my_cluster.Common.{
  some_inj, Option-cases, ℕ, suc, ◌+◌, ◌<◌, ◌≡◌, refl, ap, sym, subst, ◌∙◌, false, List, [], ◌∷◌,
  ◌++◌, Option, none, some, length, ltb, leb, arith, Bool-cases, inl, inr,
}
use my_cluster.Wire.{Bytes}
use my_cluster.Strings.{codes}
use my_cluster.Db.{
  Arg, text, texts, OpSt, Redis, Dbop, Outcome, done, panicked, blocks, ◌>>=◌, must, dialled, auth,
  start, all_texts, keep, second_try, first_try, do_db_task, redo_pool, re_conn, connected,
}

-- The parts of a bind that is done.
bind-done :
    {A B : Type 0} (m : Outcome A) (f : A → Outcome B) {b : B}
    → (m >>= f) ≡ done b
    → (a : A) × (m ≡ done a) × (f a ≡ done b)
bind-done (done a) f e = (a, refl, e)
bind-done panicked f e = cc
bind-done blocks f e = cc

done_inj : {A : Type 0} (a b : A) → done a ≡ done b → a ≡ b
done_inj a b e = cc

not_done : {A : Type 0} (a : A) → blocks ≡ done a → ⊥
not_done a e = cc

no_texts {ℓ} : {P : Type ℓ} (ss : List Bytes) → none ≡ some ss → P
no_texts ss e = cc

module _ (r : Redis) where
  open r use {S, Reply, dial, command}

  -- Texts as arguments.
  abbrev pub as_args : List Bytes → List Arg
  as_args [] = []
  as_args (s ∷ ss) = text s ∷ as_args ss

  all_texts-as_args :
      (args : List Arg) (ss : List Bytes) → all_texts r args ≡ some ss → args ≡ as_args ss
  unfolding all_texts
  all_texts-as_args [] ss e = ap as_args (some_inj [] ss e)
  all_texts-as_args (text t ∷ args) ss e = elim (Option-cases (all_texts r args)) [
    | inl bad ↦ no_texts ss (rw bad at e)
    | inr (rest, e') ↦
        ap (◌∷◌ (text t)) (all_texts-as_args args rest e')
        ∙ ap as_args (some_inj (t ∷ rest) ss (rw e' at e))
  ]
  all_texts-as_args (texts ts ∷ args) ss e = no_texts ss e

  -- What the pool is after a command, by its reply.
  abbrev pub Accounted : Bytes → List Arg → Dbop → Option Reply × Dbop × S → Type 0
  Accounted op_cmd args d (none, d', w) =
      (ss : List Bytes) × (args ≡ as_args ss)
      × (d'.op_pool ≡ d.op_pool ++ record { op_cmd = op_cmd; op_args = ss } ∷ [])
      × (d'.planned ≡ d.planned + 1)
  Accounted op_cmd args d (some reply, d', w) = (d'.op_pool ≡ d.op_pool) × (d'.planned ≡ d.planned)

  keep-Accounted :
      (op_cmd : Bytes) (args : List Arg) (o : Option (List Bytes)) (d d1 : Dbop) (w : S)
      (result : Option Reply × Dbop × S)
      → all_texts r args ≡ o
      → d1.op_pool ≡ d.op_pool
      → d1.planned ≡ d.planned
      → keep r op_cmd o d1 w ≡ done result
      → Accounted op_cmd args d result
  unfolding keep
  keep-Accounted op_cmd args none d d1 w result t p q e = cc
  keep-Accounted op_cmd args (some ss) d d1 w result t p q e =
      let op : OpSt = record { op_cmd = op_cmd; op_args = ss } in
      let after : Dbop = record d1 { op_pool = d1.op_pool ++ op ∷ []; planned = d1.planned + 1 } in
      elim (Bool-cases (ltb (length d1.op_pool) 1024)) [
        | inl room ↦
            subst (Accounted op_cmd args d) (done_inj (none, after, w) result (rw room at e)) (
              ss,
              all_texts-as_args args ss t,
              ap (λ (ops : List OpSt). ops ++ op ∷ []) p,
              ap (λ (n : ℕ). n + 1) q,
            )
        | inr full ↦ absurd (not_done result (rw full at e))
      ]

  start-done : (d : Dbop) (w : S) (s : Dbop × S) → start r d w ≡ done s → s.0 ≡ connected r d
  unfolding start
  start-done d w s e =
      let (w1, _, later) =
        bind-done
          (dialled r (dial d.addr w)
            >>= auth r d.pwd
            >>= (λ w'. must r (command (codes "SELECT") (text d.dbid ∷ []) w')))
          (λ w'. done (connected r d, w')) e in
      ap (λ (t : Dbop × S). t.0) (sym (done_inj (connected r d, w1) s later))

  second_try-Accounted :
      (op_cmd : Bytes) (args : List Arg) (d d1 : Dbop) (o : Option Reply × S)
      (result : Option Reply × Dbop × S)
      → d1.op_pool ≡ d.op_pool
      → d1.planned ≡ d.planned
      → second_try r op_cmd args d1 o ≡ done result
      → Accounted op_cmd args d result
  unfolding second_try
  second_try-Accounted op_cmd args d d1 (none, w) result p q e =
      keep-Accounted op_cmd args (all_texts r args) d d1 w result refl p q e
  second_try-Accounted op_cmd args d d1 (some reply, w) result p q e =
      subst (Accounted op_cmd args d) (done_inj (some reply, d1, w) result e) (p, q)

  first_try-Accounted :
      (op_cmd : Bytes) (args : List Arg) (d : Dbop) (o : Option Reply × S)
      (result : Option Reply × Dbop × S)
      → first_try r op_cmd args d o ≡ done result
      → Accounted op_cmd args d result
  unfolding first_try
  first_try-Accounted op_cmd args d (some reply, w) result e =
      subst (Accounted op_cmd args d)
        (done_inj (some reply, record d { reconn_ct = 0 }, w) result e) (refl, refl)
  first_try-Accounted op_cmd args d (none, w) result e =
      let (s, started, later) =
        bind-done (start r d w) (λ s. second_try r op_cmd args s.0 (command op_cmd args s.1)) e in
      let same = start-done d w s started in
      second_try-Accounted op_cmd args d s.0 (command op_cmd args s.1) result
        (ap (λ (t : Dbop). t.op_pool) same) (ap (λ (t : Dbop). t.planned) same) later

  -- When DoDbTask returns, with a reply or an error: after an error the command stands at the end of
  -- the pool with all its arguments, which were texts, and one more attempt is planned; after a reply
  -- the pool and the plans are as they were.
  pub do_db_task-Accounted :
      (op_cmd : Bytes) (args : List Arg) (d : Dbop) (w : S) (result : Option Reply × Dbop × S)
      → do_db_task r op_cmd args d w ≡ done result
      → Accounted op_cmd args d result
  unfolding do_db_task
  do_db_task-Accounted op_cmd args d w result e =
      first_try-Accounted op_cmd args d (command op_cmd args w) result e

  -- A pool that is not empty and fewer than ten attempts: when Start succeeds both times that it is
  -- called, and the server has an error both times for the first operation with the list of its
  -- arguments as its one argument, then ReConn, with any fuel but none, panics.
  pub re_conn-panics :
      (fuel : ℕ) (op : OpSt) (ops : List OpSt) (d : Dbop) (w w1 w2 w3 w4 : S)
      → d.op_pool ≡ op ∷ ops
      → d.reconn_ct < 10
      → start r d w ≡ done (connected r d, w1)
      → command op.op_cmd (texts op.op_args ∷ []) w1 ≡ (none, w2)
      → start r (record (connected r d) { op_pool = ops }) w2
        ≡ done (record (connected r d) { op_pool = ops }, w3)
      → command op.op_cmd (texts op.op_args ∷ []) w3 ≡ (none, w4)
      → re_conn r (suc fuel) d w ≡ panicked
  unfolding re_conn redo_pool do_db_task first_try second_try keep all_texts
  re_conn-panics fuel op ops d w w1 w2 w3 w4 pool few started refused again refused_again =
      let more : leb 10 d.reconn_ct ≡ false = ground arith in
      rw (more, started, pool, refused, again, refused_again) refl
