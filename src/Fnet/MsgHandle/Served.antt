-- ===== src/Fnet/MsgHandle/Served.antt =====
-- fnet/msghandle.go: a packet in a queue is handled when its worker has run often enough.
use my_cluster.Common.{
  lookup, nat_eq, ℕ, ◌+◌, ◌<◌, ◌≡◌, ◌≢◌, refl, ap, sym, subst, ◌∙◌, List, [], ◌∷◌, ◌++◌, Option,
  ltb, ◌==◌, get_or, set, length, get_or-set_self, get_or-set_ne, arith, Bool-cases, inl, inr,
  append_assoc, if◌then◌else◌, ◌%◌, ◌⊎◌,
}
use my_cluster.Fnet.MsgHandle.{
  PkgAll, MsgHandle, raw_deliver, deliver_to_msg_queue, api_of, work_on, worker_loop,
}
use my_cluster.Fnet.MsgHandle.Queues.{get_or-within}
use my_cluster.Fnet.MsgHandle.Order.{Event, arrives, works, Pool, after, pool_step, pool_run}

-- How often the worker `i` runs.
abbrev pub runs_of : ℕ → List Event → ℕ
runs_of i [] = 0
runs_of i (arrives pkg ∷ es) = runs_of i es
runs_of i (works j ∷ es) = (if j == i then 1 else 0) + runs_of i es

within :
    (q : List (List PkgAll)) (i : ℕ) (before rest : List PkgAll) (p : PkgAll)
    → get_or q i [] ≡ before ++ p ∷ rest
    → i < length q
within q i [] rest p e = get_or-within q i p rest e
within q i (b ∷ before) rest p e = get_or-within q i b (before ++ p ∷ rest) e

module _ {H : Type 0} where
  -- The packet is in the list of what was handled, with its handler.
  abbrev pub Handled : PkgAll × Option H → List (PkgAll × Option H) → Type 0
  Handled x [] = ⊥
  Handled x (y ∷ ys) = (y ≡ x) ⊎ Handled x ys

  Handled-append :
      (x y : PkgAll × Option H) (ys : List (PkgAll × Option H))
      → Handled x ys
      → Handled x (ys ++ y ∷ [])
  Handled-append x y [] h = elim h [ ]
  Handled-append x y (z ∷ ys) (inl e) = inl e
  Handled-append x y (z ∷ ys) (inr h) = inr (Handled-append x y ys h)

  Handled-last : (x : PkgAll × Option H) (ys : List (PkgAll × Option H)) → Handled x (ys ++ x ∷ [])
  Handled-last x [] = inl refl
  Handled-last x (y ∷ ys) = inr (Handled-last x ys)

  -- What was handled stays so, and the handlers stay the same.
  record Keeps (h h' : MsgHandle H) : Type 0 where
    same_apis : h'.apis ≡ h.apis
    handled : (x : PkgAll × Option H) → Handled x h.handled → Handled x h'.handled

  Keeps-refl : (h : MsgHandle H) → Keeps h h
  Keeps-refl h = record { same_apis = refl; handled = λ x k. k }

  raw_deliver-Keeps :
      (pkg : PkgAll) (index : ℕ) (s : Pool H)
      → Keeps s.handle (after pkg s (raw_deliver pkg index s.handle)).handle
  unfolding raw_deliver
  raw_deliver-Keeps pkg index s =
      elim (Bool-cases
        (ltb (length (get_or s.handle.task_queue index [])) s.handle.max_worker_len)) [
          | inl e ↦ rw e (record { same_apis = refl; handled = λ x k. k })
          | inr e ↦ rw e (Keeps-refl s.handle)
        ]

  work_on-Keeps : (i : ℕ) (ps : List PkgAll) (h : MsgHandle H) → Keeps h (work_on i ps h)
  unfolding work_on
  work_on-Keeps i [] h = Keeps-refl h
  work_on-Keeps i (p ∷ ps) h = record {
    same_apis = refl;
    handled = λ x k. Handled-append x (p, api_of p h) h.handled k;
  }

  pool_step-Keeps : (s : Pool H) (e : Event) → Keeps s.handle (pool_step s e).handle
  unfolding pool_step deliver_to_msg_queue worker_loop
  pool_step-Keeps s (arrives pkg) = elim (Bool-cases (s.handle.pool_size == 0)) [
    | inl e ↦ rw e (Keeps-refl s.handle)
    | inr e ↦ rw e (raw_deliver-Keeps pkg (pkg.session_id % s.handle.pool_size) s)
  ]
  pool_step-Keeps s (works i) = work_on-Keeps i (get_or s.handle.task_queue i []) s.handle

  pool_run-Handled :
      (es : List Event) (s : Pool H) (x : PkgAll × Option H)
      → Handled x s.handle.handled
      → Handled x (pool_run s es).handle.handled
  unfolding pool_run
  pool_run-Handled [] s x h = h
  pool_run-Handled (e ∷ es) s x h =
      pool_run-Handled es (pool_step s e) x ((pool_step-Keeps s e).handled x h)

  -- The packet waits in the queue of the worker, behind some packets.
  abbrev Waits : ℕ → List PkgAll → PkgAll → Pool H → Type 0
  Waits i before p s = (rest : List PkgAll) × (get_or s.handle.task_queue i [] ≡ before ++ p ∷ rest)

  raw_deliver-Waits :
      (pkg : PkgAll) (index i : ℕ) (before : List PkgAll) (p : PkgAll) (s : Pool H)
      → Waits i before p s
      → Waits i before p (after pkg s (raw_deliver pkg index s.handle))
  unfolding raw_deliver
  raw_deliver-Waits pkg index i before p s (rest, e) =
      let q = s.handle.task_queue in
      let q' = get_or q index [] ++ pkg ∷ [] in
      elim (Bool-cases (ltb (length (get_or q index [])) s.handle.max_worker_len)) [
        | inr full ↦ rw full (rest, e)
        | inl room ↦ rw room (elim (Bool-cases (index == i)) [
          | inl same ↦
              let here : index ≡ i = ground (arith, same) in
              (
                rest ++ pkg ∷ [],
                ap (λ (k : ℕ). get_or (set q index q') k []) (sym here)
                    ∙ get_or-set_self q index q' []
                        (within q index before rest p (ap (λ (k : ℕ). get_or q k []) here ∙ e))
                    ∙ ap (λ (t : List PkgAll). t ++ pkg ∷ [])
                        (ap (λ (k : ℕ). get_or q k []) here ∙ e)
                    ∙ append_assoc before (p ∷ rest) (pkg ∷ []),
              )
          | inr other ↦
              let apart : index ≢ i = ground (arith, other) in
              (rest, get_or-set_ne q index i q' [] apart ∙ e)
        ])
      ]

  arrives-Waits :
      (pkg : PkgAll) (i : ℕ) (before : List PkgAll) (p : PkgAll) (s : Pool H)
      → Waits i before p s
      → Waits i before p (pool_step s (arrives pkg))
  unfolding pool_step deliver_to_msg_queue
  arrives-Waits pkg i before p s w = elim (Bool-cases (s.handle.pool_size == 0)) [
    | inl e ↦ rw e w
    | inr e ↦ rw e (raw_deliver-Waits pkg (pkg.session_id % s.handle.pool_size) i before p s w)
  ]

  -- Another worker leaves the queue as it is.
  other-Waits :
      (j i : ℕ) (before : List PkgAll) (p : PkgAll) (s : Pool H)
      → j ≢ i
      → Waits i before p s
      → Waits i before p (pool_step s (works j))
  unfolding pool_step worker_loop
  other-Waits j i before p s apart (rest, e) = (rest, queue_after (get_or s.handle.task_queue j []))
    where
      queue_after :
          (ps : List PkgAll) → get_or (work_on j ps s.handle).task_queue i [] ≡ before ++ p ∷ rest
      queue_after [] = unfold work_on in e
      queue_after (x ∷ ps) = unfold work_on in get_or-set_ne s.handle.task_queue j i ps [] apart ∙ e

  -- The worker takes the first packet.
  first-Waits :
      (i : ℕ) (b : PkgAll) (before : List PkgAll) (p : PkgAll) (s : Pool H)
      → Waits i (b ∷ before) p s
      → Waits i before p (pool_step s (works i))
  unfolding pool_step worker_loop work_on
  first-Waits i b before p s (rest, e) = (
    rest,
    ap (λ (ps : List PkgAll). get_or (work_on i ps s.handle).task_queue i []) e
        ∙ get_or-set_self s.handle.task_queue i (before ++ p ∷ rest) []
            (within s.handle.task_queue i (b ∷ before) rest p e),
  )

  first-Handled :
      (i : ℕ) (p : PkgAll) (s : Pool H)
      → Waits i [] p s
      → Handled (p, api_of p s.handle) (pool_step s (works i)).handle.handled
  unfolding pool_step worker_loop work_on
  first-Handled i p s (rest, e) =
      subst (λ (ps : List PkgAll). Handled (p, api_of p s.handle) (work_on i ps s.handle).handled)
        (sym e) (Handled-last (p, api_of p s.handle) s.handle.handled)

  api_of-step :
      (s : Pool H) (e : Event) (p : PkgAll) → api_of p (pool_step s e).handle ≡ api_of p s.handle
  unfolding api_of
  api_of-step s e p = ap (lookup p.pdata.msg_id) (pool_step-Keeps s e).same_apis

  -- A packet that waits in the queue of a worker, behind any others: in any order of arrivals and
  -- runs of the workers in which that worker runs more often than there are packets before it, the
  -- packet is handled, by the handler of its message.
  pub pool_run-Served :
      (es : List Event) (s : Pool H) (i : ℕ) (before rest : List PkgAll) (p : PkgAll)
      → get_or s.handle.task_queue i [] ≡ before ++ p ∷ rest
      → length before < runs_of i es
      → Handled (p, api_of p s.handle) (pool_run s es).handle.handled
  unfolding pool_run
  pool_run-Served [] s i before rest p e h = absurd (omega arith)
  pool_run-Served (arrives pkg ∷ es) s i before rest p e h =
      let (rest', e') = arrives-Waits pkg i before p s (rest, e) in
      subst
        (λ (o : Option H). Handled (p, o) (pool_run (pool_step s (arrives pkg)) es).handle.handled)
        (api_of-step s (arrives pkg) p)
        (pool_run-Served es (pool_step s (arrives pkg)) i before rest' p e' h)
  pool_run-Served (works j ∷ es) s i [] rest p e h = elim (Bool-cases (j == i)) [
    | inl same ↦
        let here : i ≡ j = ground (arith, same) in
        pool_run-Handled es (pool_step s (works j)) (p, api_of p s.handle)
          (subst (λ (k : ℕ). Handled (p, api_of p s.handle) (pool_step s (works k)).handle.handled)
            here (first-Handled i p s (rest, e)))
    | inr other ↦
        let apart : j ≢ i = ground (arith, other) in
        let (rest', e') = other-Waits j i [] p s apart (rest, e) in
        subst
          (λ (o : Option H). Handled (p, o) (pool_run (pool_step s (works j)) es).handle.handled)
          (api_of-step s (works j) p)
          (pool_run-Served es (pool_step s (works j)) i [] rest' p e' (ground (arith, h, other)))
  ]
  pool_run-Served (works j ∷ es) s i (b ∷ before) rest p e h = elim (Bool-cases (j == i)) [
    | inl same ↦
        let here : i ≡ j = ground (arith, same) in
        let (rest', e') =
          subst (λ (k : ℕ). Waits i before p (pool_step s (works k))) here
            (first-Waits i b before p s (rest, e)) in
        subst
          (λ (o : Option H). Handled (p, o) (pool_run (pool_step s (works j)) es).handle.handled)
          (api_of-step s (works j) p)
          (pool_run-Served es (pool_step s (works j)) i before rest' p e' (ground (arith, h, same)))
    | inr other ↦
        let apart : j ≢ i = ground (arith, other) in
        let (rest', e') = other-Waits j i (b ∷ before) p s apart (rest, e) in
        subst
          (λ (o : Option H). Handled (p, o) (pool_run (pool_step s (works j)) es).handle.handled)
          (api_of-step s (works j) p)
          (pool_run-Served es (pool_step s (works j)) i (b ∷ before) rest' p e'
            (ground (arith, h, other)))
  ]
