-- ===== src/Fnet/MsgHandle/Order.antt =====
-- fnet/msghandle.go: the order in which the packets of one connection are handled.
use my_cluster.Common.{
  ℕ, ◌%◌, ◌<◌, ◌≡◌, ◌≢◌, refl, ap, sym, subst, ◌∙◌, false, List, [], ◌∷◌, ◌++◌, Option, ltb, ◌==◌,
  get_or, set, length, length-set, get_or-set_self, get_or-set_ne, length-replicate,
  get_or-replicate, arith, Bool-cases, inl, inr,
}
use my_cluster.Fnet.MsgHandle.{
  PkgAll, net, MsgHandle, Delivered, queued, dropped, blocks, panics, new_msg_handle, raw_deliver,
  deliver_to_msg_queue, api_of, work_on, worker_loop,
}
use my_cluster.Fnet.MsgHandle.Queues.{
  of_session, select-append, select-first, select-other, get_or-within, push_same, push_other,
  pop_same, pop_other,
}

-- What happens at a net node: a packet is delivered, or a worker takes one.
pub data Event : Type 0 where
  arrives : PkgAll → Event
  works : ℕ → Event

-- The handle, and the packets that were queued so far. A delivery that blocks has not happened.
pub record Pool (H : Type 0) : Type 0 where
  pub handle : MsgHandle H
  pub accepted : List PkgAll

module _ {H : Type 0} where
  abbrev pub after : PkgAll → Pool H → Delivered H → Pool H
  after pkg s (queued h) = record { handle = h; accepted = s.accepted ++ pkg ∷ [] }
  after pkg s dropped = s
  after pkg s blocks = s
  after pkg s panics = s

  unfoldable pub pool_step : Pool H → Event → Pool H
  pool_step s (arrives pkg) = after pkg s (deliver_to_msg_queue net pkg s.handle)
  pool_step s (works i) = record s { handle = worker_loop i s.handle }

  unfoldable pub pool_run : Pool H → List Event → Pool H
  pool_run s [] = s
  pool_run s (e ∷ es) = pool_run (pool_step s e) es

  abbrev pub taken : List (PkgAll × Option H) → List PkgAll
  taken [] = []
  taken (x ∷ xs) = x.0 ∷ taken xs

  taken-append :
      (xs : List (PkgAll × Option H)) (p : PkgAll) (o : Option H)
      → taken (xs ++ (p, o) ∷ []) ≡ taken xs ++ p ∷ []
  taken-append [] p o = refl
  taken-append (x ∷ xs) p o = ap (◌∷◌ x.0) (taken-append xs p o)

  -- What was taken of a session, with what waits in its queue, is what was accepted; the other
  -- queues have nothing of it.
  record IsPool (s : Pool H) : Type 0 where
    some_worker : 0 < s.handle.pool_size
    all_queues : length s.handle.task_queue ≡ s.handle.pool_size
    in_order :
        (sid : ℕ)
        → of_session sid (taken s.handle.handled)
            ++ of_session sid (get_or s.handle.task_queue (sid % s.handle.pool_size) [])
          ≡ of_session sid s.accepted
    elsewhere :
        (sid i : ℕ)
        → i ≢ sid % s.handle.pool_size
        → of_session sid (get_or s.handle.task_queue i []) ≡ []

  deliver-IsPool :
      (pkg : PkgAll) (s : Pool H)
      → IsPool s
      → IsPool (after pkg s (raw_deliver pkg (pkg.session_id % s.handle.pool_size) s.handle))
  unfolding raw_deliver
  deliver-IsPool pkg s v =
      let h = s.handle in
      let index = pkg.session_id % h.pool_size in
      let q = get_or h.task_queue index [] in
      let within : index < length h.task_queue = omega (arith, v.all_queues, v.some_worker) in
      let q' = q ++ pkg ∷ [] in
      elim (Bool-cases (ltb (length q) h.max_worker_len)) [
        | inr e ↦ rw e v
        | inl e ↦ rw e (record {
          some_worker = v.some_worker;
          all_queues = length-set h.task_queue index q' ∙ v.all_queues;
          in_order = λ sid. elim (Bool-cases (index == sid % h.pool_size)) [
            | inl e' ↦
                let same : index ≡ sid % h.pool_size = ground (arith, e') in
                subst
                  (λ k.
                    of_session sid (taken h.handled)
                      ++ of_session sid (get_or (set h.task_queue index q') k [])
                    ≡ of_session sid (s.accepted ++ pkg ∷ []))
                  same
                  (push_same sid index pkg h.task_queue (taken h.handled) s.accepted within (
                    ap
                      (λ k.
                        of_session sid (taken h.handled)
                        ++ of_session sid (get_or h.task_queue k []))
                      same
                    ∙ v.in_order sid))
            | inr e' ↦
                let other : index ≢ sid % h.pool_size = ground (arith, e') in
                push_other sid index (sid % h.pool_size) pkg h.task_queue (taken h.handled)
                  s.accepted other (λ eq. other (ap (λ (k : ℕ). k % h.pool_size) eq))
                  (v.in_order sid)
          ];
          elsewhere = λ sid i ne. elim (Bool-cases (index == i)) [
            | inl e' ↦
                let same : index ≡ i = ground (arith, e') in
                let off : pkg.session_id ≢ sid =
                  λ eq. ne (sym same ∙ ap (λ (k : ℕ). k % h.pool_size) eq) in
                ap (λ k. of_session sid (get_or (set h.task_queue index q') k [])) (sym same)
                ∙ ap (of_session sid) (get_or-set_self h.task_queue index q' [] within)
                ∙ select-append sid q (pkg ∷ [])
                ∙ ap (λ x. x ++ of_session sid (pkg ∷ []))
                    (v.elsewhere sid index (λ eq. ne (sym same ∙ eq)))
                ∙ select-other sid pkg off
            | inr e' ↦
                let other : index ≢ i = ground (arith, e') in
                ap (of_session sid) (get_or-set_ne h.task_queue index i q' [] other)
                ∙ v.elsewhere sid i ne
          ];
        })
      ]

  work_on-IsPool :
      (i : ℕ) (s : Pool H) (ps : List PkgAll)
      → IsPool s
      → get_or s.handle.task_queue i [] ≡ ps
      → IsPool (record s { handle = work_on i ps s.handle })
  unfolding work_on
  work_on-IsPool i s [] v e = v
  work_on-IsPool i s (p ∷ ps) v e =
      let h = s.handle in
      let within = get_or-within h.task_queue i p ps e in
      let none_left : (sid : ℕ)
          → i ≢ sid % h.pool_size
          → (of_session sid (p ∷ []) ≡ []) × (of_session sid ps ≡ []) =
        λ sid ne. select-first sid p ps (ap (of_session sid) (sym e) ∙ v.elsewhere sid i ne) in
      record {
        some_worker = v.some_worker;
        all_queues = length-set h.task_queue i ps ∙ v.all_queues;
        in_order = λ sid.
            ap
              (λ x.
                of_session sid x
                ++ of_session sid (get_or (set h.task_queue i ps) (sid % h.pool_size) []))
              (taken-append h.handled p (api_of p h))
            ∙ elim (Bool-cases (i == sid % h.pool_size)) [
              | inl e' ↦
                  let same : i ≡ sid % h.pool_size = ground (arith, e') in
                  subst
                    (λ k.
                      of_session sid (taken h.handled ++ p ∷ [])
                        ++ of_session sid (get_or (set h.task_queue i ps) k [])
                      ≡ of_session sid s.accepted)
                    same
                    (pop_same sid i p ps h.task_queue (taken h.handled) s.accepted within (
                      ap (λ x. of_session sid (taken h.handled) ++ of_session sid x)
                        (sym e ∙ ap (λ k. get_or h.task_queue k []) same)
                      ∙ v.in_order sid))
              | inr e' ↦
                  let other : i ≢ sid % h.pool_size = ground (arith, e') in
                  pop_other sid i (sid % h.pool_size) p ps h.task_queue (taken h.handled) s.accepted
                    other (none_left sid other).0 (v.in_order sid)
            ];
        elsewhere = λ sid k ne. elim (Bool-cases (i == k)) [
          | inl e' ↦
              let same : i ≡ k = ground (arith, e') in
              ap (λ j. of_session sid (get_or (set h.task_queue i ps) j [])) (sym same)
              ∙ ap (of_session sid) (get_or-set_self h.task_queue i ps [] within)
              ∙ (none_left sid (λ eq. ne (sym same ∙ eq))).1
          | inr e' ↦
              let other : i ≢ k = ground (arith, e') in
              ap (of_session sid) (get_or-set_ne h.task_queue i k ps [] other)
              ∙ v.elsewhere sid k ne
        ];
      }

  pool_step-IsPool : (s : Pool H) (e : Event) → IsPool s → IsPool (pool_step s e)
  unfolding pool_step deliver_to_msg_queue worker_loop
  pool_step-IsPool s (arrives pkg) v =
      let has_worker : (s.handle.pool_size == 0) ≡ false = ground (arith, v.some_worker) in
      rw has_worker (deliver-IsPool pkg s v)
  pool_step-IsPool s (works i) v = work_on-IsPool i s (get_or s.handle.task_queue i []) v refl

  pool_run-IsPool : (s : Pool H) (es : List Event) → IsPool s → IsPool (pool_run s es)
  unfolding pool_run
  pool_run-IsPool s [] v = v
  pool_run-IsPool s (e ∷ es) v = pool_run-IsPool (pool_step s e) es (pool_step-IsPool s e v)

  abbrev pub new_pool : ℕ → ℕ → List (ℕ × H) → Pool H
  new_pool pool_size max_len apis = record {
    handle = new_msg_handle net pool_size max_len apis;
    accepted = [];
  }

  new_pool-IsPool :
      (pool_size max_len : ℕ) (apis : List (ℕ × H))
      → 0 < pool_size
      → IsPool (new_pool pool_size max_len apis)
  unfolding new_msg_handle
  new_pool-IsPool pool_size max_len apis p = record {
    some_worker = p;
    all_queues = length-replicate pool_size [];
    in_order = λ sid. ap (of_session sid) (get_or-replicate pool_size (sid % pool_size) []);
    elsewhere = λ sid i ne. ap (of_session sid) (get_or-replicate pool_size i []);
  }

  -- On a net node with workers, in any order in which packets arrive and workers take them: the
  -- packets of a connection that were handled, followed by those of it that wait in the queue of its
  -- worker, are the packets of it that were queued, in that order.
  pub pool_run-order :
      (pool_size max_len : ℕ) (apis : List (ℕ × H)) (es : List Event) (sid : ℕ)
      → 0 < pool_size
      → let s = pool_run (new_pool pool_size max_len apis) es in
        of_session sid (taken s.handle.handled)
          ++ of_session sid (get_or s.handle.task_queue (sid % s.handle.pool_size) [])
        ≡ of_session sid s.accepted
  pool_run-order pool_size max_len apis es sid p =
      (pool_run-IsPool (new_pool pool_size max_len apis) es
          (new_pool-IsPool pool_size max_len apis p)).in_order
        sid
