-- ===== src/Cluster/AsyncResult/Race.antt =====
-- cluster/asyncresult.go: a call that is answered in time, and a response that meets a timeout.
use my_cluster.Common.{
  ℕ, ◌≡◌, refl, ap, ◌∙◌, true, false, [], ◌∷◌, none, some, lookup, insert, delete, nat_eq,
  lookup-insert, lookup-delete, beq_refl, inl,
}
use my_cluster.Cluster.AsyncResult.{
  waiting, closed, filled, AsyncResultMgr, is_set, panics, not_found, get_key, add, remove,
  get_async_result, set_cell, set_in, set_result, received, get_result, time_out, fill_at,
  fill_async_result,
}
use my_cluster.Cluster.AsyncResult.System.{
  Filler, System, Has, finds, removes, times_out, Reach, here, next,
}

module _ {D : Type 0} where
  -- The manager after a response to the result that was added last.
  abbrev pub answered : AsyncResultMgr D → D → AsyncResultMgr D
  answered m d = set_cell m.added (filled d) (remove (get_key m.added) (add m))

  -- A response to the call that was made last, with nothing between its steps: it fills the result,
  -- `GetResult` then returns exactly its data, and a second response to the same key is refused.
  pub add-fill_async_result :
      (m : AsyncResultMgr D) (d d' : D)
      → (fill_async_result (get_key m.added) d (add m) ≡ is_set (answered m d))
        × (get_result m.added (answered m d) ≡ some (d, set_cell m.added waiting (answered m d)))
        × (fill_async_result (get_key m.added) d' (answered m d) ≡ not_found)
  unfolding fill_async_result get_async_result add set_result remove get_result set_cell
  add-fill_async_result m d d' =
      let key = get_key m.added in
      let found : lookup key (insert key m.added m.results) ≡ some m.added =
        lookup-insert key key m.added m.results ∙ rw (beq_refl key) refl in
      let gone : lookup key (delete key (insert key m.added m.results)) ≡ none =
        lookup-delete key key (insert key m.added m.results) ∙ rw (beq_refl key) refl in
      let open_cell : lookup m.added (insert m.added waiting m.cells) ≡ some waiting =
        lookup-insert m.added m.added waiting m.cells ∙ rw (beq_refl m.added) refl in
      let full_cell : lookup m.added (insert m.added (filled d) (insert m.added waiting m.cells))
          ≡ some (filled d) =
        lookup-insert m.added m.added (filled d) (insert m.added waiting m.cells)
        ∙ rw (beq_refl m.added) refl in
      (
        ap (fill_at key d (add m)) found
            ∙ unfold fill_at in
              ap (set_in m.added d (remove key (add m))) open_cell ∙ unfold set_in in refl,
        ap (received m.added (answered m d)) full_cell ∙ unfold received in refl,
        ap (fill_at key d' (answered m d)) gone ∙ unfold fill_at in refl,
      )

  late_send :
      (r key : ℕ) (d : D) (m : AsyncResultMgr D)
      → set_result r d (remove key (time_out r m)) ≡ panics
  unfolding set_result remove time_out set_cell set_in
  late_send r key d m =
      let shut : lookup r (insert r closed m.cells) ≡ some closed =
        lookup-insert r r closed m.cells ∙ rw (beq_refl r) refl in
      ap (set_in r d (remove key (time_out r m))) shut

  -- In every state in which a caller still waits for a result that is registered under a key, a
  -- response to the key and the caller's timeout can interleave so that the response is sent on the
  -- channel that the timeout has closed, which panics.
  pub timeout_race :
      (s : System D) (key r : ℕ) (d : D)
      → get_async_result key s.mgr ≡ some r
      → lookup r s.mgr.cells ≡ some waiting
      → (t : System D) × (f : Filler D) × Reach s t
        × Has f t.fillers
        × (f.removed ≡ true)
        × (set_result f.result f.data_in t.mgr ≡ panics)
  timeout_race s key r d registered waits =
      let f : Filler D = record { key = key; result = r; data_in = d; removed = false } in
      let found = record s { fillers = f ∷ s.fillers; arrived = (key, d) ∷ s.arrived } in
      let late = record found { mgr = time_out r s.mgr } in
      let gone = record late {
        mgr = remove key late.mgr;
        fillers = record f { removed = true } ∷ s.fillers;
      } in
      let r1 : Reach s found = next here (finds key r d registered) in
      let r2 : Reach s late = next r1 (times_out r waits) in
      let r3 : Reach s gone = next r2 (removes f [] s.fillers refl refl) in
      (gone, record f { removed = true }, r3, inl refl, refl, late_send r key d s.mgr)
