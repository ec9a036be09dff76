-- ===== src/Cluster/AsyncResult/Delivery.antt =====
-- cluster/asyncresult.go: which response a caller gets, in every interleaving.
use my_cluster.Common.{
  ℕ, ◌≡◌, ap, sym, subst, ◌∙◌, true, List, [], ◌∷◌, ◌++◌, Option, none, some, lookup, insert,
  nat_eq, ◌==◌, lookup-insert, lookup-delete, some_inj, arith, Bool-cases, inl, inr,
}
use my_cluster.Cluster.AsyncResult.{
  Cell, waiting, closed, filled, AsyncResultMgr, is_set, get_key, new_mgr, add, remove,
  get_async_result, set_cell, set_in, set_result, received, get_result, time_out,
}
use my_cluster.Cluster.AsyncResult.System.{
  Filler, System, Has, Step, adds, finds, misses, removes, sets, returns, times_out, gives_up,
  Reach, here, next, start,
}

module _ {D : Type 0} where
  abbrev AllFillers : List (ℕ × D) → List (Filler D) → Type 0
  AllFillers arrived [] = Unit
  AllFillers arrived (f ∷ fs) = Has (get_key f.result, f.data_in) arrived × AllFillers arrived fs

  -- Every result came in a response with its key.
  abbrev pub AllArrived : List (ℕ × D) → List (ℕ × D) → Type 0
  AllArrived arrived [] = Unit
  AllArrived arrived (x ∷ xs) = Has (get_key x.0, x.1) arrived × AllArrived arrived xs

  abbrev CellArrived : List (ℕ × D) → ℕ → Option (Cell D) → Type 0
  CellArrived arrived r (some (filled d)) = Has (get_key r, d) arrived
  CellArrived arrived r _ = Unit

  record IsValid (s : System D) : Type 0 where
    keys_right : (key r : ℕ) → get_async_result key s.mgr ≡ some r → get_key r ≡ key
    fillers_right : AllFillers s.arrived s.fillers
    cells_right : (r : ℕ) → CellArrived s.arrived r (lookup r s.mgr.cells)
    returned_right : AllArrived s.arrived s.returned

  AllFillers-more :
      (x : ℕ × D) (arrived : List (ℕ × D)) (fs : List (Filler D))
      → AllFillers arrived fs
      → AllFillers (x ∷ arrived) fs
  AllFillers-more x arrived [] h = tt
  AllFillers-more x arrived (f ∷ fs) h = (inr h.0, AllFillers-more x arrived fs h.1)

  AllArrived-more :
      (x : ℕ × D) (arrived xs : List (ℕ × D)) → AllArrived arrived xs → AllArrived (x ∷ arrived) xs
  AllArrived-more x arrived [] h = tt
  AllArrived-more x arrived (y ∷ xs) h = (inr h.0, AllArrived-more x arrived xs h.1)

  CellArrived-more :
      (x : ℕ × D) (arrived : List (ℕ × D)) (r : ℕ) (c : Option (Cell D))
      → CellArrived arrived r c
      → CellArrived (x ∷ arrived) r c
  CellArrived-more x arrived r none h = tt
  CellArrived-more x arrived r (some waiting) h = tt
  CellArrived-more x arrived r (some closed) h = tt
  CellArrived-more x arrived r (some (filled d)) h = inr h

  AllFillers-split :
      (arrived : List (ℕ × D)) (f : Filler D) (xs ys : List (Filler D))
      → AllFillers arrived (xs ++ f ∷ ys)
      → Has (get_key f.result, f.data_in) arrived
        × AllFillers arrived (xs ++ ys)
        × AllFillers arrived (xs ++ record f { removed = true } ∷ ys)
  AllFillers-split arrived f [] ys h = (h.0, h.1, h)
  AllFillers-split arrived f (x ∷ xs) ys h =
      let rest = AllFillers-split arrived f xs ys h.1 in (rest.0, (h.0, rest.1), (h.0, rest.2))

  add-keys :
      (m : AsyncResultMgr D)
      → ((key r : ℕ) → get_async_result key m ≡ some r → get_key r ≡ key)
      → (key r : ℕ) → get_async_result key (add m) ≡ some r
      → get_key r ≡ key
  unfolding add get_async_result
  add-keys m h key r e =
      let at_key = sym (lookup-insert (get_key m.added) key m.added m.results) ∙ e in
      elim (Bool-cases (get_key m.added == key)) [
        | inl e' ↦
            let same : m.added ≡ r = some_inj m.added r (rw e' at at_key) in
            let its : get_key m.added ≡ key = ground (arith, e') in ap get_key (sym same) ∙ its
        | inr e' ↦ h key r (rw e' at at_key)
      ]

  remove-keys :
      (m : AsyncResultMgr D) (gone : ℕ)
      → ((key r : ℕ) → get_async_result key m ≡ some r → get_key r ≡ key)
      → (key r : ℕ) → get_async_result key (remove gone m) ≡ some r
      → get_key r ≡ key
  unfolding remove get_async_result
  remove-keys m gone h key r e =
      let at_key = sym (lookup-delete gone key m.results) ∙ e in
      elim (Bool-cases (gone == key)) [
        | inl e' ↦ absurd (nothing (rw e' at at_key))
        | inr e' ↦ h key r (rw e' at at_key)
      ]
    where
      nothing : none ≡ some r → ⊥
      nothing e = cc

  cells-set :
      (arrived : List (ℕ × D)) (cells : List (ℕ × Cell D)) (k : ℕ) (c : Cell D)
      → CellArrived arrived k (some c)
      → ((r : ℕ) → CellArrived arrived r (lookup r cells))
      → (r : ℕ) → CellArrived arrived r (lookup r (insert k c cells))
  cells-set arrived cells k c hc h r =
      subst (CellArrived arrived r) (sym (lookup-insert k r c cells)) (elim (Bool-cases (k == r)) [
        | inl e ↦ rw e (
            let same : k ≡ r = ground (arith, e) in
            subst (λ j. CellArrived arrived j (some c)) same hc)
        | inr e ↦ rw e (h r)
      ])

  set_in-is_set :
      (r : ℕ) (d : D) (m m' : AsyncResultMgr D) (o : Option (Cell D))
      → set_in r d m o ≡ is_set m'
      → set_cell r (filled d) m ≡ m'
  unfolding set_in
  set_in-is_set r d m m' none e = cc
  set_in-is_set r d m m' (some waiting) e = cc
  set_in-is_set r d m m' (some closed) e = cc
  set_in-is_set r d m m' (some (filled _)) e = cc

  received-some :
      (r : ℕ) (d : D) (m m' : AsyncResultMgr D) (o : Option (Cell D))
      → received r m o ≡ some (d, m')
      → (o ≡ some (filled d)) × (set_cell r waiting m ≡ m')
  unfolding received
  received-some r d m m' none e = cc
  received-some r d m m' (some waiting) e = cc
  received-some r d m m' (some closed) e = cc
  received-some r d m m' (some (filled _)) e = (cc, cc)

  Step-IsValid : {s t : System D} → Step s t → IsValid s → IsValid t
  Step-IsValid {s = s} adds v = record {
    keys_right = add-keys s.mgr v.keys_right;
    fillers_right = v.fillers_right;
    cells_right =
        unfold add in cells-set s.arrived s.mgr.cells s.mgr.added waiting tt v.cells_right;
    returned_right = v.returned_right;
  }
  Step-IsValid {s = s} (finds key r d e) v = record {
    keys_right = v.keys_right;
    fillers_right = (
      inl (ap (λ k. (k, d)) (v.keys_right key r e)),
      AllFillers-more (key, d) s.arrived s.fillers v.fillers_right,
    );
    cells_right = λ q. CellArrived-more (key, d) s.arrived q _ (v.cells_right q);
    returned_right = AllArrived-more (key, d) s.arrived s.returned v.returned_right;
  }
  Step-IsValid {s = s} (misses key d e) v = record {
    keys_right = v.keys_right;
    fillers_right = AllFillers-more (key, d) s.arrived s.fillers v.fillers_right;
    cells_right = λ q. CellArrived-more (key, d) s.arrived q _ (v.cells_right q);
    returned_right = AllArrived-more (key, d) s.arrived s.returned v.returned_right;
  }
  Step-IsValid {s = s} (removes f xs ys e still) v = record {
    keys_right = remove-keys s.mgr f.key v.keys_right;
    fillers_right =
        (AllFillers-split s.arrived f xs ys (subst (AllFillers s.arrived) e v.fillers_right)).2;
    cells_right = unfold remove in v.cells_right;
    returned_right = v.returned_right;
  }
  Step-IsValid {s = s} (sets f xs ys m e gone done) v =
      let parts =
        AllFillers-split s.arrived f xs ys (subst (AllFillers s.arrived) e v.fillers_right) in
      let m_is =
        set_in-is_set f.result f.data_in s.mgr m (lookup f.result s.mgr.cells)
          (unfold set_result in done) in
      subst (λ k. IsValid (record s { mgr = k; fillers = xs ++ ys })) m_is
        (record {
          keys_right = unfold set_cell get_async_result in v.keys_right;
          fillers_right = parts.1;
          cells_right =
              unfold set_cell in
              cells-set s.arrived s.mgr.cells f.result (filled f.data_in) parts.0 v.cells_right;
          returned_right = v.returned_right;
        })
  Step-IsValid {s = s} (returns r d m e) v =
      let got = received-some r d s.mgr m (lookup r s.mgr.cells) (unfold get_result in e) in
      subst (λ k. IsValid (record s { mgr = k; returned = (r, d) ∷ s.returned })) got.1
        (record {
          keys_right = unfold set_cell get_async_result in v.keys_right;
          fillers_right = v.fillers_right;
          cells_right =
              unfold set_cell in cells-set s.arrived s.mgr.cells r waiting tt v.cells_right;
          returned_right =
              (subst (CellArrived s.arrived r) got.0 (v.cells_right r), v.returned_right);
        })
  Step-IsValid {s = s} (times_out r e) v = record {
    keys_right = unfold time_out set_cell get_async_result in v.keys_right;
    fillers_right = v.fillers_right;
    cells_right =
        unfold time_out set_cell in cells-set s.arrived s.mgr.cells r closed tt v.cells_right;
    returned_right = v.returned_right;
  }
  Step-IsValid {s = s} (gives_up r e) v = record {
    keys_right = remove-keys s.mgr (get_key r) v.keys_right;
    fillers_right = v.fillers_right;
    cells_right = unfold remove in v.cells_right;
    returned_right = v.returned_right;
  }

  start-IsValid : IsValid start
  unfolding new_mgr get_async_result lookup
  start-IsValid = record {
    keys_right = λ key r e. cc;
    fillers_right = tt;
    cells_right = λ r. tt;
    returned_right = tt;
  }

  Reach-IsValid : {s : System D} → Reach start s → IsValid s
  Reach-IsValid here = start-IsValid
  Reach-IsValid (next r st) = Step-IsValid st (Reach-IsValid r)

  -- In every interleaving of calls, responses, timeouts and the steps of `FillAsyncResult`, each
  -- result that `GetResult` returns is the one of a response that arrived with the caller's key.
  pub Reach-AllArrived : (s : System D) → Reach start s → AllArrived s.arrived s.returned
  Reach-AllArrived s r = (Reach-IsValid r).returned_right
