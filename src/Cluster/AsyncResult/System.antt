-- ===== src/Cluster/AsyncResult/System.antt =====
-- cluster/asyncresult.go, with its steps interleaved: `FillAsyncResult` looks its key up, removes it
-- and sends in three steps of its own lock, and a caller waits, times out and gives up between them.
use my_cluster.Common.{
  ℕ, ◌≡◌, Bool, true, false, List, [], ◌∷◌, ◌++◌, none, some, lookup, nat_eq, ◌⊎◌,
}
use my_cluster.Cluster.AsyncResult.{
  waiting, closed, AsyncResultMgr, is_set, get_key, new_mgr, add, remove, get_async_result,
  set_result, get_result, time_out,
}

-- A `FillAsyncResult` that has found the result of its key, and whether it has removed the key.
pub record Filler (D : Type 0) : Type 0 where
  pub key : ℕ
  pub result : ℕ
  pub data_in : D
  pub removed : Bool

pub record System (D : Type 0) : Type 0 where
  pub mgr : AsyncResultMgr D
  pub fillers : List (Filler D)
  -- For the specification: the responses that arrived, with their keys, and the results returned.
  pub arrived : List (ℕ × D)
  pub returned : List (ℕ × D)

-- An item stands in a list.
abbrev pub Has : {A : Type 0} → A → List A → Type 0
Has x [] = ⊥
Has x (y ∷ ys) = (x ≡ y) ⊎ Has x ys

module _ {D : Type 0} where
  -- One step of a caller or of a `FillAsyncResult`.
  pub data Step (s : System D) : System D → Type 0 where
    adds : Step s (record s { mgr = add s.mgr })
    finds :
        (key r : ℕ) (d : D)
        → get_async_result key s.mgr ≡ some r
        → Step s (record s {
          fillers = record { key = key; result = r; data_in = d; removed = false } ∷ s.fillers;
          arrived = (key, d) ∷ s.arrived;
        })
    misses :
        (key : ℕ) (d : D)
        → get_async_result key s.mgr ≡ none
        → Step s (record s { arrived = (key, d) ∷ s.arrived })
    removes :
        (f : Filler D) (xs ys : List (Filler D))
        → s.fillers ≡ xs ++ f ∷ ys
        → f.removed ≡ false
        → Step s (record s {
          mgr = remove f.key s.mgr;
          fillers = xs ++ record f { removed = true } ∷ ys;
        })
    sets :
        (f : Filler D) (xs ys : List (Filler D)) (m : AsyncResultMgr D)
        → s.fillers ≡ xs ++ f ∷ ys
        → f.removed ≡ true
        → set_result f.result f.data_in s.mgr ≡ is_set m
        → Step s (record s { mgr = m; fillers = xs ++ ys })
    returns :
        (r : ℕ) (d : D) (m : AsyncResultMgr D)
        → get_result r s.mgr ≡ some (d, m)
        → Step s (record s { mgr = m; returned = (r, d) ∷ s.returned })
    times_out :
        (r : ℕ) → lookup r s.mgr.cells ≡ some waiting → Step s (record s { mgr = time_out r s.mgr })
    gives_up :
        (r : ℕ)
        → lookup r s.mgr.cells ≡ some closed
        → Step s (record s { mgr = remove (get_key r) s.mgr })

  pub data Reach (s : System D) : System D → Type 0 where
    here : Reach s s
    next : {t u : System D} → Reach s t → Step t u → Reach s u

  abbrev pub start : System D
  start = record { mgr = new_mgr; fillers = []; arrived = []; returned = [] }
