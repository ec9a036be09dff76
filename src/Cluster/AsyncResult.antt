-- ===== src/Cluster/AsyncResult.antt =====
-- cluster/asyncresult.go: the results that remote calls wait for. An AsyncResult is known by the
-- number of the `Add` that made it, and its key by the number behind the common prefix, which is the
-- one that the generator gave that `Add`.
pub mod System
pub mod Delivery
pub mod Race
use my_cluster.Common.{
  ℕ, zero, suc, ◌+◌, ◌≡◌, refl, Bool, true, false, List, [], ◌∷◌, Option, none, some, lookup,
  insert, delete, nat_eq,
}
use my_cluster.Ids.{uuid}

-- The channel of an AsyncResult, which holds one result.
pub data Cell (D : Type 0) : Type 0 where
  waiting closed : Cell D
  filled : D → Cell D

pub record AsyncResultMgr (D : Type 0) : Type 0 where
  pub added : ℕ
  pub results : List (ℕ × ℕ)
  pub cells : List (ℕ × Cell D)

pub data SetOutcome (D : Type 0) : Type 0 where
  is_set : AsyncResultMgr D → SetOutcome D
  blocks panics not_found : SetOutcome D

abbrev pub get_key : ℕ → ℕ
get_key r = uuid r

module _ {D : Type 0} where
  unfoldable pub new_mgr : AsyncResultMgr D
  new_mgr = record { added = 0; results = []; cells = [] }

  -- The result that was added is the number `m.added`.
  unfoldable pub add : AsyncResultMgr D → AsyncResultMgr D
  add m = record {
    added = m.added + 1;
    results = insert (get_key m.added) m.added m.results;
    cells = insert m.added waiting m.cells;
  }

  unfoldable pub remove : ℕ → AsyncResultMgr D → AsyncResultMgr D
  remove key m = record m { results = delete key m.results }

  unfoldable pub get_async_result : ℕ → AsyncResultMgr D → Option ℕ
  get_async_result key m = lookup key m.results

  unfoldable pub set_cell : ℕ → Cell D → AsyncResultMgr D → AsyncResultMgr D
  set_cell r c m = record m { cells = insert r c m.cells }

  -- A send on a channel that is full waits for a receiver; one on a closed channel panics.
  unfoldable pub set_in : ℕ → D → AsyncResultMgr D → Option (Cell D) → SetOutcome D
  set_in r d m none = blocks
  set_in r d m (some waiting) = is_set (set_cell r (filled d) m)
  set_in r d m (some (filled _)) = blocks
  set_in r d m (some closed) = panics

  unfoldable pub set_result : ℕ → D → AsyncResultMgr D → SetOutcome D
  set_result r d m = set_in r d m (lookup r m.cells)

  -- The branch of `GetResult` that receives.
  unfoldable pub received : ℕ → AsyncResultMgr D → Option (Cell D) → Option (D × AsyncResultMgr D)
  received r m (some (filled d)) = some (d, set_cell r waiting m)
  received r m _ = none

  unfoldable pub get_result : ℕ → AsyncResultMgr D → Option (D × AsyncResultMgr D)
  get_result r m = received r m (lookup r m.cells)

  -- The branch of `GetResult` for a timeout; its caller then removes the key.
  unfoldable pub time_out : ℕ → AsyncResultMgr D → AsyncResultMgr D
  time_out r m = set_cell r closed m

  -- `FillAsyncResult`, when nothing else runs between its steps.
  unfoldable pub fill_at : ℕ → D → AsyncResultMgr D → Option ℕ → SetOutcome D
  fill_at key d m none = not_found
  fill_at key d m (some r) = set_result r d (remove key m)

  unfoldable pub fill_async_result : ℕ → D → AsyncResultMgr D → SetOutcome D
  fill_async_result key d m = fill_at key d m (get_async_result key m)
