-- ===== src/Fnet/MsgHandle.antt =====
-- fnet/msghandle.go: packets go to a pool of workers, each with a queue of its own. A handler is a
-- value of the type `H`; calling it (under `XingoTry`, which recovers from its panics) puts it on
-- the list of what was handled. The channels of other events that a worker serves are left out.
pub mod Queues
pub mod Order
pub mod Served
pub mod Router
use my_cluster.Common.{
  ℕ, zero, suc, ◌+◌, ◌%◌, ◌^◌, Bool, true, false, List, [], ◌∷◌, ◌++◌, Option, none, some,
  if◌then◌else◌, ltb, ◌==◌, get_or, set, replicate, length, lookup, nat_eq,
}
use my_cluster.Fnet.DataPack.{PkgData}

-- The connection of a packet by its session id.
pub record PkgAll : Type 0 where
  pub pdata : PkgData
  pub session_id : ℕ
  pub pid : ℕ

-- Whether the node is a gate, a net node or neither, from its name.
pub data NodeKind : Type 0 where
  gate net other : NodeKind

pub record MsgHandle (H : Type 0) : Type 0 where
  pub pool_size : ℕ
  -- The capacity of a queue, MaxWorkerLen.
  pub max_worker_len : ℕ
  pub task_queue : List (List PkgAll)
  pub apis : List (ℕ × H)
  -- The packets that the workers took, with the handler that was called, if the message has one.
  pub handled : List (PkgAll × Option H)

pub data Delivered (H : Type 0) : Type 0 where
  queued : MsgHandle H → Delivered H
  dropped blocks panics : Delivered H

-- A gate has one worker, any other node `pool_size`.
abbrev pub workers : NodeKind → ℕ → ℕ
workers gate pool_size = 1
workers net pool_size = pool_size
workers other pool_size = pool_size

module _ {H : Type 0} where
  unfoldable pub new_msg_handle : NodeKind → ℕ → ℕ → List (ℕ × H) → MsgHandle H
  new_msg_handle kind pool_size max_len apis = record {
    pool_size = pool_size;
    max_worker_len = max_len;
    task_queue = replicate (workers kind pool_size) [];
    apis = apis;
    handled = [];
  }

  unfoldable pub raw_deliver : PkgAll → ℕ → MsgHandle H → Delivered H
  raw_deliver pkg index h =
      let queue = get_or h.task_queue index [] in
      if ltb (length queue) h.max_worker_len
      then queued (record h { task_queue = set h.task_queue index (queue ++ pkg ∷ []) })
      else blocks

  -- A remainder by zero panics.
  unfoldable pub deliver_to_msg_queue : NodeKind → PkgAll → MsgHandle H → Delivered H
  deliver_to_msg_queue gate pkg h = raw_deliver pkg 0 h
  deliver_to_msg_queue net pkg h =
      if h.pool_size == 0 then panics else raw_deliver pkg (pkg.session_id % h.pool_size) h
  deliver_to_msg_queue other pkg h = dropped

  unfoldable pub api_of : PkgAll → MsgHandle H → Option H
  api_of pkg h = lookup pkg.pdata.msg_id h.apis

  -- The worker of a queue takes its first packet.
  unfoldable pub work_on : ℕ → List PkgAll → MsgHandle H → MsgHandle H
  work_on i [] h = h
  work_on i (pkg ∷ queue) h = record h {
    task_queue = set h.task_queue i queue;
    handled = h.handled ++ (pkg, api_of pkg h) ∷ [];
  }

  unfoldable pub worker_loop : ℕ → MsgHandle H → MsgHandle H
  worker_loop i h = work_on i (get_or h.task_queue i []) h

  -- `DoMsgFromGoRoutine`: the packet is handled at once.
  unfoldable pub do_msg_from_goroutine : PkgAll → MsgHandle H → MsgHandle H
  do_msg_from_goroutine pkg h = record h { handled = h.handled ++ (pkg, api_of pkg h) ∷ [] }
