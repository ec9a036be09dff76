-- ===== src/Fserver.antt =====
-- fserver/server.go with fnet/connectionmgr.go: a server that accepts connections up to a limit. A
-- connection lives on a heap and is shared by pointer: the manager keeps it under its session id.
pub mod Limit
pub mod Registry
pub mod Delays
mod Tests
use my_cluster.Common.{
  ℕ, zero, suc, ◌+◌, Bool, true, false, List, [], ◌∷◌, ◌++◌, Option, none, some, if◌then◌else◌,
  length, ℤ, pos, leb_ℤ, lookup, insert, delete, nat_eq, has_key,
}
use my_cluster.Fnet.Connection.{Connection, new_connection}
use my_cluster.Fnet.Connection.Life.{Call, call}
use my_cluster.Ids.{next_session}

abbrev pub ConnectionMgr : Type 0
ConnectionMgr = List (ℕ × ℕ)

unfoldable pub add : ℕ → ℕ → ConnectionMgr → ConnectionMgr
add session_id conn connections = insert session_id conn connections

-- `none` is the error of a connection that is not found.
unfoldable pub remove : ℕ → ConnectionMgr → Option ConnectionMgr
remove session_id connections =
    if has_key session_id connections then some (delete session_id connections) else none

unfoldable pub get : ℕ → ConnectionMgr → Option ℕ
get sid connections = lookup sid connections

pub record Server : Type 0 where
  pub max_conn : ℤ
  -- The session id that the pool gives next.
  pub next_id : ℕ
  pub connection_mgr : ConnectionMgr
  pub heap : List (ℕ × Connection)
  pub allocated : ℕ
  -- How many connections were closed because the limit was reached.
  pub refused : ℕ

unfoldable pub new_server : ℤ → Server
new_server max_conn = record {
  max_conn = max_conn;
  next_id = 1;
  connection_mgr = [];
  heap = [];
  allocated = 0;
  refused = 0;
}

unfoldable pub handle_connection : ℤ → Server → Server
handle_connection ctime s = record s {
  heap = insert s.allocated (new_connection s.next_id ctime) s.heap;
  allocated = s.allocated + 1;
  next_id = next_session s.next_id;
}

abbrev pub is_full : Server → Bool
is_full s = leb_ℤ s.max_conn (pos (length s.connection_mgr))

-- The body of the accept loop.
unfoldable pub accept : ℤ → Server → Server
accept ctime s =
    if is_full s then record s { refused = s.refused + 1 } else handle_connection ctime s

-- The registration in `Connection.Start`, which runs in a goroutine of its own.
unfoldable pub start_at : ℕ → Option Connection → Server → Server
start_at conn none s = s
start_at conn (some c) s = record s { connection_mgr = add c.session_id conn s.connection_mgr }

unfoldable pub start : ℕ → Server → Server
start conn s = start_at conn (lookup conn s.heap) s

-- A call on a connection, through its pointer.
unfoldable pub call_at : ℕ → Call → Option Connection → Server → Server
call_at conn x none s = s
call_at conn x (some c) s = record s { heap = insert conn (call x c).0 s.heap }
