-- ===== src/Fnet/Tests.antt =====
-- fnet: tests of the packets, the loop and the connection, and their theorems on small inputs.
use my_cluster.Common.{
  ℕ, ◌-◌, ◌%◌, get_or, ◌≤◌, Bool, true, false, List, [], ◌∷◌, ◌++◌, ◌≡◌, ◌≢◌, refl, Option, none,
  some, arith, length, if◌then◌else◌, ◌==◌, map, ℤ, pos, lookup, string_eq,
}
use my_cluster.Wire.{Bytes}
use my_cluster.Fnet.DataPack.{data_bytes}
use my_cluster.Fnet.Reader.{PropertyBag, number, read_loop, out_of_fuel}
use my_cluster.Fnet.Reader.Frames.{packet_of, stream, AllCarry, read_loop-stream}
use my_cluster.Fnet.Reader.Whole.{AllWhole, total_bytes, read_loop-whole}
use my_cluster.Fnet.Reader.Frequency.{Counts, read_loop-bounded}
use my_cluster.Fnet.Connection.{new_connection}
use my_cluster.Fnet.Connection.Life.{
  calls, sends, buffers, stops, loses, stopped_first, AllReturn, calls_lem,
}
use my_cluster.Fnet.TcpClient.{TcpClient, read_thread, reconnected, connection_lost}
use my_cluster.Fnet.TcpClient as client
use my_cluster.Fnet.TcpClient.Retry.{stop_reconnects}
use my_cluster.Fnet.MsgHandle.{PkgAll}
use my_cluster.Fnet.MsgHandle.Queues.{of_session}
use my_cluster.Fnet.MsgHandle.{api_of}
use my_cluster.Fnet.MsgHandle.Served.{Handled, pool_run-Served}
use my_cluster.Fnet.MsgHandle.Order.{
  Pool, Event, arrives, works, pool_run, new_pool, taken, pool_run-order,
}

-- A library that writes a message, a list of bytes, as it is.
abbrev plain : Bytes → Bytes × Bool
plain bytes = (bytes, true)

abbrev two_messages : List (ℕ × Option Bytes)
two_messages = (5, some (1 ∷ 2 ∷ [])) ∷ (6, none) ∷ []

abbrev noon : ℕ → ℤ
noon i = pos 12

two_messages-AllCarry : AllCarry plain 0 two_messages
unfolding data_bytes
two_messages-AllCarry = (
  record { id_fits = omega arith; length_fits = omega arith; accepted = refl },
  (record { id_fits = omega arith; length_fits = omega arith; accepted = refl }, tt),
)

abbrev no_properties : PropertyBag
no_properties = []

no_limit : lookup "xingo_fc1" no_properties ≡ none
unfolding lookup
no_limit = refl

read_loop-stream_example :
    let later = read_loop 3 0 noon 2 no_properties (9 ∷ []) in
    read_loop 5 0 noon 0 no_properties (stream plain two_messages ++ 9 ∷ [])
    ≡ (map (packet_of plain) two_messages ++ later.0, later.1)
read_loop-stream_example =
    read_loop-stream plain 0 3 noon 0 two_messages no_properties (9 ∷ []) no_limit
      two_messages-AllCarry

read_loop-whole_example :
    let r = read_loop 12 0 noon 0 [] (2 ∷ 0 ∷ 0 ∷ 0 ∷ 5 ∷ 0 ∷ 0 ∷ 0 ∷ 1 ∷ 2 ∷ 9 ∷ []) in
    (r.1 ≢ out_of_fuel) × AllWhole 0 r.0 × (total_bytes r.0 ≤ 11)
read_loop-whole_example =
    read_loop-whole 0 12 noon 0 [] (2 ∷ 0 ∷ 0 ∷ 0 ∷ 5 ∷ 0 ∷ 0 ∷ 0 ∷ 1 ∷ 2 ∷ 9 ∷ []) (omega arith)

-- A connection that may send two packets until 13.
abbrev limited : PropertyBag
limited =
    ("xingo_fc", number (pos 0))
    ∷ ("xingo_fc0", number (pos 3))
    ∷ ("xingo_fc1", number (pos 13))
    ∷ []

limited-Counts : Counts (pos 13) 0 3 limited
unfolding lookup
limited-Counts = record { has_end = refl; has_count = refl; has_limit = refl }

read_loop-bounded_example :
    length (read_loop 9 0 noon 0 limited (stream plain two_messages ++ stream plain two_messages)).0
    ≤ 3 - 1 - 0
read_loop-bounded_example =
    read_loop-bounded 0 9 noon 0 (pos 13) 0 3 limited
      (stream plain two_messages ++ stream plain two_messages) limited-Counts (λ j. refl)

calls_lem_example :
    let r =
      calls
        (sends (1 ∷ []) none ∷ buffers (2 ∷ []) ∷ stops ∷ stops ∷ loses ∷ [])
        (new_connection 1 (pos 0)) in
    (r.0.lost_calls ≡ (
      if stopped_first (sends (1 ∷ []) none ∷ buffers (2 ∷ []) ∷ stops ∷ stops ∷ loses ∷ [])
      then 1
      else 0))
    × AllReturn r.1
calls_lem_example =
    calls_lem 1 (pos 0) (sends (1 ∷ []) none ∷ buffers (2 ∷ []) ∷ stops ∷ stops ∷ loses ∷ [])

-- A client with three attempts.
abbrev retrying : TcpClient
retrying = record {
  conn = 1;
  property_bag = [];
  has_reconn_cb = true;
  max_retry = 3;
  written = [];
  started = [];
}

-- A network that takes the second attempt, and one that takes none.
abbrev second_try : ℕ → Option ℕ
second_try n = if n == 2 then some 5 else none

abbrev no_try : ℕ → Option ℕ
no_try n = none

stop_reconnects_example :
    ((client.stop false false second_try retrying).conn ≡ 5)
    × ((client.stop false false second_try retrying).started
        ≡ [] ++ (read_thread ∷ (if true then reconnected ∷ [] else [])))
stop_reconnects_example = stop_reconnects second_try retrying 1 5 (refl, tt) refl (omega arith)

-- Packets of two connections that share a worker.
abbrev packet : ℕ → ℕ → PkgAll
packet sid msg_id = record {
  pdata = record { len = 0; msg_id = msg_id; payload = [] };
  session_id = sid;
  pid = 0;
}

abbrev traffic : List Event
traffic =
    arrives (packet 1 10) ∷ arrives (packet 3 11) ∷ works 1 ∷ arrives (packet 1 12) ∷ works 1 ∷ []

-- Handlers for two messages, known by numbers.
abbrev apis : List (ℕ × ℕ)
apis = (10, 100) ∷ (11, 101) ∷ []

pool_run-order_example :
    let s = pool_run (new_pool 2 8 apis) traffic in
    of_session 1 (taken s.handle.handled)
      ++ of_session 1 (get_or s.handle.task_queue (1 % s.handle.pool_size) [])
    ≡ of_session 1 s.accepted
pool_run-order_example = pool_run-order 2 8 apis traffic 1 (omega arith)

-- A worker with two packets in its queue.
abbrev busy_pool : Pool ℕ
busy_pool = record {
  handle = record {
    pool_size = 1;
    max_worker_len = 8;
    task_queue = (packet 1 7 ∷ packet 1 8 ∷ []) ∷ [];
    apis = apis;
    handled = [];
  };
  accepted = packet 1 7 ∷ packet 1 8 ∷ [];
}

pool_run-Served_example :
    Handled
      (packet 1 8, api_of (packet 1 8) busy_pool.handle)
      (pool_run busy_pool (works 0 ∷ arrives (packet 2 9) ∷ works 0 ∷ [])).handle.handled
pool_run-Served_example =
    pool_run-Served (works 0 ∷ arrives (packet 2 9) ∷ works 0 ∷ []) busy_pool 0 (packet 1 7 ∷ []) []
      (packet 1 8) refl (omega arith)
