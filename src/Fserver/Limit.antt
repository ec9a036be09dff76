-- ===== src/Fserver/Limit.antt =====
-- fserver/server.go with fnet/connectionmgr.go: who is registered, and what the limit does.
use my_cluster.Common.{
  ℕ, ◌≤◌, ◌≡◌, refl, ◌∙◌, true, List, [], ◌∷◌, Option, none, some, length, ℤ, lookup, insert,
  nat_eq, arith,
}
use my_cluster.Fnet.Connection.{Connection}
use my_cluster.Fnet.Connection.Life.{Call}
use my_cluster.Fserver.{ConnectionMgr, add, Server, is_full, accept, start_at, start, call_at}

pub data ServerEvent : Type 0 where
  accepts : ℤ → ServerEvent
  starts : ℕ → ServerEvent
  calls_on : ℕ → Call → ServerEvent

unfoldable pub serve_one : Server → ServerEvent → Server
serve_one s (accepts ctime) = accept ctime s
serve_one s (starts conn) = start conn s
serve_one s (calls_on conn x) = call_at conn x (lookup conn s.heap) s

unfoldable pub serve : Server → List ServerEvent → Server
serve s [] = s
serve s (e ∷ es) = serve (serve_one s e) es

length-insert : (k v : ℕ) (m : ConnectionMgr) → length m ≤ length (insert k v m)
unfolding insert
length-insert k v [] = omega arith
length-insert k v ((j, w) ∷ m) = ground (arith, length-insert k v m)

-- What one event does to the limit.
serve_one-full :
    (s : Server) (e : ServerEvent)
    → is_full s ≡ true
    → (is_full (serve_one s e) ≡ true) × ((serve_one s e).allocated ≡ s.allocated)
unfolding serve_one accept start start_at add call_at
serve_one-full s (accepts ctime) f = rw f (f, refl)
serve_one-full s (starts conn) f = started (lookup conn s.heap)
  where
    started :
        (o : Option Connection)
        → (is_full (start_at conn o s) ≡ true) × ((start_at conn o s).allocated ≡ s.allocated)
    started none = (f, refl)
    started (some c) = (ground (arith, f, length-insert c.session_id conn s.connection_mgr), refl)
serve_one-full s (calls_on conn x) f = called (lookup conn s.heap)
  where
    called :
        (o : Option Connection)
        → (is_full (call_at conn x o s) ≡ true) × ((call_at conn x o s).allocated ≡ s.allocated)
    called none = (f, refl)
    called (some c) = (f, refl)

-- A server that has filled up stays full and never accepts a connection again, whatever connections
-- arrive, start and stop later.
pub serve-full :
    (s : Server) (es : List ServerEvent)
    → is_full s ≡ true
    → (is_full (serve s es) ≡ true) × ((serve s es).allocated ≡ s.allocated)
unfolding serve
serve-full s [] f = (f, refl)
serve-full s (e ∷ es) f =
    let one = serve_one-full s e f in
    let rest = serve-full (serve_one s e) es one.0 in (rest.0, rest.1 ∙ one.1)
