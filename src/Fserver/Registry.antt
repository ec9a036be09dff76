-- ===== src/Fserver/Registry.antt =====
-- fserver/server.go with fnet/connectionmgr.go: what a session id stands for.
use my_cluster.Common.{
  ℕ, ◌≤◌, ◌≡◌, refl, ap, sym, ◌∙◌, Bool, true, false, List, [], ◌∷◌, Option, none, some, ℤ, lookup,
  insert, nat_eq, ◌==◌, lookup-insert, some_inj, arith, Bool-cases, inl, inr,
}
use my_cluster.Wire.{Bytes}
use my_cluster.Fnet.Connection.{
  Connection, new_connection, set_property, remove_property, stop, stop_sent, send, write,
  send_buff, buffered, lost_connection, chan_send, accepted, full, on_closed, ChanSend,
}
use my_cluster.Fnet.Connection.Life.{Call, call, sets, removes, sends, buffers, stops, loses}
use my_cluster.Fserver.{
  add, get, Server, new_server, handle_connection, is_full, accept, start_at, start, call_at,
}
use my_cluster.Fserver.Limit.{ServerEvent, accepts, starts, calls_on, serve_one, serve}

stop_sent-session_id :
    (c : Connection) (o : ChanSend Bool) → (stop_sent c o).0.session_id ≡ c.session_id
unfolding stop_sent
stop_sent-session_id c (accepted ch) = ground arith
stop_sent-session_id c full = refl
stop_sent-session_id c on_closed = refl

write-session_id :
    (bytes : Bytes) (o : Option ℕ) (c : Connection) → (write bytes o c).0.session_id ≡ c.session_id
unfolding write
write-session_id bytes none c = refl
write-session_id bytes (some n) c = refl

buffered-session_id :
    (c : Connection) (o : ChanSend Bytes) → (buffered c o).0.session_id ≡ c.session_id
unfolding buffered
buffered-session_id c (accepted ch) = refl
buffered-session_id c full = refl
buffered-session_id c on_closed = refl

-- No call changes a connection's session id.
call-session_id : (x : Call) (c : Connection) → (call x c).0.session_id ≡ c.session_id
unfolding call set_property remove_property send send_buff stop lost_connection
call-session_id (sets key value) c = refl
call-session_id (removes key) c = refl
call-session_id (sends bytes socket) c = ground (arith, write-session_id bytes socket c)
call-session_id (buffers bytes) c =
    ground (arith, buffered-session_id c (chan_send 10240 bytes c.send_buff_chan))
call-session_id stops c = ground (arith, stop_sent-session_id c (chan_send 1 true c.ext_send_chan))
call-session_id loses c = refl

abbrev pub session_of : Option Connection → Option ℕ
session_of none = none
session_of (some c) = some c.session_id

-- The pointers are below the next one, and the manager's point to connections with their id.
pub record Registered (s : Server) : Type 0 where
  pub fresh : (p : ℕ) → s.allocated ≤ p → lookup p s.heap ≡ none
  pub found :
      (sid p : ℕ) → get sid s.connection_mgr ≡ some p → session_of (lookup p s.heap) ≡ some sid

no_session : (sid : ℕ) (o : Option Connection) → o ≡ none → session_of o ≡ some sid → ⊥
no_session sid none e h = cc
no_session sid (some c) e h = cc

handle_connection-Registered :
    (ctime : ℤ) (s : Server) → Registered s → Registered (handle_connection ctime s)
unfolding handle_connection
handle_connection-Registered ctime s v = record {
  fresh = λ p h.
      let other : (s.allocated == p) ≡ false = ground (arith, h) in
      lookup-insert s.allocated p (new_connection s.next_id ctime) s.heap
      ∙ rw other (v.fresh p (omega (arith, h)));
  found = λ sid p h.
      let other : (s.allocated == p) ≡ false = elim (Bool-cases (s.allocated == p)) [
        | inl e ↦
            let le : s.allocated ≤ p = ground (arith, e) in
            absurd (no_session sid _ (v.fresh p le) (v.found sid p h))
        | inr e ↦ e
      ] in
      ap session_of
        (lookup-insert s.allocated p (new_connection s.next_id ctime) s.heap ∙ rw other refl)
      ∙ v.found sid p h;
}

start_at-Registered :
    (conn : ℕ) (s : Server) (o : Option Connection)
    → lookup conn s.heap ≡ o
    → Registered s
    → Registered (start_at conn o s)
unfolding start_at add get
start_at-Registered conn s none e v = v
start_at-Registered conn s (some c) e v = record {
  fresh = v.fresh;
  found = λ sid p h.
      let at_sid = sym (lookup-insert c.session_id sid conn s.connection_mgr) ∙ h in
      elim (Bool-cases (c.session_id == sid)) [
        | inl e' ↦
            let same : conn ≡ p = some_inj conn p (rw e' at at_sid) in
            let its : c.session_id ≡ sid = ground (arith, e') in
            ap (λ k. session_of (lookup k s.heap)) (sym same) ∙ ap session_of e ∙ ap some its
        | inr e' ↦ v.found sid p (rw e' at at_sid)
      ];
}

call_at-Registered :
    (conn : ℕ) (x : Call) (s : Server) (o : Option Connection)
    → lookup conn s.heap ≡ o
    → Registered s
    → Registered (call_at conn x o s)
unfolding call_at
call_at-Registered conn x s none e v = v
call_at-Registered conn x s (some c) e v = record {
  fresh = λ p h.
      let other : (conn == p) ≡ false = elim (Bool-cases (conn == p)) [
        | inl e' ↦
            let same : conn ≡ p = ground (arith, e') in
            absurd (
              no_session c.session_id _ (v.fresh p h)
                (ap (λ k. session_of (lookup k s.heap)) (sym same) ∙ ap session_of e))
        | inr e' ↦ e'
      ] in
      lookup-insert conn p (call x c).0 s.heap ∙ rw other (v.fresh p h);
  found = λ sid p h. elim (Bool-cases (conn == p)) [
    | inl e' ↦
        let same : conn ≡ p = ground (arith, e') in
        let at_p : lookup p (insert conn (call x c).0 s.heap) ≡ some (call x c).0 =
          lookup-insert conn p (call x c).0 s.heap ∙ rw e' refl in
        ap session_of at_p
        ∙ ap some (call-session_id x c)
        ∙ sym (ap session_of e)
        ∙ ap (λ k. session_of (lookup k s.heap)) same
        ∙ v.found sid p h
    | inr e' ↦
        ap session_of (lookup-insert conn p (call x c).0 s.heap ∙ rw e' refl) ∙ v.found sid p h
  ];
}

accept-Registered : (ctime : ℤ) (s : Server) → Registered s → Registered (accept ctime s)
unfolding accept
accept-Registered ctime s v = elim (Bool-cases (is_full s)) [
  | inl e ↦ rw e (record { fresh = v.fresh; found = v.found })
  | inr e ↦ rw e (handle_connection-Registered ctime s v)
]

serve_one-Registered : (s : Server) (e : ServerEvent) → Registered s → Registered (serve_one s e)
unfolding serve_one start
serve_one-Registered s (accepts ctime) v = accept-Registered ctime s v
serve_one-Registered s (starts conn) v = start_at-Registered conn s (lookup conn s.heap) refl v
serve_one-Registered s (calls_on conn x) v = call_at-Registered conn x s (lookup conn s.heap) refl v

serve-Registered : (s : Server) (es : List ServerEvent) → Registered s → Registered (serve s es)
unfolding serve
serve-Registered s [] v = v
serve-Registered s (e ∷ es) v = serve-Registered (serve_one s e) es (serve_one-Registered s e v)

new_server-Registered : (max_conn : ℤ) → Registered (new_server max_conn)
unfolding new_server get lookup
new_server-Registered max_conn = record { fresh = λ p h. refl; found = λ sid p h. cc }

-- On a new server, after any connections accepted and started and any calls on them: what the
-- manager has under a session id is a connection with that session id.
pub serve-get :
    (max_conn : ℤ) (es : List ServerEvent) (sid p : ℕ)
    → let s = serve (new_server max_conn) es in
      get sid s.connection_mgr ≡ some p → session_of (lookup p s.heap) ≡ some sid
serve-get max_conn es =
    (serve-Registered (new_server max_conn) es (new_server-Registered max_conn)).found
