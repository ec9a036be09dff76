-- ===== src/Fnet/Connection/Writing.antt =====
-- fnet/connection.go, `StartWriteThread` and `StartWriteThread1`: the goroutines that write what
-- `SendBuff` was given. The counters that only feed the log are left out.
use my_cluster.Common.{
  ℕ, zero, suc, ◌+◌, ◌≡◌, refl, ap, sym, ◌∙◌, Bool, true, false, List, [], ◌∷◌, ◌++◌, Option, none,
  ltb, if◌then◌else◌, length, append_assoc, append-nil, Bool-cases, inl, inr,
}
use my_cluster.Wire.{Bytes}
use my_cluster.Fnet.Connection.{
  chan_send, Connection, Outcome, done, write, send_buff, buffered, send_buff_cap,
}

-- Whether the goroutine waits, is at its end, or goes on.
pub data Writer : Type 0 where
  waits exits goes_on : Writer

-- `for index := 0; index < len(pkg_chan); index++ { slc[index] = <-pkg_chan }`, on fuel: what was
-- taken, and what is left in the channel.
unfoldable pub collect : ℕ → ℕ → List Bytes → List Bytes × List Bytes
collect zero index pkgs = ([], pkgs)
collect (suc fuel) index [] = ([], [])
collect (suc fuel) index (pkg ∷ pkgs) =
    let rest = collect fuel (index + 1) pkgs in
    if ltb index (length (pkg ∷ pkgs)) then (pkg ∷ rest.0, rest.1) else ([], pkg ∷ pkgs)

-- `bytes.Join` with nothing between.
abbrev pub joined : List Bytes → Bytes
joined [] = []
joined (p ∷ ps) = p ++ joined ps

unfoldable pub after_write : List Bytes → Connection × Outcome → Writer × List Bytes × Connection
after_write pkgs (c, done) = (goes_on, pkgs, c)
after_write pkgs (c, _) = (exits, pkgs, c)

-- With the data taken: it goes through `pkg_chan`, and what that has is written.
unfoldable pub write_data :
    Option ℕ → Bytes → List Bytes → Connection → Writer × List Bytes × Connection
write_data socket bytes pkg_chan c =
    let pkgs = pkg_chan ++ bytes ∷ [] in
    let collected = collect (length pkgs) 0 pkgs in
    after_write collected.1 (write (joined collected.0) socket c)

-- A turn of `StartWriteThread` with what `SendBuffChan` has, of which the first is taken: an open
-- channel that is empty waits, and a closed one gives nil.
unfoldable pub write_turn_on :
    Option ℕ → List Bytes → List Bytes → Connection → Writer × List Bytes × Connection
write_turn_on socket pkg_chan [] c =
    if c.send_buff_chan.closed then write_data socket [] pkg_chan c else (waits, pkg_chan, c)
write_turn_on socket pkg_chan (bytes ∷ items) c =
    write_data socket bytes pkg_chan
      (record c { send_buff_chan = record { items = items; closed = c.send_buff_chan.closed } })

unfoldable pub write_turn : Option ℕ → List Bytes → Connection → Writer × List Bytes × Connection
write_turn socket pkg_chan c = write_turn_on socket pkg_chan c.send_buff_chan.items c

-- A turn of `StartWriteThread1`, where the select takes the exit signal or the data.
unfoldable pub finish_write : Connection × Outcome → Writer × Connection
finish_write (c, done) = (goes_on, c)
finish_write (c, _) = (exits, c)

unfoldable pub write_turn1_on : Option ℕ → List Bytes → Connection → Writer × Connection
write_turn1_on socket [] c =
    if c.send_buff_chan.closed then finish_write (write [] socket c) else (waits, c)
write_turn1_on socket (bytes ∷ items) c = finish_write (
    write bytes socket
      (record c { send_buff_chan = record { items = items; closed = c.send_buff_chan.closed } }))

unfoldable pub write_turn1 : Bool → Option ℕ → Connection → Writer × Connection
write_turn1 true socket c = (exits, c)
write_turn1 false socket c = write_turn1_on socket c.send_buff_chan.items c

-- A packet is buffered, or the goroutine makes a turn on a socket that takes everything.
pub data Event : Type 0 where
  buffers : Bytes → Event
  turns : Event

-- The connection, what `pkg_chan` has, and the bytes that were accepted so far.
pub record Sending : Type 0 where
  pub conn : Connection
  pub pkg_chan : List Bytes
  pub taken : Bytes

abbrev accept_if : Outcome → Bytes → Bytes → Bytes
accept_if done taken bytes = taken ++ bytes
accept_if _ taken bytes = taken

unfoldable pub sending_step : Event → Sending → Sending
sending_step (buffers bytes) s =
    let sent = send_buff bytes s.conn in
    record s { conn = sent.0; taken = accept_if sent.1 s.taken bytes }
sending_step turns s =
    let turn = write_turn none s.pkg_chan s.conn in record s { conn = turn.2; pkg_chan = turn.1 }

abbrev pub sending_run : List Event → Sending → Sending
sending_run [] s = s
sending_run (e ∷ es) s = sending_run es (sending_step e s)

-- Nothing is in between, and what was written and what waits is what was accepted.
record InOrder (s : Sending) : Type 0 where
  drained : s.pkg_chan ≡ []
  all_there : s.conn.written ++ joined s.conn.send_buff_chan.items ≡ s.taken

joined-append : (ps : List Bytes) (p : Bytes) → joined (ps ++ p ∷ []) ≡ joined ps ++ p
joined-append [] p = append-nil p
joined-append (q ∷ ps) p =
    ap (λ (t : Bytes). q ++ t) (joined-append ps p) ∙ sym (append_assoc q (joined ps) p)

-- The bytes of a connection: those written, and those that wait.
abbrev bytes_of : Connection → Bytes
bytes_of c = c.written ++ joined c.send_buff_chan.items

send_buff-bytes :
    (bytes : Bytes) (c : Connection)
    → bytes_of (send_buff bytes c).0 ≡ accept_if (send_buff bytes c).1 (bytes_of c) bytes
unfolding send_buff buffered chan_send
send_buff-bytes bytes c = elim (Bool-cases c.is_closed) [
  | inl closed ↦ simp closed refl
  | inr running ↦ simp running (elim (Bool-cases c.send_buff_chan.closed) [
    | inl shut ↦ simp shut refl
    | inr usable ↦
        simp usable (elim (Bool-cases (ltb (length c.send_buff_chan.items) send_buff_cap)) [
          | inl room ↦ simp room (
              ap (λ (t : Bytes). c.written ++ t) (joined-append c.send_buff_chan.items bytes)
              ∙ sym (append_assoc c.written (joined c.send_buff_chan.items) bytes))
          | inr none_left ↦ simp none_left refl
        ])
  ])
]

write_turn_on-bytes :
    (items : List Bytes) (c : Connection)
    → items ≡ c.send_buff_chan.items
    → ((write_turn_on none [] items c).1 ≡ [])
      × (bytes_of (write_turn_on none [] items c).2 ≡ bytes_of c)
unfolding write_turn_on write_data collect write after_write
write_turn_on-bytes [] c e = elim (Bool-cases c.send_buff_chan.closed) [
  | inl closed ↦
      simp closed
        (refl, ap (λ (t : Bytes). t ++ joined c.send_buff_chan.items) (append-nil c.written))
  | inr usable ↦ simp usable (refl, refl)
]
write_turn_on-bytes (bytes ∷ items) c e = (
  refl,
  ap (λ (t : Bytes). (c.written ++ t) ++ joined items) (append-nil bytes)
      ∙ append_assoc c.written bytes (joined items)
      ∙ ap (λ (ps : List Bytes). c.written ++ joined ps) e,
)

sending_step-InOrder : (e : Event) (s : Sending) → InOrder s → InOrder (sending_step e s)
unfolding sending_step write_turn
sending_step-InOrder (buffers bytes) s v = record {
  drained = v.drained;
  all_there =
      send_buff-bytes bytes s.conn
      ∙ ap (λ (t : Bytes). accept_if (send_buff bytes s.conn).1 t bytes) v.all_there;
}
sending_step-InOrder turns s v =
    let items = s.conn.send_buff_chan.items in
    let turn = write_turn_on-bytes items s.conn refl in
    record {
      drained = ap (λ (p : List Bytes). (write_turn_on none p items s.conn).1) v.drained ∙ turn.0;
      all_there =
          ap (λ (p : List Bytes). bytes_of (write_turn_on none p items s.conn).2) v.drained
          ∙ turn.1
          ∙ v.all_there;
    }

sending_run-InOrder : (es : List Event) (s : Sending) → InOrder s → InOrder (sending_run es s)
sending_run-InOrder [] s v = v
sending_run-InOrder (e ∷ es) s v =
    sending_run-InOrder es (sending_step e s) (sending_step-InOrder e s v)

-- From a connection with nothing written and nothing that waits, on a socket that takes everything:
-- in any order of calls of SendBuff and turns of StartWriteThread, the bytes written, followed by
-- those that wait, are the bytes that SendBuff accepted, in their order.
pub sending_run-bytes :
    (es : List Event) (c : Connection)
    → c.written ≡ []
    → c.send_buff_chan.items ≡ []
    → let s = sending_run es (record { conn = c; pkg_chan = []; taken = [] }) in
      s.conn.written ++ joined s.conn.send_buff_chan.items ≡ s.taken
sending_run-bytes es c e e' =
    (sending_run-InOrder es (record { conn = c; pkg_chan = []; taken = [] })
      (record {
        drained = refl;
        all_there = ap (λ (t : Bytes). t ++ joined c.send_buff_chan.items) e ∙ ap joined e';
      })).all_there
