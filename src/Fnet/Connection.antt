-- ===== src/Fnet/Connection.antt =====
-- fnet/connection.go: the life of one connection. Its locks make each call one step. What the socket
-- does with a write is part of the call that writes: `none` for all bytes, `some n` for an error
-- after `n` of them.
pub mod Life
pub mod Writing
use my_cluster.Common.{
  ℕ, zero, suc, ◌+◌, Bool, true, false, List, [], ◌∷◌, ◌++◌, Option, none, some, String, ltb,
  if◌then◌else◌, length, take, ℤ, lookup, insert, delete, string_eq, ◌&&◌, ◌||◌,
}
use my_cluster.Wire.{Bytes}
use my_cluster.Fnet.Reader.{PropertyValue, PropertyBag, number}

-- A buffered Go channel, the oldest item first.
pub record Chan (A : Type 0) : Type 0 where
  pub items : List A
  pub closed : Bool

pub data ChanSend (A : Type 0) : Type 0 where
  accepted : Chan A → ChanSend A
  full on_closed : ChanSend A

unfoldable pub chan_send : {A : Type 0} → ℕ → A → Chan A → ChanSend A
chan_send capacity x ch =
    if ch.closed
    then on_closed
    else if ltb (length ch.items) capacity
    then accepted (record ch { items = ch.items ++ x ∷ [] })
    else full

pub record Connection : Type 0 where
  pub is_closed : Bool
  pub session_id : ℕ
  pub property_bag : PropertyBag
  pub send_buff_chan : Chan Bytes
  pub ext_send_chan : Chan Bool
  -- What the socket was given, and whether it is open.
  pub written : Bytes
  pub socket_open : Bool
  -- How often `OnConnectionLost` was started.
  pub lost_calls : ℕ

pub data Outcome : Type 0 where
  done write_error timed_out connection_closed blocks panics : Outcome

abbrev pub send_buff_cap : ℕ
send_buff_cap = 10240

unfoldable pub set_property : String → PropertyValue → Connection → Connection
set_property key value c = record c { property_bag = insert key value c.property_bag }

unfoldable pub get_property : String → Connection → Option PropertyValue
get_property key c = lookup key c.property_bag

unfoldable pub remove_property : String → Connection → Connection
remove_property key c = record c { property_bag = delete key c.property_bag }

unfoldable pub new_connection : ℕ → ℤ → Connection
new_connection session_id ctime = set_property "xingo_ctime" (number ctime) (record {
  is_closed = false;
  session_id = session_id;
  property_bag = [];
  send_buff_chan = record { items = []; closed = false };
  ext_send_chan = record { items = []; closed = false };
  written = [];
  socket_open = true;
  lost_calls = 0;
})

-- `Stop` from the send on `ExtSendChan` on: a second `close` would panic.
unfoldable pub stop_sent : Connection → ChanSend Bool → Connection × Outcome
stop_sent c full = (record c { is_closed = true }, blocks)
stop_sent c on_closed = (record c { is_closed = true }, panics)
stop_sent c (accepted ch) =
    if c.send_buff_chan.closed
    then (
      record c {
        is_closed = true;
        ext_send_chan = record ch { closed = true };
        lost_calls = c.lost_calls + 1;
      },
      panics,
    )
    else (
      record c {
        is_closed = true;
        ext_send_chan = record ch { closed = true };
        send_buff_chan = record { items = c.send_buff_chan.items; closed = true };
        lost_calls = c.lost_calls + 1;
        socket_open = false;
      },
      done,
    )

unfoldable pub stop : Connection → Connection × Outcome
stop c = if c.is_closed then (c, done) else stop_sent c (chan_send 1 true c.ext_send_chan)

unfoldable pub write : Bytes → Option ℕ → Connection → Connection × Outcome
write bytes none c = (record c { written = c.written ++ bytes }, done)
write bytes (some n) c = (record c { written = c.written ++ take n bytes }, write_error)

unfoldable pub send : Bytes → Option ℕ → Connection → Connection × Outcome
send bytes socket c = if c.is_closed then (c, connection_closed) else write bytes socket c

unfoldable pub buffered : Connection → ChanSend Bytes → Connection × Outcome
buffered c (accepted ch) = (record c { send_buff_chan = ch }, done)
buffered c full = (c, timed_out)
buffered c on_closed = (c, panics)

-- A full channel that no one takes from for two seconds is a timeout.
unfoldable pub send_buff : Bytes → Connection → Connection × Outcome
send_buff bytes c =
    if c.is_closed
    then (c, connection_closed)
    else buffered c (chan_send send_buff_cap bytes c.send_buff_chan)

unfoldable pub lost_connection : Connection → Connection
lost_connection c = record c { socket_open = false; is_closed = true }
