-- ===== src/Udpserv.antt =====
-- udpserv/serv.go: the UDP server of a gate. The two goroutines of `Start` and the worker that takes
-- from the channel are events in any order; an address is a number.
pub mod Datagrams
mod Tests
use my_cluster.Common.{
  ℕ, zero, suc, ◌+◌, Bool, true, false, List, [], ◌∷◌, ◌++◌, Option, none, some, if◌then◌else◌,
  length, take, drop, replicate, ltb,
}
use my_cluster.Wire.{Bytes}

-- What `Send` puts into the channel.
pub record SendReq : Type 0 where
  pub addr : ℕ
  pub data_out : Bytes

-- What the reader puts into the channel: the address, if there was no error, and a slice of the one
-- buffer, known by its length.
pub record DataReq : Type 0 where
  pub addr : Option ℕ
  pub len : ℕ

pub record UdpServ : Type 0 where
  pub data_chan : List DataReq
  pub send_chan : List SendReq
  -- The array behind every slice that the reader hands out.
  pub buffer : Bytes
  pub running : Bool
  -- The reader has taken the exit signal.
  pub over : Bool
  -- What the worker received, as it stood in the buffer then, and what was written to the socket.
  pub received : List (Option ℕ × Bytes)
  pub written : List SendReq

unfoldable pub new_udp_serv : Option UdpServ → UdpServ
new_udp_serv (some s) = s
new_udp_serv none = record {
  data_chan = [];
  send_chan = [];
  buffer = replicate 1024 0;
  running = true;
  over = false;
  received = [];
  written = [];
}

-- `Send`, where the channel of 1024 has room; `none` blocks.
unfoldable pub send : ℕ → Bytes → UdpServ → Option UdpServ
send addr bytes s =
    if ltb (length s.send_chan) 1024
    then some
        (record s { send_chan = s.send_chan ++ record { addr = addr; data_out = bytes } ∷ [] })
    else none

-- What the sending goroutine finds in its `select`.
pub data Turn : Type 0 where
  exit_signal takes_first : Turn

abbrev pub write_first : List SendReq → UdpServ → UdpServ
write_first [] s = s
write_first (req ∷ reqs) s = record s { send_chan = reqs; written = s.written ++ req ∷ [] }

-- One turn of the loop. `bOver` is declared inside the loop, so it is false at every test, and what
-- the signal sets is gone at the next turn.
unfoldable pub send_turn : Turn → UdpServ → UdpServ
send_turn exit_signal s = s
send_turn takes_first s = write_first s.send_chan s

-- What `ReadFromUDP` finds: a timeout, another error, or a datagram.
pub data ReadResult : Type 0 where
  timeout failed : ReadResult
  datagram : ℕ → Bytes → ReadResult

-- The bytes of a read stand at the front of the buffer.
abbrev pub overwrite : Bytes → Bytes → Bytes
overwrite bytes buffer = bytes ++ drop (length bytes) buffer

abbrev pub push : DataReq → UdpServ → UdpServ
push req s = record s { data_chan = s.data_chan ++ req ∷ [] }

-- The read fills the buffer at most: the rest of a longer datagram is gone.
abbrev pub fitting : Bytes → Bytes
fitting bytes = take 1024 bytes

-- One turn of the reading goroutine that is not over, where the channel of 32 has room. An error
-- that is no timeout is handed on with no address and a slice of nothing.
unfoldable pub read_turn : ReadResult → UdpServ → UdpServ
read_turn timeout s = s
read_turn failed s = push (record { addr = none; len = 0 }) s
read_turn (datagram addr bytes) s =
    let read = fitting bytes in
    push (record { addr = some addr; len = length read })
      (record s { buffer = overwrite read s.buffer })

-- The handler for 112, which a gate with this server has, gets a request while the server runs.
abbrev pub handed_on : Bool → Option ℕ × Bytes → List (Option ℕ × Bytes) → List (Option ℕ × Bytes)
handed_on true req received = received ++ req ∷ []
handed_on false req received = received

-- The worker takes the first request and reads its bytes.
abbrev pub receive_first : List DataReq → UdpServ → UdpServ
receive_first [] s = s
receive_first (req ∷ reqs) s = record s {
  data_chan = reqs;
  received = handed_on s.running (req.addr, take req.len s.buffer) s.received;
}

unfoldable pub receive : UdpServ → UdpServ
receive s = receive_first s.data_chan s

-- `Close`, which then waits for both goroutines to take their signals.
unfoldable pub close : UdpServ → UdpServ
close s = record s { running = false }

unfoldable pub read_exit : UdpServ → UdpServ
read_exit s = record s { over = true }
