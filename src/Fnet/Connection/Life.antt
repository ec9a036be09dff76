-- ===== src/Fnet/Connection/Life.antt =====
-- fnet/connection.go over any sequence of calls.
use my_cluster.Common.{
  ℕ, ◌≡◌, ◌≢◌, refl, ◌∙◌, Bool, true, false, List, [], ◌∷◌, Option, none, some, String, ltb,
  if◌then◌else◌, length, ℤ, Bool-cases, inl, inr,
}
use my_cluster.Wire.{Bytes}
use my_cluster.Fnet.Reader.{PropertyValue}
use my_cluster.Fnet.Connection.{
  chan_send, Connection, Outcome, done, blocks, panics, set_property, remove_property,
  new_connection, stop_sent, stop, write, send, buffered, send_buff, lost_connection,
}

pub data Call : Type 0 where
  sets : String → PropertyValue → Call
  removes : String → Call
  sends : Bytes → Option ℕ → Call
  buffers : Bytes → Call
  stops : Call
  loses : Call

unfoldable pub call : Call → Connection → Connection × Outcome
call (sets key value) c = (set_property key value c, done)
call (removes key) c = (remove_property key c, done)
call (sends bytes socket) c = send bytes socket c
call (buffers bytes) c = send_buff bytes c
call stops c = stop c
call loses c = (lost_connection c, done)

-- The connection after the calls, and the outcome of each.
unfoldable pub calls : List Call → Connection → Connection × List Outcome
calls [] c = (c, [])
calls (x ∷ xs) c = let (c', o) = call x c in let (last, os) = calls xs c' in (last, o ∷ os)

-- Each call returns, and none panics.
abbrev pub Returns : Outcome → Type 0
Returns o = (o ≢ blocks) × (o ≢ panics)

abbrev pub AllReturn : List Outcome → Type 0
AllReturn [] = Unit
AllReturn (o ∷ os) = Returns o × AllReturn os

-- The first call that closes the connection is a `Stop`.
abbrev pub stopped_first : List Call → Bool
stopped_first [] = false
stopped_first (stops ∷ xs) = true
stopped_first (loses ∷ xs) = false
stopped_first (x ∷ xs) = stopped_first xs

-- As long as a connection is not closed, its channels are open and nothing was sent to the write
-- thread.
pub record IsOpen (c : Connection) : Type 0 where
  pub not_closed : c.is_closed ≡ false
  pub ext_open : c.ext_send_chan.closed ≡ false
  pub ext_empty : c.ext_send_chan.items ≡ []
  pub buff_open : c.send_buff_chan.closed ≡ false
  pub not_lost : c.lost_calls ≡ 0

-- What a call does to a connection that is open, by whether the call closes it.
abbrev Opens : Call → Connection → Type 0
Opens stops c = (c.is_closed ≡ true) × (c.lost_calls ≡ 1)
Opens loses c = (c.is_closed ≡ true) × (c.lost_calls ≡ 0)
Opens x c = IsOpen c

marked : (c : Connection) → IsOpen c → IsOpen (record c { is_closed = false })
marked c v = record {
  not_closed = refl;
  ext_open = v.ext_open;
  ext_empty = v.ext_empty;
  buff_open = v.buff_open;
  not_lost = v.not_lost;
}

buffered-IsOpen :
    (c : Connection) (bytes : Bytes)
    → IsOpen c
    → let r = buffered c (chan_send 10240 bytes c.send_buff_chan) in IsOpen r.0 × Returns r.1
unfolding buffered chan_send
buffered-IsOpen c bytes v =
    rw v.buff_open (elim (Bool-cases (ltb (length c.send_buff_chan.items) 10240)) [
      | inl e ↦ rw e (
        record {
          not_closed = v.not_closed;
          ext_open = v.ext_open;
          ext_empty = v.ext_empty;
          buff_open = refl;
          not_lost = v.not_lost;
        },
        ((λ x. cc), (λ x. cc)),
      )
      | inr e ↦ rw e (
        record {
          not_closed = v.not_closed;
          ext_open = v.ext_open;
          ext_empty = v.ext_empty;
          buff_open = refl;
          not_lost = v.not_lost;
        },
        ((λ x. cc), (λ x. cc)),
      )
    ])

write-IsOpen :
    (c : Connection) (bytes : Bytes) (socket : Option ℕ)
    → IsOpen c
    → IsOpen (write bytes socket c).0 × Returns (write bytes socket c).1
unfolding write
write-IsOpen c bytes none v = (
  record {
    not_closed = v.not_closed;
    ext_open = v.ext_open;
    ext_empty = v.ext_empty;
    buff_open = v.buff_open;
    not_lost = v.not_lost;
  },
  ((λ x. cc), (λ x. cc)),
)
write-IsOpen c bytes (some n) v = (
  record {
    not_closed = v.not_closed;
    ext_open = v.ext_open;
    ext_empty = v.ext_empty;
    buff_open = v.buff_open;
    not_lost = v.not_lost;
  },
  ((λ x. cc), (λ x. cc)),
)

stop-open :
    (c : Connection)
    → IsOpen c
    → (((stop c).0.is_closed ≡ true) × ((stop c).0.lost_calls ≡ 1)) × Returns (stop c).1
unfolding stop stop_sent chan_send
stop-open c v =
    rw (v.not_closed, v.ext_open, v.ext_empty, v.buff_open, v.not_lost)
      ((refl, refl), ((λ x. cc), (λ x. cc)))

call-open : (x : Call) (c : Connection) → IsOpen c → Opens x (call x c).0 × Returns (call x c).1
unfolding call send send_buff lost_connection set_property remove_property
call-open (sets key value) c v = (
  record {
    not_closed = v.not_closed;
    ext_open = v.ext_open;
    ext_empty = v.ext_empty;
    buff_open = v.buff_open;
    not_lost = v.not_lost;
  },
  ((λ x. cc), (λ x. cc)),
)
call-open (removes key) c v = (
  record {
    not_closed = v.not_closed;
    ext_open = v.ext_open;
    ext_empty = v.ext_empty;
    buff_open = v.buff_open;
    not_lost = v.not_lost;
  },
  ((λ x. cc), (λ x. cc)),
)
call-open (sends bytes socket) c v = rw v.not_closed (write-IsOpen _ bytes socket (marked c v))
call-open (buffers bytes) c v = rw v.not_closed (buffered-IsOpen _ bytes (marked c v))
call-open stops c v = stop-open c v
call-open loses c v = ((refl, v.not_lost), ((λ x. cc), (λ x. cc)))

call-closed :
    (x : Call) (c : Connection)
    → c.is_closed ≡ true
    → ((call x c).0.is_closed ≡ true)
      × ((call x c).0.lost_calls ≡ c.lost_calls)
      × Returns (call x c).1
unfolding call stop send send_buff lost_connection set_property remove_property
call-closed (sets key value) c h = (h, refl, ((λ x. cc), (λ x. cc)))
call-closed (removes key) c h = (h, refl, ((λ x. cc), (λ x. cc)))
call-closed (sends bytes socket) c h = rw h (refl, refl, ((λ x. cc), (λ x. cc)))
call-closed (buffers bytes) c h = rw h (refl, refl, ((λ x. cc), (λ x. cc)))
call-closed stops c h = rw h (refl, refl, ((λ x. cc), (λ x. cc)))
call-closed loses c h = (refl, refl, ((λ x. cc), (λ x. cc)))

calls-closed :
    (xs : List Call) (c : Connection)
    → c.is_closed ≡ true
    → ((calls xs c).0.lost_calls ≡ c.lost_calls) × AllReturn (calls xs c).1
unfolding calls
calls-closed [] c h = (refl, tt)
calls-closed (x ∷ xs) c h =
    let one = call-closed x c h in
    let rest = calls-closed xs (call x c).0 one.0 in (rest.0 ∙ one.1, (one.2, rest.1))

abbrev once : Bool → ℕ
once b = if b then 1 else 0

calls-open :
    (xs : List Call) (c : Connection)
    → IsOpen c
    → ((calls xs c).0.lost_calls ≡ once (stopped_first xs)) × AllReturn (calls xs c).1
unfolding calls
calls-open [] c v = (v.not_lost, tt)
calls-open (stops ∷ xs) c v =
    let one = call-open stops c v in
    let rest = calls-closed xs (call stops c).0 one.0.0 in (rest.0 ∙ one.0.1, (one.1, rest.1))
calls-open (loses ∷ xs) c v =
    let one = call-open loses c v in
    let rest = calls-closed xs (call loses c).0 one.0.0 in (rest.0 ∙ one.0.1, (one.1, rest.1))
calls-open (sets key value ∷ xs) c v =
    let one = call-open (sets key value) c v in
    let rest = calls-open xs (call (sets key value) c).0 one.0 in (rest.0, (one.1, rest.1))
calls-open (removes key ∷ xs) c v =
    let one = call-open (removes key) c v in
    let rest = calls-open xs (call (removes key) c).0 one.0 in (rest.0, (one.1, rest.1))
calls-open (sends bytes socket ∷ xs) c v =
    let one = call-open (sends bytes socket) c v in
    let rest = calls-open xs (call (sends bytes socket) c).0 one.0 in (rest.0, (one.1, rest.1))
calls-open (buffers bytes ∷ xs) c v =
    let one = call-open (buffers bytes) c v in
    let rest = calls-open xs (call (buffers bytes) c).0 one.0 in (rest.0, (one.1, rest.1))

new_connection-IsOpen : (sid : ℕ) (ctime : ℤ) → IsOpen (new_connection sid ctime)
unfolding new_connection set_property
new_connection-IsOpen sid ctime = record {
  not_closed = refl;
  ext_open = refl;
  ext_empty = refl;
  buff_open = refl;
  not_lost = refl;
}

-- On a new connection, in any sequence of property writes, sends, stops and `LostConnection`: every
-- call returns and none panics on a closed channel; and the callback for a lost connection is
-- started once when the first call that closes the connection is a `Stop`, and never otherwise.
pub calls_lem :
    (sid : ℕ) (ctime : ℤ) (xs : List Call)
    → let r = calls xs (new_connection sid ctime) in
      (r.0.lost_calls ≡ (if stopped_first xs then 1 else 0)) × AllReturn r.1
calls_lem sid ctime xs = calls-open xs (new_connection sid ctime) (new_connection-IsOpen sid ctime)
