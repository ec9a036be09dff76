-- ===== src/Fnet/TcpClient.antt =====
-- fnet/tcpclient.go: a connection to a server that is made again when it is lost. The network is the
-- parameter `dial`: the connection, or none, that the attempt of a number makes.
pub mod Retry
use my_cluster.Common.{
  ℕ, zero, suc, ◌+◌, Bool, true, false, ◌||◌, List, [], ◌∷◌, ◌++◌, Option, none, some, String,
  if◌then◌else◌, ◌==◌, lookup, insert, delete, string_eq, take,
}
use my_cluster.Wire.{Bytes}
use my_cluster.Fnet.Reader.{PropertyValue, PropertyBag}

-- What the client starts: the callbacks of its protocol, its read loop, its own callback.
pub data ClientCall : Type 0 where
  connection_made connection_lost read_thread reconnected : ClientCall

pub record TcpClient : Type 0 where
  pub conn : ℕ
  pub property_bag : PropertyBag
  pub has_reconn_cb : Bool
  pub max_retry : ℕ
  pub written : Bytes
  -- What was started so far, the oldest first.
  pub started : List ClientCall

pub data Dialled : Type 0 where
  client : TcpClient → Dialled
  panics : Dialled

unfoldable pub new_tcp_client : Option ℕ → Dialled
new_tcp_client none = panics
new_tcp_client (some conn) = client (record {
  conn = conn;
  property_bag = [];
  has_reconn_cb = false;
  max_retry = 0;
  written = [];
  started = connection_made ∷ [];
})

unfoldable pub with_retry : ℕ → Bool → Dialled → Dialled
with_retry max_retry has_cb panics = panics
with_retry max_retry has_cb (client c) =
    client (record c { max_retry = max_retry; has_reconn_cb = has_cb })

unfoldable pub new_reconn_tcp_client : ℕ → Bool → Option ℕ → Dialled
new_reconn_tcp_client max_retry has_cb dialled =
    with_retry max_retry has_cb (new_tcp_client dialled)

unfoldable pub start : TcpClient → TcpClient
start c = record c { started = c.started ++ read_thread ∷ [] }

-- A turn of the loop of `ReConnection`: the attempt's connection, or what the rest finds.
abbrev pub or_later : Option ℕ → Option ℕ → Option ℕ
or_later none rest = rest
or_later (some conn) rest = some conn

-- The loop from its attempt `i` on, with `n` attempts left.
unfoldable pub dial_again : (ℕ → Option ℕ) → ℕ → ℕ → Option ℕ
dial_again dial i zero = none
dial_again dial i (suc n) = or_later (dial i) (dial_again dial (i + 1) n)

unfoldable pub re_connection : (ℕ → Option ℕ) → TcpClient → Option ℕ
re_connection dial c = dial_again dial 1 c.max_retry

unfoldable pub after_dial : TcpClient → Option ℕ → TcpClient
after_dial c none = c
after_dial c (some conn) =
    let c' = start (record c { conn = conn }) in
    if c.has_reconn_cb then record c' { started = c'.started ++ reconnected ∷ [] } else c'

-- `is_close` is GlobalObject.IsClose.
unfoldable pub stop : Bool → Bool → (ℕ → Option ℕ) → TcpClient → TcpClient
stop is_close is_force dial c =
    if c.max_retry == 0 || (is_close || is_force)
    then record c { started = c.started ++ connection_lost ∷ [] }
    else after_dial c (re_connection dial c)

-- The socket takes all bytes, or reports an error after some.
unfoldable pub send : Bytes → Option ℕ → TcpClient → TcpClient × Bool
send bytes none c = (record c { written = c.written ++ bytes }, true)
send bytes (some n) c = (record c { written = c.written ++ take n bytes }, false)

unfoldable pub set_property : String → PropertyValue → TcpClient → TcpClient
set_property key value c = record c { property_bag = insert key value c.property_bag }

unfoldable pub get_property : String → TcpClient → Option PropertyValue
get_property key c = lookup key c.property_bag

unfoldable pub remove_property : String → TcpClient → TcpClient
remove_property key c = record c { property_bag = delete key c.property_bag }
