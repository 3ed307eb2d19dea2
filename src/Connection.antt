-- ===== src/Connection.antt =====
-- src/connection.c: one client and its server, with HAVE_LIBUDNS, HAVE_ACCEPT4 and IP_TRANSPARENT
-- defined. A failed `assert`, a read past a region, the `close` of a descriptor that is not open and
-- the cancelling of a NULL query are `none`. The list of connections is left out.
pub mod Socket
pub mod Request
pub mod Server
pub mod Callback
pub mod Close
pub mod Watch
pub mod Accept
pub mod Parts
pub mod Header
pub mod Inv
pub mod NoQuery
mod Tests
use sniproxy.Prelude.{ℕ, Bool, true, false, not, ◌||◌, Option, none, some, Bytes, ltb, ◌==◌}
use sniproxy.Buffer.{Buffer, buffer_len, buffer_room}

pub data State : Type 0 where
  new accepted parsed resolving resolved connected server_closed client_closed closed : State

-- `struct ev_io`: `wants_read` and `wants_write` are its events. `is_open` is whether the system has
-- its descriptor open.
pub record Watcher : Type 0 where
  pub is_active : Bool
  pub wants_read : Bool
  pub wants_write : Bool
  pub is_open : Bool

pub record SockAddr : Type 0 where
  pub family : ℕ
  pub address : Bytes

-- `query_handle` is whether there is a query, and not NULL.
pub record Connection : Type 0 where
  pub state : State
  pub client_addr : SockAddr
  pub client_watcher : Watcher
  pub client_buffer : Buffer
  pub server_addr : SockAddr
  pub server_watcher : Watcher
  pub server_buffer : Buffer
  pub hostname : Option Bytes
  pub hostname_len : ℕ
  pub header_len : ℕ
  pub query_handle : Bool
  pub use_proxy_header : Bool

-- What `connection.c` reads of `struct Listener` and its protocol; the source address is its port.
pub record Listener : Type 0 where
  pub has_fallback_address : Bool
  pub transparent_proxy : Bool
  pub source_port : Option ℕ
  pub abort_message : Bytes

infixl 5 ◌>>=◌ ◌>>◌
abbrev pub ◌>>=◌ {ℓ κ} : {A : Type ℓ} {B : Type κ} → Option A → (A → Option B) → Option B
none >>= f = none
some a >>= f = f a

abbrev pub ◌>>◌ {ℓ} : {B : Type ℓ} → Option (Unit {0}) → Option B → Option B
m >> k = m >>= λ _. k

abbrev pub assert : Bool → Option (Unit {0})
assert true = some tt
assert false = none

abbrev pub is_accepted : State → Bool
is_accepted accepted = true
is_accepted _ = false

abbrev pub is_parsed : State → Bool
is_parsed parsed = true
is_parsed _ = false

abbrev pub is_resolving : State → Bool
is_resolving resolving = true
is_resolving _ = false

abbrev pub is_resolved : State → Bool
is_resolved resolved = true
is_resolved _ = false

abbrev pub is_server_closed : State → Bool
is_server_closed server_closed = true
is_server_closed _ = false

abbrev pub is_client_closed : State → Bool
is_client_closed client_closed = true
is_client_closed _ = false

abbrev pub is_closed : State → Bool
is_closed closed = true
is_closed _ = false

abbrev pub client_socket_open : State → Bool
client_socket_open accepted = true
client_socket_open parsed = true
client_socket_open resolving = true
client_socket_open resolved = true
client_socket_open connected = true
client_socket_open server_closed = true
client_socket_open _ = false

abbrev pub server_socket_open : State → Bool
server_socket_open connected = true
server_socket_open client_closed = true
server_socket_open _ = false
