-- ===== src/Connection/Inv.antt =====
-- What holds of a connection of src/connection.c in every state, inside a callback and between two.
pub mod Close
pub mod Transfer
pub mod Request
pub mod Server
pub mod Advance
pub mod Rest
pub mod Run
pub mod Reach
pub mod Start
mod Tests
use sniproxy.Prelude.{
  ℕ, ◌+◌, ◌≤◌, ◌<◌, ◌≡◌, ◌≢◌, refl, sym, ap, ◌∙◌, Bool, true, false, Option, none, some, length,
  leb, if◌then◌else◌, arith, dec_lt, Bytes,
}
use sniproxy.Buffer.{Buffer, buffer_room, buffer_len, push}
use sniproxy.Buffer.Valid.{IsValid}
use sniproxy.Buffer.Kept.{Kept}
use sniproxy.Connection.{
  State, new, accepted, resolving, server_closed, Connection, Listener, ◌>>=◌, assert,
  client_socket_open, server_socket_open,
}
use sniproxy.Connection.Close.{HasSockets, Succeeds, succeeds}

-- Both buffers are valid, the PROXY header leaves room for a request, the client's bytes start at the
-- start of the storage until they are parsed, and the abort message fits into the server's buffer.
pub record Inv (listener : Listener) (con : Connection) : Type 0 where
  pub sockets : HasSockets con
  pub client_valid : IsValid con.client_buffer
  pub server_valid : IsValid con.server_buffer
  pub at_start : con.state ≡ accepted → con.client_buffer.head ≡ 0
  pub header_fits : con.header_len ≤ con.client_buffer.size_mask
  pub message_fits : length listener.abort_message ≤ con.server_buffer.size_mask + 1

pub Succeeds-bind :
    {A B : Type 0} {P : A → Type 0} {Q : B → Type 0} (m : Option A) (f : A → Option B)
    → Succeeds P m
    → ((a : A) → P a → Succeeds Q (f a))
    → Succeeds Q (m >>= f)
Succeeds-bind none f h k = elim h [ ]
Succeeds-bind (some a) f (succeeds p) k = k a p

pub Succeeds-map :
    {A : Type 0} {P Q : A → Type 0} (m : Option A)
    → ((a : A) → P a → Q a)
    → Succeeds P m
    → Succeeds Q m
Succeeds-map none f h = elim h [ ]
Succeeds-map (some a) f (succeeds p) = succeeds (f a p)

pub assert-Succeeds : (b : Bool) → b ≡ true → Succeeds (λ (u : Unit {0}). Unit {0}) (assert b)
assert-Succeeds true e = succeeds tt
assert-Succeeds false e = cc

-- A branch, by its test.
pub Succeeds-if :
    {A : Type 0} {P : A → Type 0} (b : Bool) (m n : Option A)
    → (b ≡ true → Succeeds P m)
    → (b ≡ false → Succeeds P n)
    → Succeeds P (if b then m else n)
Succeeds-if true m n t f = t refl
Succeeds-if false m n t f = f refl

module _ {listener : Listener} {con : Connection} (i : Inv listener con) where
  pub Inv-with_client :
      {b : Buffer}
      → Kept con.client_buffer b
      → (con.state ≡ accepted → b.head ≡ 0)
      → Inv listener (record con { client_buffer = b })
  Inv-with_client k z = record {
    sockets = record {
      client_fd = i.sockets.client_fd;
      server_fd = i.sockets.server_fd;
      client_idle = i.sockets.client_idle;
      server_idle = i.sockets.server_idle;
      query = i.sockets.query;
    };
    client_valid = k.valid;
    server_valid = i.server_valid;
    at_start = z;
    header_fits = omega (arith, k.same_size, i.header_fits);
    message_fits = i.message_fits;
  }

  pub Inv-with_server :
      {b : Buffer} → Kept con.server_buffer b → Inv listener (record con { server_buffer = b })
  Inv-with_server k = record {
    sockets = record {
      client_fd = i.sockets.client_fd;
      server_fd = i.sockets.server_fd;
      client_idle = i.sockets.client_idle;
      server_idle = i.sockets.server_idle;
      query = i.sockets.query;
    };
    client_valid = i.client_valid;
    server_valid = k.valid;
    at_start = i.at_start;
    header_fits = i.header_fits;
    message_fits = omega (arith, k.same_size, i.message_fits);
  }
