-- ===== src/Connection/Callback.antt =====
-- src/connection.c: the callback of both watchers.
use sniproxy.Prelude.{
  ℕ, Bool, true, false, not, ◌&&◌, Option, some, Bytes, length, ltb, ◌==◌, if◌then◌else◌,
}
use sniproxy.Parse.{Result}
use sniproxy.Buffer.{
  Buffer, Errno, eagain, ewouldblock, eintr, RecvOutcome, received, recv_failed, SendOutcome, sent,
  send_failed, buffer_len, buffer_room, recv, send,
}
use sniproxy.Connection.{
  Connection, Listener, ◌>>=◌, is_accepted, is_parsed, is_resolved, is_server_closed,
  is_client_closed, is_closed,
}
use sniproxy.Connection.Socket.{close_client_socket, close_server_socket, reactivate_watchers}
use sniproxy.Connection.Request.{parse_client_request}
use sniproxy.Connection.Server.{Lookup, Calls, resolve_server_address, initiate_server_connect}

-- The socket that an event is of.
pub data Side : Type 0 where
  client server : Side

-- The events, and the outcomes of the calls that the callback makes.
pub record Event : Type 0 where
  pub readable : Bool
  pub writable : Bool
  pub recv_outcome : RecvOutcome
  pub send_outcome : SendOutcome
  pub now : ℕ
  pub temp_ok : Bool
  pub malloc_ok : Bool
  pub query_ok : Bool
  pub calls : Calls

abbrev pub is_temporary : Errno → Bool
is_temporary eagain = true
is_temporary ewouldblock = true
is_temporary eintr = true
is_temporary _ = false

abbrev pub input : Side → Connection → Buffer
input client con = con.client_buffer
input server con = con.server_buffer

abbrev pub output : Side → Connection → Buffer
output client con = con.server_buffer
output server con = con.client_buffer

abbrev pub with_input : Side → Buffer → Connection → Connection
with_input client b con = record con { client_buffer = b }
with_input server b con = record con { server_buffer = b }

abbrev pub with_output : Side → Buffer → Connection → Connection
with_output client b con = record con { server_buffer = b }
with_output server b con = record con { client_buffer = b }

abbrev pub close_socket : Side → Connection → Option Connection
close_socket client con = close_client_socket con
close_socket server con = close_server_socket con

-- Whether the peer is gone: an error that lasts, or the end of the data.
abbrev pub is_over : RecvOutcome → Bool
is_over (received bytes) = length bytes == 0
is_over (recv_failed e) = not (is_temporary e)

-- With the connection, whether the events stand still.
abbrev pub receive : Side → Event → Connection → Option (Bool × Connection)
receive side ev con =
    if ev.readable && ltb 0 (buffer_room (input side con))
    then (let con = with_input side (recv (input side con) ev.recv_outcome ev.now).1 con in
        if is_over ev.recv_outcome
        then (do con ← close_socket side con; some (false, con))
        else some (true, con))
    else some (true, con)

abbrev pub is_broken : SendOutcome → Bool
is_broken (sent n) = false
is_broken (send_failed e) = not (is_temporary e)

abbrev pub transmit : Side → Event → Bool → Connection → Option Connection
transmit side ev still con =
    if still && ev.writable && ltb 0 (buffer_len (output side con))
    then (let con = with_output side (send (output side con) ev.send_outcome ev.now).2 con in
        if is_broken ev.send_outcome then close_socket side con else some con)
    else some con

abbrev pub is_client : Side → Bool
is_client client = true
is_client server = false

-- The connection is freed as it is, or stands.
pub data Outcome : Type 0 where
  freed : Connection → Outcome
  stands : Connection → Outcome

-- The other socket is closed where what it is to be sent is flushed.
abbrev pub close_flushed : Connection → Option Connection
close_flushed con = do
  con ←
      if is_server_closed con.state && buffer_len con.server_buffer == 0
      then close_client_socket con
      else some con
  if is_client_closed con.state && buffer_len con.client_buffer == 0
      then close_server_socket con
      else some con

abbrev pub finish : Connection → Option Outcome
finish con =
    if is_closed con.state
    then some (freed con)
    else (do con ← reactivate_watchers con; some (stands con))

module _ (listener : Listener) (parse : Bytes → Result Bytes)
    (lookup : Option Bytes → ℕ → Lookup) where
  -- The state specific logic.
  abbrev pub advance : Side → Event → Connection → Option Connection
  advance side ev con = do
    con ←
        if is_client side && is_accepted con.state
        then parse_client_request listener parse ev.temp_ok con
        else some con
    con ←
        if is_client side && is_parsed con.state
        then resolve_server_address listener (lookup con.hostname con.hostname_len) ev.malloc_ok
            ev.query_ok con
        else some con
    if is_client side && is_resolved con.state
        then initiate_server_connect listener ev.calls con
        else some con

  abbrev pub connection_cb : Side → Event → Connection → Option Outcome
  connection_cb side ev con = do
    (still, con) ← receive side ev con
    con ← transmit side ev still con
    con ← advance side ev con
    con ← close_flushed con
    finish con
