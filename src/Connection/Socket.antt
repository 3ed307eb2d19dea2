-- ===== src/Connection/Socket.antt =====
-- src/connection.c: closing the sockets of a connection, and its watchers.
use sniproxy.Prelude.{Bool, true, false, not, ◌&&◌, ◌||◌, Option, none, some, ltb, if◌then◌else◌}
use sniproxy.Buffer.{Buffer, buffer_len, buffer_room}
use sniproxy.Connection.{
  State, new, accepted, parsed, resolving, resolved, server_closed, client_closed, closed, Watcher,
  Connection, ◌>>=◌, ◌>>◌, assert, is_resolving, is_closed, is_server_closed, is_client_closed,
  client_socket_open, server_socket_open,
}

-- `ev_io_stop(loop, w); close(w->fd);`
abbrev pub close_fd : Watcher → Option Watcher
close_fd w = if w.is_open then some (record w { is_active = false; is_open = false }) else none

-- `resolv_cancel` reads through the handle.
abbrev pub resolv_cancel : Bool → Option Bool
resolv_cancel handle = if handle then some false else none

abbrev pub cancel_query : State → Bool → Option Bool
cancel_query resolving handle = resolv_cancel handle
cancel_query _ handle = some handle

-- The state behind `close_client_socket`, by the one before it.
abbrev pub without_client : State → State
without_client server_closed = closed
without_client accepted = closed
without_client parsed = closed
without_client resolving = closed
without_client resolved = closed
without_client _ = client_closed

abbrev pub close_client_socket : Connection → Option Connection
close_client_socket con = do
  assert (not (is_closed con.state || is_client_closed con.state))
  watcher ← close_fd con.client_watcher
  handle ← cancel_query con.state con.query_handle
  some (record con {
    client_watcher = watcher;
    query_handle = handle;
    state = without_client con.state;
  })

abbrev pub without_server : State → State
without_server client_closed = closed
without_server _ = server_closed

abbrev pub close_server_socket : Connection → Option Connection
close_server_socket con = do
  assert (not (is_closed con.state || is_server_closed con.state))
  watcher ← close_fd con.server_watcher
  some (record con { server_watcher = watcher; state = without_server con.state })

-- The second `assert` of `close_connection`.
abbrev pub is_half_closed : State → Bool
is_half_closed accepted = true
is_half_closed parsed = true
is_half_closed resolving = true
is_half_closed resolved = true
is_half_closed server_closed = true
is_half_closed closed = true
is_half_closed _ = false

abbrev pub is_new : State → Bool
is_new new = true
is_new _ = false

abbrev pub close_connection : Connection → Option Connection
close_connection con = do
  assert (not (is_new con.state))
  con ← if server_socket_open con.state then close_server_socket con else some con
  assert (is_half_closed con.state)
  con ← if client_socket_open con.state then close_client_socket con else some con
  assert (is_closed con.state)
  some con

-- `ev_io_set` and `ev_io_start`.
abbrev pub start_watcher : Watcher → Bool → Bool → Watcher
start_watcher w wants_read wants_write = record w {
  is_active = true;
  wants_read = wants_read;
  wants_write = wants_write;
}

-- A watcher that is active with the events wanted is left as it is, which is what starting it again
-- gives.
abbrev pub reactivate_watcher : Watcher → Buffer → Buffer → Watcher
reactivate_watcher w input output =
    let wants_read = ltb 0 (buffer_room input) in
    let wants_write = ltb 0 (buffer_len output) in
    if wants_read || wants_write
    then start_watcher w wants_read wants_write
    else record w { is_active = false }

abbrev pub reactivate_client : Connection → Connection
reactivate_client con =
    if client_socket_open con.state
    then record con {
      client_watcher = reactivate_watcher con.client_watcher con.client_buffer con.server_buffer;
    }
    else con

abbrev pub reactivate_server : Connection → Connection
reactivate_server con =
    if server_socket_open con.state
    then record con {
      server_watcher = reactivate_watcher con.server_watcher con.server_buffer con.client_buffer;
    }
    else con

abbrev pub is_watching : Watcher → Bool
is_watching w = w.is_active && (w.wants_read || w.wants_write)

abbrev pub check_watchers : Connection → Option Connection
check_watchers con = do
  assert (client_socket_open con.state || not con.client_watcher.is_active)
  assert (server_socket_open con.state || not con.server_watcher.is_active)
  assert
      (is_watching con.client_watcher || is_watching con.server_watcher || is_resolving con.state)
  some con

abbrev pub reactivate_watchers : Connection → Option Connection
reactivate_watchers con = check_watchers (reactivate_server (reactivate_client con))
