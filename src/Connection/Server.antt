-- ===== src/Connection/Server.antt =====
-- src/connection.c: from the name to the connection with the server.
use sniproxy.Prelude.{
  ℕ, zero, suc, Bool, true, false, not, ◌&&◌, Option, none, some, ◌==◌, if◌then◌else◌, ◌+◌, length,
  leb,
}
use sniproxy.Buffer.{Errno, einprogress, eaddrinuse, pop}
use sniproxy.Connection.{
  resolving, resolved, connected, SockAddr, Connection, Listener, ◌>>=◌, ◌>>◌, assert, is_resolving,
}
use sniproxy.Connection.Socket.{start_watcher, reactivate_watchers}
use sniproxy.Connection.Request.{abort_connection}

-- What the listener finds for the name: a NULL address, a name, a socket address, or an address of
-- another type; and whether to keep the PROXY header.
pub data Lookup : Type 0 where
  not_found : Lookup
  named : Bool → Lookup
  direct : SockAddr → Bool → Lookup
  pattern_address : Lookup

-- `address_sa_len`: the family, of two bytes, and what is behind it.
abbrev pub sa_len : SockAddr → ℕ
sa_len addr = 2 + length addr.address

-- `addr_len <= sizeof(con->server.addr)`, the size of `struct sockaddr_storage`.
abbrev pub fits_storage : SockAddr → Bool
fits_storage addr = leb (sa_len addr) 128

-- `malloc_ok` is for the callback's data, `query_ok` for a result of `resolv_query` that is not NULL.
abbrev pub resolve_server_address : Listener → Lookup → Bool → Bool → Connection → Option Connection
resolve_server_address listener not_found malloc_ok query_ok con = abort_connection listener con
resolve_server_address listener (named proxy) malloc_ok query_ok con =
    if not malloc_ok
    then abort_connection listener con
    else some (record con { use_proxy_header = proxy; query_handle = query_ok; state = resolving })
resolve_server_address listener (direct addr proxy) malloc_ok query_ok con =
    assert (fits_storage addr)
    >> some (record con { server_addr = addr; use_proxy_header = proxy; state = resolved })
resolve_server_address listener pattern_address malloc_ok query_ok con = none

-- The outcomes of the system calls of `initiate_server_connect`; `bind` by the number of tries left,
-- with `none` for success.
pub record Calls : Type 0 where
  pub socket_ok : Bool
  pub setsockopt_ok : Bool
  pub bind : ℕ → Option Errno
  pub connect : Option Errno
  pub getsockname_ok : Bool

abbrev pub is_ok : Option Errno → Bool
is_ok none = true
is_ok (some e) = false

abbrev pub is_eaddrinuse : Errno → Bool
is_eaddrinuse eaddrinuse = true
is_eaddrinuse _ = false

-- The loop over `bind` to a source address; whether the last try went well.
pub bind_loop : (ℕ → Option Errno) → ℕ → ℕ → Bool
bind_loop bind port zero = is_ok (bind zero)
bind_loop bind port (suc tries) =
    let rest = bind_loop bind port tries in
    elim (bind (suc tries)) [
      | none ↦ true
      | some e ↦ if is_eaddrinuse e && port == 0 then rest else false
    ]

abbrev pub bind_source : Calls → Option ℕ → Bool
bind_source calls none = true
bind_source calls (some port) = calls.setsockopt_ok && bind_loop calls.bind port 5

-- The local address of the new socket, as a transparent proxy or with a source address.
abbrev pub bind_socket : Listener → Calls → Connection → Bool
bind_socket listener calls con =
    if listener.transparent_proxy && con.client_addr.family == con.server_addr.family
    then calls.setsockopt_ok && is_ok (calls.bind 5)
    else bind_source calls listener.source_port

abbrev pub connect_ok : Option Errno → Bool
connect_ok none = true
connect_ok (some einprogress) = true
connect_ok (some _) = false

-- The PROXY header is consumed where the backend is not to have it.
abbrev pub drop_header : Connection → Connection
drop_header con =
    if not (con.header_len == 0) && not con.use_proxy_header
    then record con { client_buffer = (pop con.client_buffer con.header_len).2 }
    else con

abbrev pub connected_to : Connection → Connection
connected_to con = record con {
  server_watcher = start_watcher con.server_watcher false true;
  state = connected;
}

-- The descriptor that `socket` gives is open; a path that fails closes it.
abbrev pub with_socket : Connection → Connection
with_socket con = record con { server_watcher = record con.server_watcher { is_open = true } }

abbrev pub close_sockfd : Connection → Connection
close_sockfd con = record con { server_watcher = record con.server_watcher { is_open = false } }

abbrev pub give_up : Listener → Connection → Option Connection
give_up listener con = abort_connection listener (close_sockfd con)

abbrev pub initiate_server_connect : Listener → Calls → Connection → Option Connection
initiate_server_connect listener calls con =
    if not calls.socket_ok
    then abort_connection listener con
    else if not (bind_socket listener calls con)
    then give_up listener (with_socket con)
    else if not (connect_ok calls.connect)
    then give_up listener (with_socket con)
    else if not calls.getsockname_ok
    then give_up listener (with_socket con)
    else some (connected_to (drop_header (with_socket con)))

-- The resolver's result, where it is not NULL: a socket address, or an address of another type.
pub data Answer : Type 0 where
  socket_address : SockAddr → Answer
  other_address : Answer

abbrev pub take_address : Listener → Calls → Option Answer → Connection → Option Connection
take_address listener calls none con = abort_connection listener con
take_address listener calls (some other_address) con = none
take_address listener calls (some (socket_address addr)) con =
    assert (fits_storage addr)
    >> initiate_server_connect listener calls (record con { server_addr = addr; state = resolved })

-- `result` is the address found, with the port that was asked for.
abbrev pub resolv_cb : Listener → Calls → Option Answer → Connection → Option Connection
resolv_cb listener calls result con = if not (is_resolving con.state) then some con else (do
  con ← take_address listener calls result con
  reactivate_watchers (record con { query_handle = false }))
