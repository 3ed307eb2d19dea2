-- ===== src/Connection/Tests.antt =====
-- src/connection.c at a connection that waits for an answer.
use sniproxy.Prelude.{
  ℕ, ◌≤◌, ◌≡◌, ◌≢◌, refl, Bool, true, false, none, some, [], ◌∷◌, Bytes, codes, length, tabulate,
  length-tabulate, arith,
}
use sniproxy.Parse.{fail}
use sniproxy.Buffer.{Buffer, received, sent}
use sniproxy.Connection.{new, resolving, SockAddr, Connection, Listener}
use sniproxy.Connection.Server.{not_found}
use sniproxy.Connection.Callback.{freed, Event}
use sniproxy.Connection.NoQuery.{asked, connection_cb-no_query}
use sniproxy.Connection.Socket.{close_client_socket, close_connection, reactivate_watchers}
use sniproxy.Connection.Close.{HasSockets, IsReleased, Succeeds, close_connection_lem}
use sniproxy.Connection.Accept.{new_connection, accept_connection}
use sniproxy.Connection.Header.{IsAccepted, IsProxyHeader, ArePrinted, accept_connection_lem}
use sniproxy.Connection.Watch.{SameRest, reactivate_watchers_lem}

abbrev empty : Buffer
empty = record {
  buffer = 0 ∷ 0 ∷ 0 ∷ 0 ∷ [];
  size_mask = 3;
  head = 0;
  len = 0;
  last_recv = 0;
  last_send = 0;
  tx_bytes = 0;
  rx_bytes = 0;
}

abbrev nowhere : SockAddr
nowhere = record { family = 0; address = [] }

abbrev waiting : Bool → Connection
waiting query = record {
  state = resolving;
  client_addr = nowhere;
  client_watcher = record {
    is_active = true;
    wants_read = true;
    wants_write = false;
    is_open = true;
  };
  client_buffer = empty;
  server_addr = nowhere;
  server_watcher = record {
    is_active = false;
    wants_read = false;
    wants_write = false;
    is_open = false;
  };
  server_buffer = empty;
  hostname = some (97 ∷ []);
  hostname_len = 1;
  header_len = 0;
  query_handle = query;
  use_proxy_header = false;
}

resolving_ne_new : resolving ≢ new
resolving_ne_new e = absurd (cc e)

waiting-HasSockets : HasSockets (waiting true)
waiting-HasSockets = record {
  client_fd = refl;
  server_fd = refl;
  client_idle = λ k. cc;
  server_idle = λ k. refl;
  query = λ k. refl;
}

close_connection_lem_example : Succeeds IsReleased (close_connection (waiting true))
close_connection_lem_example = close_connection_lem resolving_ne_new waiting-HasSockets

-- The handle of a query that `resolv_query` could not make is read through.
close_client_socket_no_query : close_client_socket (waiting false) ≡ none
close_client_socket_no_query = refl

reactivate_watchers_lem_example :
    (con' : Connection) × (reactivate_watchers (waiting true) ≡ some con')
    × HasSockets con'
    × SameRest (waiting true) con'
reactivate_watchers_lem_example = reactivate_watchers_lem (waiting true) waiting-HasSockets tt

zero_bytes : (n : ℕ) → (s : Bytes) × (length s ≡ n)
zero_bytes n = (tabulate n (λ _. 0), length-tabulate n (λ _. 0))

abbrev storage : Bytes
storage = (zero_bytes 4096).0

abbrev local_host : SockAddr
local_host = record { family = 2; address = 127 ∷ 0 ∷ 0 ∷ 1 ∷ [] }

abbrev ntop : SockAddr → Bytes
ntop _ = codes "127.0.0.1"

abbrev port : SockAddr → Bytes
port _ = codes " 80"

local-ArePrinted : ArePrinted ntop port local_host local_host
local-ArePrinted = record {
  some_peer = omega arith;
  some_local = omega arith;
  peer_fits = omega arith;
  local_fits = omega arith;
  some_peer_port = omega arith;
  some_local_port = omega arith;
  peer_port_fits = omega arith;
  local_port_fits = omega arith;
}

accept_connection_lem_example :
    (text : Bytes) × (con : Connection) × IsProxyHeader ntop port local_host local_host text
    × (length text ≤ 200)
    × (accept_connection ntop port
          (new_connection 9 true (some storage) (some storage))
          (some local_host)
          (some local_host)
          true
        ≡ some (some con))
    × IsAccepted text con
accept_connection_lem_example =
    accept_connection_lem ntop port local_host local_host 9 storage storage true (zero_bytes 4096).1
      (zero_bytes 4096).1 local-ArePrinted

-- The client of a connection without a query closes its end.
abbrev plain : Listener
plain = record {
  has_fallback_address = false;
  transparent_proxy = false;
  source_port = none;
  abort_message = [];
}

abbrev close_event : Event
close_event = record {
  readable = true;
  writable = false;
  recv_outcome = received [];
  send_outcome = sent 0;
  now = 9;
  temp_ok = true;
  malloc_ok = true;
  query_ok = true;
  calls = record {
    socket_ok = false;
    setsockopt_ok = false;
    bind = λ _. none;
    connect = none;
    getsockname_ok = false;
  };
}

connection_cb-no_query_example :
    (asked plain (λ bytes. fail 1) (λ name n. not_found) false false close_event (waiting true)
      ≡ none)
    × ((closed : Connection) × (asked plain
            (λ bytes. fail 1)
            (λ name n. not_found)
            true
            false
            close_event
            (waiting true)
          ≡ some (freed closed))
        × (closed.client_watcher.is_open ≡ false)
        × (closed.query_handle ≡ false))
connection_cb-no_query_example =
    connection_cb-no_query plain (λ bytes. fail 1) (λ name n. not_found) false close_event
      (waiting true) refl (omega arith) refl refl
