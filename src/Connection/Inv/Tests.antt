-- ===== src/Connection/Inv/Tests.antt =====
-- The callbacks of src/connection.c at concrete connections.
use sniproxy.Prelude.{
  ℕ, ◌≡◌, ◌≢◌, refl, Bool, true, false, Option, none, some, [], Bytes, codes, length, tabulate,
  length-tabulate, arith, IsPow2-pow,
}
use sniproxy.Parse.{Result, fail, fault}
use sniproxy.Buffer.{Buffer, received, sent, recv}
use sniproxy.Buffer.Valid.{IsValid}
use sniproxy.Connection.{State, accepted, resolving, closed, SockAddr, Connection, Listener}
use sniproxy.Connection.Server.{Lookup, not_found, Calls, resolv_cb}
use sniproxy.Connection.Callback.{client, Event, freed, connection_cb}
use sniproxy.Connection.Close.{Succeeds}
use sniproxy.Connection.Header.{IsAccepted}
use sniproxy.Connection.Inv.Transfer.{side_open}
use sniproxy.Connection.Inv.Server.{IsKnown}
use sniproxy.Connection.Inv.Rest.{IsResting, IsKept}
use sniproxy.Connection.Inv.Run.{Happens, connection_cb_lem, resolv_cb_lem}
use sniproxy.Connection.Inv.Reach.{Reaches, at_first, later, on_event}
use sniproxy.Connection.Inv.Start.{IsAccepted-Reaches}

zero_bytes : (n : ℕ) → (s : Bytes) × (length s ≡ n)
zero_bytes n = (tabulate n (λ _. 0), length-tabulate n (λ _. 0))

abbrev empty : Buffer
empty = record {
  buffer = (zero_bytes 4096).0;
  size_mask = 4095;
  head = 0;
  len = 0;
  last_recv = 0;
  last_send = 0;
  tx_bytes = 0;
  rx_bytes = 0;
}

empty-IsValid : IsValid empty
empty-IsValid = record {
  pow2 = IsPow2-pow 12;
  small = omega arith;
  storage = (zero_bytes 4096).1;
  head_in = omega arith;
  len_in = omega arith;
}

abbrev nowhere : SockAddr
nowhere = record { family = 0; address = [] }

abbrev in_state : State → Bool → Connection
in_state state query = record {
  state = state;
  client_addr = nowhere;
  client_watcher = record {
    is_active = true;
    wants_read = true;
    wants_write = false;
    is_open = true;
  };
  client_buffer = empty;
  server_addr = nowhere;
  server_watcher = record {
    is_active = false;
    wants_read = false;
    wants_write = false;
    is_open = false;
  };
  server_buffer = empty;
  hostname = none;
  hostname_len = 0;
  header_len = 0;
  query_handle = query;
  use_proxy_header = false;
}

abbrev plain : Listener
plain = record {
  has_fallback_address = false;
  transparent_proxy = false;
  source_port = none;
  abort_message = codes "Backend not available";
}

-- A parser that always wants more, and a table without entries.
abbrev more : Bytes → Result Bytes
more bytes = fail 1

more_safe : (bytes : Bytes) → more bytes ≢ fault
more_safe bytes e = absurd (cc e)

abbrev nothing : Option Bytes → ℕ → Lookup
nothing name n = not_found

nothing-IsKnown : (name : Option Bytes) (n : ℕ) → IsKnown (nothing name n)
nothing-IsKnown name n = tt

abbrev no_calls : Calls
no_calls = record {
  socket_ok = false;
  setsockopt_ok = false;
  bind = λ _. none;
  connect = none;
  getsockname_ok = false;
}

-- The client closes its end.
abbrev hang_up : Event
hang_up = record {
  readable = true;
  writable = false;
  recv_outcome = received [];
  send_outcome = sent 0;
  now = 9;
  temp_ok = true;
  malloc_ok = true;
  query_ok = true;
  calls = no_calls;
}

resolving-IsResting : IsResting plain (in_state resolving true)
resolving-IsResting = record {
  inv = record {
    sockets = record {
      client_fd = refl;
      server_fd = refl;
      client_idle = λ k. cc;
      server_idle = λ k. refl;
      query = λ k. refl;
    };
    client_valid = empty-IsValid;
    server_valid = empty-IsValid;
    at_start = λ k. refl;
    header_fits = omega arith;
    message_fits = omega arith;
  };
  waiting = tt;
}

hang_up-Happens :
    (state : State) → side_open client state ≡ true → Happens client hang_up (in_state state true)
hang_up-Happens state up = record {
  socket_open = up;
  recv_fits = omega arith;
  send_fits = omega arith;
  query_given = refl;
}

connection_cb_lem_example :
    Succeeds
      (IsKept plain)
      (connection_cb plain more nothing client hang_up (in_state resolving true))
connection_cb_lem_example =
    connection_cb_lem (omega arith) more more_safe nothing nothing-IsKnown client hang_up
      (in_state resolving true) resolving-IsResting (hang_up-Happens resolving refl)

resolv_cb_lem_example :
    Succeeds (IsResting plain) (resolv_cb plain no_calls none (in_state resolving true))
resolv_cb_lem_example =
    resolv_cb_lem (omega arith) more more_safe nothing nothing-IsKnown no_calls none
      (in_state resolving true) tt resolving-IsResting

-- What is left when the client of a connection has hung up.
abbrev hung_up : State → Connection
hung_up state = record (in_state state true) {
  state = closed;
  client_watcher = record {
    is_active = false;
    wants_read = true;
    wants_write = false;
    is_open = false;
  };
  client_buffer = (recv empty (received []) 9).1;
}

accepted-hung_up :
    Reaches plain more nothing (in_state accepted true) (some (freed (hung_up accepted)))
unfolding recv
accepted-hung_up =
    later (in_state accepted true) (at_first refl) refl
      (on_event client hang_up (hang_up-Happens accepted refl) refl)

accepted-IsAccepted : IsAccepted [] (in_state accepted true)
accepted-IsAccepted = record {
  in_state = refl;
  watching = refl;
  sockets = record {
    client_fd = refl;
    server_fd = refl;
    client_idle = λ k. cc;
    server_idle = λ k. refl;
    query = λ k. refl;
  };
  client_valid = empty-IsValid;
  server_valid = empty-IsValid;
  client_holds = refl;
  server_empty = refl;
  header_size = refl;
  client_capacity = refl;
  server_capacity = refl;
  at_start = refl;
}

IsAccepted-Reaches_example : Succeeds (IsKept plain) (some (freed (hung_up accepted)))
IsAccepted-Reaches_example =
    IsAccepted-Reaches plain more nothing (omega arith) (omega arith) more_safe nothing-IsKnown
      accepted-IsAccepted (omega arith) accepted-hung_up
