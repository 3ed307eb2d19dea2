-- ===== src/Connection/Inv/Start.antt =====
-- A connection that src/connection.c has accepted rests, and so does all that callbacks make of it.
use sniproxy.Prelude.{ℕ, ◌≤◌, ◌<◌, ◌≢◌, sym, ap, subst, Option, Bytes, length, arith}
use sniproxy.Parse.{Result, fault}
use sniproxy.Buffer.{buffer_room}
use sniproxy.Buffer.Valid.{room_eq, size_eq}
use sniproxy.Buffer.Transfer.{length-contents}
use sniproxy.Connection.{Connection, Listener}
use sniproxy.Connection.Server.{Lookup}
use sniproxy.Connection.Callback.{Outcome}
use sniproxy.Connection.Watch.{IsWaiting}
use sniproxy.Connection.Close.{Succeeds}
use sniproxy.Connection.Inv.Server.{IsKnown}
use sniproxy.Connection.Header.{IsAccepted}
use sniproxy.Connection.Inv.Rest.{IsResting, IsKept}
use sniproxy.Connection.Inv.Reach.{Reaches, Reaches-IsKept}

IsAccepted-IsResting :
    {listener : Listener} {header : Bytes} (con : Connection)
    → IsAccepted header con
    → length header ≤ 4095
    → length listener.abort_message ≤ 4096
    → IsResting listener con
IsAccepted-IsResting con a short message = record {
  inv = record {
    sockets = a.sockets;
    client_valid = a.client_valid;
    server_valid = a.server_valid;
    at_start = λ _. a.at_start;
    header_fits = omega (arith, a.header_size, a.client_capacity, size_eq a.client_valid);
    message_fits = omega (arith, a.server_capacity, size_eq a.server_valid);
  };
  waiting =
      subst (λ st. IsWaiting st con.client_buffer con.server_buffer) (sym a.in_state)
        (let room : 0 < buffer_room con.client_buffer = omega (
          arith,
          room_eq a.client_valid,
          size_eq a.client_valid,
          a.client_capacity,
          length-contents a.client_valid,
          ap length a.client_holds,
        ) in
          room);
}

-- Any sequence of callbacks of the watchers and of the resolver, on a connection that was accepted
-- with a header of at most 4095 bytes, where the abort message is of 1 to 4096 bytes, the parser
-- never reads outside of its memory, the lookup gives neither a pattern address nor a socket
-- address longer than `struct sockaddr_storage`, the resolver answers with nothing or with a
-- socket address that is no longer, and `resolv_query` does not return NULL: no sequence reaches a
-- failed `assert`, and the connection is at rest, or is released with its sockets closed and
-- unwatched.
pub IsAccepted-Reaches :
    (listener : Listener) (parse : Bytes → Result Bytes) (lookup : Option Bytes → ℕ → Lookup)
    → 0 < length listener.abort_message
    → length listener.abort_message ≤ 4096
    → ((bytes : Bytes) → parse bytes ≢ fault)
    → ((name : Option Bytes) (n : ℕ) → IsKnown (lookup name n))
    → {header : Bytes} {con : Connection} {o : Option Outcome} → IsAccepted header con
    → length header ≤ 4095
    → Reaches listener parse lookup con o
    → Succeeds (IsKept listener) o
IsAccepted-Reaches listener parse lookup message fits safe known {con = con} a short reached =
    Reaches-IsKept listener parse lookup message safe known (IsAccepted-IsResting con a short fits)
      reached
