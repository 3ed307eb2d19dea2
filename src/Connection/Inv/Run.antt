-- ===== src/Connection/Inv/Run.antt =====
-- The callbacks of src/connection.c as wholes, and the connections that they lead to.
use sniproxy.Prelude.{
  ℕ, ◌<◌, ◌≡◌, ◌≢◌, inl, inr, refl, true, false, not, Option, Bytes, length, subst, sym,
}
use sniproxy.Parse.{Result, fault}
use sniproxy.Buffer.{Buffer}
use sniproxy.Buffer.Kept.{RecvFits, SendFits}
use sniproxy.Connection.{
  State, new, accepted, parsed, resolving, resolved, connected, server_closed, client_closed,
  closed, Connection, Listener, is_resolving,
}
use sniproxy.Connection.Server.{Lookup, Answer, Calls, take_address, resolv_cb}
use sniproxy.Connection.Callback.{
  Side, client, server, Event, input, output, receive, transmit, advance, close_flushed,
  connection_cb,
}
use sniproxy.Connection.Close.{Succeeds, succeeds}
use sniproxy.Connection.Watch.{IsWaiting}
use sniproxy.Connection.Inv.{Succeeds-bind, Succeeds-if}
use sniproxy.Connection.Inv.Transfer.{Between, side_open, Mid, receive_lem, transmit_lem}
use sniproxy.Connection.Inv.Server.{IsKnown, IsExpected, Connecting, take_address_lem}
use sniproxy.Connection.Inv.Advance.{advance_lem}
use sniproxy.Connection.Inv.Rest.{
  IsResting, IsKept, full_has_bytes, reactivate-IsResting, close_flushed_lem, finish_lem,
}

Between-IsWaiting :
    (side : Side) (st : State) (c s : Buffer)
    → IsWaiting st c s
    → side_open side st ≡ true
    → Between side st
Between-IsWaiting client accepted c s w up = tt
Between-IsWaiting client resolving c s w up = tt
Between-IsWaiting client connected c s w up = tt
Between-IsWaiting client server_closed c s w up = tt
Between-IsWaiting client new c s w up = w
Between-IsWaiting client parsed c s w up = w
Between-IsWaiting client resolved c s w up = w
Between-IsWaiting client client_closed c s w up = tt
Between-IsWaiting client closed c s w up = tt
Between-IsWaiting server connected c s w up = tt
Between-IsWaiting server client_closed c s w up = tt
Between-IsWaiting server server_closed c s w up = tt
Between-IsWaiting server closed c s w up = tt
Between-IsWaiting server _ c s w up = cc

resolving_of_test : (s : State) → not (is_resolving s) ≡ false → s ≡ resolving
resolving_of_test resolving e = refl
resolving_of_test _ e = cc

-- Without a query, behind `initiate_server_connect`.
answered-IsResting :
    {listener : Listener} (con : Connection)
    → Connecting listener con
    → IsResting listener (record con { query_handle = false })
answered-IsResting con c = record {
  inv = record {
    sockets = record {
      client_fd = c.inv.sockets.client_fd;
      server_fd = c.inv.sockets.server_fd;
      client_idle = c.inv.sockets.client_idle;
      server_idle = c.inv.sockets.server_idle;
      query = λ k. elim c.after [ inl e ↦ cc | inr (e, _) ↦ cc ];
    };
    client_valid = c.inv.client_valid;
    server_valid = c.inv.server_valid;
    at_start = c.inv.at_start;
    header_fits = c.inv.header_fits;
    message_fits = c.inv.message_fits;
  };
  waiting = elim c.after [
    | inl e ↦
        subst (λ st. IsWaiting st con.client_buffer con.server_buffer) (sym e)
          (full_has_bytes c.inv.client_valid)
    | inr (e, bytes) ↦ subst (λ st. IsWaiting st con.client_buffer con.server_buffer) (sym e) bytes
  ];
}

-- The event is of an open socket, and the system calls keep to the room and the bytes that there are.
-- A query that is asked for is under way.
pub record Happens (side : Side) (ev : Event) (con : Connection) : Type 0 where
  pub socket_open : side_open side con.state ≡ true
  pub recv_fits : RecvFits (input side con) ev.recv_outcome
  pub send_fits : SendFits (output side con) ev.send_outcome
  pub query_given : ev.query_ok ≡ true

module _ {listener : Listener} (message : 0 < length listener.abort_message)
    (parse : Bytes → Result Bytes) (safe : (bytes : Bytes) → parse bytes ≢ fault)
    (lookup : Option Bytes → ℕ → Lookup)
    (known : (name : Option Bytes) (n : ℕ) → IsKnown (lookup name n)) where
  -- `connection_cb` on a connection at rest (valid buffers, descriptors and watchers as its state
  -- tells, something to wait for), for an event of a socket that is open, where the system calls
  -- move no more bytes than there are or fit, the abort message is not empty, the parser never
  -- reads outside of its memory, the lookup gives neither a pattern address nor a socket address
  -- longer than `struct sockaddr_storage`, and `resolv_query` does not return NULL: every `assert`
  -- holds, and the connection is at rest again, or is released with its sockets closed and
  -- unwatched.
  pub connection_cb_lem :
      (side : Side) (ev : Event) (con : Connection)
      → IsResting listener con
      → Happens side ev con
      → Succeeds (IsKept listener) (connection_cb listener parse lookup side ev con)
  connection_cb_lem side ev con r h =
      let m : Mid listener side con = record {
        inv = r.inv;
        between =
            Between-IsWaiting side con.state con.client_buffer con.server_buffer r.waiting
              h.socket_open;
      } in
      Succeeds-bind (receive side ev con) _ (receive_lem side ev con m h.socket_open h.recv_fits)
        (λ p got.
          Succeeds-bind (transmit side ev p.0 p.1) _
            (transmit_lem side ev p.0 p.1 got.mid got.still_open
              (subst (λ b. SendFits b ev.send_outcome) (sym got.same_output) h.send_fits))
            (λ con2 m2.
              Succeeds-bind (advance listener parse lookup side ev con2) _
                (advance_lem message parse safe lookup known side ev con2 h.query_given m2)
                (λ con3 a.
                  Succeeds-bind (close_flushed con3) _ (close_flushed_lem con3 a)
                    (λ con4 f. finish_lem con4 f))))

  -- `resolv_cb` on a connection at rest, where the abort message is not empty, for no address or
  -- for a socket address no longer than `struct sockaddr_storage`: every `assert` holds, and the
  -- connection is at rest again.
  pub resolv_cb_lem :
      (calls : Calls) (result : Option Answer) (con : Connection)
      → IsExpected result
      → IsResting listener con
      → Succeeds (IsResting listener) (resolv_cb listener calls result con)
  resolv_cb_lem calls result con expected r =
      Succeeds-if (not (is_resolving con.state)) _ _ (λ _. succeeds r)
        (λ f.
          Succeeds-bind (take_address listener calls result con) _
            (take_address_lem message calls result con expected r.inv
              (resolving_of_test con.state f))
            (λ con1 c.
              let rest = answered-IsResting con1 c in
              reactivate-IsResting (record con1 { query_handle = false }) rest.inv rest.waiting))
