-- ===== src/Connection/Close.antt =====
-- Closing a connection of src/connection.c: the descriptors, the watchers and the query that are left.
use sniproxy.Prelude.{◌≡◌, ◌≢◌, refl, ap, ◌∙◌, true, false, Option, some}
use sniproxy.Connection.{
  State, new, accepted, parsed, resolving, resolved, connected, server_closed, client_closed,
  closed, Connection, client_socket_open, server_socket_open,
}
use sniproxy.Connection.Socket.{close_connection}

-- The descriptors that are open are the ones that the state tells of, no other is watched, and a
-- query is under way while the state waits for one.
pub record HasSockets (con : Connection) : Type 0 where
  pub client_fd : con.client_watcher.is_open ≡ client_socket_open con.state
  pub server_fd : con.server_watcher.is_open ≡ server_socket_open con.state
  pub client_idle : client_socket_open con.state ≡ false → con.client_watcher.is_active ≡ false
  pub server_idle : server_socket_open con.state ≡ false → con.server_watcher.is_active ≡ false
  pub query : con.state ≡ resolving → con.query_handle ≡ true

-- Nothing of a connection is left in the system.
pub record IsReleased (con : Connection) : Type 0 where
  pub closed_state : con.state ≡ closed
  pub client_shut : con.client_watcher.is_open ≡ false
  pub server_shut : con.server_watcher.is_open ≡ false
  pub client_unwatched : con.client_watcher.is_active ≡ false
  pub server_unwatched : con.server_watcher.is_active ≡ false

-- Nothing fails, and `P` holds of the result.
pub data Succeeds {A : Type 0} (P : A → Type 0) : Option A → Type 0 where
  succeeds : {a : A} → P a → Succeeds P (some a)

-- Each way to close.
by_state :
    (con : Connection) (s : State)
    → con.state ≡ s
    → s ≢ new
    → HasSockets con
    → Succeeds IsReleased (close_connection con)
by_state con new e n h = absurd (n refl)
by_state con accepted e n h =
    rw (e, h.client_fd ∙ ap client_socket_open e)
      (succeeds (record {
        closed_state = refl;
        client_shut = refl;
        server_shut = h.server_fd ∙ ap server_socket_open e;
        client_unwatched = refl;
        server_unwatched = h.server_idle (ap server_socket_open e);
      }))
by_state con parsed e n h =
    rw (e, h.client_fd ∙ ap client_socket_open e)
      (succeeds (record {
        closed_state = refl;
        client_shut = refl;
        server_shut = h.server_fd ∙ ap server_socket_open e;
        client_unwatched = refl;
        server_unwatched = h.server_idle (ap server_socket_open e);
      }))
by_state con resolving e n h =
    rw (e, h.client_fd ∙ ap client_socket_open e, h.query e)
      (succeeds (record {
        closed_state = refl;
        client_shut = refl;
        server_shut = h.server_fd ∙ ap server_socket_open e;
        client_unwatched = refl;
        server_unwatched = h.server_idle (ap server_socket_open e);
      }))
by_state con resolved e n h =
    rw (e, h.client_fd ∙ ap client_socket_open e)
      (succeeds (record {
        closed_state = refl;
        client_shut = refl;
        server_shut = h.server_fd ∙ ap server_socket_open e;
        client_unwatched = refl;
        server_unwatched = h.server_idle (ap server_socket_open e);
      }))
by_state con server_closed e n h =
    rw (e, h.client_fd ∙ ap client_socket_open e)
      (succeeds (record {
        closed_state = refl;
        client_shut = refl;
        server_shut = h.server_fd ∙ ap server_socket_open e;
        client_unwatched = refl;
        server_unwatched = h.server_idle (ap server_socket_open e);
      }))
by_state con connected e n h =
    rw (e, h.client_fd ∙ ap client_socket_open e, h.server_fd ∙ ap server_socket_open e)
      (succeeds (record {
        closed_state = refl;
        client_shut = refl;
        server_shut = refl;
        client_unwatched = refl;
        server_unwatched = refl;
      }))
by_state con client_closed e n h =
    rw (e, h.server_fd ∙ ap server_socket_open e)
      (succeeds (record {
        closed_state = refl;
        client_shut = h.client_fd ∙ ap client_socket_open e;
        server_shut = refl;
        client_unwatched = h.client_idle (ap client_socket_open e);
        server_unwatched = refl;
      }))
by_state con closed e n h = rw e (
    succeeds (record {
      closed_state = refl;
      client_shut = h.client_fd ∙ ap client_socket_open e;
      server_shut = h.server_fd ∙ ap server_socket_open e;
      client_unwatched = h.client_idle (ap client_socket_open e);
      server_unwatched = h.server_idle (ap server_socket_open e);
    }))

-- `close_connection` on a connection that was accepted, where the descriptors that are open are
-- those that its state tells of and a query is under way while it resolves: every `assert` holds,
-- no descriptor is closed twice, and in the end the state is CLOSED, both descriptors are closed
-- and neither is watched.
pub close_connection_lem :
    {con : Connection}
    → con.state ≢ new
    → HasSockets con
    → Succeeds IsReleased (close_connection con)
close_connection_lem {con} n h = by_state con con.state refl n h
