-- ===== src/Connection/Inv/Close.antt =====
-- Closing one socket in a callback of src/connection.c.
use sniproxy.Prelude.{◌≡◌, ◌≢◌, refl, sym, ◌∙◌, Bool, true, false, not, ◌||◌}
use sniproxy.Connection.{
  State, new, accepted, resolving, connected, client_closed, closed, Watcher, Connection, Listener,
  client_socket_open, server_socket_open, is_closed, is_client_closed, is_server_closed,
}
use sniproxy.Connection.Socket.{
  close_client_socket, close_server_socket, close_fd, cancel_query, without_client, without_server,
}
use sniproxy.Connection.Close.{Succeeds, succeeds}
use sniproxy.Connection.Inv.{Inv, Succeeds-bind, Succeeds-if, assert-Succeeds}

pub record Closed (listener : Listener) (s : State) (before con : Connection) : Type 0 where
  pub inv : Inv listener con
  pub in_state : con.state ≡ s
  pub same_client : con.client_buffer ≡ before.client_buffer
  pub same_server : con.server_buffer ≡ before.server_buffer

record IsShut (w : Watcher) : Type 0 where
  shut : w.is_open ≡ false
  idle : w.is_active ≡ false

close_fd-IsShut : (w : Watcher) → w.is_open ≡ true → Succeeds IsShut (close_fd w)
close_fd-IsShut w e =
    Succeeds-if w.is_open _ _ (λ _. succeeds (record { shut = refl; idle = refl })) (λ f. cc)

cancel_lem :
    (s : State) (handle : Bool)
    → (s ≡ resolving → handle ≡ true)
    → Succeeds (λ (h : Bool). Unit {0}) (cancel_query s handle)
cancel_lem resolving handle h = rw (h refl) (succeeds tt)
cancel_lem new handle h = succeeds tt
cancel_lem _ handle h = succeeds tt

client_not_closed :
    (s : State) → client_socket_open s ≡ true → not (is_closed s || is_client_closed s) ≡ true
client_not_closed closed up = cc
client_not_closed client_closed up = cc
client_not_closed new up = refl
client_not_closed _ up = refl

server_not_closed :
    (s : State) → server_socket_open s ≡ true → not (is_closed s || is_server_closed s) ≡ true
server_not_closed connected up = refl
server_not_closed client_closed up = refl
server_not_closed _ up = cc

client_open-without_client : (s : State) → client_socket_open (without_client s) ≡ false
client_open-without_client connected = refl
client_open-without_client _ = refl

server_open-without_client :
    (s : State)
    → client_socket_open s ≡ true
    → server_socket_open (without_client s) ≡ server_socket_open s
server_open-without_client connected up = refl
server_open-without_client new up = cc
server_open-without_client client_closed up = refl
server_open-without_client closed up = cc
server_open-without_client _ up = refl

resolving-without_client : (s : State) → without_client s ≢ resolving
resolving-without_client connected e = cc
resolving-without_client _ e = cc

accepted-without_client : (s : State) → without_client s ≢ accepted
accepted-without_client connected e = cc
accepted-without_client _ e = cc

-- `close_client_socket` while the client's socket is open.
pub close_client_lem :
    {listener : Listener} (con : Connection)
    → Inv listener con
    → client_socket_open con.state ≡ true
    → Succeeds (Closed listener (without_client con.state) con) (close_client_socket con)
close_client_lem con i up =
    Succeeds-bind _ _ (assert-Succeeds _ (client_not_closed con.state up)) (λ _ _.
      Succeeds-bind (close_fd con.client_watcher) _
        (close_fd-IsShut con.client_watcher (i.sockets.client_fd ∙ up))
        (λ w h.
          Succeeds-bind (cancel_query con.state con.query_handle) _
            (cancel_lem con.state con.query_handle i.sockets.query)
            (λ q _. succeeds (record {
              inv = record {
                sockets = record {
                  client_fd = h.shut ∙ sym (client_open-without_client con.state);
                  server_fd = i.sockets.server_fd ∙ sym (server_open-without_client con.state up);
                  client_idle = λ _. h.idle;
                  server_idle = λ k.
                      i.sockets.server_idle (sym (server_open-without_client con.state up) ∙ k);
                  query = λ k. absurd (resolving-without_client con.state k);
                };
                client_valid = i.client_valid;
                server_valid = i.server_valid;
                at_start = λ k. absurd (accepted-without_client con.state k);
                header_fits = i.header_fits;
                message_fits = i.message_fits;
              };
              in_state = refl;
              same_client = refl;
              same_server = refl;
            }))))

server_open-without_server : (s : State) → server_socket_open (without_server s) ≡ false
server_open-without_server client_closed = refl
server_open-without_server _ = refl

client_open-without_server :
    (s : State)
    → server_socket_open s ≡ true
    → client_socket_open (without_server s) ≡ client_socket_open s
client_open-without_server connected up = refl
client_open-without_server client_closed up = refl
client_open-without_server _ up = cc

resolving-without_server : (s : State) → without_server s ≢ resolving
resolving-without_server client_closed e = cc
resolving-without_server _ e = cc

accepted-without_server : (s : State) → without_server s ≢ accepted
accepted-without_server client_closed e = cc
accepted-without_server _ e = cc

-- `close_server_socket` while the server's socket is open.
pub close_server_lem :
    {listener : Listener} (con : Connection)
    → Inv listener con
    → server_socket_open con.state ≡ true
    → Succeeds (Closed listener (without_server con.state) con) (close_server_socket con)
close_server_lem con i up =
    Succeeds-bind _ _ (assert-Succeeds _ (server_not_closed con.state up)) (λ _ _.
      Succeeds-bind (close_fd con.server_watcher) _
        (close_fd-IsShut con.server_watcher (i.sockets.server_fd ∙ up))
        (λ w h. succeeds (record {
          inv = record {
            sockets = record {
              client_fd = i.sockets.client_fd ∙ sym (client_open-without_server con.state up);
              server_fd = h.shut ∙ sym (server_open-without_server con.state);
              client_idle =
                  λ k. i.sockets.client_idle (sym (client_open-without_server con.state up) ∙ k);
              server_idle = λ _. h.idle;
              query = λ k. absurd (resolving-without_server con.state k);
            };
            client_valid = i.client_valid;
            server_valid = i.server_valid;
            at_start = λ k. absurd (accepted-without_server con.state k);
            header_fits = i.header_fits;
            message_fits = i.message_fits;
          };
          in_state = refl;
          same_client = refl;
          same_server = refl;
        })))
