-- ===== src/Connection/Inv/Transfer.antt =====
-- Receiving and sending in the callback of src/connection.c.
use sniproxy.Prelude.{◌<◌, ◌≡◌, ◌≢◌, refl, sym, ap, ◌∙◌, subst, Bool, true, false, ◌&&◌, ltb}
use sniproxy.Buffer.{Buffer, buffer_len, buffer_room, recv, send}
use sniproxy.Buffer.Kept.{RecvFits, SendFits, head-recv, recv-Kept, send-Kept}
use sniproxy.Connection.{
  State, accepted, resolving, connected, server_closed, client_closed, closed, Connection, Listener,
  client_socket_open, server_socket_open,
}
use sniproxy.Connection.Socket.{without_client, without_server}
use sniproxy.Connection.Close.{Succeeds, succeeds}
use sniproxy.Connection.Callback.{
  Side, client, server, Event, input, output, with_input, with_output, close_socket, is_over,
  receive, is_broken, transmit,
}
use sniproxy.Connection.Inv.{
  Inv, Inv-with_client, Inv-with_server, Succeeds-bind, Succeeds-map, Succeeds-if,
}
use sniproxy.Connection.Inv.Close.{Closed, close_client_lem, close_server_lem}

-- The states in which the callback of a socket finds a connection, and leaves one that it closes.
abbrev pub Between : Side → State → Type 0
Between client accepted = Unit
Between client resolving = Unit
Between _ connected = Unit
Between _ server_closed = Unit
Between _ client_closed = Unit
Between _ closed = Unit
Between _ _ = 0 < 0

abbrev pub side_open : Side → State → Bool
side_open client s = client_socket_open s
side_open server s = server_socket_open s

pub record Mid (listener : Listener) (side : Side) (con : Connection) : Type 0 where
  pub inv : Inv listener con
  pub between : Between side con.state

abbrev pub without : Side → State → State
without client s = without_client s
without server s = without_server s

Between-without : (side : Side) (s : State) → Between side (without side s)
Between-without client connected = tt
Between-without client _ = tt
Between-without server client_closed = tt
Between-without server _ = tt

-- Closing the socket of the event.
close_socket_lem :
    {listener : Listener} (side : Side) (con : Connection)
    → Inv listener con
    → side_open side con.state ≡ true
    → Succeeds (Closed listener (without side con.state) con) (close_socket side con)
close_socket_lem client con i up = close_client_lem con i up
close_socket_lem server con i up = close_server_lem con i up

close_socket-Mid :
    {listener : Listener} (side : Side) (con con' : Connection)
    → Closed listener (without side con.state) con con'
    → Mid listener side con'
close_socket-Mid side con con' c = record {
  inv = c.inv;
  between = subst (Between side) (sym c.in_state) (Between-without side con.state);
}

output-Closed :
    {listener : Listener} {s : State} {con con' : Connection} (side : Side)
    → Closed listener s con con'
    → output side con' ≡ output side con
output-Closed client c = c.same_server
output-Closed server c = c.same_client

-- The connection with the bytes that were received.
recv-Inv :
    {listener : Listener} (side : Side) (ev : Event) (con : Connection)
    → Inv listener con
    → RecvFits (input side con) ev.recv_outcome
    → Inv listener (with_input side (recv (input side con) ev.recv_outcome ev.now).1 con)
recv-Inv client ev con i fits =
    Inv-with_client i (recv-Kept ev.recv_outcome ev.now i.client_valid fits)
      (λ k. head-recv con.client_buffer ev.recv_outcome ev.now (i.at_start k))
recv-Inv server ev con i fits =
    Inv-with_server i (recv-Kept ev.recv_outcome ev.now i.server_valid fits)

state-with_input :
    (side : Side) (b : Buffer) (con : Connection) → (with_input side b con).state ≡ con.state
state-with_input client b con = refl
state-with_input server b con = refl

output-with_input :
    (side : Side) (b : Buffer) (con : Connection)
    → output side (with_input side b con) ≡ output side con
output-with_input client b con = refl
output-with_input server b con = refl

pub record Received (listener : Listener) (side : Side) (before : Connection)
    (r : Bool × Connection) : Type 0 where
  pub mid : Mid listener side r.1
  pub still_open : r.0 ≡ true → side_open side r.1.state ≡ true
  pub same_output : output side r.1 ≡ output side before

pub receive_lem :
    {listener : Listener} (side : Side) (ev : Event) (con : Connection)
    → Mid listener side con
    → side_open side con.state ≡ true
    → RecvFits (input side con) ev.recv_outcome
    → Succeeds (Received listener side con) (receive side ev con)
receive_lem side ev con m up fits =
    Succeeds-if (ev.readable && ltb 0 (buffer_room (input side con))) _ _
      (λ _.
        let b = (recv (input side con) ev.recv_outcome ev.now).1 in
        let same = state-with_input side b con in
        let i = recv-Inv side ev con m.inv fits in
        let up' = ap (side_open side) same ∙ up in
        Succeeds-if (is_over ev.recv_outcome) _ _
          (λ _.
            Succeeds-bind (close_socket side (with_input side b con)) _
              (close_socket_lem side (with_input side b con) i up')
              (λ con' c. succeeds (record {
                mid = close_socket-Mid side (with_input side b con) con' c;
                still_open = λ (k : false ≡ true). cc;
                same_output = output-Closed side c ∙ output-with_input side b con;
              })))
          (λ _. succeeds (record {
            mid = record { inv = i; between = subst (Between side) (sym same) m.between };
            still_open = λ _. up';
            same_output = output-with_input side b con;
          })))
      (λ _. succeeds (record { mid = m; still_open = λ _. up; same_output = refl }))

-- While the server's socket is open, the client's bytes may start anywhere.
server_not_accepted : (s : State) → server_socket_open s ≡ true → s ≢ accepted
server_not_accepted connected up e = cc
server_not_accepted client_closed up e = cc
server_not_accepted _ up e = cc

send-Inv :
    {listener : Listener} (side : Side) (ev : Event) (con : Connection)
    → Inv listener con
    → side_open side con.state ≡ true
    → SendFits (output side con) ev.send_outcome
    → Inv listener (with_output side (send (output side con) ev.send_outcome ev.now).2 con)
send-Inv client ev con i up fits =
    Inv-with_server i (send-Kept ev.send_outcome ev.now i.server_valid fits)
send-Inv server ev con i up fits =
    Inv-with_client i (send-Kept ev.send_outcome ev.now i.client_valid fits)
      (λ k. absurd (server_not_accepted con.state up k))

state-with_output :
    (side : Side) (b : Buffer) (con : Connection) → (with_output side b con).state ≡ con.state
state-with_output client b con = refl
state-with_output server b con = refl

and_left : (a b c : Bool) → (a && b && c) ≡ true → a ≡ true
and_left true b c e = refl
and_left false b c e = cc

pub transmit_lem :
    {listener : Listener} (side : Side) (ev : Event) (still : Bool) (con : Connection)
    → Mid listener side con
    → (still ≡ true → side_open side con.state ≡ true)
    → SendFits (output side con) ev.send_outcome
    → Succeeds (Mid listener side) (transmit side ev still con)
transmit_lem side ev still con m open_if fits =
    Succeeds-if (still && ev.writable && ltb 0 (buffer_len (output side con))) _ _
      (λ t.
        let b = (send (output side con) ev.send_outcome ev.now).2 in
        let up = open_if (and_left still ev.writable (ltb 0 (buffer_len (output side con))) t) in
        let same = state-with_output side b con in
        let i = send-Inv side ev con m.inv up fits in
        Succeeds-if (is_broken ev.send_outcome) _ _
          (λ _.
            Succeeds-map (close_socket side (with_output side b con))
              (close_socket-Mid side (with_output side b con))
              (close_socket_lem side (with_output side b con) i (ap (side_open side) same ∙ up)))
          (λ _. succeeds (record { inv = i; between = subst (Between side) (sym same) m.between })))
      (λ _. succeeds m)
