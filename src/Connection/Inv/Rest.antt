-- ===== src/Connection/Inv/Rest.antt =====
-- The end of the callbacks of src/connection.c, and the callbacks as wholes.
use sniproxy.Prelude.{ℕ, ◌<◌, ◌≡◌, refl, sym, ap, ◌∙◌, subst, Bool, true, false, ◌&&◌, ◌==◌, arith}
use sniproxy.Buffer.{Buffer, buffer_len, buffer_room}
use sniproxy.Buffer.Valid.{IsValid, room_eq}
use sniproxy.Connection.{
  State, new, accepted, resolving, connected, server_closed, client_closed, closed, Connection,
  Listener, is_closed, is_server_closed, is_client_closed, client_socket_open, server_socket_open,
}
use sniproxy.Connection.Socket.{
  close_client_socket, close_server_socket, reactivate_watchers, without_client, without_server,
}
use sniproxy.Connection.Callback.{close_flushed, finish, Outcome, freed, stands}
use sniproxy.Connection.Close.{HasSockets, IsReleased, Succeeds, succeeds}
use sniproxy.Connection.Watch.{IsWaiting, SameRest, reactivate_watchers_lem}
use sniproxy.Connection.Inv.{Inv, Succeeds-bind, Succeeds-map, Succeeds-if}
use sniproxy.Connection.Inv.Close.{Closed, close_client_lem, close_server_lem}
use sniproxy.Connection.Inv.Request.{Succeeds-eq}
use sniproxy.Connection.Inv.Advance.{Settled, Advanced}

-- A connection between two callbacks: there is something to wait for.
pub record IsResting (listener : Listener) (con : Connection) : Type 0 where
  pub inv : Inv listener con
  pub waiting : IsWaiting con.state con.client_buffer con.server_buffer

server_closed_of_test : (s : State) → is_server_closed s ≡ true → s ≡ server_closed
server_closed_of_test server_closed e = refl
server_closed_of_test _ e = cc

client_closed_of_test : (s : State) → is_client_closed s ≡ true → s ≡ client_closed
client_closed_of_test client_closed e = refl
client_closed_of_test _ e = cc

closed_of_test : (s : State) → is_closed s ≡ true → s ≡ closed
closed_of_test closed e = refl
closed_of_test _ e = cc

-- The states behind each of the two tests for flushed buffers.
abbrev AfterClient : State → Buffer → Buffer → Type 0
AfterClient server_closed c s = 0 < buffer_len s
AfterClient st c s = Settled st c

abbrev pub AfterServer : State → Buffer → Buffer → Type 0
AfterServer server_closed c s = 0 < buffer_len s
AfterServer client_closed c s = 0 < buffer_len c
AfterServer st c s = Settled st c

pub record Flushing (After : State → Buffer → Buffer → Type 0) (listener : Listener)
    (con : Connection) : Type 0 where
  pub inv : Inv listener con
  pub after : After con.state con.client_buffer con.server_buffer

and_false : (a b : Bool) → (a && b) ≡ false → a ≡ true → b ≡ false
and_false true b e t = e
and_false false b e t = cc

and_true : (a b : Bool) → (a && b) ≡ true → a ≡ true
and_true true b e = refl
and_true false b e = cc

AfterClient-other :
    (st : State) (c s : Buffer)
    → Settled st c
    → (is_server_closed st ≡ true → 0 < buffer_len s)
    → AfterClient st c s
AfterClient-other server_closed c s h p = p refl
AfterClient-other new c s h p = h
AfterClient-other _ c s h p = h

AfterServer-other :
    (st : State) (c s : Buffer)
    → AfterClient st c s
    → (is_client_closed st ≡ true → 0 < buffer_len c)
    → AfterServer st c s
AfterServer-other client_closed c s h p = p refl
AfterServer-other server_closed c s h p = h
AfterServer-other _ c s h p = h

some_bytes : (n : ℕ) (t : Bool) → (t && n == 0) ≡ false → t ≡ true → 0 < n
some_bytes n t e p = ground arith

pub close_flushed_lem :
    {listener : Listener} (con : Connection)
    → Advanced listener con
    → Succeeds (Flushing AfterServer listener) (close_flushed con)
close_flushed_lem {listener} con a =
    Succeeds-bind {P = Flushing AfterClient listener} _ _
      (Succeeds-if (is_server_closed con.state && buffer_len con.server_buffer == 0) _ _
        (λ t.
          let e = server_closed_of_test con.state (and_true _ _ t) in
          Succeeds-map (close_client_socket con)
            (λ con1 (c : Closed listener _ con con1). record {
              inv = c.inv;
              after =
                  subst (λ st. AfterClient st con1.client_buffer con1.server_buffer)
                    (sym (c.in_state ∙ ap without_client e)) tt;
            })
            (close_client_lem con a.inv (ap client_socket_open e)))
        (λ f. succeeds (record {
          inv = a.inv;
          after =
              AfterClient-other con.state con.client_buffer con.server_buffer a.settled
                (some_bytes (buffer_len con.server_buffer) (is_server_closed con.state) f);
        })))
      (λ con1 f1.
        Succeeds-if (is_client_closed con1.state && buffer_len con1.client_buffer == 0) _ _
          (λ t.
            let e = client_closed_of_test con1.state (and_true _ _ t) in
            Succeeds-map (close_server_socket con1)
              (λ con2 (c : Closed listener _ con1 con2). record {
                inv = c.inv;
                after =
                    subst (λ st. AfterServer st con2.client_buffer con2.server_buffer)
                      (sym (c.in_state ∙ ap without_server e)) tt;
              })
              (close_server_lem con1 f1.inv (ap server_socket_open e)))
          (λ f. succeeds (record {
            inv = f1.inv;
            after =
                AfterServer-other con1.state con1.client_buffer con1.server_buffer f1.after
                  (some_bytes (buffer_len con1.client_buffer) (is_client_closed con1.state) f);
          })))

IsReleased-closed :
    {listener : Listener} (con : Connection)
    → Inv listener con
    → con.state ≡ closed
    → IsReleased con
IsReleased-closed con i e = record {
  closed_state = e;
  client_shut = i.sockets.client_fd ∙ ap client_socket_open e;
  server_shut = i.sockets.server_fd ∙ ap server_socket_open e;
  client_unwatched = i.sockets.client_idle (ap client_socket_open e);
  server_unwatched = i.sockets.server_idle (ap server_socket_open e);
}

pub full_has_bytes : {b : Buffer} → IsValid b → buffer_room b ≡ 0 → 0 < buffer_len b
full_has_bytes v e = omega (arith, room_eq v, v.len_in)

IsWaiting-AfterServer :
    (st : State) (c s : Buffer)
    → IsValid c
    → is_closed st ≡ false
    → AfterServer st c s
    → IsWaiting st c s
IsWaiting-AfterServer accepted c s v e h = h
IsWaiting-AfterServer resolving c s v e h = tt
IsWaiting-AfterServer connected c s v e h = full_has_bytes v
IsWaiting-AfterServer server_closed c s v e h = h
IsWaiting-AfterServer client_closed c s v e h = h
IsWaiting-AfterServer closed c s v e h = cc
IsWaiting-AfterServer _ c s v e h = h

-- The watchers start, and the connection rests.
pub reactivate-IsResting :
    {listener : Listener} (con : Connection)
    → Inv listener con
    → IsWaiting con.state con.client_buffer con.server_buffer
    → Succeeds (IsResting listener) (reactivate_watchers con)
reactivate-IsResting {listener} con i w =
    let (con', e, sockets, same) = reactivate_watchers_lem con i.sockets w in
    Succeeds-eq (reactivate_watchers con) con' e (rests con con' i w sockets same)
  where
    rests :
        (con con' : Connection)
        → Inv listener con
        → IsWaiting con.state con.client_buffer con.server_buffer
        → HasSockets con'
        → SameRest con con'
        → IsResting listener con'
    rests con con' i w sockets same = record {
      inv = record {
        sockets = sockets;
        client_valid = subst IsValid (sym same.same_client) i.client_valid;
        server_valid = subst IsValid (sym same.same_server) i.server_valid;
        at_start = λ k. ap (λ b. b.head) same.same_client ∙ i.at_start (sym same.same_state ∙ k);
        header_fits =
            omega (arith, same.same_header, i.header_fits, ap (λ b. b.size_mask) same.same_client);
        message_fits = omega (arith, i.message_fits, ap (λ b. b.size_mask) same.same_server);
      };
      waiting = rw (same.same_state, same.same_client, same.same_server) w;
    }

-- What a callback leaves.
abbrev pub IsKept : Listener → Outcome → Type 0
IsKept listener (freed con) = IsReleased con
IsKept listener (stands con) = IsResting listener con

pub finish_lem :
    {listener : Listener} (con : Connection)
    → Flushing AfterServer listener con
    → Succeeds (IsKept listener) (finish con)
finish_lem {listener} con f =
    Succeeds-if (is_closed con.state) _ _
      (λ t. succeeds (IsReleased-closed con f.inv (closed_of_test con.state t)))
      (λ no.
        Succeeds-bind (reactivate_watchers con) _
          (reactivate-IsResting con f.inv (
            IsWaiting-AfterServer con.state con.client_buffer con.server_buffer f.inv.client_valid
              no f.after))
          (λ con' r. succeeds r))
