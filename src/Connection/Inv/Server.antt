-- ===== src/Connection/Inv/Server.antt =====
-- From the name to the server, in the callbacks of src/connection.c.
use sniproxy.Prelude.{
  ◌<◌, ◌≡◌, ◌⊎◌, inl, inr, refl, sym, ap, ◌∙◌, subst, Bool, true, not, ◌&&◌, Option, arith, none,
  some, length, ◌==◌, Bool-cases,
}
use sniproxy.Buffer.{Buffer, buffer_len, buffer_room}
use sniproxy.Buffer.Fifo.{pop_lem, size_mask-pop}
use sniproxy.Connection.{
  State, new, accepted, parsed, resolving, resolved, connected, server_closed, Connection, Listener,
  client_socket_open, server_socket_open,
}
use sniproxy.Connection.Request.{abort_connection}
use sniproxy.Connection.Server.{
  Lookup, not_found, named, direct, pattern_address, Calls, resolve_server_address, bind_socket,
  connect_ok, drop_header, with_socket, close_sockfd, give_up, fits_storage, Answer, socket_address,
  other_address, connected_to, initiate_server_connect, take_address,
}
use sniproxy.Connection.Close.{Succeeds, succeeds}
use sniproxy.Connection.Inv.{Inv, Inv-with_client, Succeeds-map, Succeeds-if}
use sniproxy.Connection.Inv.Request.{Aborted, abort_lem}

-- What a lookup gives: no address of a type that is not expected, nor one that is too long.
abbrev pub IsKnown : Lookup → Type 0
IsKnown pattern_address = 0 < 0
IsKnown (direct addr proxy) = fits_storage addr ≡ true
IsKnown _ = Unit

-- What the resolver gives, likewise.
abbrev pub IsExpected : Option Answer → Type 0
IsExpected none = Unit
IsExpected (some other_address) = 0 < 0
IsExpected (some (socket_address addr)) = fits_storage addr ≡ true

-- The states behind `resolve_server_address`.
abbrev pub AfterResolve : State → Buffer → Type 0
AfterResolve accepted b = 0 < buffer_room b
AfterResolve new b = 0 < 0
AfterResolve parsed b = 0 < 0
AfterResolve _ b = Unit

pub record Resolved (listener : Listener) (con : Connection) : Type 0 where
  pub inv : Inv listener con
  pub after : AfterResolve con.state con.client_buffer

Aborted-Resolved :
    {listener : Listener} (con : Connection) → Aborted listener con → Resolved listener con
Aborted-Resolved con a = record {
  inv = a.inv;
  after = subst (λ s. AfterResolve s con.client_buffer) (sym a.in_state) tt;
}

-- Behind `initiate_server_connect` there is a server, or a message for the client.
pub record Connecting (listener : Listener) (con : Connection) : Type 0 where
  pub inv : Inv listener con
  pub after :
      (con.state ≡ connected) ⊎ ((con.state ≡ server_closed) × (0 < buffer_len con.server_buffer))

pub Aborted-Connecting :
    {listener : Listener} (con : Connection) → Aborted listener con → Connecting listener con
Aborted-Connecting con a = record { inv = a.inv; after = inr (a.in_state, a.to_send) }

state-drop_header : (con : Connection) → (drop_header con).state ≡ con.state
state-drop_header con = elim (Bool-cases (not (con.header_len == 0) && not con.use_proxy_header)) [
  | inl t ↦ rw t
  | inr f ↦ rw f
]

drop_header-with_socket :
    (con : Connection) → drop_header (with_socket con) ≡ with_socket (drop_header con)
drop_header-with_socket con =
    elim (Bool-cases (not (con.header_len == 0) && not con.use_proxy_header)) [
      | inl t ↦ rw t refl
      | inr f ↦ rw f refl
    ]

module _ {listener : Listener} (message : 0 < length listener.abort_message) where
  pub resolve_lem :
      (answer : Lookup) (malloc_ok query_ok : Bool) (con : Connection)
      → IsKnown answer
      → query_ok ≡ true
      → Inv listener con
      → con.state ≡ parsed
      → Succeeds (Resolved listener) (resolve_server_address listener answer malloc_ok query_ok con)
  resolve_lem not_found malloc_ok query_ok con known q i e =
      Succeeds-map (abort_connection listener con) Aborted-Resolved
        (abort_lem message con i (ap client_socket_open e) (ap server_socket_open e))
  resolve_lem (named proxy) malloc_ok query_ok con known q i e =
      Succeeds-if (not malloc_ok) _ _
        (λ _.
          Succeeds-map (abort_connection listener con) Aborted-Resolved
            (abort_lem message con i (ap client_socket_open e) (ap server_socket_open e)))
        (λ _. succeeds (record {
          inv = record {
            sockets = record {
              client_fd = i.sockets.client_fd ∙ ap client_socket_open e;
              server_fd = i.sockets.server_fd ∙ ap server_socket_open e;
              client_idle = λ k. cc;
              server_idle = λ _. i.sockets.server_idle (ap server_socket_open e);
              query = λ _. q;
            };
            client_valid = i.client_valid;
            server_valid = i.server_valid;
            at_start = λ k. cc;
            header_fits = i.header_fits;
            message_fits = i.message_fits;
          };
          after = tt;
        }))
  resolve_lem (direct addr proxy) malloc_ok query_ok con known q i e = rw known (
      succeeds (record {
        inv = record {
          sockets = record {
            client_fd = i.sockets.client_fd ∙ ap client_socket_open e;
            server_fd = i.sockets.server_fd ∙ ap server_socket_open e;
            client_idle = λ k. cc;
            server_idle = λ _. i.sockets.server_idle (ap server_socket_open e);
            query = λ k. cc;
          };
          client_valid = i.client_valid;
          server_valid = i.server_valid;
          at_start = λ k. cc;
          header_fits = i.header_fits;
          message_fits = i.message_fits;
        };
        after = tt;
      }))
  resolve_lem pattern_address malloc_ok query_ok con known q i e = absurd (omega (arith, known))

  Inv-drop_header :
      (con : Connection) → Inv listener con → con.state ≡ resolved → Inv listener (drop_header con)
  Inv-drop_header con i e =
      elim (Bool-cases (not (con.header_len == 0) && not con.use_proxy_header)) [
        | inl t ↦ rw t (
            Inv-with_client i
              (record {
                valid = (pop_lem i.client_valid con.header_len).2;
                same_size = size_mask-pop i.client_valid con.header_len;
              })
              (λ k. cc))
        | inr f ↦ rw f i
      ]

  Inv-connected_to :
      (con : Connection)
      → Inv listener con
      → con.state ≡ resolved
      → Inv listener (connected_to (with_socket con))
  Inv-connected_to con i e = record {
    sockets = record {
      client_fd = i.sockets.client_fd ∙ ap client_socket_open e;
      server_fd = refl;
      client_idle = λ k. cc;
      server_idle = λ k. cc;
      query = λ k. cc;
    };
    client_valid = i.client_valid;
    server_valid = i.server_valid;
    at_start = λ k. cc;
    header_fits = i.header_fits;
    message_fits = i.message_fits;
  }

  connected-Connecting :
      (con : Connection)
      → Inv listener con
      → con.state ≡ resolved
      → Connecting listener (connected_to (drop_header (with_socket con)))
  connected-Connecting con i e =
      subst (λ c. Connecting listener (connected_to c)) (sym (drop_header-with_socket con))
        (record {
          inv =
              Inv-connected_to (drop_header con) (Inv-drop_header con i e)
                (state-drop_header con ∙ e);
          after = inl refl;
        })

  -- The descriptor that was opened is closed again.
  give_up_lem :
      (con : Connection)
      → Inv listener con
      → con.state ≡ resolved
      → Succeeds (Connecting listener) (give_up listener (with_socket con))
  give_up_lem con i e =
      let shut : Connection = close_sockfd (with_socket con) in
      let inv : Inv listener shut = record {
        sockets = record {
          client_fd = i.sockets.client_fd;
          server_fd = sym (ap server_socket_open e);
          client_idle = i.sockets.client_idle;
          server_idle = i.sockets.server_idle;
          query = i.sockets.query;
        };
        client_valid = i.client_valid;
        server_valid = i.server_valid;
        at_start = i.at_start;
        header_fits = i.header_fits;
        message_fits = i.message_fits;
      } in
      Succeeds-map (abort_connection listener shut) Aborted-Connecting
        (abort_lem message shut inv (ap client_socket_open e) (ap server_socket_open e))

  pub connect_lem :
      (calls : Calls) (con : Connection)
      → Inv listener con
      → con.state ≡ resolved
      → Succeeds (Connecting listener) (initiate_server_connect listener calls con)
  connect_lem calls con i e =
      Succeeds-if (not calls.socket_ok) _ _
        (λ _.
          Succeeds-map (abort_connection listener con) Aborted-Connecting
            (abort_lem message con i (ap client_socket_open e) (ap server_socket_open e)))
        (λ _.
          Succeeds-if (not (bind_socket listener calls con)) _ _ (λ _. give_up_lem con i e)
            (λ _.
              Succeeds-if (not (connect_ok calls.connect)) _ _ (λ _. give_up_lem con i e)
                (λ _.
                  Succeeds-if (not calls.getsockname_ok) _ _ (λ _. give_up_lem con i e)
                    (λ _. succeeds (connected-Connecting con i e)))))

  -- The resolver's answer, for a connection that waits for it.
  pub take_address_lem :
      (calls : Calls) (result : Option Answer) (con : Connection)
      → IsExpected result
      → Inv listener con
      → con.state ≡ resolving
      → Succeeds (Connecting listener) (take_address listener calls result con)
  take_address_lem calls none con expected i e =
      Succeeds-map (abort_connection listener con) Aborted-Connecting
        (abort_lem message con i (ap client_socket_open e) (ap server_socket_open e))
  take_address_lem calls (some other_address) con expected i e = absurd (omega (arith, expected))
  take_address_lem calls (some (socket_address addr)) con expected i e = rw expected (
      connect_lem calls (record con { server_addr = addr; state = resolved })
        (record {
          sockets = record {
            client_fd = i.sockets.client_fd ∙ ap client_socket_open e;
            server_fd = i.sockets.server_fd ∙ ap server_socket_open e;
            client_idle = λ k. cc;
            server_idle = λ _. i.sockets.server_idle (ap server_socket_open e);
            query = λ k. cc;
          };
          client_valid = i.client_valid;
          server_valid = i.server_valid;
          at_start = λ k. cc;
          header_fits = i.header_fits;
          message_fits = i.message_fits;
        })
        refl)
