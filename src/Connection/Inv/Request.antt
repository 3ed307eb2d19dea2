-- ===== src/Connection/Inv/Request.antt =====
-- Reading the client's request, and giving it up, in the callback of src/connection.c.
use sniproxy.Prelude.{
  ℕ, ◌+◌, ◌≤◌, ◌<◌, ◌≡◌, ◌≢◌, refl, sym, ap, ◌∙◌, subst, Bool, true, false, not, ◌&&◌, inr, Option,
  some, Bytes, length, ltb, leb, ◌==◌, arith, Bool-cases, inl, length-append, ◌++◌, drop,
}
use sniproxy.Parse.{Result, ok, fail, fault}
use sniproxy.Buffer.{Buffer, Region, buffer_len, buffer_room}
use sniproxy.Buffer.Valid.{IsValid, room_eq}
use sniproxy.Buffer.Contents.{contents}
use sniproxy.Buffer.Transfer.{length-contents}
use sniproxy.Buffer.Push.{Pushed, push_lem}
use sniproxy.Buffer.Coalesce.{Holds, coalesce_lem}
use sniproxy.Connection.{
  State, new, accepted, resolved, server_closed, Connection, Listener, client_socket_open,
  server_socket_open,
}
use sniproxy.Connection.Request.{abort_connection, region_bytes, take_result, parse_client_request}
use sniproxy.Connection.Close.{Succeeds, succeeds}
use sniproxy.Connection.Inv.{
  Inv, Inv-with_client, Succeeds-bind, Succeeds-map, Succeeds-if, assert-Succeeds,
}

pub Succeeds-eq :
    {A : Type 0} {P : A → Type 0} (m : Option A) (a : A) → m ≡ some a → P a → Succeeds P m
Succeeds-eq {A} {P} m a e p = subst (Succeeds P) (sym e) (succeeds p)

-- A push of at least one byte, that the whole buffer has room for, leaves some bytes in it.
Pushed-some :
    {b b' : Buffer} {src : Bytes} {n : ℕ}
    → IsValid b
    → Pushed b src n b'
    → 0 < length src
    → length src ≤ b.size_mask + 1
    → 0 < buffer_len b'
Pushed-some {b} {b'} {src} v done p fits = elim (Bool-cases (leb (length src) (buffer_room b))) [
  | inl room ↦
      let here : contents b' ≡ contents b ++ src = done.holds ∙ rw room in
      omega (arith, length-contents done.valid, ap length here, length-append (contents b) src)
  | inr full ↦
      let here : contents b' ≡ contents b = done.holds ∙ rw full in
      let more : buffer_room b < length src = ground arith in
      omega
        (arith, length-contents done.valid, length-contents v, ap length here, room_eq v, v.len_in)
]

pub record Aborted (listener : Listener) (con : Connection) : Type 0 where
  pub inv : Inv listener con
  pub in_state : con.state ≡ server_closed
  pub to_send : 0 < buffer_len con.server_buffer

module _ {listener : Listener} (message : 0 < length listener.abort_message) where
  pub abort_lem :
      (con : Connection)
      → Inv listener con
      → client_socket_open con.state ≡ true
      → server_socket_open con.state ≡ false
      → Succeeds (Aborted listener) (abort_connection listener con)
  abort_lem con i up down =
      let (n, b', e, done) = push_lem i.server_valid listener.abort_message message in
      Succeeds-bind _ _ (assert-Succeeds _ up) (λ _ _.
        Succeeds-bind _ _
          (Succeeds-eq {P = λ r. Pushed con.server_buffer listener.abort_message r.0 r.1} _ (n, b')
            e done)
          (λ r d. succeeds (record {
            inv = record {
              sockets = record {
                client_fd = i.sockets.client_fd ∙ up;
                server_fd = i.sockets.server_fd ∙ down;
                client_idle = λ k. cc;
                server_idle = λ _. i.sockets.server_idle down;
                query = λ k. cc;
              };
              client_valid = i.client_valid;
              server_valid = d.valid;
              at_start = λ k. cc;
              header_fits = i.header_fits;
              message_fits = omega (arith, d.same_size, i.message_fits);
            };
            in_state = refl;
            to_send = Pushed-some i.server_valid d message i.message_fits;
          })))

-- The states behind `parse_client_request`: a request that is not complete leaves room for more of it.
abbrev pub AfterParse : State → Buffer → Type 0
AfterParse accepted b = 0 < buffer_room b
AfterParse new b = 0 < 0
AfterParse resolved b = 0 < 0
AfterParse _ b = Unit

pub record Parsed (listener : Listener) (con : Connection) : Type 0 where
  pub inv : Inv listener con
  pub after : AfterParse con.state con.client_buffer

Aborted-Parsed :
    {listener : Listener} (con : Connection) → Aborted listener con → Parsed listener con
Aborted-Parsed con a = record {
  inv = a.inv;
  after = subst (λ s. AfterParse s con.client_buffer) (sym a.in_state) tt;
}

region_bytes_lem :
    {b : Buffer} (r : Region) → Holds b r → Succeeds (λ (bytes : Bytes). Unit {0}) (region_bytes r)
region_bytes_lem r h =
    let inside : leb (r.offset + r.size) (length r.owner.buffer) ≡ true =
      ground (arith, h.inside, h.valid.storage) in
    rw inside (succeeds tt)

module _ {listener : Listener} (message : 0 < length listener.abort_message) where
  -- What `parse_client_request` makes of a parser's result.
  take_result_lem :
      (con : Connection) (r : Result Bytes)
      → Inv listener con
      → con.state ≡ accepted
      → r ≢ fault
      → Succeeds (Parsed listener) (take_result listener con r)
  take_result_lem con (ok name) i e nf = succeeds (record {
    inv = record {
      sockets = record {
        client_fd = i.sockets.client_fd ∙ ap client_socket_open e;
        server_fd = i.sockets.server_fd ∙ ap server_socket_open e;
        client_idle = λ k. cc;
        server_idle = λ _. i.sockets.server_idle (ap server_socket_open e);
        query = λ k. cc;
      };
      client_valid = i.client_valid;
      server_valid = i.server_valid;
      at_start = λ k. cc;
      header_fits = i.header_fits;
      message_fits = i.message_fits;
    };
    after = tt;
  })
  take_result_lem con (fail n) i e nf =
      Succeeds-if (n == 1 && ltb 0 (buffer_room con.client_buffer)) _ _
        (λ t. succeeds (record {
          inv = i;
          after =
              subst (λ s. AfterParse s con.client_buffer) (sym e)
                (let p : 0 < buffer_room con.client_buffer = ground arith in p);
        }))
        (λ _.
          Succeeds-if (not listener.has_fallback_address) _ _
            (λ _.
              Succeeds-map (abort_connection listener con) Aborted-Parsed
                (abort_lem message con i (ap client_socket_open e) (ap server_socket_open e)))
            (λ _. succeeds (record {
              inv = record {
                sockets = record {
                  client_fd = i.sockets.client_fd ∙ ap client_socket_open e;
                  server_fd = i.sockets.server_fd ∙ ap server_socket_open e;
                  client_idle = λ k. cc;
                  server_idle = λ _. i.sockets.server_idle (ap server_socket_open e);
                  query = λ k. cc;
                };
                client_valid = i.client_valid;
                server_valid = i.server_valid;
                at_start = λ k. cc;
                header_fits = i.header_fits;
                message_fits = i.message_fits;
              };
              after = tt;
            })))
  take_result_lem con fault i e nf = absurd (nf refl)

  pub parse_client_request_lem :
      (parse : Bytes → Result Bytes) (temp_ok : Bool) (con : Connection)
      → ((bytes : Bytes) → parse bytes ≢ fault)
      → Inv listener con
      → con.state ≡ accepted
      → Succeeds (Parsed listener) (parse_client_request listener parse temp_ok con)
  parse_client_request_lem parse temp_ok con safe i e =
      let z = i.at_start e in
      let (r, found, holds) =
        coalesce_lem temp_ok i.client_valid (omega (arith, i.client_valid.len_in)) (inr z) in
      Succeeds-bind _ _ (Succeeds-eq {P = Holds con.client_buffer} _ r found holds) (λ r h.
        let i' =
          Inv-with_client i (record { valid = h.valid; same_size = h.same_size })
            (λ _. h.at_start z) in
        Succeeds-if (leb r.size con.header_len) _ _
          (λ short. succeeds (record {
            inv = i';
            after = subst (λ s. AfterParse s r.owner) (sym e) (waiting con r i h (ground arith));
          }))
          (λ _. Succeeds-bind (region_bytes r) _ (region_bytes_lem r h) (λ bytes _.
            take_result_lem (record con { client_buffer = r.owner })
              (parse (drop con.header_len bytes)) i' e (safe (drop con.header_len bytes)))))
    where
      waiting :
          (con : Connection) (r : Region)
          → Inv listener con
          → Holds con.client_buffer r
          → r.size ≤ con.header_len
          → 0 < buffer_room r.owner
      waiting con r i h short = omega (
        arith,
        room_eq h.valid,
        h.same_size,
        h.size_is,
        i.header_fits,
        ap length h.same,
        length-contents h.valid,
        length-contents i.client_valid,
        h.valid.len_in,
      )
