-- ===== src/Connection/Header.antt =====
-- The PROXY header that src/connection.c puts in front of the client's bytes.
use sniproxy.Prelude.{
  ℕ, ◌+◌, ◌≤◌, ◌<◌, ◌≡◌, ◌≢◌, refl, ap, ◌∙◌, Bool, true, false, codes, if◌then◌else◌, Bool-cases,
  inl, inr, ◌==◌, ==_iff, [], ◌∷◌, ◌++◌, some, Bytes, length, length-append, arith, add_size,
  IsPow2-pow,
}
use sniproxy.Buffer.{Buffer, buffer_size, buffer_room}
use sniproxy.Buffer.Valid.{IsValid}
use sniproxy.Buffer.Contents.{contents}
use sniproxy.Buffer.Size.{new_buffer_lem}
use sniproxy.Connection.{accepted, SockAddr, Connection}
use sniproxy.Connection.Accept.{
  address_parts, proxy_v1_parts, accept_connection, new_connection, with_buffers, accepted_from,
}
use sniproxy.Connection.Socket.{is_watching}
use sniproxy.Connection.Close.{HasSockets}
use sniproxy.Connection.Parts.{concat, AreFull, push_parts_lem, empty_room}

-- What a connection is when it is accepted.
pub record IsAccepted (header : Bytes) (con : Connection) : Type 0 where
  pub in_state : con.state ≡ accepted
  pub watching : is_watching con.client_watcher ≡ true
  pub sockets : HasSockets con
  pub client_valid : IsValid con.client_buffer
  pub server_valid : IsValid con.server_buffer
  pub client_holds : contents con.client_buffer ≡ header
  pub server_empty : contents con.server_buffer ≡ []
  pub header_size : con.header_len ≡ length header
  pub client_capacity : buffer_size con.client_buffer ≡ 4096
  pub server_capacity : buffer_size con.server_buffer ≡ 4096
  pub at_start : con.client_buffer.head ≡ 0

module _ (inet_ntop port_text : SockAddr → Bytes) (peer local : SockAddr) where
  -- The text that the parts make up.
  abbrev proxy_v1_header : Bytes
  proxy_v1_header = concat (proxy_v1_parts inet_ntop port_text peer local)

  accept_connection-IsAccepted :
      (c s : Buffer) (header : Bool)
      → IsValid c
      → IsValid s
      → contents c ≡ []
      → contents s ≡ []
      → buffer_size c ≡ 4096
      → buffer_size s ≡ 4096
      → c.head ≡ 0
      → AreFull (proxy_v1_parts inet_ntop port_text peer local)
      → length proxy_v1_header ≤ 4096
      → (con : Connection) × (accept_connection inet_ntop port_text
            (some (with_buffers c s))
            (some peer)
            (some local)
            header
          ≡ some (some con))
        × IsAccepted (if header then proxy_v1_header else []) con
  accept_connection-IsAccepted c s false vc vs ec es sc ss zc full fits = (
    accepted_from peer (with_buffers c s),
    refl,
    record {
      in_state = refl;
      watching = refl;
      sockets = record {
        client_fd = refl;
        server_fd = refl;
        client_idle = λ k. cc;
        server_idle = λ k. refl;
        query = λ k. cc;
      };
      client_valid = vc;
      server_valid = vs;
      client_holds = ec;
      server_empty = es;
      header_size = refl;
      client_capacity = sc;
      server_capacity = ss;
      at_start = zc;
    },
  )
  accept_connection-IsAccepted c s true vc vs ec es sc ss zc full fits =
      let room : buffer_room c ≡ 4096 = empty_room vc ec sc in
      let (c', e, vc', holds, size, at_start) =
        push_parts_lem (proxy_v1_parts inet_ntop port_text peer local) c 0 vc full (omega arith)
          (omega arith) in
      (
        record (accepted_from peer (with_buffers c s)) {
          client_buffer = c';
          header_len = 0 + length proxy_v1_header;
        },
        rw e,
        record {
          in_state = refl;
          watching = refl;
          sockets = record {
            client_fd = refl;
            server_fd = refl;
            client_idle = λ k. cc;
            server_idle = λ k. refl;
            query = λ k. cc;
          };
          client_valid = vc';
          server_valid = vs;
          client_holds = holds ∙ ap (λ l. l ++ proxy_v1_header) ec;
          server_empty = es;
          header_size = omega arith;
          client_capacity = ap (λ k. add_size k 1) size ∙ sc;
          server_capacity = ss;
          at_start = at_start zc;
        },
      )

  -- The header of the PROXY protocol, version 1: the protocol, the address and the port of the
  -- client, and those that it connected to.
  pub data IsProxyHeader : Bytes → Type 0 where
    for_ipv4 :
        peer.family ≡ 2
        → IsProxyHeader (
            codes "PROXY TCP4 "
            ++ (inet_ntop peer
                ++ (codes " "
                    ++ (inet_ntop local ++ (port_text peer ++ (port_text local ++ codes "\r\n"))))))
    for_ipv6 :
        peer.family ≡ 10
        → IsProxyHeader (
            codes "PROXY TCP6 "
            ++ (inet_ntop peer
                ++ (codes " "
                    ++ (inet_ntop local ++ (port_text peer ++ (port_text local ++ codes "\r\n"))))))
    for_others : peer.family ≢ 2 → peer.family ≢ 10 → IsProxyHeader (codes "PROXY UNKNOWN\r\n")

  -- `inet_ntop` and `snprintf` write something, of at most as many bytes as an address and a port
  -- with a blank in front take.
  pub record ArePrinted : Type 0 where
    pub some_peer : 0 < length (inet_ntop peer)
    pub some_local : 0 < length (inet_ntop local)
    pub peer_fits : length (inet_ntop peer) ≤ 45
    pub local_fits : length (inet_ntop local) ≤ 45
    pub some_peer_port : 0 < length (port_text peer)
    pub some_local_port : 0 < length (port_text local)
    pub peer_port_fits : length (port_text peer) ≤ 6
    pub local_port_fits : length (port_text local) ≤ 6

  ending : Bytes
  ending = inet_ntop local ++ (port_text peer ++ (port_text local ++ codes "\r\n"))

  ending_fits : ArePrinted → length (inet_ntop peer ++ (codes " " ++ ending)) ≤ 150
  unfolding ending
  ending_fits h = omega (
    arith,
    length-append (inet_ntop peer) (codes " " ++ ending),
    length-append (inet_ntop local) (port_text peer ++ (port_text local ++ codes "\r\n")),
    length-append (port_text peer) (port_text local ++ codes "\r\n"),
    length-append (port_text local) (codes "\r\n"),
    h.peer_fits,
    h.local_fits,
    h.peer_port_fits,
    h.local_port_fits,
  )

  parts_by_family :
      ArePrinted
      → AreFull (proxy_v1_parts inet_ntop port_text peer local)
        × IsProxyHeader proxy_v1_header
        × (length proxy_v1_header ≤ 200)
  unfolding ending
  parts_by_family h =
      let tail : AreFull (address_parts inet_ntop port_text peer local ++ (codes "\r\n" ∷ [])) =
        (h.some_peer, (one, (h.some_local, (h.some_peer_port, (h.some_local_port, (two, tt)))))) in
      elim (Bool-cases (peer.family == 2)) [
        | inl four ↦ rw four (
          (omega arith, (omega arith, tail)),
          for_ipv4 ((==_iff peer.family 2).0 four),
          omega (arith, ending_fits h),
        )
        | inr other ↦ elim (Bool-cases (peer.family == 10)) [
          | inl six ↦
              rw (other, six)
                (
                  (omega arith, (omega arith, tail)),
                  for_ipv6 ((==_iff peer.family 10).0 six),
                  omega (arith, ending_fits h),
                )
          | inr unknown ↦
              rw (other, unknown)
                (
                  (omega arith, (omega arith, (omega arith, tt))),
                  for_others (ground arith) (ground arith),
                  omega arith,
                )
        ]
      ]
    where
      one : 0 < length (codes " ")
      one = omega arith

      two : 0 < length (codes "\r\n")
      two = omega arith

  -- `accept_connection`, where memory is to be had and `accept4` and `getsockname` succeed, and
  -- where `inet_ntop` prints 1 to 45 bytes and a port with its blank takes 1 to 6: the new
  -- connection is accepted with its client's socket open and watched, both buffers are valid and
  -- of 4096 bytes, the server buffer is empty, and the client buffer holds, from its start,
  -- exactly the PROXY header where that is asked for, and nothing otherwise. The header begins
  -- with `PROXY` and ends with CR LF; in between it has `TCP4` or `TCP6`, the client's address,
  -- the local one, the client's port and the local one, or `UNKNOWN` for another family.
  -- `header_len` is its length.
  pub accept_connection_lem :
      (now : ℕ) (client_storage server_storage : Bytes) (header : Bool)
      → length client_storage ≡ 4096
      → length server_storage ≡ 4096
      → ArePrinted
      → (text : Bytes) × (con : Connection) × IsProxyHeader text
        × (length text ≤ 200)
        × (accept_connection inet_ntop port_text
              (new_connection now true (some client_storage) (some server_storage))
              (some peer)
              (some local)
              header
            ≡ some (some con))
        × IsAccepted (if header then text else []) con
  accept_connection_lem now client_storage server_storage header lc ls printed =
      let (full, is_header, short) = parts_by_family printed in
      let (c, ec, vc, hc, sc, zc) =
        (new_buffer_lem 4096 now client_storage (omega arith) lc).0 (IsPow2-pow 12) in
      let (s, es, vs, hs, ss, zs) =
        (new_buffer_lem 4096 now server_storage (omega arith) ls).0 (IsPow2-pow 12) in
      let (con, e, done) =
        accept_connection-IsAccepted c s header vc vs hc hs sc ss zc full (omega (arith, short)) in
      (proxy_v1_header, con, is_header, short, rw (ec, es) e, done)
