-- ===== src/Connection/Accept.antt =====
-- src/connection.c: a new connection, with the PROXY header in front of the client's bytes.
use sniproxy.Prelude.{
  ℕ, Bool, true, false, not, List, [], ◌∷◌, ◌++◌, Option, none, some, Bytes, codes, ◌==◌,
  if◌then◌else◌, add_size,
}
use sniproxy.Buffer.{Buffer, new_buffer, push}
use sniproxy.Connection.{new, accepted, SockAddr, Watcher, Connection, ◌>>=◌}
use sniproxy.Connection.Socket.{start_watcher}

abbrev pub idle_watcher : Watcher
idle_watcher = record {
  is_active = false;
  wants_read = false;
  wants_write = false;
  is_open = false;
}

-- `AF_UNSPEC`, with all bytes zero.
abbrev pub unspecified : SockAddr
unspecified = record { family = 0; address = [] }

abbrev pub with_buffers : Buffer → Buffer → Connection
with_buffers client server = record {
  state = new;
  client_addr = unspecified;
  client_watcher = idle_watcher;
  client_buffer = client;
  server_addr = unspecified;
  server_watcher = idle_watcher;
  server_buffer = server;
  hostname = none;
  hostname_len = 0;
  header_len = 0;
  query_handle = false;
  use_proxy_header = false;
}

-- The memory for the struct, and for both buffers.
abbrev pub new_connection : ℕ → Bool → Option Bytes → Option Bytes → Option Connection
new_connection now calloc_ok client_storage server_storage = if not calloc_ok then none else (do
  client ← new_buffer 4096 now true client_storage
  server ← new_buffer 4096 now true server_storage
  some (with_buffers client server))

-- Each `con->header_len += buffer_push(con->client.buffer, part, len);`
unfoldable pub push_parts : List Bytes → Buffer → ℕ → Option (Buffer × ℕ)
push_parts [] b header_len = some (b, header_len)
push_parts (part ∷ parts) b header_len = do
  (n, b') ← push b part
  push_parts parts b' (add_size header_len n)

abbrev pub accepted_from : SockAddr → Connection → Connection
accepted_from client con = record con {
  client_addr = client;
  client_watcher = start_watcher (record con.client_watcher { is_open = true }) true false;
  state = accepted;
}

module _ (inet_ntop : SockAddr → Bytes) (port_text : SockAddr → Bytes) where
  -- The parts behind the protocol, for both kinds of IP addresses. `port_text` is what `snprintf`
  -- prints for a port.
  abbrev pub address_parts : SockAddr → SockAddr → List Bytes
  address_parts client local =
      inet_ntop client ∷ codes " " ∷ inet_ntop local ∷ port_text client ∷ port_text local ∷ []

  -- `AF_INET` is 2 and `AF_INET6` is 10.
  abbrev pub family_parts : SockAddr → SockAddr → List Bytes
  family_parts client local =
      if client.family == 2
      then codes "TCP4 " ∷ address_parts client local
      else if client.family == 10
      then codes "TCP6 " ∷ address_parts client local
      else codes "UNKNOWN" ∷ []

  abbrev pub proxy_v1_parts : SockAddr → SockAddr → List Bytes
  proxy_v1_parts client local = codes "PROXY " ∷ (family_parts client local ++ (codes "\r\n" ∷ []))

  abbrev pub insert_proxy_v1_header : SockAddr → Connection → Option Connection
  insert_proxy_v1_header local con = do
    (buffer, header_len) ←
        push_parts (proxy_v1_parts con.client_addr local) con.client_buffer con.header_len
    some (record con { client_buffer = buffer; header_len = header_len })

  -- `peer` and `local` are the results of `accept4` and `getsockname`. The result `some none` stands
  -- for the return value 0.
  abbrev pub accept_connection :
      Option Connection → Option SockAddr → Option SockAddr → Bool → Option (Option Connection)
  accept_connection none peer local header = some none
  accept_connection (some con) none local header = some none
  accept_connection (some con) (some client) none header = some none
  accept_connection (some con) (some client) (some local) header =
      if header
      then (do con ← insert_proxy_v1_header local (accepted_from client con); some (some con))
      else some (some (accepted_from client con))
