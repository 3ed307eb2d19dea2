-- ===== src/Connection/Request.antt =====
-- src/connection.c: reading the name from the client's request.
use sniproxy.Prelude.{
  ◌+◌, ◌-◌, ◌^◌, Bool, not, ◌&&◌, Option, none, some, Bytes, length, slice, drop, ltb, leb, ◌==◌,
  if◌then◌else◌,
}
use sniproxy.Parse.{Result, ok, fail, fault}
use sniproxy.Buffer.{Region, push, coalesce, buffer_room}
use sniproxy.Connection.{
  parsed, server_closed, Connection, Listener, ◌>>=◌, ◌>>◌, assert, client_socket_open,
}

abbrev pub abort_connection : Listener → Connection → Option Connection
abort_connection listener con = do
  assert (client_socket_open con.state)
  (_, buffer) ← push con.server_buffer listener.abort_message
  some (record con { server_buffer = buffer; state = server_closed })

-- What the region holds, where it lies inside the storage.
abbrev pub region_bytes : Region → Option Bytes
region_bytes r =
    if leb (r.offset + r.size) (length r.owner.buffer)
    then some (slice r.owner.buffer r.offset r.size)
    else none

-- From the parser's result on; a negative result is stored as a `size_t`.
abbrev pub take_result : Listener → Connection → Result Bytes → Option Connection
take_result listener con (ok name) =
    some (record con { hostname = some name; hostname_len = length name; state = parsed })
take_result listener con (fail n) =
    if n == 1 && ltb 0 (buffer_room con.client_buffer)
    then some con
    else if not listener.has_fallback_address
    then abort_connection listener con
    else some (record con { hostname = none; hostname_len = 2 ^ 64 - n; state = parsed })
take_result listener con fault = none

-- `parse` is the protocol's `parse_packet`; `temp_ok` is whether `buffer_coalesce` gets memory.
abbrev pub parse_region :
    Listener → (Bytes → Result Bytes) → Connection → Region → Option Connection
parse_region listener parse con r =
    if leb r.size con.header_len
    then some con
    else (do bytes ← region_bytes r; take_result listener con (parse (drop con.header_len bytes)))

abbrev pub parse_client_request :
    Listener → (Bytes → Result Bytes) → Bool → Connection → Option Connection
parse_client_request listener parse temp_ok con = do
  r ← coalesce con.client_buffer temp_ok
  parse_region listener parse (record con { client_buffer = r.owner }) r
