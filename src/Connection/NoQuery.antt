-- ===== src/Connection/NoQuery.antt =====
-- A query that src/connection.c could not make, and the client's end of the connection.
use sniproxy.Prelude.{
  ◌<◌, ◌≡◌, refl, Bool, true, false, Option, none, some, [], Bytes, ℕ, ltb, lt→ltb,
}
use sniproxy.Parse.{Result}
use sniproxy.Buffer.{buffer_room, received}
use sniproxy.Connection.{Connection, Listener, ◌>>=◌}
use sniproxy.Connection.Server.{Lookup, named, resolve_server_address}
use sniproxy.Connection.Callback.{client, Outcome, freed, Event, connection_cb}

module _ (listener : Listener) (parse : Bytes → Result Bytes)
    (lookup : Option Bytes → ℕ → Lookup) where
  -- A name is looked up, and then an event of the client's socket comes.
  abbrev pub asked : Bool → Bool → Event → Connection → Option Outcome
  asked query_ok proxy ev con =
      resolve_server_address listener (named proxy) true query_ok con
      >>= connection_cb listener parse lookup client ev

  -- Where the lookup gives a name and memory is to be had, and then the client, whose socket is
  -- open and whose buffer has room, ends its data: if `resolv_query` returned NULL,
  -- `connection_cb` fails, since the query is read through; if it did not, the connection is
  -- freed, with its client's socket closed and no query.
  pub connection_cb-no_query :
      (proxy : Bool) (ev : Event) (con : Connection)
      → con.client_watcher.is_open ≡ true
      → 0 < buffer_room con.client_buffer
      → ev.readable ≡ true
      → ev.recv_outcome ≡ received []
      → (asked false proxy ev con ≡ none)
        × ((closed : Connection) × (asked true proxy ev con ≡ some (freed closed))
            × (closed.client_watcher.is_open ≡ false)
            × (closed.query_handle ≡ false))
  connection_cb-no_query proxy ev con up room readable over =
      let has_room : ltb 0 (buffer_room con.client_buffer) ≡ true = lt→ltb _ _ room in
      rw (readable, has_room, over, up) (refl, (_, refl, refl, refl))
