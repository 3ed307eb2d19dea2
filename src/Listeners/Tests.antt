-- ===== src/Listeners/Tests.antt =====
-- Concrete runs of src/listener.c.
use sniproxy.Prelude.{◌≡◌, refl, true, false, List, [], ◌∷◌, Option, none, some, codes, pos, neg}
use sniproxy.Address.{Address, sockaddr}
use sniproxy.Listeners.{
  Listener, tls_protocol, http_protocol, parse_boolean, accept_listener_table_name,
  accept_listener_protocol, valid_listener, listener_ref_get, add_listener,
}
use sniproxy.Listeners.Order.{Inserts, add_listener-Inserts}

abbrev socket : Address
socket = record { kind = sockaddr; bytes = 2 ∷ 0 ∷ 0 ∷ 80 ∷ []; port = 80 }

abbrev other_socket : Address
other_socket = record { kind = sockaddr; bytes = 2 ∷ 0 ∷ 0 ∷ 0 ∷ []; port = 0 }

abbrev listener : Option Address → Listener
listener address = record {
  address = address;
  fallback_address = none;
  source_address = none;
  protocol = tls_protocol;
  table_name = none;
  log_bad_requests = false;
  reuseport = pos 0;
  transparent_proxy = false;
  ipv6_v6only = pos 0;
  fallback_use_proxy_header = false;
  accept_cb = true;
  reference_count = 0;
}

add_listener-Inserts_example :
    (result : List Listener) × (add_listener
        (listener (some socket) ∷ [])
        (listener (some other_socket))
      ≡ some result)
    × Inserts (listener_ref_get (listener (some other_socket))) (listener (some socket) ∷ []) result
add_listener-Inserts_example =
    add_listener-Inserts (listener (some socket) ∷ []) (listener (some other_socket)) tt refl

parse_boolean_on : parse_boolean (codes "On") ≡ pos 1
parse_boolean_on = refl

parse_boolean_unknown : parse_boolean (codes "2") ≡ neg 1
parse_boolean_unknown = refl

-- A name that begins like `http` is taken for it, and the port is the protocol's.
accept_listener_protocol_port :
    accept_listener_protocol (listener (some other_socket)) (codes "HT")
    ≡ some (
      pos 1,
      record (listener
          (some (record { kind = sockaddr; bytes = 2 ∷ 0 ∷ 0 ∷ 80 ∷ []; port = 80 }))) {
            protocol = http_protocol;
          },
    )
accept_listener_protocol_port = refl

-- Before there is an address, NULL is read through.
accept_listener_protocol_null : accept_listener_protocol (listener none) (codes "tls") ≡ none
accept_listener_protocol_null = refl

accept_listener_table_name_twice :
    accept_listener_table_name true (record (listener none) { table_name = some [] }) (codes "a")
    ≡ (pos 0, record (listener none) { table_name = some [] })
accept_listener_table_name_twice = refl

valid_listener_run : valid_listener (listener (some socket)) ≡ some (pos 1)
valid_listener_run = refl

valid_listener_no_port : valid_listener (listener (some other_socket)) ≡ some (pos 0)
valid_listener_no_port = refl
