-- ===== src/Listeners.antt =====
-- src/listener.c: what the words of the configuration set in a listener, which listeners are valid, and
-- the list of listeners in the order of their addresses. `none` stands for a failed `assert` and for a
-- read through NULL. The platform has `SO_REUSEPORT`, `IPV6_V6ONLY` and `IP_TRANSPARENT`, and the
-- program is built with libudns.
pub mod Order
mod Tests
use sniproxy.Prelude.{
  ℕ, zero, suc, ◌+◌, Bool, true, false, not, ◌&&◌, ◌||◌, List, [], ◌∷◌, map, Option, none, some,
  Bytes, codes, ◌==◌, if◌then◌else◌, ℤ, pos, negsuc, neg, is_negative,
}
use sniproxy.Address.{
  Kind, hostname, sockaddr, wildcard, pattern, Address, address_compare, address_port,
  address_set_port, sa_family,
}
use sniproxy.Http.{to_lower}
use sniproxy.Lookup.{◌>>=◌, is_sockaddr}

pub data Protocol : Type 0 where
  http_protocol tls_protocol : Protocol

abbrev pub default_port : Protocol → ℕ
default_port http_protocol = 80
default_port tls_protocol = 443

-- The members that the configuration sets, `accept_cb` being whether there is one.
pub record Listener : Type 0 where
  pub address : Option Address
  pub fallback_address : Option Address
  pub source_address : Option Address
  pub protocol : Protocol
  pub table_name : Option Bytes
  pub log_bad_requests : Bool
  pub reuseport : ℤ
  pub transparent_proxy : Bool
  pub ipv6_v6only : ℤ
  pub fallback_use_proxy_header : Bool
  pub accept_cb : Bool
  pub reference_count : ℕ

-- `strcasecmp(a, b) == 0`, and `strncasecmp(a, b, strlen(a)) == 0`.
abbrev pub strcasecmp_eq : Bytes → Bytes → Bool
strcasecmp_eq [] [] = true
strcasecmp_eq (x ∷ xs) (y ∷ ys) = (to_lower x == to_lower y) && strcasecmp_eq xs ys
strcasecmp_eq _ _ = false

abbrev pub begins_with : Bytes → Bytes → Bool
begins_with [] ys = true
begins_with (x ∷ xs) [] = false
begins_with (x ∷ xs) (y ∷ ys) = (to_lower x == to_lower y) && begins_with xs ys

abbrev pub parse_boolean : Bytes → ℤ
parse_boolean boolean =
    if strcasecmp_eq boolean (codes "yes")
      || strcasecmp_eq boolean (codes "true")
      || strcasecmp_eq boolean (codes "on")
    then pos 1
    else if strcasecmp_eq boolean (codes "no")
        || strcasecmp_eq boolean (codes "false")
        || strcasecmp_eq boolean (codes "off")
    then pos 0
    else neg 1

-- Memory is to be had or not.
abbrev pub new_listener : Bool → Option Listener
new_listener false = none
new_listener true = some (record {
  address = none;
  fallback_address = none;
  source_address = none;
  protocol = tls_protocol;
  table_name = none;
  log_bad_requests = false;
  reuseport = pos 0;
  transparent_proxy = false;
  ipv6_v6only = pos 0;
  fallback_use_proxy_header = false;
  accept_cb = false;
  reference_count = 0;
})

-- `strdup` likewise.
abbrev pub table_name_set : Bool → Listener → Bytes → Option Bytes → ℤ × Listener
table_name_set strdup listener table_name (some name) = (pos 0, listener)
table_name_set false listener table_name none = (neg 1, listener)
table_name_set true listener table_name none =
    (pos 1, record listener { table_name = some table_name })

abbrev pub accept_listener_table_name : Bool → Listener → Bytes → ℤ × Listener
accept_listener_table_name strdup listener table_name =
    table_name_set strdup listener table_name listener.table_name

-- The port of the protocol, where the address has none.
abbrev pub with_default_port : Listener → Option Address → Option Listener
with_default_port listener none = none
with_default_port listener (some address) = do
  port ← address_port address
  if port == 0
      then (do
        made ← address_set_port address (default_port listener.protocol)
        some (record listener { address = some made }))
      else some listener

abbrev pub accept_listener_protocol : Listener → Bytes → Option (ℤ × Listener)
accept_listener_protocol listener protocol = do
  let named = record listener {
    protocol = if begins_with protocol (codes "http") then http_protocol else tls_protocol;
  }
  listener ← with_default_port named listener.address
  some (pos 1, listener)

-- The result for a value of `parse_boolean`.
abbrev pub unless_unknown : ℤ → ℤ
unless_unknown value = if is_negative value then pos 0 else pos 1

abbrev pub accept_listener_reuseport : Listener → Bytes → ℤ × Listener
accept_listener_reuseport listener reuseport = (
  unless_unknown (parse_boolean reuseport),
  record listener { reuseport = parse_boolean reuseport },
)

abbrev pub accept_listener_ipv6_v6only : Listener → Bytes → ℤ × Listener
accept_listener_ipv6_v6only listener ipv6_v6only = (
  unless_unknown (parse_boolean ipv6_v6only),
  record listener { ipv6_v6only = parse_boolean ipv6_v6only },
)

-- `strncmp("log", action, strlen(action)) == 0`
abbrev pub is_start : Bytes → Bytes → Bool
is_start [] ys = true
is_start (x ∷ xs) [] = false
is_start (x ∷ xs) (y ∷ ys) = (x == y) && is_start xs ys

abbrev pub accept_listener_bad_request_action : Listener → Bytes → ℤ × Listener
accept_listener_bad_request_action listener action = (
  pos 1,
  if is_start action (codes "log") then record listener { log_bad_requests = true } else listener,
)

-- The switch on the address's family: `AF_UNIX` is 1, `AF_INET` is 2 and `AF_INET6` is 10.
abbrev pub valid_family : Address → Option ℤ
valid_family address =
    if sa_family address.bytes == 1
    then some (pos 1)
    else if sa_family address.bytes == 2 || sa_family address.bytes == 10
    then (do port ← address_port address; some (if port == 0 then pos 0 else pos 1))
    else some (pos 0)

abbrev pub valid_address : Option Address → Option ℤ
valid_address none = some (pos 0)
valid_address (some address) =
    if is_sockaddr address.kind then valid_family address else some (pos 0)

-- Each protocol is one of the two that are valid.
abbrev pub valid_listener : Listener → Option ℤ
valid_listener listener =
    if listener.accept_cb then valid_address listener.address else some (pos 0)

abbrev pub listener_ref_get : Listener → Listener
listener_ref_get listener = record listener { reference_count = listener.reference_count + 1 }

-- `address_compare(listener->address, other->address) < 0`
abbrev pub is_before : Listener → Listener → Bool
is_before listener other = is_negative (address_compare listener.address other.address)

-- The loop, from `iter` on.
unfoldable pub insert_after : Listener → List Listener → Listener → List Listener
insert_after iter [] listener = iter ∷ listener ∷ []
insert_after iter (next ∷ listeners) listener = elim (is_before listener next) [
  | true ↦ iter ∷ listener ∷ next ∷ listeners
  | false ↦ iter ∷ insert_after next listeners listener
]

abbrev pub insert_listener : List Listener → Listener → List Listener
insert_listener [] listener = listener ∷ []
insert_listener (first ∷ listeners) listener =
    if is_before listener first
    then listener ∷ first ∷ listeners
    else insert_after first listeners listener

abbrev pub has_address : Option Address → Bool
has_address none = false
has_address (some address) = true

abbrev pub add_listener : List Listener → Listener → Option (List Listener)
add_listener listeners listener =
    if has_address listener.address
    then some (insert_listener listeners (listener_ref_get listener))
    else none
