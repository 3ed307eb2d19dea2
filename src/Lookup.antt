-- ===== src/Lookup.antt =====
-- src/backend.c, src/table.c and src/listener.c: the server for a name. A failed `assert` is `none`.
-- A NUL byte that a string of C ends with is left out.
pub mod First
pub mod Pattern
mod Tests
use sniproxy.Prelude.{
  ℕ, zero, suc, ◌-◌, Bool, true, false, List, [], ◌∷◌, ◌++◌, Option, none, some, Bytes, codes,
  length, take, ltb, leb, ◌==◌, ◌&&◌, not, if◌then◌else◌,
}
use sniproxy.Address.{
  Kind, hostname, sockaddr, wildcard, pattern, Address, address_port, address_set_port,
}

infixl 5 ◌>>=◌
abbrev pub ◌>>=◌ {ℓ κ} : {A : Type ℓ} {B : Type κ} → Option A → (A → Option B) → Option B
none >>= f = none
some a >>= f = f a

-- `pattern_re` is whether the pattern is compiled.
pub record Backend : Type 0 where
  pub pattern : Bytes
  pub pattern_re : Bool
  pub address : Address
  pub use_proxy_header : Bool

pub record LookupResult : Type 0 where
  pub address : Option Address
  pub caller_free_address : Bool
  pub use_proxy_header : Bool
  pub matches : List ℕ

abbrev pub no_address : LookupResult
no_address = record {
  address = none;
  caller_free_address = false;
  use_proxy_header = false;
  matches = [];
}

-- A NULL name is searched for as the empty string.
abbrev pub name_bytes : Option Bytes → Bytes
name_bytes none = []
name_bytes (some name) = name

abbrev pub found_or : {A : Type 0} → Option A → Option (Option A) → Option (Option A)
found_or (some a) rest = some (some a)
found_or none rest = rest

abbrev pub with_matches : Backend → Option (List ℕ) → Option (Backend × List ℕ)
with_matches b none = none
with_matches b (some ms) = some (b, ms)

-- `pcre_exec` takes the pattern and the name, and finds the offsets of the matches.
module _ (pcre_exec : Bytes → Bytes → Option (List ℕ)) where
  -- The loop over the backends.
  pub search_backends : List Backend → Bytes → Option (Option (Backend × List ℕ))
  search_backends [] name = some none
  search_backends (b ∷ bs) name =
      let rest = search_backends bs name in
      if not b.pattern_re then none else found_or (with_matches b (pcre_exec b.pattern name)) rest

  abbrev pub lookup_backend : List Backend → Option Bytes → Option (Option (Backend × List ℕ))
  lookup_backend backends name = search_backends backends (name_bytes name)

  abbrev pub backend_result : Option (Option (Backend × List ℕ)) → Option LookupResult
  backend_result none = none
  backend_result (some none) = some no_address
  backend_result (some (some (b, ms))) = some (record {
    address = some b.address;
    caller_free_address = false;
    use_proxy_header = b.use_proxy_header;
    matches = ms;
  })

  abbrev pub table_lookup_server_address : List Backend → Option Bytes → Option LookupResult
  table_lookup_server_address table name = backend_result (lookup_backend table name)

-- What the lookup reads of `struct Listener`.
pub record Listener : Type 0 where
  pub table : List Backend
  pub address : Address
  pub fallback_address : Option Address
  pub fallback_use_proxy_header : Bool

abbrev pub fallback : Listener → LookupResult
fallback listener = record {
  address = listener.fallback_address;
  caller_free_address = false;
  use_proxy_header = listener.fallback_use_proxy_header;
  matches = [];
}

abbrev pub fresh : Bool → Address → LookupResult
fresh proxy address = record {
  address = some address;
  caller_free_address = true;
  use_proxy_header = proxy;
  matches = [];
}

-- The port of the table's entry, where it has one, and the listener's otherwise.
abbrev pub entry_port : Listener → Address → Option ℕ
entry_port listener entry = do
  port ← address_port entry
  if port == 0 then address_port listener.address else some port

abbrev pub with_entry_port : Listener → Address → Bool → Address → Option LookupResult
with_entry_port listener entry proxy made = do
  port ← entry_port listener entry
  made ← address_set_port made port
  some (fresh proxy made)

abbrev pub is_sockaddr : Kind → Bool
is_sockaddr sockaddr = true
is_sockaddr _ = false

-- The address that `new_address` makes of a string that comes from the client.
abbrev pub from_client : Listener → Address → Bool → Option Address → Option LookupResult
from_client listener entry proxy none = some (fallback listener)
from_client listener entry proxy (some made) =
    if is_sockaddr made.kind
    then some (fallback listener)
    else with_entry_port listener entry proxy made

-- `new_address`, and `apply_pattern` from the name, the pattern and the matches.
module _ (pcre_exec : Bytes → Bytes → Option (List ℕ)) (new_address : Option Bytes → Option Address)
    (apply_pattern : Option Bytes → Bytes → List ℕ → Option Bytes) where
  abbrev pub replaced : Option Bytes → Option Address
  replaced none = none
  replaced (some replacement) = new_address (some replacement)

  -- From the table's entry on, by its kind.
  abbrev pub entry_result :
      Kind → Listener → Option Bytes → LookupResult → Address → Option LookupResult
  entry_result pattern listener name result entry =
      from_client listener entry result.use_proxy_header
        (replaced (apply_pattern name entry.bytes result.matches))
  entry_result wildcard listener name result entry =
      from_client listener entry result.use_proxy_header (new_address name)
  entry_result _ listener name result entry = do
    port ← address_port entry
    if port == 0 then with_entry_port listener entry result.use_proxy_header entry else some result

  abbrev pub table_entry :
      Listener → Option Bytes → LookupResult → Option Address → Option LookupResult
  table_entry listener name result none = some (fallback listener)
  table_entry listener name result (some entry) = entry_result entry.kind listener name result entry

  abbrev pub listener_lookup_server_address : Listener → Option Bytes → Option LookupResult
  listener_lookup_server_address listener name = do
    result ← table_lookup_server_address pcre_exec listener.table name
    table_entry listener name result result.address
