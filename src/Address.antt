-- ===== src/Address.antt =====
-- src/address.c: addresses and their order. A failed `assert` is `none`.
pub mod Order
pub mod Total
pub mod Hostname
mod Tests
use sniproxy.Prelude.{
  ℕ, zero, suc, ◌+◌, ◌-◌, ◌*◌, ◌/◌, ◌%◌, Bool, true, false, not, ◌&&◌, ◌||◌, [], ◌∷◌, Option, none,
  some, Bytes, length, get_or, write_at, take, drop, ltb, leb, ◌==◌, if◌then◌else◌, ℤ, pos, neg,
}

-- The members of the source's enumeration, in its order.
pub data Kind : Type 0 where
  hostname sockaddr wildcard pattern : Kind

pub record Address : Type 0 where
  pub kind : Kind
  pub bytes : Bytes
  pub port : ℕ

abbrev pub rank : Kind → ℕ
rank hostname = 0
rank sockaddr = 1
rank wildcard = 2
rank pattern = 3

-- `memcmp` on as many bytes as both have; only the sign of its result is documented.
unfoldable pub memcmp : Bytes → Bytes → ℤ
memcmp [] ys = pos 0
memcmp (x ∷ xs) [] = pos 0
memcmp (x ∷ xs) (y ∷ ys) =
    let rest = memcmp xs ys in if ltb x y then neg 1 else if ltb y x then pos 1 else rest

-- `if (a < b) return -1; if (a > b) return 1;`, and on to the rest.
abbrev pub by_size : ℕ → ℕ → ℤ → ℤ
by_size a b rest = if ltb a b then neg 1 else if ltb b a then pos 1 else rest

abbrev pub tie_break : Address → Address → ℤ → ℤ
tie_break a b (pos zero) = by_size (length a.bytes) (length b.bytes) (by_size a.port b.port (pos 0))
tie_break a b result = result

-- `none` is a NULL pointer.
abbrev pub address_compare : Option Address → Option Address → ℤ
address_compare none none = pos 0
address_compare none (some b) = neg 1
address_compare (some a) none = pos 1
address_compare (some a) (some b) =
    by_size (rank a.kind) (rank b.kind) (tie_break a b (memcmp a.bytes b.bytes))

-- The bytes of `valid_label_bytes`.
abbrev pub is_label_byte : ℕ → Bool
is_label_byte c =
    c == 45
    || (leb 48 c && leb c 57)
    || (leb 65 c && leb c 90)
    || c == 95
    || (leb 97 c && leb c 122)

abbrev pub all_label_bytes : Bytes → Bool
all_label_bytes [] = true
all_label_bytes (c ∷ cs) = is_label_byte c && all_label_bytes cs

-- `strchr(label, '.') - label`, or all that is left.
pub label_len : Bytes → ℕ
label_len [] = 0
label_len (c ∷ cs) = let rest = label_len cs in if c == 46 then 0 else suc rest

abbrev pub valid_label : Bytes → Bool
valid_label label =
    leb (length label) 63
    && leb 1 (length label)
    && not (get_or label 0 0 == 45)
    && not (get_or label (length label - 1) 0 == 45)
    && all_label_bytes label

-- The loop over the labels, each of which takes a byte at least; `none` where the fuel is spent.
unfoldable pub labels_loop : ℕ → Bytes → Option Bool
unfolding label_len
labels_loop fuel [] = some true
labels_loop zero (c ∷ cs) = none
labels_loop (suc fuel) (c ∷ cs) =
    let n = label_len (c ∷ cs) in
    let rest = labels_loop fuel (drop (n + 1) (c ∷ cs)) in
    if valid_label (take n (c ∷ cs)) then rest else some false

-- A string without NUL bytes; `none` is a NULL pointer.
unfoldable pub valid_hostname : Option Bytes → Option Bool
unfolding labels_loop
valid_hostname none = some false
valid_hostname (some s) =
    if ltb (length s) 1 || ltb 255 (length s)
    then some false
    else if get_or s 0 0 == 46
    then some false
    else labels_loop (length s) s

-- `sa_family` as a little-endian machine stores it.
abbrev pub sa_family : Bytes → ℕ
sa_family bytes = get_or bytes 0 0 + 256 * get_or bytes 1 0

-- `AF_INET` is 2, `AF_INET6` is 10, `AF_UNIX` is 1 and `AF_UNSPEC` is 0. The port stands at the same
-- place for both kinds of IP addresses, the high byte first.
abbrev pub has_port : Bytes → Bool
has_port bytes = sa_family bytes == 2 || sa_family bytes == 10

abbrev pub has_no_port : Bytes → Bool
has_no_port bytes = sa_family bytes == 1 || sa_family bytes == 0

abbrev pub port_of : Kind → Address → Option ℕ
port_of sockaddr addr =
    if has_port addr.bytes
    then some (256 * get_or addr.bytes 2 0 + get_or addr.bytes 3 0)
    else if has_no_port addr.bytes
    then some 0
    else none
port_of _ addr = some addr.port

abbrev pub address_port : Address → Option ℕ
address_port addr = port_of addr.kind addr

abbrev pub set_port_of : Kind → Address → ℕ → Option Address
set_port_of sockaddr addr port =
    if has_port addr.bytes
    then some
        (record addr { bytes = write_at addr.bytes 2 (port / 256 ∷ port % 256 ∷ []); port = port })
    else if has_no_port addr.bytes
    then some (record addr { port = port })
    else none
set_port_of _ addr port = some (record addr { port = port })

-- `port` is a `uint16_t`.
abbrev pub address_set_port : Address → ℕ → Option Address
address_set_port addr port = set_port_of addr.kind addr port
