-- ===== src/Http.antt =====
-- src/http.c: the `Host:` header of a request. A `char *` is the memory from there on, beside the
-- `size_t` that goes with it; that wraps as in the source.
pub mod Scan
pub mod Port
pub mod RoundTrip
pub mod Reads
pub mod Safe
mod Tests
use sniproxy.Prelude.{
  ℕ, zero, suc, ◌+◌, ◌-◌, ◌%◌, ◌^◌, Bool, true, false, not, ◌&&◌, ◌||◌, [], ◌∷◌, Bytes, codes,
  length, drop, take, ltb, leb, ◌==◌, if◌then◌else◌, add_size, sub_size,
}
use sniproxy.Parse.{Result, ok, fail, fault, ◌>>=◌, ◌>>◌, check, byte_at, bytes_at, strncpy}

abbrev pub cr : ℕ
cr = b'\r'

abbrev pub lf : ℕ
lf = b'\n'

-- `isblank`, `isdigit` and `tolower` of the C locale.
abbrev pub is_blank : ℕ → Bool
is_blank c = c == b' ' || c == b'\t'

abbrev pub is_digit : ℕ → Bool
is_digit c = leb b'0' c && leb c b'9'

abbrev pub to_lower : ℕ → ℕ
to_lower c = if leb b'A' c && leb c b'Z' then c + 32 else c

-- The first loop of `next_header`, with where it stops and what is left of `*len`.
pub skip_line : Bytes → ℕ → Result (Bytes × ℕ)
skip_line [] len = if ltb 2 len then fault else ok ([], len)
skip_line (c ∷ d) len =
    let rest = skip_line d (sub_size len 1) in
    if not (ltb 2 len)
    then ok (c ∷ d, len)
    else if c == cr
    then ok (c ∷ d, len)
    else (do n ← byte_at d 0; if n == lf then ok (c ∷ d, len) else rest)

-- The second loop: `d` is the memory from `*data + header_len` on.
pub header_end : Bytes → ℕ → ℕ → Result ℕ
header_end [] len header_len = if ltb (add_size header_len 1) len then fault else ok header_len
header_end (c ∷ d) len header_len =
    let rest = header_end d len (add_size header_len 1) in
    if not (ltb (add_size header_len 1) len)
    then ok header_len
    else if c == cr
    then ok header_len
    else (do n ← byte_at d 0; if n == lf then ok header_len else rest)

pub record Header : Type 0 where
  pub header_len : ℕ
  pub rest : Bytes
  pub rest_len : ℕ

-- The result of `next_header`, and what it leaves in `*data` and `*len`.
pub next_header : Bytes → ℕ → Result Header
next_header d len = do
  (at, left) ← skip_line d len
  let next = drop 2 at
  let next_len = sub_size left 2
  n ← header_end next next_len 0
  ok (record { header_len = n; rest = next; rest_len = next_len })

-- `strncasecmp(header, data, strlen(header)) == 0`
pub strncasecmp_eq : Bytes → Bytes → Result Bool
strncasecmp_eq [] d = ok true
strncasecmp_eq (h ∷ hs) [] = fault
strncasecmp_eq (h ∷ hs) (c ∷ d) =
    let rest = strncasecmp_eq hs d in if to_lower h == to_lower c then rest else ok false

-- `while (header_len < len && isblank(data[header_len])) header_len++;`
pub skip_blanks : Bytes → ℕ → ℕ → Result ℕ
skip_blanks [] header_len len = if ltb header_len len then fault else ok header_len
skip_blanks (c ∷ d) header_len len =
    let rest = skip_blanks d (add_size header_len 1) len in
    if not (ltb header_len len) then ok header_len else if is_blank c then rest else ok header_len

-- The `size_t` length of the value, as the `int` that `get_header` returns: at 2 ^ 31 and above it is
-- negative, and taken for an error. `ok` holds the bytes that the result counts.
pub as_result : Bytes → Result Bytes
as_result value =
    let result = length value % 2 ^ 32 in
    if ltb result (2 ^ 31) then ok (take result value) else fail (2 ^ 32 - result)

-- The value of the header of `len` bytes at `d`.
pub header_value : Bytes → ℕ → Bytes → Bool → Result Bytes
header_value d len header malloc_ok = do
  start ← skip_blanks (drop (length header) d) (length header) len
  check malloc_ok 4
  value ← bytes_at d start (sub_size len start)
  as_result (strncpy value)

-- One round of the loop of `get_header`; `rest` goes on behind the header.
pub get_header_round : Bytes → Bytes → ℕ → Bool → (Bytes → ℕ → Result Bytes) → Result Bytes
get_header_round header d data_len malloc_ok rest = do
  h ← next_header d data_len
  if h.header_len == 0
      then (if h.rest_len == 0 then fail 1 else fail 2)
      else if not (ltb (length header) h.header_len)
      then rest h.rest h.rest_len
      else (do
        same ← strncasecmp_eq header h.rest
        if same then header_value h.rest h.header_len header malloc_ok else rest h.rest h.rest_len)

pub get_header : ℕ → Bytes → Bytes → ℕ → Bool → Result Bytes
unfolding get_header_round next_header skip_line header_end strncasecmp_eq header_value skip_blanks
    as_result
get_header zero header d data_len malloc_ok = fault
get_header (suc fuel) header d data_len malloc_ok =
    get_header_round header d data_len malloc_ok
      (λ d' len'. get_header fuel header d' len' malloc_ok)

-- `for (i = result - 1; i >= 0; i--)`, from `i` rounds on: the length without the port.
pub trim_port : ℕ → Bytes → Result ℕ
trim_port zero name = ok (length name)
trim_port (suc i) name = do
  c ← byte_at name i
  let rest = trim_port i name
  if c == b':' then ok i else if not (is_digit c) then ok (length name) else rest

-- Each round of `get_header` takes two bytes at least.
unfoldable pub parse_http_header : Bytes → Bool → Bool → Result Bytes
unfolding get_header trim_port
parse_http_header d hostname_given malloc_ok = do
  check hostname_given 3
  name ← get_header (suc (length d)) (codes "Host:") d (length d) malloc_ok
  n ← trim_port (length name) name
  ok (take n name)
