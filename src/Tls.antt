-- ===== src/Tls.antt =====
-- src/tls.c: the server name in a TLS client hello. `size_t` sums are `add_size`; `data + pos` is the
-- memory from offset `pos` on. `debug` and `err` only write to the log.
pub mod Loops
pub mod Safe
pub mod Hello
pub mod Cursor
pub mod Extensions
pub mod RoundTrip
mod Tests
use sniproxy.Prelude.{
  ℕ, zero, suc, ◌+◌, ◌*◌, Bool, not, ◌&&◌, Bytes, length, drop, ltb, leb, ◌==◌, if◌then◌else◌,
  bit_and, add_size, min_size,
}
use sniproxy.Parse.{Result, ok, fail, fault, ◌>>=◌, ◌>>◌, check, byte_at, bytes_at, strncpy}

abbrev pub tls_header_len : ℕ
tls_header_len = 5

abbrev pub handshake_content_type : ℕ
handshake_content_type = 0x16

abbrev pub client_hello_type : ℕ
client_hello_type = 0x01

-- `((size_t)data[pos] << 8) + (size_t)data[pos + 1]`
abbrev pub word_at : Bytes → ℕ → Result ℕ
word_at bytes pos = do
  hi ← byte_at bytes pos
  lo ← byte_at bytes (add_size pos 1)
  ok (hi * 256 + lo)

-- One round of the loop of `parse_server_name_extension`; `rest` goes on at another `pos`.
pub server_name_round : Bytes → ℕ → Bool → ℕ → (ℕ → Result Bytes) → Result Bytes
server_name_round bytes data_len malloc_ok pos rest =
    if ltb (add_size pos 3) data_len
    then (do
      len ← word_at bytes (add_size pos 1)
      check (not (ltb data_len (add_size (add_size pos 3) len))) 5
      name_type ← byte_at bytes pos
      if name_type == 0
          then (do check malloc_ok 4; name ← bytes_at bytes (add_size pos 3) len; ok (strncpy name))
          else rest (add_size pos (add_size 3 len)))
    else (do check (pos == data_len) 5; fail 2)

pub server_name_loop : ℕ → Bytes → ℕ → Bool → ℕ → Result Bytes
unfolding server_name_round
server_name_loop zero bytes data_len malloc_ok pos = fault
server_name_loop (suc fuel) bytes data_len malloc_ok pos =
    server_name_round bytes data_len malloc_ok pos
      (λ pos'. server_name_loop fuel bytes data_len malloc_ok pos')

-- Each round moves `pos` on by 3 at least.
pub parse_server_name_extension : Bytes → ℕ → Bool → Result Bytes
unfolding server_name_loop
parse_server_name_extension bytes data_len malloc_ok =
    server_name_loop (suc data_len) bytes data_len malloc_ok 2

-- One round of the loop of `parse_extensions`.
pub extensions_round : Bytes → ℕ → Bool → ℕ → (ℕ → Result Bytes) → Result Bytes
extensions_round bytes data_len malloc_ok pos rest =
    if leb (add_size pos 4) data_len
    then (do
      len ← word_at bytes (add_size pos 2)
      b0 ← byte_at bytes pos
      b1 ← byte_at bytes (add_size pos 1)
      if b0 == 0x00 && b1 == 0x00
          then (do
            check (not (ltb data_len (add_size (add_size pos 4) len))) 5
            parse_server_name_extension (drop (add_size pos 4) bytes) len malloc_ok)
          else rest (add_size pos (add_size 4 len)))
    else (do check (pos == data_len) 5; fail 2)

pub extensions_loop : ℕ → Bytes → ℕ → Bool → ℕ → Result Bytes
unfolding extensions_round parse_server_name_extension
extensions_loop zero bytes data_len malloc_ok pos = fault
extensions_loop (suc fuel) bytes data_len malloc_ok pos =
    extensions_round bytes data_len malloc_ok pos
      (λ pos'. extensions_loop fuel bytes data_len malloc_ok pos')

-- Each round moves `pos` on by 4 at least.
pub parse_extensions : Bytes → ℕ → Bool → Result Bytes
unfolding extensions_loop parse_server_name_extension
parse_extensions bytes data_len malloc_ok =
    extensions_loop (suc data_len) bytes data_len malloc_ok 0

-- Past a field with a length of one byte, and of two bytes.
abbrev pub skip_field8 : Bytes → ℕ → ℕ → Result ℕ
skip_field8 bytes data_len pos = do
  check (not (ltb data_len (add_size pos 1))) 5
  len ← byte_at bytes pos
  ok (add_size pos (add_size 1 len))

abbrev pub skip_field16 : Bytes → ℕ → ℕ → Result ℕ
skip_field16 bytes data_len pos = do
  check (not (ltb data_len (add_size pos 2))) 5
  len ← word_at bytes pos
  ok (add_size pos (add_size 2 len))

-- From the session ID on, with `pos` behind the fields of fixed length.
pub parse_hello_body : Bytes → ℕ → ℕ → ℕ → Bool → ℕ → Result Bytes
parse_hello_body bytes data_len major minor malloc_ok pos = do
  cipher_suites ← skip_field8 bytes data_len pos
  compression ← skip_field16 bytes data_len cipher_suites
  pos ← skip_field8 bytes data_len compression
  check (not (pos == data_len && major == 3 && minor == 0)) 2
  check (not (ltb data_len (add_size pos 2))) 5
  len ← word_at bytes pos
  check (not (ltb data_len (add_size (add_size pos 2) len))) 5
  parse_extensions (drop (add_size pos 2) bytes) len malloc_ok

-- From the handshake type on, within the `data_len` bytes of the record.
pub parse_handshake : Bytes → ℕ → ℕ → ℕ → Bool → Result Bytes
parse_handshake bytes data_len major minor malloc_ok = do
  check (not (ltb data_len (add_size tls_header_len 1))) 5
  handshake_type ← byte_at bytes tls_header_len
  check (handshake_type == client_hello_type) 5
  parse_hello_body bytes data_len major minor malloc_ok (add_size tls_header_len 38)

-- `hostname_given` is `hostname != NULL`.
unfoldable pub parse_tls_header : Bytes → Bool → Bool → Result Bytes
unfolding parse_handshake parse_hello_body parse_extensions
parse_tls_header bytes hostname_given malloc_ok = do
  check hostname_given 3
  check (not (ltb (length bytes) tls_header_len)) 1
  b0 ← byte_at bytes 0
  b2 ← byte_at bytes 2
  check (not (not (bit_and b0 0x80 == 0) && b2 == 1)) 2
  check (b0 == handshake_content_type) 5
  major ← byte_at bytes 1
  check (not (ltb major 3)) 2
  record_len ← word_at bytes 3
  let len = add_size record_len tls_header_len
  let data_len = min_size (length bytes) len
  check (not (ltb data_len len)) 1
  parse_handshake bytes data_len major b2 malloc_ok
