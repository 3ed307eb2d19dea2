-- ===== src/Buffer.antt =====
-- src/buffer.c and src/buffer.h: the ring buffer between a socket pair.
-- A pointer into `buffer->buffer` is its offset. Memory from `malloc` is an argument, `none` where
-- the call fails; so are the outcomes of `recvmsg`, `sendmsg`, `readv` and `writev`. A failed
-- `assert`, and a `memcpy` that reads past its source, is `none`.
pub mod Valid
pub mod Contents
pub mod Transfer
pub mod Fifo
pub mod Push
pub mod Size
pub mod Coalesce
pub mod Kept
mod Tests
use sniproxy.Prelude.{
  ℕ, ◌+◌, ◌-◌, ◌*◌, Bool, false, not, ◌||◌, List, [], ◌∷◌, ◌++◌, Option, none, some, Bytes, length,
  slice, take, drop, write_at, ltb, leb, ◌==◌, if◌then◌else◌, bit_and, add_size, sub_size, min_size,
  ℤ, pos, negsuc, neg,
}

-- `ev_tstamp` values are only stored and compared: a number stands for one.
pub record Buffer : Type 0 where
  pub buffer : Bytes
  pub size_mask : ℕ
  pub head : ℕ
  pub len : ℕ
  pub last_recv : ℕ
  pub last_send : ℕ
  pub tx_bytes : ℕ
  pub rx_bytes : ℕ

pub record Iovec : Type 0 where
  pub iov_base : ℕ
  pub iov_len : ℕ

-- `errno` after a failed call.
pub data Errno : Type 0 where
  eagain ewouldblock eintr einprogress eaddrinuse : Errno
  other : ℕ → Errno

pub data RecvOutcome : Type 0 where
  received : Bytes → RecvOutcome
  recv_failed : Errno → RecvOutcome

pub data SendOutcome : Type 0 where
  sent : ℕ → SendOutcome
  send_failed : Errno → SendOutcome

abbrev pub buffer_max_size : ℕ
buffer_max_size = 1024 * 1024 * 1024

abbrev pub not_power_of_2 : ℕ → Bool
not_power_of_2 x = x == 0 || not (bit_and x (x - 1) == 0)

abbrev pub buffer_size : Buffer → ℕ
buffer_size b = add_size b.size_mask 1

abbrev pub buffer_len : Buffer → ℕ
buffer_len b = b.len

abbrev pub buffer_room : Buffer → ℕ
buffer_room b = sub_size (buffer_size b) b.len

-- The struct's own `malloc`, and the one for the storage.
unfoldable pub new_buffer : ℕ → ℕ → Bool → Option Bytes → Option Buffer
new_buffer size now struct_ok storage =
    if not_power_of_2 size then none else if not struct_ok then none else elim storage [
      | none ↦ none
      | some bytes ↦ some (record {
        buffer = bytes;
        size_mask = size - 1;
        head = 0;
        len = 0;
        last_recv = now;
        last_send = now;
        tx_bytes = 0;
        rx_bytes = 0;
      })
    ]

abbrev pub iov : ℕ → ℕ → Iovec
iov base n = record { iov_base = base; iov_len = n }

-- Both kinds of `struct iovec iov[2]`: the entries that are set up, one or two.
abbrev pub split_iov : Buffer → ℕ → ℕ → List Iovec
split_iov b start n =
    if leb (add_size start n) (buffer_size b)
    then iov start n ∷ []
    else iov start (sub_size (buffer_size b) start)
      ∷ iov 0 (sub_size n (sub_size (buffer_size b) start))
      ∷ []

-- The length wanted, where 0 asks for all.
abbrev pub limited : ℕ → ℕ → ℕ
limited n total = if n == 0 then total else min_size n total

pub setup_write_iov : Buffer → ℕ → List Iovec
setup_write_iov b n =
    let room = sub_size (buffer_size b) b.len in
    if room == 0
    then []
    else split_iov b (bit_and (add_size b.head b.len) b.size_mask) (limited n room)

pub setup_read_iov : Buffer → ℕ → List Iovec
setup_read_iov b n = if b.len == 0 then [] else split_iov b b.head (limited n b.len)

pub advance_write_position : Buffer → ℕ → Buffer
advance_write_position b offset = record b {
  len = add_size b.len offset;
  rx_bytes = add_size b.rx_bytes offset;
}

pub advance_read_position : Buffer → ℕ → Buffer
advance_read_position b offset = record b {
  head = bit_and (add_size b.head offset) b.size_mask;
  len = sub_size b.len offset;
  tx_bytes = add_size b.tx_bytes offset;
}

-- The bytes that the entries hold, in order.
pub gather : Bytes → List Iovec → Bytes
gather mem [] = []
gather mem (v ∷ vs) = slice mem v.iov_base v.iov_len ++ gather mem vs

pub iov_total : List Iovec → ℕ
iov_total [] = 0
iov_total (v ∷ vs) = v.iov_len + iov_total vs

-- What `recvmsg` and `readv` do to memory: the bytes fill the entries in order.
pub scatter : Bytes → List Iovec → Bytes → Bytes
scatter mem [] src = mem
scatter mem (v ∷ vs) src =
    scatter (write_at mem v.iov_base (take v.iov_len src)) vs (drop v.iov_len src)

-- `coalesce when reading into an empty buffer`
abbrev pub rewind_empty : Buffer → Buffer
rewind_empty b = if b.len == 0 then record b { head = 0 } else b

abbrev pub fill : Buffer → Bytes → Buffer
fill b bytes = record b { buffer = scatter b.buffer (setup_write_iov b 0) bytes }

-- `bytes > 0`, and `(size_t)bytes`.
abbrev pub above_zero : ℤ → Bool
above_zero (pos n) = ltb 0 n
above_zero (negsuc n) = false

abbrev pub as_size : ℤ → ℕ
as_size (pos n) = n
as_size (negsuc n) = sub_size 0 (n + 1)

abbrev pub advance_if_received : Buffer → ℤ → Buffer
advance_if_received b bytes =
    if above_zero bytes then advance_write_position b (as_size bytes) else b

abbrev pub advance_if_sent : Buffer → ℤ → Buffer
advance_if_sent b bytes = if above_zero bytes then advance_read_position b (as_size bytes) else b

-- The result of the system call, and the memory that it leaves.
abbrev pub recv_result : RecvOutcome → ℤ
recv_result (received bytes) = pos (length bytes)
recv_result (recv_failed e) = neg 1

abbrev pub recv_memory : Buffer → RecvOutcome → Buffer
recv_memory b (received bytes) = fill b bytes
recv_memory b (recv_failed e) = b

abbrev pub send_result : SendOutcome → ℤ
send_result (sent n) = pos n
send_result (send_failed e) = neg 1

-- The bytes that leave.
abbrev pub taken : Buffer → SendOutcome → Bytes
taken b (sent n) = take n (gather b.buffer (setup_read_iov b 0))
taken b (send_failed e) = []

unfoldable pub recv : Buffer → RecvOutcome → ℕ → ℤ × Buffer
unfolding advance_write_position setup_write_iov scatter
recv b outcome now = (
  recv_result outcome,
  advance_if_received (record (recv_memory (rewind_empty b) outcome) { last_recv = now })
      (recv_result outcome),
)

-- Beside the result and the buffer, the bytes that left.
unfoldable pub send : Buffer → SendOutcome → ℕ → ℤ × Bytes × Buffer
unfolding advance_read_position setup_read_iov gather
send b outcome now = (
  send_result outcome,
  taken b outcome,
  advance_if_sent (record b { last_send = now }) (send_result outcome),
)

unfoldable pub read : Buffer → RecvOutcome → ℤ × Buffer
unfolding advance_write_position setup_write_iov scatter
read b outcome = (
  recv_result outcome,
  advance_if_received (recv_memory (rewind_empty b) outcome) (recv_result outcome),
)

unfoldable pub write : Buffer → SendOutcome → ℤ × Bytes × Buffer
unfolding advance_read_position setup_read_iov gather
write b outcome = (send_result outcome, taken b outcome, advance_if_sent b (send_result outcome))

-- The count, and what is copied to `dst`.
unfoldable pub peek : Buffer → ℕ → ℕ × Bytes
unfolding setup_read_iov gather iov_total
peek b n = let vs = setup_read_iov b n in (iov_total vs, gather b.buffer vs)

unfoldable pub pop : Buffer → ℕ → ℕ × Bytes × Buffer
unfolding advance_read_position peek
pop b n = let (bytes, out) = peek b n in (bytes, out, advance_if_sent b (pos bytes))

-- The loop of `buffer_push` over the entries; `none` where it would read past `src`.
pub push_loop : Bytes → List Iovec → Bytes → ℕ → Option (Bytes × ℕ)
push_loop mem [] src appended = some (mem, appended)
push_loop mem (v ∷ vs) src appended =
    let rest =
      push_loop (write_at mem v.iov_base (slice src appended v.iov_len)) vs src
        (add_size appended v.iov_len) in
    if ltb (length src) (appended + v.iov_len) then none else rest

abbrev pub finish_push : Buffer → Option (Bytes × ℕ) → Option (ℕ × Buffer)
finish_push b none = none
finish_push b (some (mem, n)) = some (n, advance_if_received (record b { buffer = mem }) (pos n))

abbrev pub push_rewound : Buffer → Bytes → Option (ℕ × Buffer)
push_rewound b src =
    if ltb (buffer_room b) (length src)
    then some (0, b)
    else finish_push b (push_loop b.buffer (setup_write_iov b (length src)) src 0)

-- `src` and its length.
unfoldable pub push : Buffer → Bytes → Option (ℕ × Buffer)
unfolding advance_write_position setup_write_iov push_loop
push b src = push_rewound (rewind_empty b) src

unfoldable pub resize : Buffer → ℕ → Option Bytes → ℤ × Buffer
resize b new_size storage =
    if not_power_of_2 new_size
    then (neg 4, b)
    else if ltb buffer_max_size new_size
    then (neg 3, b)
    else if ltb new_size b.len
    then (neg 1, b)
    else elim storage [
      | none ↦ (neg 2, b)
      | some bytes ↦ (
        pos b.len,
        record b {
          buffer = write_at bytes 0 (peek b new_size).1;
          size_mask = new_size - 1;
          head = 0;
        },
      )
    ]

-- Where the contents are said to lie: the offset that `*dst` is set to, and the length returned.
pub record Region : Type 0 where
  pub offset : ℕ
  pub size : ℕ
  pub owner : Buffer

abbrev pub region : ℕ → Buffer → Region
region offset b = record { offset = offset; size = b.len; owner = b }

-- The second `assert`s of `buffer_coalesce`.
abbrev pub realigned : ℕ → Option (ℕ × Buffer) → Option Region
realigned n none = none
realigned n (some (_, b)) =
    if not (b.head == 0) then none else if not (b.len == n) then none else some (region 0 b)

abbrev pub realign : ℕ → Bytes → Buffer → Option Region
realign n temp b = if not (b.len == 0) then none else realigned n (push b temp)

unfoldable pub coalesce : Buffer → Bool → Option Region
coalesce b temp_ok =
    let tail = bit_and (add_size b.head b.len) b.size_mask in
    if leb tail b.head
    then some (region b.head b)
    else if temp_ok
    then realign b.len (pop b b.len).1 (pop b b.len).2
    else some (region 0 b)
