-- ===== src/Buffer/Fifo.antt =====
-- The operations of src/buffer.c on a valid buffer, as operations of a bounded byte queue.
use sniproxy.Prelude.{
  ℕ, ◌+◌, ◌≤◌, ◌<◌, ◌≡◌, refl, sym, ap, ◌∙◌, true, false, inl, inr, List, [], ◌∷◌, ◌++◌, append-nil,
  Bytes, length, take, drop, arith, ltb, ◌==◌, Bool-cases, add_size, nil_of_length, length-tabulate,
  ap₂, take-nil, drop-nil, take_all, pos, neg,
}
use sniproxy.Buffer.{
  Buffer, Iovec, Errno, received, recv_failed, sent, buffer_room, limited, rewind_empty,
  advance_if_received, advance_if_sent, split_iov, setup_write_iov, scatter, advance_write_position,
  recv, send, read, write, peek, pop,
}
use sniproxy.Buffer.Contents.{window, contents, length-scatter}
use sniproxy.Buffer.Transfer.{
  length-contents, gather-setup_read_iov, contents-advance_read_position,
  advance_read_position-IsValid, tail_index, window-written,
}
use sniproxy.Buffer.Valid.{IsValid, room_eq, mask_eq, setup_read_iov-InBounds}

-- Rewinding an empty buffer changes neither validity nor contents.
pub rewind_empty-IsValid : {b : Buffer} → IsValid b → IsValid (rewind_empty b)
rewind_empty-IsValid {b} v = elim (Bool-cases (b.len == 0)) [
  | inl e ↦ rw e (record {
    pow2 = v.pow2;
    small = v.small;
    storage = v.storage;
    head_in = omega arith;
    len_in = v.len_in;
  })
  | inr e ↦ rw e v
]

pub contents-rewind_empty : {b : Buffer} → IsValid b → contents (rewind_empty b) ≡ contents b
contents-rewind_empty {b} v = elim (Bool-cases (b.len == 0)) [
  | inl e ↦
      let z : b.len ≡ 0 = ground arith in
      rw e (
        nil_of_length _ (length-tabulate b.len _ ∙ z)
        ∙ sym (nil_of_length _ (length-tabulate b.len _ ∙ z)))
  | inr e ↦ rw e refl
]

module _ {b : Buffer} (v : IsValid b) where
  -- `buffer_peek` on a valid buffer copies out the first bytes of the contents, at most as many as
  -- asked for (0 asks for all), and returns their number.
  pub peek_lem : (n : ℕ) → peek b n ≡ (limited n b.len, take (limited n b.len) (contents b))
  unfolding peek
  peek_lem n = ap₂ (λ k out. (k, out)) (setup_read_iov-InBounds v n).1 (gather-setup_read_iov v n)

  limited-le : (n : ℕ) → limited n b.len ≤ b.len
  limited-le n = ground arith

  pub advance_if_sent-IsValid : (n : ℕ) → n ≤ b.len → IsValid (advance_if_sent b (pos n))
  advance_if_sent-IsValid n h = elim (Bool-cases (ltb 0 n)) [
    | inl e ↦ rw e (advance_read_position-IsValid v n h)
    | inr e ↦ rw e v
  ]

  pub contents-advance_if_sent :
      (n : ℕ) → n ≤ b.len → contents (advance_if_sent b (pos n)) ≡ drop n (contents b)
  contents-advance_if_sent n h = elim (Bool-cases (ltb 0 n)) [
    | inl e ↦ rw e (contents-advance_read_position v n h)
    | inr e ↦ let z : n ≡ 0 = ground arith in rw e (rw z)
  ]

-- What the write side does to a buffer with room: the entries of `setup_write_iov` for `n` (0 asks
-- for all) take up to that many bytes, which follow the contents.
abbrev pub filled : Buffer → ℕ → Bytes → Buffer
filled b n src = record b { buffer = scatter b.buffer (setup_write_iov b n) src }

pub record Appended (b : Buffer) (src : Bytes) (b' : Buffer) : Type 0 where
  pub valid : IsValid b'
  pub holds : contents b' ≡ contents b ++ src

module _ {b : Buffer} (v : IsValid b) where
  setup_write_iov_eq :
      (n : ℕ)
      → b.len ≤ b.size_mask
      → setup_write_iov b n ≡ split_iov b (tail_index v) (limited n (buffer_room b))
  unfolding setup_write_iov
  setup_write_iov_eq n h =
      let nonzero : (buffer_room b == 0) ≡ false = ground arith in
      rw nonzero (rw (mask_eq v b.len v.len_in))

  limited_room : (n k : ℕ) → k ≤ limited n (buffer_room b) → b.len + k ≤ b.size_mask + 1
  limited_room n k h = ground (arith, v.len_in, room_eq v)

  pub advance-filled-Appended :
      (n : ℕ) (src : Bytes)
      → 0 < length src
      → length src ≤ limited n (buffer_room b)
      → Appended b src (advance_write_position (filled b n src) (length src))
  unfolding advance_write_position
  advance-filled-Appended n src p fits = record {
    valid = record {
      pow2 = v.pow2;
      small = v.small;
      storage = length-scatter b.buffer (setup_write_iov b n) src ∙ v.storage;
      head_in = v.head_in;
      len_in = rw sum (limited_room n (length src) fits);
    };
    holds =
        rw (sum, setup_write_iov_eq n (omega (arith, limited_room n (length src) fits)))
          (window-written v (limited n (buffer_room b)) src
            (ground (arith, limited_room n (limited n (buffer_room b)) le_self)) fits);
  }
    where
      sum : add_size b.len (length src) ≡ b.len + length src
      sum = omega (arith, limited_room n (length src) fits)

      le_self : limited n (buffer_room b) ≤ limited n (buffer_room b)
      le_self = omega arith

scatter-nil : (mem : Bytes) (vs : List Iovec) → scatter mem vs [] ≡ mem
unfolding scatter
scatter-nil mem [] = refl
scatter-nil mem (w ∷ vs) = rw (take-nil w.iov_len, drop-nil w.iov_len) (scatter-nil mem vs)

-- A received batch follows the contents.
receive-Appended :
    {b : Buffer} (src : Bytes)
    → IsValid b
    → length src ≤ buffer_room b
    → Appended b src (advance_if_received (filled b 0 src) (pos (length src)))
receive-Appended {b} [] v h = record {
  valid = record {
    pow2 = v.pow2;
    small = v.small;
    storage = length-scatter b.buffer (setup_write_iov b 0) [] ∙ v.storage;
    head_in = v.head_in;
    len_in = v.len_in;
  };
  holds =
      ap (λ mem. window mem (b.size_mask + 1) b.head b.len) (scatter-nil b.buffer _)
      ∙ sym (append-nil (contents b));
}
receive-Appended (c ∷ src) v h =
    let some_bytes : ltb 0 (length (c ∷ src)) ≡ true = ground arith in
    rw some_bytes (advance-filled-Appended v 0 (c ∷ src) (omega arith) h)

pub rewound : (b : Buffer) → (buffer_room (rewind_empty b) ≡ buffer_room b)
rewound b = elim (Bool-cases (b.len == 0)) [ inl e ↦ rw e | inr e ↦ rw e ]

stamped_recv-IsValid : {b : Buffer} (now : ℕ) → IsValid b → IsValid (record b { last_recv = now })
stamped_recv-IsValid now v = record {
  pow2 = v.pow2;
  small = v.small;
  storage = v.storage;
  head_in = v.head_in;
  len_in = v.len_in;
}

stamped_send-IsValid : {b : Buffer} (now : ℕ) → IsValid b → IsValid (record b { last_send = now })
stamped_send-IsValid now v = record {
  pow2 = v.pow2;
  small = v.small;
  storage = v.storage;
  head_in = v.head_in;
  len_in = v.len_in;
}

module _ {b : Buffer} (v : IsValid b) where
  -- `buffer_recv` on a valid buffer, where the system call delivers no more bytes than there is
  -- room for: it returns their number and appends exactly those bytes to the contents. The buffer
  -- stays valid.
  pub recv_received :
      (src : Bytes) (now : ℕ)
      → length src ≤ buffer_room b
      → let (n, b') = recv b (received src) now in
        (n ≡ pos (length src)) × IsValid b' × (contents b' ≡ contents b ++ src)
  unfolding recv
  recv_received src now h =
      let done =
        receive-Appended {b = record (rewind_empty b) { last_recv = now }} src
          (stamped_recv-IsValid now (rewind_empty-IsValid v)) (rw (rewound b) h) in
      (refl, done.valid, done.holds ∙ ap (λ l. l ++ src) (contents-rewind_empty v))

  -- `buffer_read` on a valid buffer, where the system call delivers no more bytes than there is
  -- room for: it returns their number and appends exactly those bytes to the contents. The buffer
  -- stays valid.
  pub read_received :
      (src : Bytes)
      → length src ≤ buffer_room b
      → let (n, b') = read b (received src) in
        (n ≡ pos (length src)) × IsValid b' × (contents b' ≡ contents b ++ src)
  unfolding read
  read_received src h =
      let done =
        receive-Appended {b = rewind_empty b} src (rewind_empty-IsValid v) (rw (rewound b) h) in
      (refl, done.valid, done.holds ∙ ap (λ l. l ++ src) (contents-rewind_empty v))

  -- `buffer_recv` on a valid buffer, where the system call fails: it returns -1, and the buffer
  -- stays valid with the same contents.
  pub recv_failed_lem :
      (e : Errno) (now : ℕ)
      → let (n, b') = recv b (recv_failed e) now in
        (n ≡ neg 1) × IsValid b' × (contents b' ≡ contents b)
  unfolding recv
  recv_failed_lem e now =
      (refl, stamped_recv-IsValid now (rewind_empty-IsValid v), contents-rewind_empty v)

  all_taken : (n : ℕ) → take n (take (limited 0 b.len) (contents b)) ≡ take n (contents b)
  all_taken n = ap (take n) (take_all b.len (contents b) (omega (arith, length-contents v)))

  -- `buffer_send` on a valid buffer, where the system call takes `n` bytes of at most those there
  -- are: it returns `n`, hands out exactly the `n` oldest bytes and drops them. The buffer stays
  -- valid.
  pub send_sent :
      (n now : ℕ)
      → n ≤ b.len
      → let (r, out, b') = send b (sent n) now in
        (r ≡ pos n) × (out ≡ take n (contents b)) × IsValid b' × (contents b' ≡ drop n (contents b))
  unfolding send
  send_sent n now h =
      let w = stamped_send-IsValid now v in
      (
        refl,
        ap (take n) (gather-setup_read_iov v 0) ∙ all_taken n,
        advance_if_sent-IsValid w n h,
        contents-advance_if_sent w n h,
      )

  -- `buffer_write` on a valid buffer, where the system call takes `n` bytes of at most those there
  -- are: it returns `n`, hands out exactly the `n` oldest bytes and drops them. The buffer stays
  -- valid.
  pub write_sent :
      (n : ℕ)
      → n ≤ b.len
      → let (r, out, b') = write b (sent n) in
        (r ≡ pos n) × (out ≡ take n (contents b)) × IsValid b' × (contents b' ≡ drop n (contents b))
  unfolding write
  write_sent n h = (
    refl,
    ap (take n) (gather-setup_read_iov v 0) ∙ all_taken n,
    advance_if_sent-IsValid v n h,
    contents-advance_if_sent v n h,
  )

  -- `buffer_pop` on a valid buffer hands out the oldest bytes, at most as many as asked for (0
  -- asks for all), and drops them. The buffer stays valid.
  pub pop_lem :
      (n : ℕ)
      → let (k, out, b') = pop b n in
        (k ≡ limited n b.len)
        × (out ≡ take (limited n b.len) (contents b))
        × IsValid b'
        × (contents b' ≡ drop (limited n b.len) (contents b))
  unfolding pop
  pop_lem n =
      let k = limited n b.len in
      let total = (setup_read_iov-InBounds v n).1 in
      (
        total,
        gather-setup_read_iov v n,
        rw total (advance_if_sent-IsValid v k (limited-le v n)),
        rw total (contents-advance_if_sent v k (limited-le v n)),
      )

  pub size_mask-pop : (n : ℕ) → (pop b n).2.size_mask ≡ b.size_mask
  unfolding pop
  size_mask-pop n = elim (Bool-cases (ltb 0 (peek b n).0)) [ inl e ↦ rw e | inr e ↦ rw e ]
