-- ===== src/Buffer/Size.antt =====
-- `new_buffer` and `buffer_resize`: sizes are powers of two, and a resize keeps the contents.
use sniproxy.Prelude.{
  ℕ, ◌+◌, ◌-◌, ◌%◌, ◌^◌, ◌≤◌, ◌<◌, ◌≡◌, refl, sym, ap, ◌∙◌, ◌↔◌, ◌⊎◌, true, false, inl, inr, [],
  Option, none, some, Bytes, length, take, write_at, get_or, arith, ltb, ltb→lt, Bool-cases,
  bit_and, IsPow2, IsPow2-pos, IsPow2-of_test, bit_and-mask, take_all, length-write_at,
  length-tabulate, get_or-write_at, get_or-tabulate, eq_of_get_or, pos, neg, is_negative,
}
use native.Mathlib.Nat.{mod-eq_of_lt, mod_self}
use sniproxy.Buffer.{
  Buffer, not_power_of_2, buffer_max_size, buffer_size, limited, new_buffer, peek, resize,
}
use sniproxy.Buffer.Contents.{cell, window, contents}
use sniproxy.Buffer.Fifo.{peek_lem}
use sniproxy.Buffer.Transfer.{length-contents}
use sniproxy.Buffer.Valid.{IsValid, IsPow2-le}

-- The macro `NOT_POWER_OF_2` tells exactly the powers of two from the other numbers.
pub not_power_of_2_iff : (n : ℕ) → (not_power_of_2 n ≡ false) ↔ IsPow2 n
not_power_of_2_iff n = (
  (λ h. IsPow2-of_test n (ground arith) (ground arith)),
  (λ p.
      let test : bit_and n (n - 1) ≡ 0 = bit_and-mask n p ∙ mod_self n in
      ground (arith, IsPow2-pos p)),
)

module _ (size now : ℕ) (bytes : Bytes) (small : size < 2 ^ 64) (enough : length bytes ≡ size) where
  new_buffer_pow2 :
      IsPow2 size
      → (b : Buffer) × (new_buffer size now true (some bytes) ≡ some b)
        × IsValid b
        × (contents b ≡ [])
        × (buffer_size b ≡ size)
        × (b.head ≡ 0)
  unfolding new_buffer
  new_buffer_pow2 p =
      let passes = (not_power_of_2_iff size).1 p in
      let same : size - 1 + 1 ≡ size = omega (arith, IsPow2-pos p) in
      (
        record {
          buffer = bytes;
          size_mask = size - 1;
          head = 0;
          len = 0;
          last_recv = now;
          last_send = now;
          tx_bytes = 0;
          rx_bytes = 0;
        },
        rw passes,
        record {
          pow2 = rw same p;
          small = omega (arith, IsPow2-le 63 p small, IsPow2-pos p);
          storage = enough ∙ sym same;
          head_in = omega arith;
          len_in = omega arith;
        },
        refl,
        omega arith,
        refl,
      )

  -- `new_buffer` for a size of less than 2 ^ 64, with memory to be had: it makes an empty valid
  -- buffer of that size, whose head is at the start, if the size is a power of two, and nothing
  -- otherwise.
  pub new_buffer_lem :
      (IsPow2 size
        → (b : Buffer) × (new_buffer size now true (some bytes) ≡ some b)
          × IsValid b
          × (contents b ≡ [])
          × (buffer_size b ≡ size)
          × (b.head ≡ 0))
      × (¬ IsPow2 size → new_buffer size now true (some bytes) ≡ none)
  unfolding new_buffer
  new_buffer_lem = (
    new_buffer_pow2,
    λ np. elim (Bool-cases (not_power_of_2 size)) [
      | inl e ↦ rw e
      | inr e ↦ absurd (np ((not_power_of_2_iff size).0 e))
    ],
  )

module _ {b : Buffer} (v : IsValid b) (new_size : ℕ) where
  -- The copy of the contents at the start of the new storage.
  window-copied :
      (mem : Bytes)
      → length mem ≡ new_size
      → b.len ≤ new_size
      → window (write_at mem 0 (contents b)) new_size 0 b.len ≡ contents b
  window-copied mem enough fits =
      eq_of_get_or _ _ 0 (length-tabulate b.len _ ∙ sym (length-contents v)) (λ i k.
        at i (omega (arith, length-tabulate b.len (cell (write_at mem 0 (contents b)) new_size 0))))
    where
      at :
          (i : ℕ)
          → i < b.len
          → get_or (window (write_at mem 0 (contents b)) new_size 0 b.len) i 0
            ≡ get_or (contents b) i 0
      at i k =
          let index : (0 + i) % new_size ≡ i =
            ap (λ j. j % new_size) (omega arith) ∙ mod-eq_of_lt (omega arith) in
          ground (
            arith,
            length-contents v,
            get_or-tabulate b.len (cell (write_at mem 0 (contents b)) new_size 0) i 0,
            get_or-write_at mem 0 (contents b) i 0,
          )

  abbrev resized : Bytes → Buffer
  resized mem = record b {
    buffer = write_at mem 0 (contents b);
    size_mask = new_size - 1;
    head = 0;
  }

  resize_eq :
      (mem : Bytes)
      → IsPow2 new_size
      → new_size ≤ buffer_max_size
      → b.len ≤ new_size
      → resize b new_size (some mem) ≡ (pos b.len, resized mem)
  unfolding resize
  resize_eq mem p le fits =
      let power = (not_power_of_2_iff new_size).1 p in
      let small : ltb buffer_max_size new_size ≡ false = ground arith in
      let holds : ltb new_size b.len ≡ false = ground arith in
      let all : limited new_size b.len ≡ b.len = ground (arith, IsPow2-pos p) in
      let copied : (peek b new_size).1 ≡ contents b =
        ap (λ r. r.1) (peek_lem v new_size)
        ∙ ap (λ k. take k (contents b)) all
        ∙ take_all b.len (contents b) (omega (arith, length-contents v)) in
      rw power (rw small (rw holds (rw copied)))

  -- `buffer_resize` of a valid buffer to a power of two that holds the contents, and is no more
  -- than the limit, with memory of that size: it keeps the contents and returns their length, and
  -- the buffer is valid and of the new size.
  pub resize_lem :
      (mem : Bytes)
      → length mem ≡ new_size
      → IsPow2 new_size
      → new_size ≤ buffer_max_size
      → b.len ≤ new_size
      → let (n, b') = resize b new_size (some mem) in
        (n ≡ pos b.len) × IsValid b' × (contents b' ≡ contents b) × (buffer_size b' ≡ new_size)
  resize_lem mem enough p le fits =
      let same : new_size - 1 + 1 ≡ new_size = omega (arith, IsPow2-pos p) in
      rw (resize_eq mem p le fits) (
        refl,
        record {
          pow2 = rw same p;
          small = omega arith;
          storage = length-write_at mem 0 (contents b) ∙ enough ∙ sym same;
          head_in = omega arith;
          len_in = omega arith;
        },
        rw same (window-copied mem enough fits),
        omega arith,
      )

  -- Each error code has its cause, the tests being made in this order.
  abbrev pub ErrorCauses : Option Bytes → Type 0
  ErrorCauses storage =
      let result = resize b new_size storage in
      ((result.0 ≡ neg 4) ↔ (¬ IsPow2 new_size))
      × ((result.0 ≡ neg 3) ↔ (IsPow2 new_size × (buffer_max_size < new_size)))
      × ((result.0 ≡ neg 1) ↔ (IsPow2 new_size × (new_size ≤ buffer_max_size) × (new_size < b.len)))
      × ((result.0 ≡ neg 2) ↔ (
          IsPow2 new_size × (new_size ≤ buffer_max_size) × (b.len ≤ new_size) × (storage ≡ none)))
      × (is_negative result.0 ≡ true → result.1 ≡ b)

  -- The tests one by one.
  by_tests :
      (storage : Option Bytes)
      → (not_power_of_2 new_size ≡ true) ⊎ (not_power_of_2 new_size ≡ false)
      → (ltb buffer_max_size new_size ≡ true) ⊎ (ltb buffer_max_size new_size ≡ false)
      → (ltb new_size b.len ≡ true) ⊎ (ltb new_size b.len ≡ false)
      → ErrorCauses storage
  unfolding resize
  by_tests storage (inl odd) over less =
      let no : ¬ IsPow2 new_size = λ p. absurd (cc (odd, (not_power_of_2_iff new_size).1 p)) in
      rw odd (
        (λ _. no, λ _. refl),
        (λ k. absurd cc, λ p. absurd (no p.0)),
        (λ k. absurd cc, λ p. absurd (no p.0)),
        (λ k. absurd cc, λ p. absurd (no p.0)),
        λ _. refl,
      )
  by_tests storage (inr power) (inl over) less =
      let p : IsPow2 new_size = (not_power_of_2_iff new_size).0 power in
      let high : buffer_max_size < new_size = ltb→lt _ _ over in
      rw (power, over)
        (
          (λ k. absurd cc, λ odd. absurd (odd p)),
          (λ _. (p, high), λ _. refl),
          (λ k. absurd cc, λ q. absurd (omega (arith, q.1, high))),
          (λ k. absurd cc, λ q. absurd (omega (arith, q.1, high))),
          λ _. refl,
        )
  by_tests storage (inr power) (inr under) (inl less) =
      let p : IsPow2 new_size = (not_power_of_2_iff new_size).0 power in
      let low : new_size ≤ buffer_max_size = ground arith in
      let short : new_size < b.len = ltb→lt _ _ less in
      rw (power, under, less)
        (
          (λ k. absurd cc, λ odd. absurd (odd p)),
          (λ k. absurd cc, λ q. absurd (omega (arith, q.1, low))),
          (λ _. (p, low, short), λ _. refl),
          (λ k. absurd cc, λ q. absurd (omega (arith, q.2, short))),
          λ _. refl,
        )
  by_tests none (inr power) (inr under) (inr holds) =
      let p : IsPow2 new_size = (not_power_of_2_iff new_size).0 power in
      let low : new_size ≤ buffer_max_size = ground arith in
      let room : b.len ≤ new_size = ground arith in
      rw (power, under, holds)
        (
          (λ k. absurd cc, λ odd. absurd (odd p)),
          (λ k. absurd cc, λ q. absurd (omega (arith, q.1, low))),
          (λ k. absurd cc, λ q. absurd (omega (arith, q.2, room))),
          (λ _. (p, low, room, refl), λ _. refl),
          λ _. refl,
        )
  by_tests (some mem) (inr power) (inr under) (inr holds) =
      let p : IsPow2 new_size = (not_power_of_2_iff new_size).0 power in
      let low : new_size ≤ buffer_max_size = ground arith in
      let room : b.len ≤ new_size = ground arith in
      rw (power, under, holds)
        (
          (λ k. absurd cc, λ odd. absurd (odd p)),
          (λ k. absurd cc, λ q. absurd (omega (arith, q.1, low))),
          (λ k. absurd cc, λ q. absurd (omega (arith, q.2, room))),
          (λ k. absurd cc, λ q. let given : some mem ≡ none = q.3 in absurd cc),
          λ k. absurd cc,
        )

  -- `buffer_resize` of a valid buffer returns -4 exactly where the size is no power of two, -3
  -- exactly where it is one that is over the limit, -1 exactly where it is one within the limit
  -- that is less than the contents, and -2 exactly where it is none of these and there is no
  -- memory. Any error leaves the buffer as it was.
  pub resize_error : (storage : Option Bytes) → ErrorCauses storage
  resize_error storage =
      by_tests storage (Bool-cases (not_power_of_2 new_size))
        (Bool-cases (ltb buffer_max_size new_size)) (Bool-cases (ltb new_size b.len))
