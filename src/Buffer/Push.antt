-- ===== src/Buffer/Push.antt =====
-- `buffer_push`: all or nothing, and where it reads past its source.
use sniproxy.Prelude.{
  ℕ, ◌+◌, ◌^◌, ◌≤◌, ◌<◌, ◌≡◌, refl, sym, ap, ap₂, ◌∙◌, true, false, inl, inr, List, [], ◌∷◌, ◌++◌,
  none, some, Bytes, length, drop, slice, write_at, arith, ltb, leb, ◌==◌, if◌then◌else◌,
  Bool-cases, add_size, drop-drop, dec_le,
}
use native.Mathlib.Nat.{add_assoc}
use sniproxy.Buffer.{
  Buffer, Iovec, buffer_room, limited, rewind_empty, setup_write_iov, scatter, iov_total, push_loop,
  push_rewound, push, advance_write_position,
}
use sniproxy.Buffer.Contents.{contents}
use sniproxy.Buffer.Fifo.{
  rewind_empty-IsValid, contents-rewind_empty, rewound, filled, advance-filled-Appended,
}
use sniproxy.Buffer.Valid.{IsValid, room_eq, setup_write_iov-InBounds}

-- The loop copies what `scatter` copies, as long as the source has the bytes.
push_loop-scatter :
    (mem : Bytes) (vs : List Iovec) (src : Bytes) (k : ℕ)
    → length src < 2 ^ 64
    → k + iov_total vs ≤ length src
    → push_loop mem vs src k ≡ some (scatter mem vs (drop k src), k + iov_total vs)
unfolding push_loop scatter iov_total
push_loop-scatter mem [] src k small h = ap (λ n. some (mem, n)) (omega arith)
push_loop-scatter mem (w ∷ vs) src k small h =
    let enough : ltb (length src) (k + w.iov_len) ≡ false = ground arith in
    let sum : add_size k w.iov_len ≡ k + w.iov_len = omega arith in
    rw (enough, sum)
      (push_loop-scatter (write_at mem w.iov_base (slice src k w.iov_len)) vs src (k + w.iov_len)
          small (omega arith)
        ∙ ap₂
            (λ rest n. some (scatter (write_at mem w.iov_base (slice src k w.iov_len)) vs rest, n))
            (sym (drop-drop w.iov_len k src)) (add_assoc k w.iov_len (iov_total vs)))

-- Entries for more bytes than the source has make the loop read past it.
push_loop-overread :
    (mem : Bytes) (vs : List Iovec) (src : Bytes) (k : ℕ)
    → length src < 2 ^ 64
    → k ≤ length src
    → length src < k + iov_total vs
    → push_loop mem vs src k ≡ none
unfolding push_loop iov_total
push_loop-overread mem [] src k small le h = absurd (omega arith)
push_loop-overread mem (w ∷ vs) src k small le h =
    elim (Bool-cases (ltb (length src) (k + w.iov_len))) [
      | inl e ↦ rw e
      | inr e ↦
          let sum : add_size k w.iov_len ≡ k + w.iov_len = ground arith in
          rw (e, sum)
            (push_loop-overread (write_at mem w.iov_base (slice src k w.iov_len)) vs src
              (k + w.iov_len) small (ground arith) (omega arith))
    ]

limited_fits : (n k : ℕ) → 0 < n → n ≤ k → n ≤ limited n k
limited_fits n k p h = ground arith

module _ {b : Buffer} (v : IsValid b) (src : Bytes) where
  -- The loop fills the entries from the start of the source.
  loop_eq :
      0 < length src
      → length src ≤ buffer_room b
      → push_loop b.buffer (setup_write_iov b (length src)) src 0
        ≡ some ((filled b (length src) src).buffer, length src)
  loop_eq p h =
      let all : iov_total (setup_write_iov b (length src)) ≡ length src =
        ground (arith, setup_write_iov-InBounds v (length src)) in
      push_loop-scatter b.buffer (setup_write_iov b (length src)) src 0
        (omega (arith, room_eq v, v.small)) (omega arith)
      ∙ ap (λ n. some ((filled b (length src) src).buffer, n)) (omega arith)

  rewound_fits :
      0 < length src
      → length src ≤ buffer_room b
      → push_rewound b src
        ≡ some (length src, advance_write_position (filled b (length src) src) (length src))
  rewound_fits p h =
      let enough : ltb (buffer_room b) (length src) ≡ false = ground arith in
      let some_bytes : ltb 0 (length src) ≡ true = ground arith in
      rw enough (rw (loop_eq p h) (rw some_bytes))

size_mask-rewind_empty : (b : Buffer) → (rewind_empty b).size_mask ≡ b.size_mask
size_mask-rewind_empty b = elim (Bool-cases (b.len == 0)) [ inl e ↦ rw e | inr e ↦ rw e ]

-- What `buffer_push` is to do with a source that is not empty: append all of it, or nothing where
-- there is no room for it.
pub record Pushed (b : Buffer) (src : Bytes) (n : ℕ) (b' : Buffer) : Type 0 where
  pub valid : IsValid b'
  pub count : n ≡ (if leb (length src) (buffer_room b) then length src else 0)
  pub same_head : b'.head ≡ (rewind_empty b).head
  pub same_size : b'.size_mask ≡ b.size_mask
  pub holds :
      contents b' ≡ (if leb (length src) (buffer_room b) then contents b ++ src else contents b)

module _ {b : Buffer} (v : IsValid b) (src : Bytes) where
  pub push_fits :
      0 < length src
      → length src ≤ buffer_room b
      → (b' : Buffer) × (push b src ≡ some (length src, b')) × Pushed b src (length src) b'
  unfolding push advance_write_position
  push_fits p h =
      let w = rewind_empty-IsValid v in
      let h' : length src ≤ buffer_room (rewind_empty b) = rw (rewound b) h in
      let done = advance-filled-Appended w (length src) src p (limited_fits _ _ p h') in
      let yes_fits : leb (length src) (buffer_room b) ≡ true = ground arith in
      (
        advance_write_position (filled (rewind_empty b) (length src) src) (length src),
        rewound_fits w src p h',
        record {
          valid = done.valid;
          count = rw yes_fits;
          same_head = refl;
          same_size = size_mask-rewind_empty b;
          holds = rw yes_fits (done.holds ∙ ap (λ l. l ++ src) (contents-rewind_empty v));
        },
      )

  push_full :
      buffer_room b < length src → (b' : Buffer) × (push b src ≡ some (0, b')) × Pushed b src 0 b'
  unfolding push
  push_full h =
      let full : ltb (buffer_room (rewind_empty b)) (length src) ≡ true =
        rw (rewound b) (ground arith) in
      let not_fits : leb (length src) (buffer_room b) ≡ false = ground arith in
      (
        rewind_empty b,
        rw full,
        record {
          valid = rewind_empty-IsValid v;
          count = rw not_fits;
          same_head = refl;
          same_size = size_mask-rewind_empty b;
          holds = rw not_fits (contents-rewind_empty v);
        },
      )

  -- `buffer_push` of at least one byte into a valid buffer never reads past its source: it appends
  -- all of it and returns its length where the room suffices, and otherwise appends nothing and
  -- returns 0. The buffer stays valid.
  pub push_lem :
      0 < length src → (n : ℕ) × (b' : Buffer) × (push b src ≡ some (n, b')) × Pushed b src n b'
  push_lem p = elim (dec_le (length src) (buffer_room b)) [
    | yes h ↦ let (b', e, done) = push_fits p h in (length src, b', e, done)
    | no h ↦ let (b', e, done) = push_full (omega arith) in (0, b', e, done)
  ]

-- `buffer_push` of no bytes into a valid buffer with room reads past the source: `setup_write_iov`
-- takes the length 0 for as much as there is room.
pub push-nil : {b : Buffer} → IsValid b → 0 < buffer_room b → push b [] ≡ none
unfolding push
push-nil {b} v h =
    let w = rewind_empty-IsValid v in
    let room : 0 < buffer_room (rewind_empty b) = rw (rewound b) h in
    let overread =
      push_loop-overread (rewind_empty b).buffer (setup_write_iov (rewind_empty b) 0) [] 0
        (omega arith) (omega arith) (ground (arith, setup_write_iov-InBounds w 0)) in
    let passes : ltb (buffer_room (rewind_empty b)) 0 ≡ false = ground arith in
    rw passes (rw overread)
