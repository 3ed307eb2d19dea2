-- ===== src/Buffer/Transfer.antt =====
-- What reading through `setup_read_iov` and writing through `setup_write_iov` do to the contents.
use sniproxy.Prelude.{
  ℕ, ◌+◌, ◌-◌, ◌%◌, ◌≤◌, ◌≡◌, sym, ap, ◌∙◌, inl, inr, [], ◌∷◌, ◌++◌, Bytes, length, take, drop,
  get_or, nil_of_length, arith, ltb, leb, ◌==◌, if◌then◌else◌, Bool-cases, add_size, sub_size, ◌⊎◌,
  ◌<◌, length-append, length-take, length-drop, length-tabulate, get_or-append, get_or-take,
  get_or-drop, get_or-tabulate, eq_of_get_or,
}
use native.Mathlib.Nat.{mod-lt, mod-add-mod, add-mod_right, add_assoc}
use sniproxy.Buffer.{
  Buffer, iov, buffer_size, limited, split_iov, setup_read_iov, gather, scatter,
  advance_read_position,
}
use sniproxy.Buffer.Contents.{
  cell, window, contents, gather_one, gather_two, scatter_one, scatter_two,
}
use sniproxy.Buffer.Valid.{IsValid, mask_eq}

take-window :
    (mem : Bytes) (size start n m : ℕ)
    → m ≤ n
    → take m (window mem size start n) ≡ window mem size start m
take-window mem size start n m h =
    eq_of_get_or _ _ 0
      (omega (
        arith,
        length-take m (window mem size start n),
        length-tabulate n (cell mem size start),
        length-tabulate m (cell mem size start),
      ))
      (λ i k. ground (
        arith,
        length-take m (window mem size start n),
        length-tabulate n (cell mem size start),
        get_or-take m (window mem size start n) i 0,
        get_or-tabulate n (cell mem size start) i 0,
        get_or-tabulate m (cell mem size start) i 0,
      ))

cell_shift :
    (mem : Bytes) (size start m i : ℕ)
    → cell mem size ((start + m) % size) i ≡ cell mem size start (m + i)
cell_shift mem size start m i =
    ap (λ k. get_or mem k 0)
      (mod-add-mod (start + m) size i ∙ ap (λ k. k % size) (add_assoc start m i))

drop-window :
    (mem : Bytes) (size start n m : ℕ)
    → m ≤ n
    → drop m (window mem size start n) ≡ window mem size ((start + m) % size) (n - m)
drop-window mem size start n m h =
    eq_of_get_or _ _ 0
      (omega (
        arith,
        length-drop m (window mem size start n),
        length-tabulate n (cell mem size start),
        length-tabulate (n - m) (cell mem size ((start + m) % size)),
      ))
      (λ i k. ground (
        arith,
        length-drop m (window mem size start n),
        length-tabulate n (cell mem size start),
        get_or-drop m (window mem size start n) i 0,
        get_or-tabulate n (cell mem size start) (m + i) 0,
        get_or-tabulate (n - m) (cell mem size ((start + m) % size)) i 0,
        cell_shift mem size start m i,
      ))

module _ {b : Buffer} (v : IsValid b) where
  pub length-contents : length (contents b) ≡ b.len
  length-contents = length-tabulate b.len (cell b.buffer (b.size_mask + 1) b.head)

  -- The two cases of the split, with no wrap-around left.
  split_cases :
      (start n : ℕ)
      → start ≤ b.size_mask
      → n ≤ b.size_mask + 1
      → ((start + n ≤ b.size_mask + 1) × (split_iov b start n ≡ iov start n ∷ []))
        ⊎ ((b.size_mask + 1 < start + n)
            × (split_iov b start n
                ≡ iov start (b.size_mask + 1 - start) ∷ iov 0 (n - (b.size_mask + 1 - start)) ∷ []))
  split_cases start n hs hn = elim (Bool-cases (leb (add_size start n) (buffer_size b))) [
    | inl e ↦ inl (ground arith, rw e)
    | inr e ↦
        let first : sub_size (buffer_size b) start ≡ b.size_mask + 1 - start = omega arith in
        let second : sub_size n (b.size_mask + 1 - start) ≡ n - (b.size_mask + 1 - start) =
          ground arith in
        inr (ground arith, rw e (rw first (rw second)))
  ]

  gather-split :
      (start n : ℕ)
      → start ≤ b.size_mask
      → n ≤ b.size_mask + 1
      → gather b.buffer (split_iov b start n) ≡ window b.buffer (b.size_mask + 1) start n
  gather-split start n hs hn = elim (split_cases start n hs hn) [
    | inl (le, e) ↦ rw e (gather_one b.buffer _ start n (omega arith) (omega arith) v.storage le)
    | inr (lt, e) ↦ rw e (gather_two b.buffer _ start n (omega arith) (omega arith) v.storage lt hn)
  ]

  -- What is written at `start` is read back there, and nothing else changes.
  scatter-split :
      (start n : ℕ) (src : Bytes)
      → start ≤ b.size_mask
      → n ≤ b.size_mask + 1
      → length src ≤ n
      → (i : ℕ) → i ≤ b.size_mask
      → cell (scatter b.buffer (split_iov b start n) src) (b.size_mask + 1) start i
        ≡ (if ltb i (length src) then get_or src i 0 else cell b.buffer (b.size_mask + 1) start i)
  scatter-split start n src hs hn fits i hi = elim (split_cases start n hs hn) [
    | inl (le, e) ↦ rw e (
        scatter_one b.buffer _ start n (omega arith) (omega arith) v.storage src le fits i
          (omega arith))
    | inr (lt, e) ↦ rw e (
        scatter_two b.buffer _ start n (omega arith) (omega arith) v.storage src lt hn fits i
          (omega arith))
  ]

  -- The entries for reading hold the first bytes of the contents.
  pub gather-setup_read_iov :
      (n : ℕ) → gather b.buffer (setup_read_iov b n) ≡ take (limited n b.len) (contents b)
  unfolding setup_read_iov gather
  gather-setup_read_iov n = elim (Bool-cases (b.len == 0)) [
    | inl e ↦ rw e (
        sym (
          nil_of_length _
            (ground (arith, length-take (limited n b.len) (contents b), length-contents))))
    | inr e ↦ rw e (
        gather-split b.head (limited n b.len) v.head_in (ground arith)
        ∙ sym
            (take-window b.buffer (b.size_mask + 1) b.head b.len (limited n b.len) (ground arith)))
  ]

  -- Reading past `m` bytes drops them.
  pub contents-advance_read_position :
      (m : ℕ) → m ≤ b.len → contents (advance_read_position b m) ≡ drop m (contents b)
  unfolding advance_read_position
  contents-advance_read_position m h =
      let rest : sub_size b.len m ≡ b.len - m = omega arith in
      rw (mask_eq v m (omega arith), rest)
        (sym (drop-window b.buffer (b.size_mask + 1) b.head b.len m h))

  pub advance_read_position-IsValid : (m : ℕ) → m ≤ b.len → IsValid (advance_read_position b m)
  unfolding advance_read_position
  advance_read_position-IsValid m h = record {
    pow2 = v.pow2;
    small = v.small;
    storage = v.storage;
    head_in = omega (arith, mask_eq v m (omega arith), mod-lt (b.head + m) {m = b.size_mask + 1});
    len_in = omega arith;
  }

  -- The cell at step `i` from the head, seen from the tail.
  cell_from_tail :
      (mem : Bytes) (i : ℕ)
      → b.len ≤ i
      → cell mem (b.size_mask + 1) b.head i
        ≡ cell mem (b.size_mask + 1) ((b.head + b.len) % (b.size_mask + 1)) (i - b.len)
  cell_from_tail mem i h = sym (
      cell_shift mem (b.size_mask + 1) b.head b.len (i - b.len)
      ∙ ap (cell mem (b.size_mask + 1) b.head) (omega arith))

  -- Going once round the ring comes back to the same cell.
  cell_round :
      (mem : Bytes) (i : ℕ)
      → i < b.len
      → cell mem (b.size_mask + 1) b.head i
        ≡ cell mem
            (b.size_mask + 1)
            ((b.head + b.len) % (b.size_mask + 1))
            (b.size_mask + 1 - b.len + i)
  cell_round mem i h =
      let len_in = v.len_in in
      sym (
        cell_shift mem (b.size_mask + 1) b.head b.len (b.size_mask + 1 - b.len + i)
        ∙ ap (λ k. get_or mem k 0)
            (ap (λ k. k % (b.size_mask + 1)) (omega arith)
              ∙ add-mod_right (b.head + i) (b.size_mask + 1)))

  abbrev pub tail_index : ℕ
  tail_index = (b.head + b.len) % (b.size_mask + 1)

  -- The storage with `src` written at the tail, into `n` bytes of room.
  abbrev pub written : ℕ → Bytes → Bytes
  written n src = scatter b.buffer (split_iov b tail_index n) src

  written_at :
      (n : ℕ) (src : Bytes)
      → n ≤ b.size_mask + 1 - b.len
      → length src ≤ n
      → (i : ℕ) → i ≤ b.size_mask
      → cell (written n src) (b.size_mask + 1) tail_index i ≡ (
          if ltb i (length src)
          then get_or src i 0
          else cell b.buffer (b.size_mask + 1) tail_index i)
  written_at n src hn fits i hi =
      scatter-split tail_index n src (omega (arith, mod-lt (b.head + b.len) {m = b.size_mask + 1}))
        (omega arith) fits i hi

  cell-written_old :
      (n : ℕ) (src : Bytes)
      → n ≤ b.size_mask + 1 - b.len
      → length src ≤ n
      → (i : ℕ) → i < b.len
      → cell (written n src) (b.size_mask + 1) b.head i ≡ cell b.buffer (b.size_mask + 1) b.head i
  cell-written_old n src hn fits i h =
      let len_in = v.len_in in
      cell_round (written n src) i h
      ∙ written_at n src hn fits (b.size_mask + 1 - b.len + i) (omega arith)
      ∙ keep (b.size_mask + 1 - b.len + i) (omega arith)
      ∙ sym (cell_round b.buffer i h)
    where
      keep :
          (k : ℕ)
          → length src ≤ k
          → (if ltb k (length src)
              then get_or src k 0
              else cell b.buffer (b.size_mask + 1) tail_index k)
            ≡ cell b.buffer (b.size_mask + 1) tail_index k
      keep k le = ground arith

  cell-written_new :
      (n : ℕ) (src : Bytes)
      → n ≤ b.size_mask + 1 - b.len
      → length src ≤ n
      → (i : ℕ) → b.len ≤ i
      → i < b.len + length src
      → cell (written n src) (b.size_mask + 1) b.head i ≡ get_or src (i - b.len) 0
  cell-written_new n src hn fits i h lt =
      cell_from_tail (written n src) i h
      ∙ written_at n src hn fits (i - b.len) (omega arith)
      ∙ take_src (i - b.len) (omega arith)
    where
      take_src :
          (k : ℕ)
          → k < length src
          → (if ltb k (length src)
              then get_or src k 0
              else cell b.buffer (b.size_mask + 1) tail_index k)
            ≡ get_or src k 0
      take_src k lt = ground arith

  -- Bytes written at the tail, into room for them, follow the contents.
  pub window-written :
      (n : ℕ) (src : Bytes)
      → n ≤ b.size_mask + 1 - b.len
      → length src ≤ n
      → window (written n src) (b.size_mask + 1) b.head (b.len + length src) ≡ contents b ++ src
  window-written n src hn fits =
      eq_of_get_or _ _ 0
        (omega (
          arith,
          length-append (contents b) src,
          length-contents,
          length-tabulate (b.len + length src) (cell (written n src) (b.size_mask + 1) b.head),
        ))
        (λ i k. at i (
          omega (
            arith,
            length-tabulate (b.len + length src) (cell (written n src) (b.size_mask + 1) b.head),
          )))
    where
      at :
          (i : ℕ)
          → i < b.len + length src
          → get_or (window (written n src) (b.size_mask + 1) b.head (b.len + length src)) i 0
            ≡ get_or (contents b ++ src) i 0
      at i k = ground (
        arith,
        length-contents,
        get_or-tabulate (b.len + length src) (cell (written n src) (b.size_mask + 1) b.head) i 0,
        get_or-tabulate b.len (cell b.buffer (b.size_mask + 1) b.head) i 0,
        get_or-append (contents b) src i 0,
        cell-written_old n src hn fits i,
        cell-written_new n src hn fits i,
      )
