-- ===== src/Buffer/Contents.antt =====
-- The bytes that a ring buffer holds, described by index, and what the two `iovec` entries read and
-- write in these terms.
use sniproxy.Prelude.{
  ℕ, ◌+◌, ◌-◌, ◌%◌, ◌≤◌, ◌<◌, min, ◌≡◌, refl, ap, ◌∙◌, inl, inr, List, [], ◌∷◌, ◌++◌, append-nil,
  Bytes, length, take, drop, slice, write_at, get_or, tabulate, arith, ltb, if◌then◌else◌,
  Bool-cases, length-append, length-slice, length-take, length-drop, length-tabulate,
  length-write_at, get_or-append, get_or-slice, get_or-take, get_or-drop, get_or-tabulate,
  get_or-write_at, eq_of_get_or,
}
use native.Mathlib.Nat.{mod-eq_of_lt, mod-eq-sub-mod}
use sniproxy.Buffer.{Buffer, Iovec, iov, gather, scatter}
use sniproxy.Buffer.Valid.{mod-round}

-- The byte at step `i` from index `start`, going round at `size`.
abbrev pub cell : Bytes → ℕ → ℕ → ℕ → ℕ
cell mem size start i = get_or mem ((start + i) % size) 0

-- The `n` bytes from index `start` on.
abbrev pub window : Bytes → ℕ → ℕ → ℕ → Bytes
window mem size start n = tabulate n (cell mem size start)

-- The bytes that a buffer holds, oldest first.
abbrev pub contents : Buffer → Bytes
contents b = window b.buffer (b.size_mask + 1) b.head b.len

module _ (mem : Bytes) (size start n : ℕ) (p : 0 < size) (hs : start < size)
    (hl : length mem ≡ size) where
  -- One entry.
  pub gather_one : start + n ≤ size → gather mem (iov start n ∷ []) ≡ window mem size start n
  unfolding gather
  gather_one hn =
      append-nil (slice mem start n)
      ∙ eq_of_get_or _ _ 0
          (omega (arith, length-slice mem start n, length-tabulate n (cell mem size start)))
          (λ i h. ground (
            arith,
            length-slice mem start n,
            get_or-slice mem start n i 0,
            get_or-tabulate n (cell mem size start) i 0,
            mod-round (start + i) size p,
          ))

  -- An entry that ends the storage, and one at its beginning.
  pub gather_two :
      size < start + n
      → n ≤ size
      → gather mem (iov start (size - start) ∷ iov 0 (n - (size - start)) ∷ [])
        ≡ window mem size start n
  unfolding gather
  gather_two hn hm =
      ap (λ r. slice mem start (size - start) ++ r) (append-nil (slice mem 0 (n - (size - start))))
      ∙ eq_of_get_or _ _ 0
          (omega (
            arith,
            length-append (slice mem start (size - start)) (slice mem 0 (n - (size - start))),
            length-slice mem start (size - start),
            length-slice mem 0 (n - (size - start)),
            length-tabulate n (cell mem size start),
          ))
          (λ i h. ground (
            arith,
            length-append (slice mem start (size - start)) (slice mem 0 (n - (size - start))),
            length-slice mem start (size - start),
            length-slice mem 0 (n - (size - start)),
            get_or-append (slice mem start (size - start)) (slice mem 0 (n - (size - start))) i 0,
            get_or-slice mem start (size - start) i 0,
            get_or-slice mem 0 (n - (size - start)) (i - (size - start)) 0,
            get_or-tabulate n (cell mem size start) i 0,
            mod-round (start + i) size p,
          ))

  pub scatter_one :
      (src : Bytes)
      → start + n ≤ size
      → length src ≤ n
      → (i : ℕ) → i < size
      → cell (scatter mem (iov start n ∷ []) src) size start i
        ≡ (if ltb i (length src) then get_or src i 0 else cell mem size start i)
  unfolding scatter
  scatter_one src hn hm i h = ground (
    arith,
    length-take n src,
    get_or-take n src ((start + i) % size - start) 0,
    get_or-write_at mem start (take n src) ((start + i) % size) 0,
    mod-round (start + i) size p,
  )

  -- Before the second write, and after it.
  first_at :
      (k : ℕ) (src : Bytes) (j : ℕ)
      → k ≡ size - start
      → get_or (write_at mem start (take k src)) j 0 ≡ (
          if ltb j start
          then get_or mem j 0
          else if ltb (j - start) (min k (length src))
          then get_or src (j - start) 0
          else get_or mem j 0)
  first_at k src j e = ground (
    arith,
    length-take k src,
    get_or-take k src (j - start) 0,
    get_or-write_at mem start (take k src) j 0,
  )

  second_at :
      (k m : ℕ) (src : Bytes) (j : ℕ)
      → k ≡ size - start
      → m ≤ start
      → get_or (write_at (write_at mem start (take k src)) 0 (take m (drop k src))) j 0 ≡ (
          if ltb j (min m (length src - k))
          then get_or src (k + j) 0
          else get_or (write_at mem start (take k src)) j 0)
  second_at k m src j e le = ground (
    arith,
    length-write_at mem start (take k src),
    length-take m (drop k src),
    length-drop k src,
    get_or-take m (drop k src) j 0,
    get_or-drop k src j 0,
    get_or-write_at (write_at mem start (take k src)) 0 (take m (drop k src)) j 0,
  )

  pub scatter_two :
      (src : Bytes)
      → size < start + n
      → n ≤ size
      → length src ≤ n
      → (i : ℕ) → i < size
      → cell
          (scatter mem (iov start (size - start) ∷ iov 0 (n - (size - start)) ∷ []) src)
          size
          start
          i
        ≡ (if ltb i (length src) then get_or src i 0 else cell mem size start i)
  unfolding scatter
  scatter_two src hn hm hs' i h = elim (Bool-cases (ltb (start + i) size)) [
    | inl e ↦
        let at : (start + i) % size ≡ start + i = mod-eq_of_lt (ground arith) in
        rw at (
          ground (
            arith,
            first_at (size - start) src (start + i) refl,
            second_at (size - start) (n - (size - start)) src (start + i) refl (omega arith),
          ))
    | inr e ↦
        let at : (start + i) % size ≡ start + i - size =
          mod-eq-sub-mod {n = start + i} {m = size} (ground arith) ∙ mod-eq_of_lt (ground arith) in
        rw at (
          ground (
            arith,
            first_at (size - start) src (start + i - size) refl,
            second_at (size - start) (n - (size - start)) src (start + i - size) refl (omega arith),
          ))
  ]

pub length-scatter :
    (mem : Bytes) (vs : List Iovec) (src : Bytes) → length (scatter mem vs src) ≡ length mem
unfolding scatter
length-scatter mem [] src = refl
length-scatter mem (v ∷ vs) src =
    length-scatter (write_at mem v.iov_base (take v.iov_len src)) vs (drop v.iov_len src)
    ∙ length-write_at mem v.iov_base (take v.iov_len src)
