-- ===== src/Buffer/Valid.antt =====
-- The representation invariant of `struct Buffer`, and what it says of the arithmetic and of the
-- `iovec` entries that the functions of src/buffer.c set up.
use sniproxy.Prelude.{
  ℕ, zero, suc, ◌+◌, ◌-◌, ◌*◌, ◌%◌, ◌^◌, ◌≤◌, ◌<◌, ◌≡◌, ◌∙◌, inl, inr, List, [], ◌∷◌, length, arith,
  ltb, ◌==◌, if◌then◌else◌, Bool-cases, bit_and, IsPow2, one, double, IsPow2-pos, bit_and-mask,
  add_size,
}
use native.Mathlib.Nat.{pow-suc, mod-lt, mod-eq_of_lt, mod-eq-sub-mod}
use sniproxy.Buffer.{
  Buffer, Iovec, buffer_size, buffer_room, setup_write_iov, setup_read_iov, split_iov, limited,
  iov_total,
}

pub record IsValid (b : Buffer) : Type 0 where
  pub pow2 : IsPow2 (b.size_mask + 1)
  pub small : b.size_mask < 2 ^ 63
  pub storage : length b.buffer ≡ b.size_mask + 1
  pub head_in : b.head ≤ b.size_mask
  pub len_in : b.len ≤ b.size_mask + 1

-- A power of two below the double of another is at most that one.
pub IsPow2-le : (k : ℕ) {n : ℕ} → IsPow2 n → n < 2 ^ suc k → n ≤ 2 ^ k
IsPow2-le zero one h = omega arith
IsPow2-le (suc k) one h = omega (arith, pow-suc 2 k, IsPow2-le k one)
IsPow2-le zero (double p e) h = omega (arith, IsPow2-pos p)
IsPow2-le (suc k) (double p e) h =
    omega (arith, pow-suc 2 (suc k), pow-suc 2 k, IsPow2-le k p (omega (arith, pow-suc 2 (suc k))))

-- An index that has gone round at most once.
pub mod-round : (k n : ℕ) → 0 < n → k < 2 * n → k % n ≡ (if ltb k n then k else k - n)
mod-round k n p h = elim (Bool-cases (ltb k n)) [
  | inl e ↦ rw e (mod-eq_of_lt (ground arith))
  | inr e ↦ rw e (mod-eq-sub-mod (ground arith) ∙ mod-eq_of_lt (ground arith))
]

module _ {b : Buffer} (v : IsValid b) where
  pub size_eq : buffer_size b ≡ b.size_mask + 1
  size_eq = omega arith

  pub room_eq : buffer_room b ≡ b.size_mask + 1 - b.len
  room_eq = omega arith

  -- The masked index is the remainder, and does not wrap in `size_t`.
  pub mask_eq :
      (k : ℕ)
      → k ≤ b.size_mask + 1
      → bit_and (add_size b.head k) b.size_mask ≡ (b.head + k) % (b.size_mask + 1)
  mask_eq k h =
      let last : b.size_mask + 1 - 1 ≡ b.size_mask = omega arith in
      let sum : add_size b.head k ≡ b.head + k = omega arith in
      rw sum (rw last at (bit_and-mask (b.head + k) v.pow2))

-- The `assert`s of `setup_write_iov` and `setup_read_iov`, on the entries set up: none is empty, each
-- lies inside the storage, and a second one ends before the first begins.
abbrev pub InBounds : ℕ → List Iovec → Type 0
InBounds n [] = Unit
InBounds n (x ∷ []) = (0 < x.iov_len) × (x.iov_base + x.iov_len ≤ n)
InBounds n (x ∷ y ∷ []) =
    (0 < x.iov_len)
    × (x.iov_base + x.iov_len ≤ n)
    × (0 < y.iov_len)
    × (y.iov_base + y.iov_len ≤ x.iov_base)
InBounds n (x ∷ y ∷ z ∷ vs) = ⊥

module _ {b : Buffer} (v : IsValid b) where
  split_InBounds :
      (start n : ℕ)
      → start ≤ b.size_mask
      → 0 < n
      → n ≤ b.size_mask + 1
      → InBounds (b.size_mask + 1) (split_iov b start n) × (iov_total (split_iov b start n) ≡ n)
  unfolding iov_total
  split_InBounds start n hs p hn = ground arith

  tail_le : bit_and (add_size b.head b.len) b.size_mask ≤ b.size_mask
  tail_le = omega (arith, mask_eq v b.len v.len_in, mod-lt (b.head + b.len) {m = b.size_mask + 1})

  -- The `assert`s of `setup_write_iov` hold in every valid buffer and for every length, and the
  -- entries make up the room, or the wanted length where that is less (0 asks for all).
  pub setup_write_iov-InBounds :
      (n : ℕ)
      → InBounds (b.size_mask + 1) (setup_write_iov b n)
        × (iov_total (setup_write_iov b n) ≡ limited n (buffer_room b))
  unfolding setup_write_iov iov_total
  setup_write_iov-InBounds n = elim (Bool-cases (buffer_room b == 0)) [
    | inl e ↦ rw e (tt, ground arith)
    | inr e ↦
        let (asserts, total) =
          split_InBounds (bit_and (add_size b.head b.len) b.size_mask) (limited n (buffer_room b))
            tail_le (ground arith) (ground arith) in
        rw e (asserts, total)
  ]

  -- The `assert`s of `setup_read_iov` hold in every valid buffer and for every length, and the
  -- entries make up the length of the contents, or the wanted length where that is less (0 asks
  -- for all).
  pub setup_read_iov-InBounds :
      (n : ℕ)
      → InBounds (b.size_mask + 1) (setup_read_iov b n)
        × (iov_total (setup_read_iov b n) ≡ limited n b.len)
  unfolding setup_read_iov iov_total
  setup_read_iov-InBounds n = elim (Bool-cases (b.len == 0)) [
    | inl e ↦ rw e (tt, ground arith)
    | inr e ↦
        let (asserts, total) =
          split_InBounds b.head (limited n b.len) v.head_in (ground arith) (ground arith) in
        rw e (asserts, total)
  ]
