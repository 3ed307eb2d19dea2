-- ===== src/Address/Order.antt =====
-- The order of `address_compare` in src/address.c, and the end of the loop of `valid_hostname`.
use sniproxy.Prelude.{
  ℕ, zero, suc, ◌+◌, ◌≤◌, ◌≡◌, ◌↔◌, refl, sym, ap, ap₂, ◌∙◌, Bool, true, false, ◌||◌, Bool-cases,
  inl, inr, [], ◌∷◌, Option, none, some, Bytes, length, take, drop, get_or, length-drop, ltb, ◌==◌,
  ℤ, pos, negsuc, neg, arith,
}
use sniproxy.Address.{
  Kind, hostname, sockaddr, wildcard, pattern, Address, rank, memcmp, by_size, tie_break,
  address_compare, label_len, valid_label, labels_loop, valid_hostname,
}

labels_loop-ends :
    (fuel : ℕ) (s : Bytes) → length s ≤ fuel → (answer : Bool) × (labels_loop fuel s ≡ some answer)
unfolding labels_loop
labels_loop-ends fuel [] h = (true, refl)
labels_loop-ends zero (c ∷ cs) h = absurd (omega arith)
labels_loop-ends (suc fuel) (c ∷ cs) h =
    elim (Bool-cases (valid_label (take (label_len (c ∷ cs)) (c ∷ cs)))) [
      | inr bad ↦ (false, rw bad)
      | inl good ↦
          let (answer, e) =
            labels_loop-ends fuel (drop (label_len (c ∷ cs) + 1) (c ∷ cs))
              (omega (arith, length-drop (label_len (c ∷ cs) + 1) (c ∷ cs))) in
          (answer, rw (good, e))
    ]

rank-injective : (k l : Kind) → rank k ≡ rank l → k ≡ l
rank-injective hostname hostname e = refl
rank-injective sockaddr sockaddr e = refl
rank-injective wildcard wildcard e = refl
rank-injective pattern pattern e = refl
rank-injective k l e = absurd (omega arith)

by_size-zero : (m n : ℕ) (rest : ℤ) → by_size m n rest ≡ pos 0 → (m ≡ n) × (rest ≡ pos 0)
by_size-zero m n rest z = elim (Bool-cases (ltb m n)) [
  | inl lt ↦ let z' : neg 1 ≡ pos 0 = rw lt at z in cc
  | inr ge ↦ elim (Bool-cases (ltb n m)) [
    | inl gt ↦ let z' : pos 1 ≡ pos 0 = rw (ge, gt) at z in cc
    | inr le ↦ (ground arith, rw (ge, le) at z)
  ]
]

memcmp-zero : (xs ys : Bytes) → length xs ≡ length ys → memcmp xs ys ≡ pos 0 → xs ≡ ys
unfolding memcmp
memcmp-zero [] [] e z = refl
memcmp-zero [] (y ∷ ys) e z = absurd (omega arith)
memcmp-zero (x ∷ xs) [] e z = absurd (omega arith)
memcmp-zero (x ∷ xs) (y ∷ ys) e z =
    let (same, rest) = by_size-zero x y (memcmp xs ys) z in
    ap₂ (λ c cs. c ∷ cs) same (memcmp-zero xs ys (omega arith) rest)

tie_break-zero :
    (a b : Address) (r : ℤ)
    → tie_break a b r ≡ pos 0
    → (r ≡ pos 0) × (length a.bytes ≡ length b.bytes) × (a.port ≡ b.port)
tie_break-zero a b (pos zero) z =
    let (len, ports) = by_size-zero (length a.bytes) (length b.bytes) _ z in
    (refl, len, (by_size-zero a.port b.port _ ports).0)
tie_break-zero a b (pos (suc n)) z = cc
tie_break-zero a b (negsuc n) z = cc

same_address : (a b : Address) → a.kind ≡ b.kind → a.bytes ≡ b.bytes → a.port ≡ b.port → a ≡ b
same_address a b k s p = cc

by_size-same : (n : ℕ) (rest : ℤ) → by_size n n rest ≡ rest
by_size-same n rest = let no : ltb n n ≡ false = ground arith in rw no

memcmp-same : (xs : Bytes) → memcmp xs xs ≡ pos 0
unfolding memcmp
memcmp-same [] = refl
memcmp-same (x ∷ xs) = by_size-same x (memcmp xs xs) ∙ memcmp-same xs

compare-same : (a : Address) → address_compare (some a) (some a) ≡ pos 0
compare-same a =
    by_size-same (rank a.kind) _
    ∙ ap (tie_break a a) (memcmp-same a.bytes)
    ∙ by_size-same (length a.bytes) _
    ∙ by_size-same a.port (pos 0)

-- `address_compare` of two addresses returns 0 exactly where they are of the same type, with the
-- same data and the same port.
pub address_compare_iff : (a b : Address) → (address_compare (some a) (some b) ≡ pos 0) ↔ (a ≡ b)
address_compare_iff a b = (
  λ z.
      let (kinds, rest) = by_size-zero (rank a.kind) (rank b.kind) _ z in
      let (bytes, len, ports) = tie_break-zero a b (memcmp a.bytes b.bytes) rest in
      same_address a b (rank-injective a.kind b.kind kinds) (memcmp-zero a.bytes b.bytes len bytes)
        ports,
  λ e. ap (λ c. address_compare (some a) (some c)) (sym e) ∙ compare-same a,
)

-- The loop of `valid_hostname` ends for every string and for a NULL pointer: each label moves it
-- on by at least one byte.
pub valid_hostname-ends : (s : Option Bytes) → (answer : Bool) × (valid_hostname s ≡ some answer)
unfolding valid_hostname
valid_hostname-ends none = (false, refl)
valid_hostname-ends (some s) = elim (Bool-cases (ltb (length s) 1 || ltb 255 (length s))) [
  | inl bad ↦ (false, rw bad)
  | inr ok_len ↦ elim (Bool-cases (get_or s 0 0 == 46)) [
    | inl dot ↦ (false, rw (ok_len, dot))
    | inr no_dot ↦
        let (answer, e) = labels_loop-ends (length s) s (omega arith) in
        (answer, rw (ok_len, no_dot) e)
  ]
]
