-- ===== src/Address/Total.antt =====
-- `address_compare` of src/address.c orders the addresses.
use sniproxy.Prelude.{
  ℕ, zero, suc, ◌<◌, ◌≡◌, ◌↔◌, ◌⊎◌, refl, sym, ap, ◌∙◌, true, false, Bool-cases, inl, inr, List, [],
  ◌∷◌, ◌++◌, map, some, Bytes, length, ltb, ℤ, pos, negsuc, neg, is_negative, is_positive, arith,
  ltb→lt, lt→ltb,
}
use sniproxy.Address.{Address, rank, memcmp, by_size, tie_break, address_compare}
use sniproxy.Address.Order.{address_compare_iff}

-- Lists of numbers in the order of a dictionary.
lex : List ℕ → List ℕ → ℤ
lex [] [] = pos 0
lex [] (y ∷ ys) = neg 1
lex (x ∷ xs) [] = pos 1
lex (x ∷ xs) (y ∷ ys) = by_size x y (lex xs ys)

-- An address as such a list: the 0 stands where its bytes end.
key : Address → List ℕ
key a = rank a.kind ∷ (map suc a.bytes ++ (0 ∷ a.port ∷ []))

by_size-suc : (x y : ℕ) (r : ℤ) → by_size (suc x) (suc y) r ≡ by_size x y r
by_size-suc x y r = ground arith

-- `tie_break` on lengths and ports alone.
tie : ℕ → ℕ → ℕ → ℕ → ℤ → ℤ
tie l m p q (pos zero) = by_size l m (by_size p q (pos 0))
tie l m p q r = r

tie_break-tie :
    (a b : Address) (r : ℤ)
    → tie_break a b r ≡ tie (length a.bytes) (length b.bytes) a.port b.port r
unfolding tie
tie_break-tie a b (pos zero) = refl
tie_break-tie a b (pos (suc n)) = refl
tie_break-tie a b (negsuc n) = refl

tie-by_size : (l m p q x y : ℕ) (r : ℤ) → tie l m p q (by_size x y r) ≡ by_size x y (tie l m p q r)
unfolding tie
tie-by_size l m p q x y r = elim (Bool-cases (ltb x y)) [
  | inl lt ↦ rw lt refl
  | inr ge ↦ elim (Bool-cases (ltb y x)) [ inl gt ↦ rw (ge, gt) refl | inr le ↦ rw (ge, le) refl ]
]

tie-suc : (l m p q : ℕ) (r : ℤ) → tie (suc l) (suc m) p q r ≡ tie l m p q r
unfolding tie
tie-suc l m p q (pos zero) = by_size-suc l m (by_size p q (pos 0))
tie-suc l m p q (pos (suc n)) = refl
tie-suc l m p q (negsuc n) = refl

memcmp-lex :
    (xs ys : Bytes) (p q : ℕ)
    → tie (length xs) (length ys) p q (memcmp xs ys)
      ≡ lex (map suc xs ++ (0 ∷ p ∷ [])) (map suc ys ++ (0 ∷ q ∷ []))
unfolding memcmp lex tie
memcmp-lex [] [] p q = refl
memcmp-lex [] (y ∷ ys) p q = ground arith
memcmp-lex (x ∷ xs) [] p q = ground arith
memcmp-lex (x ∷ xs) (y ∷ ys) p q =
    tie-suc (length xs) (length ys) p q (by_size x y (memcmp xs ys))
    ∙ tie-by_size (length xs) (length ys) p q x y (memcmp xs ys)
    ∙ ap (by_size x y) (memcmp-lex xs ys p q)
    ∙ sym (by_size-suc x y (lex (map suc xs ++ (0 ∷ p ∷ [])) (map suc ys ++ (0 ∷ q ∷ []))))

compare-key : (a b : Address) → address_compare (some a) (some b) ≡ lex (key a) (key b)
unfolding lex key
compare-key a b =
    ap (by_size (rank a.kind) (rank b.kind))
      (tie_break-tie a b (memcmp a.bytes b.bytes) ∙ memcmp-lex a.bytes b.bytes a.port b.port)

by_size-less :
    (x y : ℕ) (r : ℤ)
    → is_negative (by_size x y r) ≡ true
    → (x < y) ⊎ ((x ≡ y) × (is_negative r ≡ true))
by_size-less x y r h = elim (Bool-cases (ltb x y)) [
  | inl lt ↦ inl (ltb→lt x y lt)
  | inr ge ↦ elim (Bool-cases (ltb y x)) [
    | inl gt ↦ let bad : false ≡ true = simp (ge, gt) at h in absurd cc
    | inr le ↦ inr (ground arith, simp (ge, le) at h)
  ]
]

less_first : (x y : ℕ) (r : ℤ) → x < y → is_negative (by_size x y r) ≡ true
less_first x y r h = rw (lt→ltb x y h) refl

less_rest : (x y : ℕ) (r : ℤ) → x ≡ y → is_negative r ≡ true → is_negative (by_size x y r) ≡ true
less_rest x y r e h = ground arith

lex-less_trans :
    (xs ys zs : List ℕ)
    → is_negative (lex xs ys) ≡ true
    → is_negative (lex ys zs) ≡ true
    → is_negative (lex xs zs) ≡ true
unfolding lex
lex-less_trans [] [] zs h k = absurd cc
lex-less_trans [] (y ∷ ys) [] h k = absurd cc
lex-less_trans [] (y ∷ ys) (z ∷ zs) h k = refl
lex-less_trans (x ∷ xs) [] zs h k = absurd cc
lex-less_trans (x ∷ xs) (y ∷ ys) [] h k = absurd cc
lex-less_trans (x ∷ xs) (y ∷ ys) (z ∷ zs) h k =
    by_heads (by_size-less x y (lex xs ys) h) (by_size-less y z (lex ys zs) k)
      (λ h' k'. lex-less_trans xs ys zs h' k')
  where
    by_heads :
        (x < y) ⊎ ((x ≡ y) × (is_negative (lex xs ys) ≡ true))
        → (y < z) ⊎ ((y ≡ z) × (is_negative (lex ys zs) ≡ true))
        → (is_negative (lex xs ys) ≡ true
            → is_negative (lex ys zs) ≡ true
            → is_negative (lex xs zs) ≡ true)
        → is_negative (by_size x z (lex xs zs)) ≡ true
    by_heads (inl a) (inl b) ih = less_first x z _ (omega (arith, a, b))
    by_heads (inl a) (inr b) ih = less_first x z _ (omega (arith, a, b.0))
    by_heads (inr a) (inl b) ih = less_first x z _ (omega (arith, a.0, b))
    by_heads (inr a) (inr b) ih = less_rest x z _ (a.0 ∙ b.0) (ih a.1 b.1)

by_size-turned :
    (x y : ℕ) (r s : ℤ)
    → is_negative s ≡ is_positive r
    → is_negative (by_size y x s) ≡ is_positive (by_size x y r)
by_size-turned x y r s h = elim (Bool-cases (ltb x y)) [
  | inl lt ↦ let no_gt : ltb y x ≡ false = ground arith in rw (lt, no_gt) refl
  | inr ge ↦ elim (Bool-cases (ltb y x)) [ inl gt ↦ rw (ge, gt) refl | inr le ↦ rw (ge, le) h ]
]

lex-turned : (xs ys : List ℕ) → is_negative (lex ys xs) ≡ is_positive (lex xs ys)
unfolding lex
lex-turned [] [] = refl
lex-turned [] (y ∷ ys) = refl
lex-turned (x ∷ xs) [] = refl
lex-turned (x ∷ xs) (y ∷ ys) = by_size-turned x y (lex xs ys) (lex ys xs) (lex-turned xs ys)

-- What `address_compare` says of two addresses.
abbrev pub compare : Address → Address → ℤ
compare a b = address_compare (some a) (some b)

pub compare_trans :
    (a b c : Address)
    → is_negative (compare a b) ≡ true
    → is_negative (compare b c) ≡ true
    → is_negative (compare a c) ≡ true
compare_trans a b c h k =
    ap is_negative (compare-key a c)
    ∙ lex-less_trans (key a) (key b) (key c) (sym (ap is_negative (compare-key a b)) ∙ h)
        (sym (ap is_negative (compare-key b c)) ∙ k)

-- `address_compare` orders the addresses: it returns 0 exactly where both are the same in type,
-- data and port, it is negative exactly where it is positive the other way round, and an address
-- that is less than one that is less than a third is less than the third.
pub address_compare_order :
    (a b c : Address)
    → ((compare a b ≡ pos 0) ↔ (a ≡ b))
      × (is_negative (compare b a) ≡ is_positive (compare a b))
      × (is_negative (compare a b) ≡ true
          → is_negative (compare b c) ≡ true
          → is_negative (compare a c) ≡ true)
address_compare_order a b c = (
  address_compare_iff a b,
  ap is_negative (compare-key b a)
      ∙ lex-turned (key a) (key b)
      ∙ sym (ap is_positive (compare-key a b)),
  compare_trans a b c,
)
