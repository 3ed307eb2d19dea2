-- ===== src/Http/Scan.antt =====
-- The two loops of `next_header` over whole lines, and the comparison of a header's name.
use sniproxy.Prelude.{
  ℕ, ◌+◌, ◌^◌, ◌≤◌, ◌<◌, ◌≡◌, ◌≢◌, refl, ap, ◌∙◌, Bool, true, false, not, ◌&&◌, inl, inr, [], ◌∷◌,
  ◌++◌, Bytes, length, length-append, arith, ltb, ◌==◌, Bool-cases, add_size, sub_size,
}
use sniproxy.Parse.{ok, byte_at}
use sniproxy.Http.{cr, lf, to_lower, skip_line, header_end, Header, next_header, strncasecmp_eq}

-- No byte of a line ends it.
abbrev pub NoBreak : Bytes → Type 0
NoBreak [] = Unit
NoBreak (c ∷ l) = ((c ≢ 13) × (c ≢ 10)) × NoBreak l

-- A line with its end, in front of what follows.
abbrev pub line : Bytes → Bytes → Bytes
line l rest = l ++ (13 ∷ 10 ∷ rest)

-- The byte behind a byte of the line is no line feed.
next_byte :
    (l rest : Bytes) → NoBreak l → (n : ℕ) × (byte_at (line l rest) 0 ≡ ok n) × ((n == lf) ≡ false)
next_byte [] rest h = (13, refl, refl)
next_byte (c ∷ l) rest h = (c, refl, let ne = h.0.1 in ground arith)

pub length-line : (l rest : Bytes) → length (line l rest) ≡ length l + 2 + length rest
length-line l rest = omega (arith, length-append l (13 ∷ 10 ∷ rest))

skip_line-line :
    (l rest : Bytes) (len : ℕ)
    → NoBreak l
    → len ≡ length (line l rest)
    → len < 2 ^ 62
    → skip_line (line l rest) len ≡ ok (13 ∷ 10 ∷ rest, 2 + length rest)
unfolding skip_line
skip_line-line [] rest len h e small =
    let two : len ≡ 2 + length rest = omega arith in
    elim (Bool-cases (not (ltb 2 len))) [
      | inl b ↦ rw b (ap (λ k. ok (13 ∷ 10 ∷ rest, k)) two)
      | inr b ↦ rw b (ap (λ k. ok (13 ∷ 10 ∷ rest, k)) two)
    ]
skip_line-line (c ∷ l) rest len h e small =
    let long : not (ltb 2 len) ≡ false = ground (arith, length-line l rest) in
    let inside : (c == cr) ≡ false = let ne = h.0.0 in ground arith in
    let (n, eq, ne) = next_byte l rest h.1 in
    let left : sub_size len 1 ≡ length (line l rest) = omega arith in
    rw (long, inside, eq, ne, left)
      (skip_line-line l rest (length (line l rest)) h.1 refl (omega arith))

header_end-line :
    (l rest : Bytes) (len k : ℕ)
    → NoBreak l
    → len ≡ k + length (line l rest)
    → len < 2 ^ 62
    → header_end (line l rest) len k ≡ ok (k + length l)
unfolding header_end
header_end-line [] rest len k h e small =
    let more : not (ltb (add_size k 1) len) ≡ false = ground arith in rw more (ap ok (omega arith))
header_end-line (c ∷ l) rest len k h e small =
    let more : not (ltb (add_size k 1) len) ≡ false = ground (arith, length-line l rest) in
    let inside : (c == cr) ≡ false = let ne = h.0.0 in ground arith in
    let (n, eq, ne) = next_byte l rest h.1 in
    let next : add_size k 1 ≡ k + 1 = omega arith in
    rw (more, inside, eq, ne, next)
      (header_end-line l rest len (k + 1) h.1 (omega arith) small ∙ ap ok (omega arith))

-- From anywhere in a line, `next_header` finds the line behind it.
pub next_header-line :
    (old l rest : Bytes) (len : ℕ)
    → NoBreak old
    → NoBreak l
    → len ≡ length (line old (line l rest))
    → len < 2 ^ 62
    → next_header (line old (line l rest)) len
      ≡ ok (record { header_len = length l; rest = line l rest; rest_len = length (line l rest) })
unfolding next_header
next_header-line old l rest len h h' e small = rw (skip_line-line old (line l rest) len h e small) (
    rw left (
      rw (header_end-line l rest (length (line l rest)) 0 h' (omega arith) (omega (arith, total)))
        (ap (λ k. ok (found k)) (omega arith))))
  where
    found : ℕ → Header
    found k = record { header_len = k; rest = line l rest; rest_len = length (line l rest) }

    total : len ≡ length old + 2 + length (line l rest)
    total = e ∙ length-line old (line l rest)

    left : sub_size (2 + length (line l rest)) 2 ≡ length (line l rest)
    left = omega (arith, total)

-- The name at the start of a line, whatever the case of its letters.
abbrev pub has_name : Bytes → Bytes → Bool
has_name [] l = true
has_name (h ∷ hs) [] = false
has_name (h ∷ hs) (c ∷ l) = to_lower h == to_lower c && has_name hs l

pub strncasecmp_eq-has_name :
    (hs l rest : Bytes) → length hs ≤ length l → strncasecmp_eq hs (l ++ rest) ≡ ok (has_name hs l)
unfolding strncasecmp_eq
strncasecmp_eq-has_name [] l rest h = refl
strncasecmp_eq-has_name (x ∷ hs) [] rest h = absurd (omega arith)
strncasecmp_eq-has_name (x ∷ hs) (c ∷ l) rest h = elim (Bool-cases (to_lower x == to_lower c)) [
  | inl e ↦ rw e (strncasecmp_eq-has_name hs l rest (omega arith))
  | inr e ↦ rw e
]
