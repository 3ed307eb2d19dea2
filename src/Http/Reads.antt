-- ===== src/Http/Reads.antt =====
-- The reads of the loops of src/http.c that get_header is made of.
use sniproxy.Prelude.{
  ℕ, zero, suc, ◌+◌, ◌-◌, ◌%◌, ◌^◌, ◌≤◌, ◌<◌, ◌≡◌, refl, ap, Bool, true, false, not, inl, inr, [],
  ◌∷◌, Bytes, length, drop, take_all, slice, length-drop, length-slice, arith, ltb, ◌==◌,
  Bool-cases, dec_lt, add_size, sub_size,
}
use sniproxy.Parse.{ok, ◌>>=◌, ◌>>◌, check, bytes_at, nuls, strncpy}
use sniproxy.Parse.Ensures.{
  Ensures, returns, Ensures-map, Ensures-bind, Ensures-check, Ensures-bytes_at,
}
use sniproxy.Http.{
  cr, lf, to_lower, is_blank, skip_line, header_end, Header, next_header, strncasecmp_eq,
  skip_blanks, header_value, as_result,
}

-- A pointer with the length of the memory behind it, shorter than before.
record Advanced (len : ℕ) (at : Bytes × ℕ) : Type 0 where
  pub exact : length at.0 ≡ at.1
  pub two : 2 ≤ at.1
  pub within : at.1 ≤ len

skip_line-Ensures :
    (d : Bytes) (len : ℕ)
    → length d ≡ len
    → 2 ≤ len
    → len < 2 ^ 62
    → Ensures 4 (Advanced len) (skip_line d len)
unfolding skip_line
skip_line-Ensures [] len e two small = absurd (omega arith)
skip_line-Ensures (c ∷ []) len e two small = absurd (omega arith)
skip_line-Ensures (c ∷ x ∷ d) len e two small = elim (Bool-cases (not (ltb 2 len))) [
  | inl stop ↦ rw stop (returns here)
  | inr go ↦ rw go (elim (Bool-cases (c == cr)) [
    | inl stop ↦ rw stop (returns here)
    | inr go' ↦ rw go' (elim (Bool-cases (x == lf)) [
      | inl stop ↦ rw stop (returns here)
      | inr go'' ↦
          let left : sub_size len 1 ≡ len - 1 = omega arith in
          rw (go'', left)
            (Ensures-map _
              (λ at a. record { exact = a.exact; two = a.two; within = omega (arith, a.within) })
              (skip_line-Ensures (x ∷ d) (len - 1) (omega arith) (ground arith) (omega arith)))
    ])
  ])
]
  where
    here : Advanced len (c ∷ x ∷ d, len)
    here = record { exact = e; two = two; within = omega arith }

header_end-Ensures :
    (d : Bytes) (len k : ℕ)
    → k + length d ≡ len
    → len < 2 ^ 62
    → Ensures 4 (λ n. (k ≤ n) × (n ≤ len) × (k < n → n < len)) (header_end d len k)
unfolding header_end
header_end-Ensures [] len k e small =
    let stop : ltb (add_size k 1) len ≡ false = ground arith in
    rw stop (returns (omega arith, omega arith, λ h. absurd (omega arith)))
header_end-Ensures (c ∷ []) len k e small =
    let stop : not (ltb (add_size k 1) len) ≡ true = ground arith in
    rw stop (returns (omega arith, omega arith, λ h. absurd (omega arith)))
header_end-Ensures (c ∷ x ∷ d) len k e small =
    let go : not (ltb (add_size k 1) len) ≡ false = ground arith in
    let next : add_size k 1 ≡ k + 1 = omega arith in
    rw go (elim (Bool-cases (c == cr)) [
      | inl stop ↦ rw stop (returns here)
      | inr go' ↦ rw go' (elim (Bool-cases (x == lf)) [
        | inl stop ↦ rw stop (returns here)
        | inr go'' ↦
            rw (go'', next)
              (Ensures-map _ (λ n a. later n a)
                (header_end-Ensures (x ∷ d) len (k + 1) (omega arith) small))
      ])
    ])
  where
    here : (k ≤ k) × (k ≤ len) × (k < k → k < len)
    here = (omega arith, omega arith, λ h. absurd (omega arith))

    later :
        (n : ℕ)
        → (k + 1 ≤ n) × (n ≤ len) × (k + 1 < n → n < len)
        → (k ≤ n) × (n ≤ len) × (k < n → n < len)
    later n (a, b, c') =
        (omega arith, b, λ h. elim (dec_lt (k + 1) n) [ yes lt ↦ c' lt | no ge ↦ omega arith ])

-- What `next_header` leaves: memory of the length that goes with it, two bytes shorter at least.
pub record Found (len : ℕ) (h : Header) : Type 0 where
  pub exact : length h.rest ≡ h.rest_len
  pub shorter : h.rest_len + 2 ≤ len
  pub inside : h.header_len ≤ h.rest_len
  pub line_end : 0 < h.header_len → h.header_len < h.rest_len

pub next_header-Ensures :
    (d : Bytes) (len : ℕ)
    → length d ≡ len
    → 2 ≤ len
    → len < 2 ^ 62
    → Ensures 4 (Found len) (next_header d len)
unfolding next_header
next_header-Ensures d len e two small =
    Ensures-bind (skip_line d len) _ (skip_line-Ensures d len e two small) (λ at a. behind at a)
  where
    behind :
        (at : Bytes × ℕ)
        → Advanced len at
        → Ensures 4 (Found len) (do
          n ← header_end (drop 2 at.0) (sub_size at.1 2) 0
          ok (record { header_len = n; rest = drop 2 at.0; rest_len = sub_size at.1 2 }))
    behind at a =
        let left : sub_size at.1 2 ≡ at.1 - 2 = omega (arith, a.two, a.within) in
        let exact : length (drop 2 at.0) ≡ at.1 - 2 = omega (arith, length-drop 2 at.0, a.exact) in
        rw left (
          Ensures-bind (header_end (drop 2 at.0) (at.1 - 2) 0) _
            (header_end-Ensures (drop 2 at.0) (at.1 - 2) 0 (omega arith) (omega (arith, a.within)))
            (λ n h. returns (record {
              exact = exact;
              shorter = omega (arith, a.two, a.within);
              inside = h.1;
              line_end = h.2;
            })))

pub strncasecmp_eq-Ensures :
    (hs d : Bytes) → length hs ≤ length d → Ensures 4 (λ (b : Bool). Unit {0}) (strncasecmp_eq hs d)
unfolding strncasecmp_eq
strncasecmp_eq-Ensures [] d h = returns tt
strncasecmp_eq-Ensures (x ∷ hs) [] h = absurd (omega arith)
strncasecmp_eq-Ensures (x ∷ hs) (c ∷ d) h = elim (Bool-cases (to_lower x == to_lower c)) [
  | inl e ↦ rw e (strncasecmp_eq-Ensures hs d (omega arith))
  | inr e ↦ rw e (returns tt)
]

skip_blanks-Ensures :
    (d : Bytes) (k len : ℕ)
    → len ≤ k + length d
    → k ≤ len
    → len < 2 ^ 62
    → Ensures 4 (λ n. (k ≤ n) × (n ≤ len)) (skip_blanks d k len)
unfolding skip_blanks
skip_blanks-Ensures [] k len h le small =
    let stop : ltb k len ≡ false = ground arith in rw stop (returns (omega arith, omega arith))
skip_blanks-Ensures (c ∷ d) k len h le small = elim (Bool-cases (not (ltb k len))) [
  | inl stop ↦ rw stop (returns (omega arith, omega arith))
  | inr go ↦ rw go (elim (Bool-cases (is_blank c)) [
    | inr stop ↦ rw stop (returns (omega arith, omega arith))
    | inl b ↦
        let next : add_size k 1 ≡ k + 1 = omega arith in
        rw (b, next)
          (Ensures-map _ (λ n a. (omega arith, a.1))
            (skip_blanks-Ensures d (k + 1) len (omega arith) (ground arith) small))
  ])
]

-- A value that is copied out of the request, and is not all of it.
pub record ValueOf (mem name : Bytes) : Type 0 where
  pub offset : ℕ
  pub size : ℕ
  pub inside : offset + size < length mem
  pub copied : name ≡ strncpy (slice mem offset size)

length-strncpy : (s : Bytes) → length (strncpy s) ≡ length s
unfolding strncpy
length-strncpy [] = refl
length-strncpy (zero ∷ s) = ap suc (blanked s)
  where
    blanked : (t : Bytes) → length (nuls t) ≡ length t
    blanked [] = refl
    blanked (c ∷ t) = ap suc (blanked t)
length-strncpy (suc c ∷ s) = ap suc (length-strncpy s)

-- A value of less than 2 ^ 31 bytes is returned whole.
pub as_result_lem : (s : Bytes) → length s < 2 ^ 31 → as_result s ≡ ok s
unfolding as_result
as_result_lem s h =
    let same : length s % 2 ^ 32 ≡ length s = omega arith in
    let holds : ltb (length s) (2 ^ 31) ≡ true = ground arith in
    rw (same, holds) (ap ok (take_all (length s) s (omega arith)))

pub header_value-Ensures :
    (d : Bytes) (len : ℕ) (header : Bytes) (malloc_ok : Bool)
    → len < length d
    → length header ≤ len
    → length d < 2 ^ 31
    → Ensures 4 (ValueOf d) (header_value d len header malloc_ok)
unfolding header_value
header_value-Ensures d len header malloc_ok h le small =
    Ensures-bind (skip_blanks (drop (length header) d) (length header) len) _
      (skip_blanks-Ensures (drop (length header) d) (length header) len
        (omega (arith, length-drop (length header) d)) le (omega arith))
      (λ start a. value start a.0 a.1)
  where
    copy :
        (start : ℕ)
        → start ≤ len
        → Ensures 4 (ValueOf d) (as_result (strncpy (slice d start (len - start))))
    copy start hi =
        let value = slice d start (len - start) in
        rw
          (as_result_lem (strncpy value)
            (omega (arith, length-strncpy value, length-slice d start (len - start))))
          (returns
            (record { offset = start; size = len - start; inside = omega arith; copied = refl }))

    value :
        (start : ℕ)
        → length header ≤ start
        → start ≤ len
        → Ensures 4 (ValueOf d) (do
          check malloc_ok 4
          value ← bytes_at d start (sub_size len start)
          as_result (strncpy value))
    value start lo hi =
        let size : sub_size len start ≡ len - start = omega arith in
        rw size (
          Ensures-check malloc_ok 4 _ (omega arith) (omega arith) (λ _.
            Ensures-bytes_at d start (len - start) _ (omega arith) (copy start (omega arith))))

pub length-ValueOf : {d name : Bytes} → ValueOf d name → length name < length d
length-ValueOf {d} v = omega (
  arith,
  ap length v.copied,
  length-strncpy (slice d v.offset v.size),
  length-slice d v.offset v.size,
  v.inside,
)
