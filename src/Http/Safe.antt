-- ===== src/Http/Safe.antt =====
-- The reads of src/http.c: inside the request where it has two bytes, and past it where it has one.
use sniproxy.Prelude.{
  ℕ, zero, suc, ◌+◌, ◌^◌, ◌≤◌, ◌<◌, ◌≡◌, refl, Bool, true, false, not, inl, inr, [], ◌∷◌, Bytes,
  codes, length, length-take, arith, ltb, ◌==◌, if◌then◌else◌, Bool-cases,
}
use sniproxy.Parse.{Result, ok, fail, ◌>>=◌, byte_at}
use sniproxy.Parse.Ensures.{Ensures, returns, fails, Ensures-map, Ensures-bind, Ensures-check}
use sniproxy.Http.{
  is_digit, Header, next_header, strncasecmp_eq, header_value, get_header_round, get_header,
  trim_port, parse_http_header,
}
use sniproxy.Http.Reads.{
  Found, next_header-Ensures, strncasecmp_eq-Ensures, header_value-Ensures, length-ValueOf,
}

module _ (header : Bytes) (malloc_ok : Bool) (bound : ℕ) (small : bound < 2 ^ 31) where
  get_header_round-Ensures :
      (d : Bytes) (len : ℕ) (next : Bytes → ℕ → Result Bytes)
      → length d ≡ len
      → 2 ≤ len
      → len ≤ bound
      → ((d' : Bytes) (len' : ℕ)
          → length d' ≡ len'
          → 2 ≤ len'
          → len' + 2 ≤ len
          → Ensures 4 (λ name. length name < bound) (next d' len'))
      → Ensures 4 (λ name. length name < bound) (get_header_round header d len malloc_ok next)
  unfolding get_header_round
  get_header_round-Ensures d len next e two le later =
      Ensures-bind (next_header d len) _ (next_header-Ensures d len e two (omega arith)) found
    where
      compared :
          (h : Header)
          → Found len h
          → 0 < h.header_len
          → length header < h.header_len
          → (same : Bool)
          → Ensures 4
              (λ name. length name < bound)
              (if same
                then header_value h.rest h.header_len header malloc_ok
                else next h.rest h.rest_len)
      compared h a p long true =
          Ensures-map _ (λ name v. omega (arith, length-ValueOf v, a.exact, a.shorter))
            (header_value-Ensures h.rest h.header_len header malloc_ok
              (omega (arith, a.exact, a.line_end p)) (omega arith)
              (omega (arith, a.exact, a.shorter)))
      compared h a p long false =
          later h.rest h.rest_len a.exact (omega (arith, a.line_end p)) a.shorter

      found :
          (h : Header)
          → Found len h
          → Ensures 4
              (λ name. length name < bound)
              (if h.header_len == 0
                then (if h.rest_len == 0 then fail 1 else fail 2)
                else if not (ltb (length header) h.header_len)
                then next h.rest h.rest_len
                else (do
                  same ← strncasecmp_eq header h.rest
                  if same
                      then header_value h.rest h.header_len header malloc_ok
                      else next h.rest h.rest_len))
      found h a = elim (Bool-cases (h.header_len == 0)) [
        | inl z ↦ rw z (elim (Bool-cases (h.rest_len == 0)) [
          | inl y ↦ rw y (fails (omega arith) (omega arith))
          | inr y ↦ rw y (fails (omega arith) (omega arith))
        ])
        | inr nz ↦
            let p : 0 < h.header_len = ground arith in
            rw nz (elim (Bool-cases (not (ltb (length header) h.header_len))) [
              | inl short ↦
                  rw short (later h.rest h.rest_len a.exact (omega (arith, a.line_end p)) a.shorter)
              | inr long ↦ rw long (
                  Ensures-bind (strncasecmp_eq header h.rest) _
                    (strncasecmp_eq-Ensures header h.rest (ground (arith, a.exact, a.inside)))
                    (λ same _. compared h a p (ground arith) same))
            ])
      ]

  get_header-Ensures :
      (f : ℕ) (d : Bytes) (len : ℕ)
      → length d ≡ len
      → 2 ≤ len
      → len ≤ bound
      → len ≤ f
      → Ensures 4 (λ name. length name < bound) (get_header f header d len malloc_ok)
  unfolding get_header
  get_header-Ensures zero d len e two le fuel = absurd (omega arith)
  get_header-Ensures (suc f) d len e two le fuel =
      get_header_round-Ensures d len _ e two le (λ d' len' e' two' shorter.
        get_header-Ensures f d' len' e' two' (omega arith) (omega arith))

byte_at-inside : (cs : Bytes) (i : ℕ) → i < length cs → (c : ℕ) × (byte_at cs i ≡ ok c)
byte_at-inside [] i lt = absurd (omega arith)
byte_at-inside (c ∷ cs) zero lt = (c, refl)
byte_at-inside (c ∷ cs) (suc i) lt = byte_at-inside cs i (omega arith)

trim_port-Ensures :
    (i : ℕ) (name : Bytes) → i ≤ length name → Ensures 4 (λ n. n ≤ length name) (trim_port i name)
unfolding trim_port
trim_port-Ensures zero name h = returns (omega arith)
trim_port-Ensures (suc i) name h =
    let (c, e) = byte_at-inside name i (omega arith) in
    rw e (elim (Bool-cases (c == 58)) [
      | inl colon ↦ rw colon (returns (omega arith))
      | inr no_colon ↦ rw no_colon (elim (Bool-cases (not (is_digit c))) [
        | inl other ↦ rw other (returns (omega arith))
        | inr digit ↦ rw digit (trim_port-Ensures i name (omega arith))
      ])
    ])

-- `parse_http_header` on a request of at least two and less than 2 ^ 31 bytes: every read lies
-- inside it and the loops end. An error is one of the documented codes -1 to -4, and a hostname is
-- shorter than the request.
pub parse_http_header-Ensures :
    (d : Bytes) (hostname_given malloc_ok : Bool)
    → 2 ≤ length d
    → length d < 2 ^ 31
    → Ensures 4 (λ name. length name < length d) (parse_http_header d hostname_given malloc_ok)
unfolding parse_http_header
parse_http_header-Ensures d given malloc_ok two small =
    Ensures-check given 3 _ (omega arith) (omega arith) (λ _.
      Ensures-bind (get_header (suc (length d)) (codes "Host:") d (length d) malloc_ok) _
        (get_header-Ensures (codes "Host:") malloc_ok (length d) small (suc (length d)) d (length d)
          refl two (omega arith) (omega arith))
        (λ name h.
          Ensures-bind (trim_port (length name) name) _
            (trim_port-Ensures (length name) name (omega arith))
            (λ n _. returns (omega (arith, length-take n name)))))
