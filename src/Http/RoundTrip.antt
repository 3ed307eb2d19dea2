-- ===== src/Http/RoundTrip.antt =====
-- `parse_http_header` reads the host of every well-formed request.
use sniproxy.Prelude.{
  ℕ, zero, suc, ◌+◌, ◌^◌, ◌≤◌, ◌<◌, ◌≡◌, refl, sym, ap, ◌∙◌, Bool, true, false, not, ◌&&◌, inl, inr,
  List, [], ◌∷◌, ◌++◌, append_assoc, Bytes, codes, length, drop, take, length-append, take-append,
  drop-append, drop-drop, arith, ltb, leb, ◌==◌, Bool-cases, add_size, sub_size,
}
use sniproxy.Parse.{Result, ok, bytes_at, strncpy}
use sniproxy.Http.{
  is_blank, skip_blanks, as_result, header_value, get_header_round, get_header, parse_http_header,
}
use sniproxy.Http.Port.{NamesHost, trim_port-NamesHost, take-NamesHost}
use sniproxy.Http.Reads.{as_result_lem}
use sniproxy.Http.Scan.{
  NoBreak, line, length-line, next_header-line, has_name, strncasecmp_eq-has_name,
}

-- Header lines, each with its end, in front of what follows.
abbrev pub lines : List Bytes → Bytes → Bytes
lines [] rest = rest
lines (l ∷ ls) rest = line l (lines ls rest)

-- A header line that is not empty and does not start with the name.
abbrev pub Others : Bytes → List Bytes → Type 0
Others name [] = Unit
Others name (l ∷ ls) =
    (NoBreak l × (0 < length l) × ((ltb (length name) (length l) && has_name name l) ≡ false))
    × Others name ls

module _ (name : Bytes) (malloc_ok : Bool) where
  round-other :
      (old l rest : Bytes) (len : ℕ) (next : Bytes → ℕ → Result Bytes)
      → NoBreak old
      → NoBreak l
      → 0 < length l
      → (ltb (length name) (length l) && has_name name l) ≡ false
      → len ≡ length (line old (line l rest))
      → len < 2 ^ 62
      → get_header_round name (line old (line l rest)) len malloc_ok next
        ≡ next (line l rest) (length (line l rest))
  unfolding get_header_round
  round-other old l rest len next ho hl p other e small =
      rw (next_header-line old l rest len ho hl e small, some_bytes)
        (elim (Bool-cases (ltb (length name) (length l))) [
          | inr short ↦ rw short
          | inl long ↦
              let differs : has_name name l ≡ false = ground arith in
              rw (long, strncasecmp_eq-has_name name l (13 ∷ 10 ∷ rest) (ground arith), differs)
        ])
    where
      some_bytes : (length l == 0) ≡ false
      some_bytes = ground arith

  round-name :
      (old l rest : Bytes) (len : ℕ) (next : Bytes → ℕ → Result Bytes)
      → NoBreak old
      → NoBreak l
      → length name < length l
      → has_name name l ≡ true
      → len ≡ length (line old (line l rest))
      → len < 2 ^ 62
      → get_header_round name (line old (line l rest)) len malloc_ok next
        ≡ header_value (line l rest) (length l) name malloc_ok
  unfolding get_header_round
  round-name old l rest len next ho hl long same e small = rw (
    next_header-line old l rest len ho hl e small,
    some_bytes,
    longer,
    strncasecmp_eq-has_name name l (13 ∷ 10 ∷ rest) (omega arith),
    same,
  )
    where
      some_bytes : (length l == 0) ≡ false
      some_bytes = ground arith

      longer : ltb (length name) (length l) ≡ true
      longer = ground arith

  -- The loop passes over the other headers, up to the one with the name.
  get_header-lines :
      (ls : List Bytes) (f : ℕ) (old l rest : Bytes) (len : ℕ)
      → length ls ≤ f
      → Others name ls
      → NoBreak old
      → NoBreak l
      → length name < length l
      → has_name name l ≡ true
      → len ≡ length (line old (lines ls (line l rest)))
      → len < 2 ^ 62
      → get_header (suc f) name (line old (lines ls (line l rest))) len malloc_ok
        ≡ header_value (line l rest) (length l) name malloc_ok
  unfolding get_header
  get_header-lines [] f old l rest len le o ho hl long same e small =
      round-name old l rest len _ ho hl long same e small
  get_header-lines (x ∷ ls) zero old l rest len le o ho hl long same e small = absurd (omega arith)
  get_header-lines (x ∷ ls) (suc f) old l rest len le o ho hl long same e small =
      round-other old x (lines ls (line l rest)) len _ ho o.0.0 o.0.1 o.0.2 e small
      ∙ get_header-lines ls f x l rest _ (omega arith) o.1 o.0.0 hl long same refl
          (omega (arith, length-line old (line x (lines ls (line l rest)))))

abbrev pub Blanks : Bytes → Type 0
Blanks [] = Unit
Blanks (c ∷ cs) = (is_blank c ≡ true) × Blanks cs

-- A value does not start with a blank.
abbrev pub StartsDark : Bytes → Type 0
StartsDark [] = Unit
StartsDark (c ∷ cs) = is_blank c ≡ false

abbrev pub NoNul : Bytes → Type 0
NoNul [] = Unit
NoNul (c ∷ cs) = (0 < c) × NoNul cs

strncpy-NoNul : (s : Bytes) → NoNul s → strncpy s ≡ s
unfolding strncpy
strncpy-NoNul [] h = refl
strncpy-NoNul (zero ∷ s) h = absurd (omega (arith, h.0))
strncpy-NoNul (suc c ∷ s) h = ap (λ l. suc c ∷ l) (strncpy-NoNul s h.1)

skip_blanks-Blanks :
    (bs value rest : Bytes) (k len : ℕ)
    → Blanks bs
    → StartsDark value
    → len ≡ k + length bs + length value
    → len < 2 ^ 62
    → skip_blanks (bs ++ line value rest) k len ≡ ok (k + length bs)
unfolding skip_blanks
skip_blanks-Blanks [] [] rest k len h dark e small =
    let stop : not (ltb k len) ≡ true = ground arith in rw stop (ap ok (omega arith))
skip_blanks-Blanks [] (c ∷ value) rest k len h dark e small =
    let more : not (ltb k len) ≡ false = ground arith in rw (more, dark) (ap ok (omega arith))
skip_blanks-Blanks (b ∷ bs) value rest k len h dark e small =
    let more : not (ltb k len) ≡ false = ground arith in
    let next : add_size k 1 ≡ k + 1 = omega arith in
    rw (more, h.0, next)
      (skip_blanks-Blanks bs value rest (k + 1) len h.1 dark (omega arith) small
        ∙ ap ok (omega arith))

-- The memory of a header line, from the blanks on, and from the value on.
module _ (label bs value rest : Bytes) where
  from_blanks : drop (length label) (line (label ++ (bs ++ value)) rest) ≡ bs ++ line value rest
  from_blanks =
      ap (drop (length label)) (append_assoc label (bs ++ value) (13 ∷ 10 ∷ rest))
      ∙ drop-append label ((bs ++ value) ++ (13 ∷ 10 ∷ rest))
      ∙ append_assoc bs value (13 ∷ 10 ∷ rest)

  from_value :
      drop (length label + length bs) (line (label ++ (bs ++ value)) rest) ≡ line value rest
  from_value =
      sym (drop-drop (length bs) (length label) (line (label ++ (bs ++ value)) rest))
      ∙ ap (drop (length bs)) from_blanks
      ∙ drop-append bs (line value rest)

  header_len : length (label ++ (bs ++ value)) ≡ length label + length bs + length value
  header_len = omega (arith, length-append label (bs ++ value), length-append bs value)

  bytes_at-value :
      bytes_at (line (label ++ (bs ++ value)) rest) (length label + length bs) (length value)
      ≡ ok value
  bytes_at-value =
      let inside : leb (length label + length bs + length value)
            (length (line (label ++ (bs ++ value)) rest))
          ≡ true =
        ground (arith, length-line (label ++ (bs ++ value)) rest, header_len) in
      rw inside (ap ok (ap (take (length value)) from_value ∙ take-append value (13 ∷ 10 ∷ rest)))

header_value-value :
    (label name bs value rest : Bytes)
    → length label ≡ length name
    → Blanks bs
    → StartsDark value
    → NoNul value
    → length label + length bs + length value < 2 ^ 31
    → header_value (line (label ++ (bs ++ value)) rest) (length (label ++ (bs ++ value))) name true
      ≡ ok value
unfolding header_value
header_value-value label name bs value rest same h dark nn small =
    let skipped =
      skip_blanks-Blanks bs value rest (length label) (length label + length bs + length value) h
        dark refl (omega arith) in
    let size : sub_size (length label + length bs + length value) (length label + length bs)
        ≡ length value =
      omega arith in
    rw (← same) (
      rw (header_len label bs value rest) (
        rw (from_blanks label bs value rest) (
          rw skipped (
            rw size (
              rw (bytes_at-value label bs value rest)
                (ap as_result (strncpy-NoNul value nn) ∙ as_result_lem value (omega arith)))))))

-- A request with its host.
pub record Request : Type 0 where
  pub request_line : Bytes
  pub before : List Bytes
  -- `Host:`, in capitals or not, the blanks behind it, and the value.
  pub label : Bytes
  pub blanks : Bytes
  pub value : Bytes
  -- All that follows the line: other headers, a blank line, a body.
  pub after : Bytes

abbrev pub host_line : Request → Bytes
host_line r = r.label ++ (r.blanks ++ r.value)

abbrev pub request : Request → Bytes
request r = line r.request_line (lines r.before (line (host_line r) r.after))

pub record IsWellFormed (r : Request) : Type 0 where
  pub line_ok : NoBreak r.request_line
  pub others : Others (codes "Host:") r.before
  pub host_ok : NoBreak (host_line r)
  pub label_len : length r.label ≡ 5
  pub label_is : has_name (codes "Host:") (host_line r) ≡ true
  pub blanks_ok : Blanks r.blanks
  pub value_starts : StartsDark r.value
  pub no_nul : NoNul r.value
  pub not_empty : 0 < length r.blanks + length r.value

length-lines : (ls : List Bytes) (rest : Bytes) → length ls + length rest ≤ length (lines ls rest)
length-lines [] rest = omega arith
length-lines (l ∷ ls) rest = omega (arith, length-line l (lines ls rest), length-lines ls rest)

-- `parse_http_header` returns the host that the first `Host:` header of a well-formed request of
-- less than 2 ^ 31 bytes names, without the port: whatever the request line, the headers in front
-- and all that follows are, with the name in any case and any blanks behind it.
pub parse_http_header-host :
    (r : Request) (host : Bytes)
    → IsWellFormed r
    → NamesHost r.value host
    → length (request r) < 2 ^ 31
    → parse_http_header (request r) true true ≡ ok host
unfolding parse_http_header
parse_http_header-host r host wf names small =
    rw
      (
        get_header-lines (codes "Host:") true r.before (length (request r)) r.request_line
            (host_line r) r.after (length (request r)) many wf.others wf.line_ok wf.host_ok long
            wf.label_is refl (omega arith),
        header_value-value r.label (codes "Host:") r.blanks r.value r.after wf.label_len
            wf.blanks_ok wf.value_starts wf.no_nul short,
        trim_port-NamesHost names,
      )
      (ap ok (take-NamesHost names))
  where
    total :
        length (request r)
        ≡ length r.request_line + 2 + length (lines r.before (line (host_line r) r.after))
    total = length-line r.request_line (lines r.before (line (host_line r) r.after))

    many : length r.before ≤ length (request r)
    many = omega (arith, total, length-lines r.before (line (host_line r) r.after))

    long : 5 < length (host_line r)
    long = omega (arith, header_len r.label r.blanks r.value r.after, wf.label_len, wf.not_empty)

    short : length r.label + length r.blanks + length r.value < 2 ^ 31
    short = omega (
      arith,
      total,
      length-lines r.before (line (host_line r) r.after),
      length-line (host_line r) r.after,
      header_len r.label r.blanks r.value r.after,
    )
