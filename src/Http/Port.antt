-- ===== src/Http/Port.antt =====
-- The port at the end of a `Host:` header.
use sniproxy.Prelude.{
  ℕ, zero, suc, ◌+◌, ◌≤◌, ◌<◌, ◌≡◌, ◌≢◌, refl, ap, ◌∙◌, subst, true, false, [], ◌∷◌, ◌++◌,
  append_assoc, Bytes, length, length-append, take, take_all, take-append, arith, ◌==◌,
  if◌then◌else◌, Bool-cases, inl, inr,
}
use sniproxy.Parse.{ok, byte_at}
use sniproxy.Http.{is_digit, trim_port}

abbrev pub AllDigits : Bytes → Type 0
AllDigits [] = Unit
AllDigits (c ∷ cs) = (is_digit c ≡ true) × AllDigits cs

-- The host that a header's value names: what stands in front of a colon and digits, or all of the
-- value where it does not end so.
pub data NamesHost (value host : Bytes) : Type 0 where
  with_port :
      (digits : Bytes) → AllDigits digits → value ≡ host ++ (b':' ∷ digits) → NamesHost value host
  without_port :
      (start : Bytes) (c : ℕ) (digits : Bytes)
      → is_digit c ≡ false
      → c ≢ b':'
      → AllDigits digits
      → value ≡ start ++ (c ∷ digits)
      → host ≡ value
      → NamesHost value host
  only_digits : AllDigits value → host ≡ value → NamesHost value host

byte_at-append : (xs : Bytes) (c : ℕ) (ys : Bytes) → byte_at (xs ++ (c ∷ ys)) (length xs) ≡ ok c
byte_at-append [] c ys = refl
byte_at-append (x ∷ xs) c ys = byte_at-append xs c ys

digit_at :
    (xs ds : Bytes) (i : ℕ)
    → AllDigits ds
    → length xs ≤ i
    → i < length xs + length ds
    → (c : ℕ) × (byte_at (xs ++ ds) i ≡ ok c) × (is_digit c ≡ true)
digit_at [] [] i h le lt = absurd (omega arith)
digit_at [] (d ∷ ds) zero h le lt = (d, refl, h.0)
digit_at [] (d ∷ ds) (suc i) h le lt = digit_at [] ds i h.1 (omega arith) (omega arith)
digit_at (x ∷ xs) ds zero h le lt = absurd (omega arith)
digit_at (x ∷ xs) ds (suc i) h le lt = digit_at xs ds i h (omega arith) (omega arith)

-- The loop passes over the digits at the end.
trim_port-digits :
    (xs ds : Bytes) (k m : ℕ)
    → AllDigits ds
    → k ≤ length ds
    → m ≡ length xs + k
    → trim_port m (xs ++ ds) ≡ trim_port (length xs) (xs ++ ds)
unfolding trim_port
trim_port-digits xs ds zero m h le e = ap (λ n. trim_port n (xs ++ ds)) (omega arith)
trim_port-digits xs ds (suc k) zero h le e = absurd (omega arith)
trim_port-digits xs ds (suc k) (suc m) h le e =
    let (c, eq, d) = digit_at xs ds m h (omega arith) (omega arith) in
    let no_colon : (c == b':') ≡ false = ground arith in
    rw (eq, no_colon, d) (trim_port-digits xs ds k m h (omega arith) (omega arith))

-- The loop stops at the byte in front of them.
trim_port-stop :
    (xs : Bytes) (c : ℕ) (ds : Bytes)
    → AllDigits ds
    → is_digit c ≡ false
    → trim_port (length (xs ++ (c ∷ ds))) (xs ++ (c ∷ ds))
      ≡ ok (if c == b':' then length xs else length (xs ++ (c ∷ ds)))
unfolding trim_port
trim_port-stop xs c ds h nd =
    let joined : (xs ++ (c ∷ [])) ++ ds ≡ xs ++ (c ∷ ds) = append_assoc xs (c ∷ []) ds in
    let last : length (xs ++ (c ∷ [])) ≡ suc (length xs) =
      length-append xs (c ∷ []) ∙ omega arith in
    let passed =
      trim_port-digits (xs ++ (c ∷ [])) ds (length ds) (length (xs ++ (c ∷ ds))) h (omega arith)
        (omega (arith, last, length-append xs (c ∷ ds))) in
    subst (λ w. trim_port (length (xs ++ (c ∷ ds))) w ≡ trim_port (suc (length xs)) w) joined
      (passed ∙ ap (λ n. trim_port n ((xs ++ (c ∷ [])) ++ ds)) last)
    ∙ rw (byte_at-append xs c ds)
        (elim (Bool-cases (c == b':')) [ inl e ↦ rw e | inr e ↦ rw (e, nd) ])

-- The last loop of `parse_http_header` cuts exactly a colon and the digits behind it off the end
-- of a value, and leaves any other value as it is.
pub trim_port-NamesHost :
    {value host : Bytes} → NamesHost value host → trim_port (length value) value ≡ ok (length host)
trim_port-NamesHost {value} {host} (with_port ds h e) = rw e (trim_port-stop host b':' ds h refl)
trim_port-NamesHost {value} {host} (without_port start c ds nd nc h e e') =
    let no_colon : (c == b':') ≡ false = ground arith in
    rw (e', e) (trim_port-stop start c ds h nd ∙ rw no_colon)
trim_port-NamesHost {value} {host} (only_digits h e) = rw e (
    trim_port-digits [] value (length value) (length value) h (omega arith) (omega arith)
    ∙ unfold trim_port in refl)

pub take-NamesHost : {value host : Bytes} → NamesHost value host → take (length host) value ≡ host
take-NamesHost {value} {host} (with_port ds h e) = rw e (take-append host (b':' ∷ ds))
take-NamesHost {value} {host} (without_port start c ds nd nc h e e') =
    rw e' (take_all (length value) value (omega arith))
take-NamesHost {value} {host} (only_digits h e) = rw e (take_all (length value) value (omega arith))
