-- ===== src/Tls/RoundTrip.antt =====
-- `parse_tls_header` reads the name of every well-formed client hello.
use sniproxy.Prelude.{
  ℕ, ◌+◌, ◌*◌, ◌/◌, ◌%◌, ◌^◌, ◌<◌, ◌≡◌, refl, true, not, ◌&&◌, [], ◌∷◌, ◌++◌, Bytes, length, drop,
  length-append, arith, ltb, ◌==◌, add_size, min_size,
}
use sniproxy.Parse.{ok, ◌>>=◌, ◌>>◌, check}
use sniproxy.Tls.{word_at, parse_extensions, parse_hello_body, parse_handshake, parse_tls_header}
use sniproxy.Tls.Hello.{
  word, field8, field16, extension, extensions, server_name, Hello, all_extensions, handshake,
  tls_record, IsWellFormed,
}
use sniproxy.Tls.Cursor.{Cursor, Cursor-skip, Cursor-skip_by, Cursor-word, add_size-lt}
use sniproxy.Tls.Extensions.{
  extensions_loop-name, length-extensions, skip_field8-field, skip_field16-field,
}

-- The extensions, as the last field of the handshake.
body_end-name :
    (h : Hello) (cs tail : Bytes) (n pos : ℕ)
    → IsWellFormed h
    → length h.name < 65500
    → Cursor cs tail n pos (field16 (all_extensions h))
    → (do
      check (not (ltb n (add_size pos 2))) 5
      len ← word_at cs pos
      check (not (ltb n (add_size (add_size pos 2) len))) 5
      parse_extensions (drop (add_size pos 2) cs) len true)
      ≡ ok h.name
unfolding parse_extensions
body_end-name h cs tail n pos wf small c =
    rw (start, fits, Cursor-word {w = length (all_extensions h)} c', ends)
      (extensions_loop-name h.before (length (all_extensions h)) (drop (pos + 2) cs) tail
        (length (all_extensions h)) 0 h.name (extensions h.after)
        (omega (
          arith,
          length-append (extensions h.before)
              (extension (server_name h.name) ++ extensions h.after),
          length-extensions h.before,
        ))
        wf.others wf.not_empty wf.no_nul small inner)
  where
    c' : Cursor cs tail n pos (word (length (all_extensions h)) ++ all_extensions h)
    c' = c

    start : add_size pos 2 ≡ pos + 2
    start = add_size-lt pos 2 (omega (arith, c.end, c.small))

    fits : not (ltb n (pos + 2)) ≡ true
    fits = ground (arith, c.end)

    ends : not (ltb n (add_size (pos + 2) (length (all_extensions h)))) ≡ true
    ends = ground (arith, c.end, c.small)

    inner : Cursor (drop (pos + 2) cs) tail (length (all_extensions h)) 0 (all_extensions h)
    inner = record {
      at = (Cursor-skip (word (length (all_extensions h))) c').at;
      end = omega arith;
      small = omega (arith, c.end, c.small);
    }

-- The fields of variable length in front of the extensions.
parse_hello_body-name :
    (h : Hello) (cs tail : Bytes) (n pos major minor : ℕ)
    → IsWellFormed h
    → length h.name < 65500
    → Cursor cs tail n pos (
        field8 h.session
        ++ (field16 h.cipher_suites ++ (field8 h.compression ++ field16 (all_extensions h))))
    → parse_hello_body cs n major minor true pos ≡ ok h.name
unfolding parse_hello_body
parse_hello_body-name h cs tail n pos major minor wf small c =
    rw
      (
        skip_field8-field h.session _ c,
        skip_field16-field h.cipher_suites _ c1,
        skip_field8-field h.compression _ c2,
        more,
      )
      (body_end-name h cs tail n p3 wf small c3)
  where
    p1 : ℕ
    p1 = pos + (1 + length h.session)

    p2 : ℕ
    p2 = p1 + (2 + length h.cipher_suites)

    p3 : ℕ
    p3 = p2 + (1 + length h.compression)

    c1 :
        Cursor cs tail n p1
          (field16 h.cipher_suites ++ (field8 h.compression ++ field16 (all_extensions h)))
    c1 = Cursor-skip_by (field8 h.session) (1 + length h.session) (omega arith) c

    c2 : Cursor cs tail n p2 (field8 h.compression ++ field16 (all_extensions h))
    c2 = Cursor-skip_by (field16 h.cipher_suites) (2 + length h.cipher_suites) (omega arith) c1

    c3 : Cursor cs tail n p3 (field16 (all_extensions h))
    c3 = Cursor-skip_by (field8 h.compression) (1 + length h.compression) (omega arith) c2

    more : not (p3 == n && major == 3 && minor == 0) ≡ true
    more = ground (arith, c3.end)

name-lt : (h : Hello) → IsWellFormed h → length h.name < 65500
name-lt h wf = omega (
  arith,
  wf.fits,
  wf.fixed_len,
  length-append h.fixed (
      field8 h.session
      ++ (field16 h.cipher_suites ++ (field8 h.compression ++ field16 (all_extensions h)))),
  length-append h.session
      (field16 h.cipher_suites ++ (field8 h.compression ++ field16 (all_extensions h))),
  length-append h.cipher_suites (field8 h.compression ++ field16 (all_extensions h)),
  length-append h.compression (field16 (all_extensions h)),
  length-append (extensions h.before) (extension (server_name h.name) ++ extensions h.after),
  length-append h.name (extensions h.after),
)

-- `parse_tls_header` returns the server name of every well-formed TLS client hello of less than 2
-- ^ 40 bytes with what follows it: whatever its session ID, cipher suites, compression methods and
-- other extensions are, and whatever bytes follow the record.
pub parse_tls_header-name :
    (h : Hello) (rest : Bytes)
    → IsWellFormed h
    → length (tls_record h ++ rest) < 2 ^ 40
    → parse_tls_header (tls_record h ++ rest) true true ≡ ok h.name
unfolding parse_tls_header parse_handshake
parse_tls_header-name h rest wf small =
    rw (enough, joined, whole, complete)
      (rw long (
        parse_hello_body-name h cs rest n 43 3 h.minor wf (name-lt h wf)
          (Cursor-skip_by h.fixed 37 wf.fixed_len at_fixed)))
  where
    n : ℕ
    n = 5 + length (handshake h)

    cs : Bytes
    cs = tls_record h ++ rest

    total : length cs ≡ 5 + length (handshake h) + length rest
    total = omega (arith, length-append (handshake h) rest)

    enough : not (ltb (length cs) 5) ≡ true
    enough = ground (arith, total)

    joined : length (handshake h) / 256 * 256 + length (handshake h) % 256 ≡ length (handshake h)
    joined = omega arith

    start : Cursor cs rest n 0 (tls_record h)
    start = record { at = refl; end = omega arith; small = omega (arith, wf.fits) }

    at_fixed : Cursor cs rest n 6 (
        h.fixed
        ++ (field8 h.session
            ++ (field16 h.cipher_suites ++ (field8 h.compression ++ field16 (all_extensions h)))))
    at_fixed = Cursor-skip (0x16 ∷ 3 ∷ h.minor ∷ (word (length (handshake h)) ++ (0x01 ∷ []))) start

    whole : min_size (length cs) (add_size (length (handshake h)) 5) ≡ n
    whole = ground (arith, total, wf.fits)

    complete : not (ltb n (add_size (length (handshake h)) 5)) ≡ true
    complete = ground (arith, wf.fits)

    long : not (ltb n 6) ≡ true
    long = ground arith
