-- ===== src/Tls/Safe.antt =====
-- No read of src/tls.c leaves the packet, and its loops end.
use sniproxy.Prelude.{
  ℕ, ◌+◌, ◌^◌, ◌≤◌, ◌<◌, ◌≡◌, Bool, not, ◌&&◌, Bytes, length, drop, length-drop, arith, ltb, ◌==◌,
  bit_and, add_size, min_size,
}
use sniproxy.Parse.{ok, ◌>>=◌, ◌>>◌, check}
use sniproxy.Parse.Ensures.{
  Ensures, returns, AreBytes, AreBytes-drop, CopiedFrom, CopiedFrom-drop, Ensures-map, Ensures-bind,
  Ensures-check, Ensures-byte_at,
}
use sniproxy.Tls.{
  client_hello_type, word_at, parse_extensions, skip_field8, skip_field16, parse_hello_body,
  parse_handshake, parse_tls_header,
}
use sniproxy.Tls.Loops.{Ensures-word_at, parse_extensions-Ensures}

module _ (cs : Bytes) (h : AreBytes cs) (small : length cs < 2 ^ 61) (malloc_ok : Bool) where
  -- A field with its length in front ends at most 2 ^ 16 + 1 bytes further on.
  skip_field8-Ensures :
      (n pos : ℕ)
      → n ≤ length cs
      → pos < 2 ^ 62
      → Ensures 5 (λ pos'. pos' ≤ pos + 65537) (skip_field8 cs n pos)
  skip_field8-Ensures n pos le lim =
      Ensures-check (not (ltb n (add_size pos 1))) 5 _ (omega arith) (omega arith)
        (λ fits. Ensures-byte_at cs pos _ h (ground arith) (λ len _ hl. returns (omega arith)))

  skip_field16-Ensures :
      (n pos : ℕ)
      → n ≤ length cs
      → pos < 2 ^ 62
      → Ensures 5 (λ pos'. pos' ≤ pos + 65537) (skip_field16 cs n pos)
  skip_field16-Ensures n pos le lim =
      Ensures-check (not (ltb n (add_size pos 2))) 5 _ (omega arith) (omega arith) (λ fits.
        Ensures-word_at cs pos (λ len. ok (add_size pos (add_size 2 len))) h (omega arith)
          (ground arith) (λ len hl. returns (omega arith)))

  -- The extensions, which stand within `n`.
  body_end-Ensures :
      (n pos : ℕ)
      → n ≤ length cs
      → pos < 2 ^ 62
      → Ensures 5 (CopiedFrom cs) (do
        check (not (ltb n (add_size pos 2))) 5
        len ← word_at cs pos
        check (not (ltb n (add_size (add_size pos 2) len))) 5
        parse_extensions (drop (add_size pos 2) cs) len malloc_ok)
  body_end-Ensures n pos le lim =
      Ensures-check (not (ltb n (add_size pos 2))) 5 _ (omega arith) (omega arith) (λ fits.
        Ensures-word_at cs pos _ h (omega arith) (ground arith) (λ len hl.
          Ensures-check (not (ltb n (add_size (add_size pos 2) len))) 5 _ (omega arith)
            (omega arith) (λ inside. at len hl (ground arith))))
    where
      at :
          (len : ℕ)
          → len < 65536
          → pos + 2 + len ≤ n
          → Ensures 5 (CopiedFrom cs) (parse_extensions (drop (add_size pos 2) cs) len malloc_ok)
      at len hl fits =
          let start : add_size pos 2 ≡ pos + 2 = omega arith in
          rw start (
            Ensures-map _ (λ name. CopiedFrom-drop (pos + 2) (omega arith))
              (parse_extensions-Ensures (drop (pos + 2) cs) (AreBytes-drop (pos + 2) cs h)
                (omega (arith, length-drop (pos + 2) cs)) malloc_ok len
                (omega (arith, length-drop (pos + 2) cs))))

  parse_hello_body-Ensures :
      (n major minor pos : ℕ)
      → n ≤ length cs
      → pos < 2 ^ 61
      → Ensures 5 (CopiedFrom cs) (parse_hello_body cs n major minor malloc_ok pos)
  unfolding parse_hello_body
  parse_hello_body-Ensures n major minor pos le lim =
      Ensures-bind (skip_field8 cs n pos) _ (skip_field8-Ensures n pos le (omega arith)) (λ p1 h1.
        Ensures-bind (skip_field16 cs n p1) _ (skip_field16-Ensures n p1 le (omega arith)) (λ p2 h2.
          Ensures-bind (skip_field8 cs n p2) _ (skip_field8-Ensures n p2 le (omega arith)) (λ p3 h3.
            Ensures-check (not (p3 == n && major == 3 && minor == 0)) 2 _ (omega arith)
              (omega arith) (λ _. body_end-Ensures n p3 le (omega arith)))))

  parse_handshake-Ensures :
      (n major minor : ℕ)
      → n ≤ length cs
      → Ensures 5 (CopiedFrom cs) (parse_handshake cs n major minor malloc_ok)
  unfolding parse_handshake
  parse_handshake-Ensures n major minor le =
      Ensures-check (not (ltb n 6)) 5 _ (omega arith) (omega arith) (λ room.
        Ensures-byte_at cs 5 _ h (ground arith) (λ t _ _.
          Ensures-check (t == client_hello_type) 5 _ (omega arith) (omega arith)
            (λ _. parse_hello_body-Ensures n major minor 43 le (omega arith))))

  -- `parse_tls_header` on any packet of less than 2 ^ 61 bytes: every read lies inside it and the
  -- loops end. An error is one of the documented codes -1 to -5, and a hostname is a `strncpy`
  -- copy of less than 2 ^ 16 bytes of the packet.
  pub parse_tls_header-Ensures :
      (hostname_given : Bool)
      → Ensures 5 (CopiedFrom cs) (parse_tls_header cs hostname_given malloc_ok)
  unfolding parse_tls_header
  parse_tls_header-Ensures given = Ensures-check given 3 _ (omega arith) (omega arith) (λ _.
      Ensures-check (not (ltb (length cs) 5)) 1 _ (omega arith) (omega arith) (λ enough.
        Ensures-byte_at cs 0 _ h (ground arith) (λ b0 _ _.
          Ensures-byte_at cs 2 _ h (ground arith) (λ b2 _ _.
            Ensures-check (not (not (bit_and b0 0x80 == 0) && b2 == 1)) 2 _ (omega arith)
              (omega arith)
              (λ _. Ensures-check (b0 == 0x16) 5 _ (omega arith) (omega arith) (λ _.
                Ensures-byte_at cs 1 _ h (ground arith) (λ major _ _.
                  Ensures-check (not (ltb major 3)) 2 _ (omega arith) (omega arith) (λ _.
                    Ensures-word_at cs 3 _ h (omega arith) (ground arith) (λ w hw.
                      Ensures-check (not (ltb (min_size (length cs) (add_size w 5)) (add_size w 5)))
                        1 _ (omega arith) (omega arith)
                        (λ _.
                          parse_handshake-Ensures (min_size (length cs) (add_size w 5)) major b2
                            (ground arith)))))))))))
