-- ===== src/Tls/Loops.antt =====
-- The two loops of src/tls.c, over extensions and over names, stay inside of the packet.
use sniproxy.Prelude.{
  ℕ, zero, suc, ◌+◌, ◌*◌, ◌^◌, ◌≤◌, ◌<◌, ◌≡◌, refl, Bool, not, ◌&&◌, inl, inr, Bytes, length, drop,
  length-drop, arith, ltb, leb, ◌==◌, if◌then◌else◌, Bool-cases, add_size,
}
use sniproxy.Parse.{Result, ok, fail, ◌>>=◌, ◌>>◌, check, byte_at, bytes_at, strncpy}
use sniproxy.Parse.Ensures.{
  Ensures, returns, fails, AreBytes, AreBytes-drop, CopiedFrom, CopiedFrom-drop, byte_at-ok,
  Ensures-map, Ensures-check, Ensures-byte_at, Ensures-bytes_at,
}
use sniproxy.Tls.{
  word_at, server_name_round, server_name_loop, parse_server_name_extension, extensions_round,
  extensions_loop, parse_extensions,
}

pub word_at_bytes :
    (cs : Bytes) (i hi lo : ℕ)
    → i < 2 ^ 63
    → byte_at cs i ≡ ok hi
    → byte_at cs (i + 1) ≡ ok lo
    → word_at cs i ≡ ok (hi * 256 + lo)
word_at_bytes cs i hi lo small e e' =
    let next : add_size i 1 ≡ i + 1 = omega arith in rw next (rw e (rw e'))

word_at-ok :
    (cs : Bytes) (i : ℕ)
    → AreBytes cs
    → length cs < 2 ^ 63
    → i + 1 < length cs
    → (w : ℕ) × (word_at cs i ≡ ok w) × (w < 65536)
word_at-ok cs i h small lt =
    let (hi, e, hhi) = byte_at-ok cs i h (omega arith) in
    let (lo, e', hlo) = byte_at-ok cs (i + 1) h lt in
    (hi * 256 + lo, word_at_bytes cs i hi lo (omega arith) e e', omega arith)

pub Ensures-word_at :
    {A : Type 0} {last : ℕ} {P : A → Type 0} (cs : Bytes) (i : ℕ) (k : ℕ → Result A)
    → AreBytes cs
    → length cs < 2 ^ 63
    → i + 1 < length cs
    → ((w : ℕ) → w < 65536 → Ensures last P (k w))
    → Ensures last P (word_at cs i >>= k)
Ensures-word_at cs i k h small lt rest =
    let (w, e, hw) = word_at-ok cs i h small lt in rw e (rest w hw)

module _ (cs : Bytes) (h : AreBytes cs) (small : length cs < 2 ^ 63) (malloc_ok : Bool) where
  server_name_found :
      (n pos len c : ℕ) (rest : ℕ → Result Bytes)
      → n ≤ length cs
      → len < 65536
      → pos + 3 < n
      → pos + 3 + len ≤ n
      → Ensures 5 (CopiedFrom cs) (rest (pos + 3 + len))
      → Ensures 5 (CopiedFrom cs) (
          if c == 0
          then (do check malloc_ok 4; name ← bytes_at cs (add_size pos 3) len; ok (strncpy name))
          else rest (add_size pos (add_size 3 len)))
  server_name_found n pos len c rest le hl lt fits next =
      let start : add_size pos 3 ≡ pos + 3 = omega arith in
      let end : add_size pos (add_size 3 len) ≡ pos + 3 + len = omega arith in
      elim (Bool-cases (c == 0)) [
        | inl z ↦ rw z (
            rw start (
              Ensures-check malloc_ok 4 _ (omega arith) (omega arith) (λ _.
                Ensures-bytes_at cs (pos + 3) len _ (omega arith) (
                  returns (record {
                    offset = pos + 3;
                    size = len;
                    inside = omega arith;
                    short = hl;
                    copied = refl;
                  })))))
        | inr z ↦ rw z (rw end next)
      ]

  server_name_round-Ensures :
      (n pos : ℕ) (rest : ℕ → Result Bytes)
      → n ≤ length cs
      → pos < 2 ^ 63
      → ((len : ℕ)
          → pos + 3 < n
          → pos + 3 + len ≤ n
          → Ensures 5 (CopiedFrom cs) (rest (pos + 3 + len)))
      → Ensures 5 (CopiedFrom cs) (server_name_round cs n malloc_ok pos rest)
  unfolding server_name_round
  server_name_round-Ensures n pos rest le lim next = elim (Bool-cases (ltb (add_size pos 3) n)) [
    | inr e ↦ rw e (
        Ensures-check (pos == n) 5 (fail 2) (omega arith) (omega arith)
          (λ _. fails (omega arith) (omega arith)))
    | inl e ↦ rw e (
        Ensures-word_at cs (add_size pos 1) _ h small (ground arith) (λ len hl.
          Ensures-check (not (ltb n (add_size (add_size pos 3) len))) 5 _ (omega arith)
            (omega arith)
            (λ fits. Ensures-byte_at cs pos _ h (ground arith) (λ c _ _.
              server_name_found n pos len c rest le hl (ground arith) (ground arith)
                (next len (ground arith) (ground arith))))))
  ]

  server_name_loop-Ensures :
      (f n pos : ℕ)
      → n ≤ length cs
      → n ≤ f + pos
      → pos < 2 ^ 63
      → Ensures 5 (CopiedFrom cs) (server_name_loop (suc f) cs n malloc_ok pos)
  unfolding server_name_loop
  server_name_loop-Ensures zero n pos le fuel lim =
      server_name_round-Ensures n pos (λ pos'. server_name_loop 0 cs n malloc_ok pos') le lim
        (λ len lt _. absurd (omega arith))
  server_name_loop-Ensures (suc f) n pos le fuel lim =
      server_name_round-Ensures n pos (λ pos'. server_name_loop (suc f) cs n malloc_ok pos') le lim
        (λ len lt fits. server_name_loop-Ensures f n (pos + 3 + len) le (omega arith) (omega arith))

  parse_server_name_extension-Ensures :
      (n : ℕ)
      → n ≤ length cs
      → Ensures 5 (CopiedFrom cs) (parse_server_name_extension cs n malloc_ok)
  unfolding parse_server_name_extension
  parse_server_name_extension-Ensures n le =
      server_name_loop-Ensures n n 2 le (omega arith) (omega arith)

module _ (cs : Bytes) (h : AreBytes cs) (small : length cs < 2 ^ 62) (malloc_ok : Bool) where
  -- The server name extension, which stands within `n`.
  extension_found :
      (n pos len : ℕ)
      → n ≤ length cs
      → pos + 4 + len ≤ n
      → Ensures 5
          (CopiedFrom cs)
          (parse_server_name_extension (drop (add_size pos 4) cs) len malloc_ok)
  extension_found n pos len le fits =
      let start : add_size pos 4 ≡ pos + 4 = omega arith in
      rw start (
        Ensures-map _ (λ name. CopiedFrom-drop (pos + 4) (omega arith))
          (parse_server_name_extension-Ensures (drop (pos + 4) cs) (AreBytes-drop (pos + 4) cs h)
            (omega (arith, length-drop (pos + 4) cs)) malloc_ok len
            (omega (arith, length-drop (pos + 4) cs))))

  extensions_round-Ensures :
      (n pos : ℕ) (rest : ℕ → Result Bytes)
      → n ≤ length cs
      → pos < 2 ^ 63
      → ((len : ℕ) → pos + 4 ≤ n → len < 65536 → Ensures 5 (CopiedFrom cs) (rest (pos + (4 + len))))
      → Ensures 5 (CopiedFrom cs) (extensions_round cs n malloc_ok pos rest)
  unfolding extensions_round
  extensions_round-Ensures n pos rest le lim next = elim (Bool-cases (leb (add_size pos 4) n)) [
    | inr e ↦ rw e (
        Ensures-check (pos == n) 5 (fail 2) (omega arith) (omega arith)
          (λ _. fails (omega arith) (omega arith)))
    | inl e ↦ rw e (
        Ensures-word_at cs (add_size pos 2) _ h (omega arith) (ground arith) (λ len hl.
          Ensures-byte_at cs pos _ h (ground arith) (λ b0 _ _.
            Ensures-byte_at cs (add_size pos 1) _ h (ground arith) (λ b1 _ _.
              elim (Bool-cases (b0 == 0 && b1 == 0)) [
                | inl z ↦ rw z (
                    Ensures-check (not (ltb n (add_size (add_size pos 4) len))) 5 _ (omega arith)
                      (omega arith) (λ fits. extension_found n pos len le (ground arith)))
                | inr z ↦
                    let end : add_size pos (add_size 4 len) ≡ pos + (4 + len) = omega arith in
                    rw z (rw end (next len (ground arith) hl))
              ]))))
  ]

  extensions_loop-Ensures :
      (f n pos : ℕ)
      → n ≤ length cs
      → n ≤ f + pos
      → pos < 2 ^ 63
      → Ensures 5 (CopiedFrom cs) (extensions_loop (suc f) cs n malloc_ok pos)
  unfolding extensions_loop
  extensions_loop-Ensures zero n pos le fuel lim =
      extensions_round-Ensures n pos (λ pos'. extensions_loop 0 cs n malloc_ok pos') le lim
        (λ len lt _. absurd (omega arith))
  extensions_loop-Ensures (suc f) n pos le fuel lim =
      extensions_round-Ensures n pos (λ pos'. extensions_loop (suc f) cs n malloc_ok pos') le lim
        (λ len lt short.
          extensions_loop-Ensures f n (pos + (4 + len)) le (omega arith) (omega arith))

  pub parse_extensions-Ensures :
      (n : ℕ) → n ≤ length cs → Ensures 5 (CopiedFrom cs) (parse_extensions cs n malloc_ok)
  unfolding parse_extensions
  parse_extensions-Ensures n le = extensions_loop-Ensures n n 0 le (omega arith) (omega arith)
