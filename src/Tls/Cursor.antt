-- ===== src/Tls/Cursor.antt =====
-- The place that the parser of src/tls.c has reached in a packet.
use sniproxy.Prelude.{
  ℕ, zero, suc, ◌+◌, ◌-◌, ◌/◌, ◌%◌, ◌^◌, ◌<◌, ◌≡◌, refl, sym, ap, subst, ◌∙◌, true, [], ◌∷◌, ◌++◌,
  append_assoc, Bytes, length, drop, take, length-append, length-drop, drop-drop, take-append,
  drop-append, arith, leb, add_size,
}
use sniproxy.Parse.{ok, byte_at, bytes_at, strncpy}
use sniproxy.Tls.{word_at}
use sniproxy.Tls.Hello.{word, NoNul}
use sniproxy.Tls.Loops.{word_at_bytes}

-- The parser at `pos`, with `body` still to read up to `n`, and `tail` behind that.
pub record Cursor (cs tail : Bytes) (n pos : ℕ) (body : Bytes) : Type 0 where
  pub at : drop pos cs ≡ body ++ tail
  pub end : n ≡ pos + length body
  pub small : n < 2 ^ 40

byte_at-drop :
    (cs : Bytes) (pos c : ℕ) (rest : Bytes) → drop pos cs ≡ c ∷ rest → byte_at cs pos ≡ ok c
byte_at-drop [] zero c rest e = cc
byte_at-drop [] (suc pos) c rest e = cc
byte_at-drop (x ∷ cs) zero c rest e = cc
byte_at-drop (x ∷ cs) (suc pos) c rest e = byte_at-drop cs pos c rest e

module _ {cs tail : Bytes} {n pos : ℕ} where
  pub Cursor-skip :
      (xs : Bytes) {body : Bytes}
      → Cursor cs tail n pos (xs ++ body)
      → Cursor cs tail n (pos + length xs) body
  Cursor-skip xs {body} c = record {
    at =
        sym (drop-drop (length xs) pos cs)
        ∙ ap (drop (length xs)) (c.at ∙ append_assoc xs body tail)
        ∙ drop-append xs (body ++ tail);
    end = omega (arith, c.end, length-append xs body);
    small = c.small;
  }

  -- The same, with the length computed.
  pub Cursor-skip_by :
      (xs : Bytes) (k : ℕ) {body : Bytes}
      → length xs ≡ k
      → Cursor cs tail n pos (xs ++ body)
      → Cursor cs tail n (pos + k) body
  Cursor-skip_by xs k {body} e c = subst (λ m. Cursor cs tail n (pos + m) body) e (Cursor-skip xs c)

  pub Cursor-byte : {x : ℕ} {body : Bytes} → Cursor cs tail n pos (x ∷ body) → byte_at cs pos ≡ ok x
  Cursor-byte {x} {body} c = byte_at-drop cs pos x (body ++ tail) c.at

  pub Cursor-next :
      {x : ℕ} {body : Bytes} → Cursor cs tail n pos (x ∷ body) → Cursor cs tail n (pos + 1) body
  Cursor-next {x} c = Cursor-skip (x ∷ []) c

module _ {cs tail : Bytes} {n pos : ℕ} where
  pub Cursor-word :
      {w : ℕ} {body : Bytes} → Cursor cs tail n pos (word w ++ body) → word_at cs pos ≡ ok w
  Cursor-word {w} c =
      word_at_bytes cs pos (w / 256) (w % 256) (omega (arith, c.end, c.small)) (Cursor-byte c)
        (Cursor-byte (Cursor-next c))
      ∙ ap ok (omega arith)

pub strncpy-NoNul : (s : Bytes) → NoNul s → strncpy s ≡ s
unfolding strncpy
strncpy-NoNul [] h = refl
strncpy-NoNul (zero ∷ s) h = absurd (omega (arith, h.0))
strncpy-NoNul (suc c ∷ s) h = ap (λ l. suc c ∷ l) (strncpy-NoNul s h.1)

module _ {cs tail : Bytes} {n pos : ℕ} where
  pub Cursor-bytes :
      (s body : Bytes)
      → 0 < length s
      → Cursor cs tail n pos (s ++ body)
      → bytes_at cs pos (length s) ≡ ok s
  Cursor-bytes s body p c =
      let rest : drop pos cs ≡ s ++ (body ++ tail) = c.at ∙ append_assoc s body tail in
      let total : length cs - pos ≡ length s + length (body ++ tail) =
        sym (length-drop pos cs) ∙ ap length rest ∙ length-append s (body ++ tail) in
      let inside : leb (pos + length s) (length cs) ≡ true = ground arith in
      rw inside (ap ok (ap (take (length s)) rest ∙ take-append s (body ++ tail)))

-- A sum that does not wrap.
pub add_size-lt : (a b : ℕ) → a + b < 2 ^ 64 → add_size a b ≡ a + b
add_size-lt a b h = omega arith
