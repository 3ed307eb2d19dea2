-- ===== src/Tls/Extensions.antt =====
-- The parser of src/tls.c on well-formed extensions and fields.
use sniproxy.Prelude.{
  ℕ, zero, suc, ◌+◌, ◌≤◌, ◌<◌, ◌≡◌, ap, ◌∙◌, true, false, not, ◌&&◌, List, [], ◌∷◌, ◌++◌,
  append_assoc, append-nil, Bytes, length, drop, length-append, arith, ltb, leb, ◌==◌, add_size,
}
use sniproxy.Parse.{Result, ok, bytes_at}
use sniproxy.Tls.{
  server_name_round, server_name_loop, parse_server_name_extension, extensions_round,
  extensions_loop, skip_field8, skip_field16,
}
use sniproxy.Tls.Hello.{
  word, field8, field16, Extension, extension, extensions, server_name_body, server_name, Others,
  NoNul,
}
use sniproxy.Tls.Cursor.{
  Cursor, Cursor-skip, Cursor-skip_by, Cursor-byte, Cursor-next, Cursor-word, strncpy-NoNul,
  Cursor-bytes, add_size-lt,
}

-- The name of the server name extension.
parse_server_name_extension-name :
    (mem tail name : Bytes)
    → 0 < length name
    → length name < 65500
    → NoNul name
    → mem ≡ server_name_body name ++ tail
    → parse_server_name_extension mem (length (server_name_body name)) true ≡ ok name
unfolding parse_server_name_extension server_name_loop server_name_round
parse_server_name_extension-name mem tail name p small nn e = rw one (
    rw (Cursor-word at_len)
      (rw two (rw (Cursor-byte at_type) (rw bytes (ap ok (strncpy-NoNul name nn))))))
  where
    n : ℕ
    n = length (server_name_body name)

    start : Cursor mem tail n 0 (word (3 + length name) ++ (0 ∷ (field16 name ++ [])))
    start = rw append-nil (record { at = e; end = omega arith; small = omega arith })

    at_type : Cursor mem tail n 2 (0 ∷ (field16 name ++ []))
    at_type = Cursor-skip (word (3 + length name)) start

    at_len : Cursor mem tail n 3 (field16 name ++ [])
    at_len = Cursor-next at_type

    at_name : Cursor mem tail n 5 (name ++ [])
    at_name = Cursor-skip (word (length name)) at_len

    one : ltb 5 n ≡ true
    one = ground arith

    two : not (ltb n (add_size 5 (length name))) ≡ true
    two = ground arith

    bytes : bytes_at mem 5 (length name) ≡ ok name
    bytes = Cursor-bytes name [] p at_name

module _ (cs tail : Bytes) (n pos : ℕ) (rest : ℕ → Result Bytes) (e : Extension)
    (more : Bytes) where
  -- The header of an extension is read, and there is room for it.
  module _ (c : Cursor cs tail n pos (extension e ++ more)) where
    header_at : (k : ℕ) → k ≤ 4 → add_size pos k ≡ pos + k
    header_at k h = add_size-lt pos k (omega (arith, c.end, c.small))

    low_at : Cursor cs tail n (pos + 1) (e.type_low ∷ (field16 e.body ++ more))
    low_at = Cursor-next c

    len_at : Cursor cs tail n (pos + 2) (word (length e.body) ++ (e.body ++ more))
    len_at = Cursor-skip (e.type_high ∷ e.type_low ∷ []) c

    body_at : Cursor cs tail n (pos + 4) (e.body ++ more)
    body_at = Cursor-skip (e.type_high ∷ e.type_low ∷ word (length e.body)) c

    room_for_header : leb (pos + 4) n ≡ true
    room_for_header = ground (arith, c.end)

    room_for_body : pos + 4 + length e.body ≤ n
    room_for_body = omega (arith, body_at.end, length-append e.body more)

    extensions_round-other :
        (e.type_high == 0 && e.type_low == 0) ≡ false
        → extensions_round cs n true pos rest ≡ rest (pos + (4 + length e.body))
    unfolding extensions_round
    extensions_round-other other =
        rw
          (
            header_at 4 (omega arith),
            room_for_header,
            header_at 2 (omega arith),
            Cursor-word len_at,
            Cursor-byte c,
            header_at 1 (omega arith),
            Cursor-byte low_at,
            other,
          )
          (ap rest (
            ap (add_size pos)
              (add_size-lt 4 (length e.body) (omega (arith, room_for_body, c.small)))
            ∙ add_size-lt pos (4 + length e.body) (omega (arith, room_for_body, c.small))))

module _ (cs tail : Bytes) (n pos : ℕ) (rest : ℕ → Result Bytes) (name more : Bytes) where
  extensions_round-name :
      0 < length name
      → NoNul name
      → length name < 65500
      → Cursor cs tail n pos (extension (server_name name) ++ more)
      → extensions_round cs n true pos rest ≡ ok name
  unfolding extensions_round
  extensions_round-name p nn small c =
      rw
        (
          header_at cs tail n pos rest sn more c 4 (omega arith),
          room_for_header cs tail n pos rest sn more c,
          header_at cs tail n pos rest sn more c 2 (omega arith),
          Cursor-word (len_at cs tail n pos rest sn more c),
          Cursor-byte c,
          header_at cs tail n pos rest sn more c 1 (omega arith),
          Cursor-byte (low_at cs tail n pos rest sn more c),
          room,
        )
        (parse_server_name_extension-name (drop (pos + 4) cs) (more ++ tail) name p small nn
          ((body_at cs tail n pos rest sn more c).at ∙ append_assoc sn.body more tail))
    where
      sn : Extension
      sn = server_name name

      room : not (ltb n (add_size (pos + 4) (length sn.body))) ≡ true
      room =
          let fits = room_for_body cs tail n pos rest sn more c in
          let small = c.small in ground arith

-- The loop passes over the extensions of other types.
pub extensions_loop-name :
    (es : List Extension) (f : ℕ) (cs tail : Bytes) (n pos : ℕ) (name more : Bytes)
    → length es ≤ f
    → Others es
    → 0 < length name
    → NoNul name
    → length name < 65500
    → Cursor cs tail n pos (extensions es ++ (extension (server_name name) ++ more))
    → extensions_loop (suc f) cs n true pos ≡ ok name
unfolding extensions_loop
extensions_loop-name [] f cs tail n pos name more le others p nn small c =
    extensions_round-name cs tail n pos (λ pos'. extensions_loop f cs n true pos') name more p nn
      small c
extensions_loop-name (e ∷ es) zero cs tail n pos name more le others p nn small c =
    absurd (omega arith)
extensions_loop-name (e ∷ es) (suc f) cs tail n pos name more le others p nn small c =
    extensions_round-other cs tail n pos (λ pos'. extensions_loop (suc f) cs n true pos') e later c'
      other
    ∙ extensions_loop-name es f cs tail n (pos + (4 + length e.body)) name more (omega arith)
        others.1 p nn small (Cursor-skip_by (extension e) (4 + length e.body) (omega arith) c')
  where
    later : Bytes
    later = extensions es ++ (extension (server_name name) ++ more)

    c' : Cursor cs tail n pos (extension e ++ later)
    c' = rw (append_assoc (extension e) (extensions es) _) at c

    other : (e.type_high == 0 && e.type_low == 0) ≡ false
    other = let (ne, _) = others.0 in ground (arith, ne)

pub length-extensions : (es : List Extension) → length es ≤ length (extensions es)
length-extensions [] = omega arith
length-extensions (e ∷ es) =
    omega (arith, length-append (extension e) (extensions es), length-extensions es)

module _ {cs tail : Bytes} {n pos : ℕ} where
  pub skip_field8-field :
      (s body : Bytes)
      → Cursor cs tail n pos (field8 s ++ body)
      → skip_field8 cs n pos ≡ ok (pos + (1 + length s))
  skip_field8-field s body c =
      let fits : not (ltb n (add_size pos 1)) ≡ true = ground (arith, c.end, c.small) in
      let end : pos + (1 + length s) ≤ n = omega (arith, c.end, length-append s body) in
      rw fits (
        rw (Cursor-byte c) (
          ap ok (
            ap (add_size pos) (add_size-lt 1 (length s) (omega (arith, end, c.small)))
            ∙ add_size-lt pos (1 + length s) (omega (arith, end, c.small)))))

  pub skip_field16-field :
      (s body : Bytes)
      → Cursor cs tail n pos (field16 s ++ body)
      → skip_field16 cs n pos ≡ ok (pos + (2 + length s))
  skip_field16-field s body c =
      let fits : not (ltb n (add_size pos 2)) ≡ true = ground (arith, c.end, c.small) in
      let end : pos + (2 + length s) ≤ n = omega (arith, c.end, length-append s body) in
      rw fits (
        rw (Cursor-word {w = length s} c) (
          ap ok (
            ap (add_size pos) (add_size-lt 2 (length s) (omega (arith, end, c.small)))
            ∙ add_size-lt pos (2 + length s) (omega (arith, end, c.small)))))
