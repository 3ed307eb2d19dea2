-- ===== src/Connection/Parts.antt =====
-- Several parts that src/connection.c pushes into a buffer one behind the other.
use sniproxy.Prelude.{
  ℕ, ◌+◌, ◌^◌, ◌≤◌, ◌<◌, ◌≡◌, refl, sym, ap, ◌∙◌, true, leb, Bool-cases, inl, inr, ◌==◌, List, [],
  ◌∷◌, ◌++◌, append-nil, append_assoc, some, Bytes, length, length-append, arith, add_size,
}
use sniproxy.Buffer.{Buffer, rewind_empty, buffer_size, buffer_room, push}
use sniproxy.Buffer.Valid.{IsValid, room_eq, size_eq}
use sniproxy.Buffer.Contents.{contents}
use sniproxy.Buffer.Transfer.{length-contents}
use sniproxy.Buffer.Push.{Pushed, push_fits}
use sniproxy.Connection.Accept.{push_parts}

abbrev pub concat : List Bytes → Bytes
concat [] = []
concat (part ∷ parts) = part ++ concat parts

abbrev pub AreFull : List Bytes → Type 0
AreFull [] = Unit
AreFull (part ∷ parts) = (0 < length part) × AreFull parts

holds_fits :
    {b b' : Buffer} {src : Bytes} {n : ℕ}
    → Pushed b src n b'
    → length src ≤ buffer_room b
    → contents b' ≡ contents b ++ src
holds_fits {b} {b'} {src} done h =
    let fits : leb (length src) (buffer_room b) ≡ true = ground arith in done.holds ∙ rw fits

room_small : {b : Buffer} → IsValid b → buffer_room b ≤ 2 ^ 63
room_small v = omega (arith, room_eq v, v.small)

room_left :
    {b b' : Buffer} (n m : ℕ)
    → IsValid b
    → IsValid b'
    → b'.size_mask ≡ b.size_mask
    → length (contents b') ≡ length (contents b) + n
    → n + m ≤ buffer_room b
    → m ≤ buffer_room b'
room_left {b} {b'} n m v v' same len h =
    omega (arith, room_eq v, room_eq v', length-contents v, length-contents v', v.len_in, v'.len_in)

push_parts-cons :
    (part : Bytes) (parts : List Bytes) (b b1 b2 : Buffer) (n k m total : ℕ)
    → push b part ≡ some (k, b1)
    → add_size n k ≡ m
    → push_parts parts b1 m ≡ some (b2, total)
    → push_parts (part ∷ parts) b n ≡ some (b2, total)
unfolding push_parts
push_parts-cons part parts b b1 b2 n k m total e next rest = rw (e, next, rest)

head-rewind_empty : (b : Buffer) → b.head ≡ 0 → (rewind_empty b).head ≡ 0
head-rewind_empty b z = elim (Bool-cases (b.len == 0)) [ inl e ↦ rw e | inr e ↦ rw e z ]

-- Pushing parts that are not empty, into a buffer with room for all of them, appends them in order
-- and adds up their lengths.
pub push_parts_lem :
    (parts : List Bytes) (b : Buffer) (n : ℕ)
    → IsValid b
    → AreFull parts
    → length (concat parts) ≤ buffer_room b
    → n + length (concat parts) < 2 ^ 63
    → (b' : Buffer) × (push_parts parts b n ≡ some (b', n + length (concat parts)))
      × IsValid b'
      × (contents b' ≡ contents b ++ concat parts)
      × (b'.size_mask ≡ b.size_mask)
      × (b.head ≡ 0 → b'.head ≡ 0)
unfolding push_parts
push_parts_lem [] b n v full fits small =
    (b, ap (λ k. some (b, k)) (omega arith), v, sym (append-nil (contents b)), refl, λ z. z)
push_parts_lem (part ∷ parts) b n v full fits small =
    let total = length-append part (concat parts) in
    let (b1, e1, done) = push_fits v part full.0 (omega arith) in
    let here : contents b1 ≡ contents b ++ part = holds_fits done (omega arith) in
    let room : length (concat parts) ≤ buffer_room b1 =
      room_left (length part) (length (concat parts)) v done.valid done.same_size
        (ap length here ∙ length-append (contents b) part) (omega arith) in
    let next : add_size n (length part) ≡ n + length part = omega (arith, room_small v) in
    let (b2, e2, v2, all, size, at_start) =
      push_parts_lem parts b1 (n + length part) done.valid full.1 room (omega arith) in
    let sum : n + length part + length (concat parts) ≡ n + length (part ++ concat parts) =
      omega arith in
    (
      b2,
      push_parts-cons part parts b b1 b2 n (length part) (n + length part) _ e1 next
          (e2 ∙ ap (λ k. some (b2, k)) sum),
      v2,
      all ∙ ap (λ l. l ++ concat parts) here ∙ append_assoc (contents b) part (concat parts),
      size ∙ done.same_size,
      λ z. at_start (done.same_head ∙ head-rewind_empty b z),
    )

pub empty_room :
    {b : Buffer} {n : ℕ} → IsValid b → contents b ≡ [] → buffer_size b ≡ n → buffer_room b ≡ n
empty_room {b} {n} v e size =
    let none_held : b.len ≡ 0 = sym (length-contents v) ∙ ap length e in
    omega (arith, room_eq v, size_eq v, v.small)
