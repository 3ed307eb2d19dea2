-- ===== src/Buffer/Coalesce.antt =====
-- `buffer_coalesce`: when the region that it returns holds the contents, and when it does not.
use sniproxy.Prelude.{
  ℕ, ◌+◌, ◌%◌, ◌≤◌, ◌<◌, ◌≡◌, refl, sym, ap, ◌∙◌, ◌⊎◌, Bool, true, false, inl, inr, [], ◌++◌,
  append-nil, some, Bytes, length, take, slice, arith, leb, ◌==◌, if◌then◌else◌, length-drop,
  dec_lt, nil_of_length, take_all,
}
use native.Mathlib.Nat.{mod-eq_of_lt}
use sniproxy.Buffer.{
  Buffer, Region, buffer_room, limited, gather, pop, push, region, realign, coalesce,
}
use sniproxy.Buffer.Contents.{contents, gather_one}
use sniproxy.Buffer.Fifo.{pop_lem, size_mask-pop}
use sniproxy.Buffer.Push.{push_fits}
use sniproxy.Buffer.Transfer.{length-contents}
use sniproxy.Buffer.Valid.{IsValid, room_eq, mask_eq, mod-round}

-- A region that holds all of the contents of `b` in one piece, inside the storage of a valid buffer
-- with the same contents.
pub record Holds (b : Buffer) (r : Region) : Type 0 where
  pub valid : IsValid r.owner
  pub same : contents r.owner ≡ contents b
  pub size_is : r.size ≡ b.len
  pub inside : r.offset + r.size ≤ r.owner.size_mask + 1
  pub bytes : slice r.owner.buffer r.offset r.size ≡ contents b
  pub same_size : r.owner.size_mask ≡ b.size_mask
  pub at_start : b.head ≡ 0 → r.owner.head ≡ 0

-- Contents that do not go round are one piece.
pub region-Holds :
    {b : Buffer} → IsValid b → b.head + b.len ≤ b.size_mask + 1 → Holds b (region b.head b)
region-Holds {b} v h = record {
  valid = v;
  same = refl;
  size_is = refl;
  inside = h;
  bytes =
      sym (append-nil (slice b.buffer b.head b.len))
      ∙ unfold gather in
        gather_one b.buffer (b.size_mask + 1) b.head b.len (omega arith) (omega arith) v.storage h;
  same_size = refl;
  at_start = λ z. z;
}

module _ {b : Buffer} (v : IsValid b) (p : 0 < b.len) where
  popped_all : ((pop b b.len).1 ≡ contents b) × IsValid (pop b b.len).2 × ((pop b b.len).2.len ≡ 0)
  popped_all =
      let (_, out, w, rest) = pop_lem v b.len in
      let all : limited b.len b.len ≡ b.len = ground arith in
      (
        out
            ∙ ap (λ k. take k (contents b)) all
            ∙ take_all b.len (contents b) (omega (arith, length-contents v)),
        w,
        sym (length-contents w)
            ∙ ap length rest
            ∙ length-drop (limited b.len b.len) (contents b)
            ∙ ground (arith, length-contents v),
      )

-- Pushing `temp` into an empty buffer that has room for it puts it at the start of the storage.
push_empty :
    {b : Buffer} (temp : Bytes)
    → IsValid b
    → b.len ≡ 0
    → 0 < length temp
    → length temp ≤ b.size_mask + 1
    → (b' : Buffer) × (push b temp ≡ some (length temp, b'))
      × IsValid b'
      × (contents b' ≡ temp)
      × (b'.head ≡ 0)
      × (b'.len ≡ length temp)
      × (b'.size_mask ≡ b.size_mask)
push_empty {b} temp v z p le =
    let room : length temp ≤ buffer_room b = omega (arith, room_eq v) in
    let (b', e, done) = push_fits v temp p room in
    let yes_fits : leb (length temp) (buffer_room b) ≡ true = ground arith in
    let empty : contents b ≡ [] = nil_of_length _ (length-contents v ∙ z) in
    let holds : contents b' ≡ temp = rw yes_fits at done.holds ∙ ap (λ l. l ++ temp) empty in
    (
      b',
      e,
      done.valid,
      holds,
      done.same_head ∙ rw z,
      sym (length-contents done.valid) ∙ ap length holds,
      done.same_size,
    )

-- A buffer with its contents at the start of the storage.
start-Holds :
    {b b' : Buffer}
    → IsValid b'
    → b'.head ≡ 0
    → contents b' ≡ contents b
    → b'.len ≡ b.len
    → b'.size_mask ≡ b.size_mask
    → Holds b (region 0 b')
start-Holds {b} {b'} v z same len size =
    let whole = region-Holds v (omega (arith, v.len_in)) in
    record {
      valid = v;
      same = same;
      size_is = len;
      inside = omega (arith, v.len_in);
      bytes = ap (λ k. slice b'.buffer k b'.len) (sym z) ∙ whole.bytes ∙ same;
      same_size = size;
      at_start = λ _. z;
    }

-- The `assert`s hold of a buffer that was emptied and filled again.
realign_eq :
    (n : ℕ) (temp : Bytes) (b : Buffer) {b' : Buffer}
    → b.len ≡ 0
    → push b temp ≡ some (length temp, b')
    → b'.head ≡ 0
    → b'.len ≡ n
    → realign n temp b ≡ some (region 0 b')
realign_eq n temp b z e at_start len =
    let emptied : (b.len == 0) ≡ true = ground arith in rw emptied (rw e (ground arith))

module _ {b : Buffer} (v : IsValid b) (p : 0 < b.len) where
  -- Popping everything and pushing it again moves the contents to the start of the storage, and the
  -- `assert`s hold.
  realign_lem : (r : Region) × (realign b.len (pop b b.len).1 (pop b b.len).2 ≡ some r) × Holds b r
  realign_lem =
      let (out, w, z) = popped_all v p in
      let n : length (pop b b.len).1 ≡ b.len = ap length out ∙ length-contents v in
      let le : length (pop b b.len).1 ≤ (pop b b.len).2.size_mask + 1 =
        omega (arith, size_mask-pop v b.len, v.len_in) in
      let (b', e, valid, holds, at_start, len, size) =
        push_empty (pop b b.len).1 w z (omega arith) le in
      (
        region 0 b',
        realign_eq b.len (pop b b.len).1 (pop b b.len).2 z e at_start (len ∙ n),
        start-Holds valid at_start (holds ∙ out) (len ∙ n) (size ∙ size_mask-pop v b.len),
      )

  -- Contents that neither go round nor end at the end of the storage are moved, if memory is to be
  -- had, and otherwise the region starts at offset 0 wherever they lie.
  coalesce_inside :
      (temp_ok : Bool)
      → b.head + b.len < b.size_mask + 1
      → coalesce b temp_ok
        ≡ (if temp_ok then realign b.len (pop b b.len).1 (pop b b.len).2 else some (region 0 b))
  unfolding coalesce
  coalesce_inside temp_ok h =
      let tail = mask_eq v b.len v.len_in ∙ mod-eq_of_lt h in
      let later : leb (b.head + b.len) b.head ≡ false = ground arith in rw tail (rw later)

module _ {b : Buffer} (v : IsValid b) (p : 0 < b.len) where
  coalesce_moves :
      (temp_ok : Bool)
      → b.head + b.len < b.size_mask + 1
      → (temp_ok ≡ true) ⊎ (b.head ≡ 0)
      → (r : Region) × (coalesce b temp_ok ≡ some r) × Holds b r
  coalesce_moves true lt way =
      let (r, e, holds) = realign_lem v p in (r, coalesce_inside v p true lt ∙ e, holds)
  coalesce_moves false lt (inl e) = cc
  coalesce_moves false lt (inr z) =
      (region 0 b, coalesce_inside v p false lt, start-Holds v z refl refl refl)

-- Contents that go round, end at the end of the storage, or are none, are left where they are.
coalesce_stays :
    {b : Buffer} (temp_ok : Bool)
    → IsValid b
    → (b.len ≡ 0) ⊎ (b.size_mask + 1 ≤ b.head + b.len)
    → coalesce b temp_ok ≡ some (region b.head b)
unfolding coalesce
coalesce_stays {b} temp_ok v h =
    let tail = mask_eq v b.len v.len_in in
    let round = mod-round (b.head + b.len) (b.size_mask + 1) (omega arith) in
    let earlier : leb ((b.head + b.len) % (b.size_mask + 1)) b.head ≡ true =
      ground (arith, v.head_in, v.len_in) in
    rw tail (rw earlier)

-- `buffer_coalesce` on a valid buffer whose contents do not go round the end of the storage, with
-- memory for the copy or with the contents at the start: the `assert`s hold, and the region
-- returned holds all of the contents, in one piece, in a valid buffer with the same contents.
pub coalesce_lem :
    {b : Buffer} (temp_ok : Bool)
    → IsValid b
    → b.head + b.len ≤ b.size_mask + 1
    → (temp_ok ≡ true) ⊎ (b.head ≡ 0)
    → (r : Region) × (coalesce b temp_ok ≡ some r) × Holds b r
coalesce_lem {b} temp_ok v h way = elim (dec_lt 0 b.len) [
  | no none_held ↦ (region b.head b, coalesce_stays temp_ok v (inl (omega arith)), region-Holds v h)
  | yes p ↦ elim (dec_lt (b.head + b.len) (b.size_mask + 1)) [
    | no at_end ↦ (region b.head b, coalesce_stays temp_ok v (inr (omega arith)), region-Holds v h)
    | yes lt ↦ coalesce_moves v p temp_ok lt way
  ]
]

-- `buffer_coalesce` on a valid buffer whose contents go round the end of the storage: the region
-- that it returns runs past that end, whether memory is to be had or not.
pub coalesce_overrun :
    {b : Buffer} (temp_ok : Bool)
    → IsValid b
    → b.size_mask + 1 < b.head + b.len
    → (r : Region) × (coalesce b temp_ok ≡ some r) × (length r.owner.buffer < r.offset + r.size)
coalesce_overrun {b} temp_ok v h =
    (region b.head b, coalesce_stays temp_ok v (inr (omega arith)), omega (arith, v.storage))
