-- ===== src/Buffer/Tests.antt =====
-- The buffer of src/buffer.c at concrete inputs: one whose contents go round the end, and one whose
-- contents do not.
use sniproxy.Prelude.{
  ℕ, ◌+◌, ◌<◌, ◌≡◌, refl, true, false, inl, [], ◌∷◌, ◌++◌, Bytes, Bytes, Option, length, take, drop,
  none, some, IsPow2, IsPow2-pow, pos, neg, arith,
}
use sniproxy.Buffer.{
  Buffer, received, recv_failed, sent, eagain, buffer_size, new_buffer, recv, read, send, write,
  peek, pop, push, resize, coalesce, setup_write_iov, setup_read_iov, iov_total, limited, Region,
}
use sniproxy.Buffer.Valid.{IsValid, InBounds, setup_write_iov-InBounds, setup_read_iov-InBounds}
use sniproxy.Buffer.Contents.{contents}
use sniproxy.Buffer.Fifo.{
  peek_lem, recv_received, read_received, recv_failed_lem, send_sent, write_sent, pop_lem,
}
use sniproxy.Buffer.Push.{Pushed, push_lem, push-nil}
use sniproxy.Buffer.Size.{new_buffer_lem, resize_lem, resize_error, ErrorCauses}
use sniproxy.Buffer.Coalesce.{Holds, coalesce_lem, coalesce_overrun}

abbrev at_offset : ℕ → ℕ → Buffer
at_offset head len = record {
  buffer = 10 ∷ 20 ∷ 30 ∷ 40 ∷ [];
  size_mask = 3;
  head = head;
  len = len;
  last_recv = 0;
  last_send = 0;
  tx_bytes = 0;
  rx_bytes = 0;
}

abbrev wrapped : Buffer
wrapped = at_offset 3 2

abbrev straight : Buffer
straight = at_offset 1 2

wrapped-IsValid : IsValid wrapped
wrapped-IsValid = record {
  pow2 = IsPow2-pow 2;
  small = omega arith;
  storage = refl;
  head_in = omega arith;
  len_in = omega arith;
}

straight-IsValid : IsValid straight
straight-IsValid = record {
  pow2 = IsPow2-pow 2;
  small = omega arith;
  storage = refl;
  head_in = omega arith;
  len_in = omega arith;
}

contents-wrapped : contents wrapped ≡ 40 ∷ 10 ∷ []
contents-wrapped = refl

peek_lem_example : peek wrapped 0 ≡ (2, 40 ∷ 10 ∷ [])
peek_lem_example = peek_lem wrapped-IsValid 0

push_lem_example :
    (n : ℕ) × (b' : Buffer) × (push straight (5 ∷ 6 ∷ []) ≡ some (n, b'))
    × Pushed straight (5 ∷ 6 ∷ []) n b'
push_lem_example = push_lem straight-IsValid (5 ∷ 6 ∷ []) (omega arith)

recv_received_example :
    let (n, b') = recv wrapped (received (5 ∷ 6 ∷ [])) 9 in
    (n ≡ pos 2) × IsValid b' × (contents b' ≡ contents wrapped ++ (5 ∷ 6 ∷ []))
recv_received_example = recv_received wrapped-IsValid (5 ∷ 6 ∷ []) 9 (omega arith)

read_received_example :
    let (n, b') = read wrapped (received (5 ∷ [])) in
    (n ≡ pos 1) × IsValid b' × (contents b' ≡ contents wrapped ++ (5 ∷ []))
read_received_example = read_received wrapped-IsValid (5 ∷ []) (omega arith)

recv_failed_lem_example :
    let (n, b') = recv wrapped (recv_failed eagain) 9 in
    (n ≡ neg 1) × IsValid b' × (contents b' ≡ contents wrapped)
recv_failed_lem_example = recv_failed_lem wrapped-IsValid eagain 9

send_sent_example :
    let (r, out, b') = send wrapped (sent 1) 9 in
    (r ≡ pos 1)
    × (out ≡ take 1 (contents wrapped))
    × IsValid b'
    × (contents b' ≡ drop 1 (contents wrapped))
send_sent_example = send_sent wrapped-IsValid 1 9 (omega arith)

write_sent_example :
    let (r, out, b') = write wrapped (sent 2) in
    (r ≡ pos 2)
    × (out ≡ take 2 (contents wrapped))
    × IsValid b'
    × (contents b' ≡ drop 2 (contents wrapped))
write_sent_example = write_sent wrapped-IsValid 2 (omega arith)

pop_lem_example :
    let (k, out, b') = pop wrapped 1 in
    (k ≡ limited 1 2)
    × (out ≡ take (limited 1 2) (contents wrapped))
    × IsValid b'
    × (contents b' ≡ drop (limited 1 2) (contents wrapped))
pop_lem_example = pop_lem wrapped-IsValid 1

setup_write_iov-InBounds_example :
    InBounds 4 (setup_write_iov straight 0) × (iov_total (setup_write_iov straight 0) ≡ limited 0 2)
setup_write_iov-InBounds_example = setup_write_iov-InBounds straight-IsValid 0

setup_read_iov-InBounds_example :
    InBounds 4 (setup_read_iov wrapped 0) × (iov_total (setup_read_iov wrapped 0) ≡ limited 0 2)
setup_read_iov-InBounds_example = setup_read_iov-InBounds wrapped-IsValid 0

push-nil_example : push straight [] ≡ none
push-nil_example = push-nil straight-IsValid (omega arith)

new_buffer_lem_example :
    (IsPow2 2
      → (b : Buffer) × (new_buffer 2 9 true (some (0 ∷ 0 ∷ [])) ≡ some b)
        × IsValid b
        × (contents b ≡ [])
        × (buffer_size b ≡ 2)
        × (b.head ≡ 0))
    × (¬ IsPow2 2 → new_buffer 2 9 true (some (0 ∷ 0 ∷ [])) ≡ none)
new_buffer_lem_example = new_buffer_lem 2 9 (0 ∷ 0 ∷ []) (omega arith) refl

resize_lem_example :
    let (n, b') = resize wrapped 2 (some (0 ∷ 0 ∷ [])) in
    (n ≡ pos 2) × IsValid b' × (contents b' ≡ contents wrapped) × (buffer_size b' ≡ 2)
resize_lem_example =
    resize_lem wrapped-IsValid 2 (0 ∷ 0 ∷ []) refl (IsPow2-pow 1) (omega arith) (omega arith)

abbrev one_byte : Option Bytes
one_byte = some (0 ∷ [])

resize_error_example : ErrorCauses wrapped-IsValid 1 one_byte
resize_error_example = resize_error wrapped-IsValid 1 one_byte

coalesce_lem_example : (r : Region) × (coalesce straight true ≡ some r) × Holds straight r
coalesce_lem_example = coalesce_lem true straight-IsValid (omega arith) (inl refl)

coalesce_overrun_example :
    (r : Region) × (coalesce wrapped false ≡ some r) × (length r.owner.buffer < r.offset + r.size)
coalesce_overrun_example = coalesce_overrun false wrapped-IsValid (omega arith)
