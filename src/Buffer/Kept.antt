-- ===== src/Buffer/Kept.antt =====
-- What every outcome of `buffer_recv` and `buffer_send` leaves as it was.
use sniproxy.Prelude.{ℕ, ◌≤◌, ◌≡◌, refl, Bool-cases, inl, inr, length, ltb, ◌==◌}
use sniproxy.Buffer.{
  Buffer, RecvOutcome, received, recv_failed, SendOutcome, sent, send_failed, buffer_room, recv,
  send,
}
use sniproxy.Buffer.Valid.{IsValid}
use sniproxy.Buffer.Fifo.{recv_received, recv_failed_lem, send_sent}

-- The system call keeps to the room that it was given, and to the bytes that there are.
abbrev pub RecvFits : Buffer → RecvOutcome → Type 0
RecvFits b (received bytes) = length bytes ≤ buffer_room b
RecvFits b (recv_failed e) = Unit

abbrev pub SendFits : Buffer → SendOutcome → Type 0
SendFits b (sent n) = n ≤ b.len
SendFits b (send_failed e) = Unit

pub record Kept (b b' : Buffer) : Type 0 where
  pub valid : IsValid b'
  pub same_size : b'.size_mask ≡ b.size_mask

size_mask-recv : (b : Buffer) (o : RecvOutcome) (now : ℕ) → (recv b o now).1.size_mask ≡ b.size_mask
unfolding recv
size_mask-recv b (received bytes) now = elim (Bool-cases (b.len == 0)) [
  | inl e ↦ elim (Bool-cases (ltb 0 (length bytes))) [ inl p ↦ rw (e, p) | inr p ↦ rw (e, p) ]
  | inr e ↦ elim (Bool-cases (ltb 0 (length bytes))) [ inl p ↦ rw (e, p) | inr p ↦ rw (e, p) ]
]
size_mask-recv b (recv_failed x) now = elim (Bool-cases (b.len == 0)) [
  | inl e ↦ rw e
  | inr e ↦ rw e
]

-- Receiving never moves the head away from the start.
pub head-recv : (b : Buffer) (o : RecvOutcome) (now : ℕ) → b.head ≡ 0 → (recv b o now).1.head ≡ 0
unfolding recv
head-recv b (received bytes) now z = elim (Bool-cases (b.len == 0)) [
  | inl e ↦ elim (Bool-cases (ltb 0 (length bytes))) [ inl p ↦ rw (e, p) | inr p ↦ rw (e, p) ]
  | inr e ↦ elim (Bool-cases (ltb 0 (length bytes))) [ inl p ↦ rw (e, p) z | inr p ↦ rw (e, p) z ]
]
head-recv b (recv_failed x) now z = elim (Bool-cases (b.len == 0)) [ inl e ↦ rw e | inr e ↦ rw e z ]

pub recv-Kept :
    {b : Buffer} (o : RecvOutcome) (now : ℕ) → IsValid b → RecvFits b o → Kept b (recv b o now).1
recv-Kept {b} (received bytes) now v fits = record {
  valid = (recv_received v bytes now fits).1;
  same_size = size_mask-recv b (received bytes) now;
}
recv-Kept {b} (recv_failed e) now v fits = record {
  valid = (recv_failed_lem v e now).1;
  same_size = size_mask-recv b (recv_failed e) now;
}

size_mask-send : (b : Buffer) (o : SendOutcome) (now : ℕ) → (send b o now).2.size_mask ≡ b.size_mask
unfolding send
size_mask-send b (sent n) now = elim (Bool-cases (ltb 0 n)) [ inl p ↦ rw p | inr p ↦ rw p ]
size_mask-send b (send_failed e) now = refl

pub send-Kept :
    {b : Buffer} (o : SendOutcome) (now : ℕ) → IsValid b → SendFits b o → Kept b (send b o now).2
unfolding send
send-Kept {b} (sent n) now v fits = record {
  valid = (send_sent v n now fits).2;
  same_size = size_mask-send b (sent n) now;
}
send-Kept {b} (send_failed e) now v fits = record {
  valid = record {
    pow2 = v.pow2;
    small = v.small;
    storage = v.storage;
    head_in = v.head_in;
    len_in = v.len_in;
  };
  same_size = size_mask-send b (send_failed e) now;
}
