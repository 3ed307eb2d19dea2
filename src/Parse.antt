-- ===== src/Parse.antt =====
-- The result of a request parser, `parse_packet` of src/protocol.h: `ok h` is a length of at least 0
-- with `*hostname` set to `h`, whose length it is; `fail n` is the result -n; `fault` stands for a
-- read outside of the memory given, or for a loop that outruns its fuel.
pub mod Ensures
use sniproxy.Prelude.{
  ℕ, zero, suc, ◌+◌, Bool, true, false, [], ◌∷◌, Option, none, some, Bytes, length, get_elem?,
  slice, leb, if◌then◌else◌,
}

pub data Result {ℓ} (A : Type ℓ) : Type ℓ where
  ok : A → Result A
  fail : ℕ → Result A
  fault : Result A

infixl 5 ◌>>=◌ ◌>>◌
abbrev pub ◌>>=◌ {ℓ κ} : {A : Type ℓ} {B : Type κ} → Result A → (A → Result B) → Result B
ok a >>= f = f a
fail n >>= f = fail n
fault >>= f = fault

abbrev pub ◌>>◌ {ℓ} : {B : Type ℓ} → Result (Unit {0}) → Result B → Result B
m >> k = m >>= λ _. k

-- `if (!test) return -n;`
abbrev pub check : Bool → ℕ → Result (Unit {0})
check true n = ok tt
check false n = fail n

abbrev pub or_fault {ℓ} : {A : Type ℓ} → Option A → Result A
or_fault none = fault
or_fault (some a) = ok a

-- `data[i]`
abbrev pub byte_at : Bytes → ℕ → Result ℕ
byte_at bytes i = or_fault (get_elem? bytes i)

-- The `n` bytes from `data + i` on.
abbrev pub bytes_at : Bytes → ℕ → ℕ → Result Bytes
bytes_at bytes i n = if leb (i + n) (length bytes) then ok (slice bytes i n) else fault

unfoldable pub nuls : Bytes → Bytes
nuls [] = []
nuls (c ∷ s) = 0 ∷ nuls s

-- The bytes that `strncpy` copies from a source of `n` bytes, `n` being its limit: behind the first
-- NUL there are only NULs.
unfoldable pub strncpy : Bytes → Bytes
unfolding nuls
strncpy [] = []
strncpy (zero ∷ s) = 0 ∷ nuls s
strncpy (suc c ∷ s) = suc c ∷ strncpy s
