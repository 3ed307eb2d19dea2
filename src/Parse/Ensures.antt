-- ===== src/Parse/Ensures.antt =====
-- Postconditions of parsers: what a hostname satisfies, that an error is one of the documented ones,
-- and that there is no fault.
use sniproxy.Prelude.{
  ℕ, zero, suc, ◌+◌, ◌≤◌, ◌<◌, ◌≡◌, refl, ap, ◌∙◌, Bool, true, false, [], ◌∷◌, Bytes, length, drop,
  slice, take, drop-drop, length-drop, arith, leb,
}
use sniproxy.Parse.{Result, ok, fail, fault, ◌>>=◌, ◌>>◌, check, byte_at, bytes_at, strncpy}

-- `P` holds of the result, an error code is 1 to `last`, and nothing faults.
pub data Ensures {A : Type 0} (last : ℕ) (P : A → Type 0) : Result A → Type 0 where
  returns : {a : A} → P a → Ensures last P (ok a)
  fails : {n : ℕ} → 1 ≤ n → n ≤ last → Ensures last P (fail n)

-- Bytes as the source has them.
abbrev pub AreBytes : Bytes → Type 0
AreBytes [] = Unit
AreBytes (c ∷ cs) = (c < 256) × AreBytes cs

pub AreBytes-drop : (n : ℕ) (cs : Bytes) → AreBytes cs → AreBytes (drop n cs)
AreBytes-drop zero cs h = h
AreBytes-drop (suc n) [] h = tt
AreBytes-drop (suc n) (c ∷ cs) h = AreBytes-drop n cs h.1

-- A read inside the memory gives a byte.
pub byte_at-ok :
    (cs : Bytes) (i : ℕ) → AreBytes cs → i < length cs → (c : ℕ) × (byte_at cs i ≡ ok c) × (c < 256)
byte_at-ok [] i h lt = absurd (omega arith)
byte_at-ok (c ∷ cs) zero h lt = (c, refl, h.0)
byte_at-ok (c ∷ cs) (suc i) h lt = byte_at-ok cs i h.1 (omega arith)

-- A hostname that is copied out of `mem`, of less than 2 ^ 16 bytes.
pub record CopiedFrom (mem : Bytes) (name : Bytes) : Type 0 where
  pub offset : ℕ
  pub size : ℕ
  pub inside : offset + size ≤ length mem
  pub short : size < 65536
  pub copied : name ≡ strncpy (slice mem offset size)

pub CopiedFrom-drop :
    (k : ℕ) {mem : Bytes} {name : Bytes}
    → k ≤ length mem
    → CopiedFrom (drop k mem) name
    → CopiedFrom mem name
CopiedFrom-drop k {mem} h c = record {
  offset = k + c.offset;
  size = c.size;
  inside = omega (arith, length-drop k mem, c.inside);
  short = c.short;
  copied = c.copied ∙ ap (λ l. strncpy (take c.size l)) (drop-drop c.offset k mem);
}

pub Ensures-map :
    {A : Type 0} {last : ℕ} {P Q : A → Type 0} (r : Result A)
    → ((a : A) → P a → Q a)
    → Ensures last P r
    → Ensures last Q r
Ensures-map (ok a) f (returns h) = returns (f a h)
Ensures-map (fail n) f (fails h le) = fails h le
Ensures-map fault f x = elim x [ ]

pub Ensures-bind :
    {A B : Type 0} {last : ℕ} {P : A → Type 0} {Q : B → Type 0} (r : Result A) (k : A → Result B)
    → Ensures last P r
    → ((a : A) → P a → Ensures last Q (k a))
    → Ensures last Q (r >>= k)
Ensures-bind (ok a) k (returns h) rest = rest a h
Ensures-bind (fail n) k (fails h le) rest = fails h le
Ensures-bind fault k x rest = elim x [ ]

-- A test that is passed, or returns its error code.
pub Ensures-check :
    {A : Type 0} {last : ℕ} {P : A → Type 0} (b : Bool) (n : ℕ) (k : Result A)
    → 1 ≤ n
    → n ≤ last
    → (b ≡ true → Ensures last P k)
    → Ensures last P (check b n >> k)
Ensures-check true n k h le rest = rest refl
Ensures-check false n k h le rest = fails h le

-- A read inside the memory, and what follows for any byte.
pub Ensures-byte_at :
    {A : Type 0} {last : ℕ} {P : A → Type 0} (cs : Bytes) (i : ℕ) (k : ℕ → Result A)
    → AreBytes cs
    → i < length cs
    → ((c : ℕ) → byte_at cs i ≡ ok c → c < 256 → Ensures last P (k c))
    → Ensures last P (byte_at cs i >>= k)
Ensures-byte_at cs i k h lt rest = let (c, e, small) = byte_at-ok cs i h lt in rw e (rest c e small)

pub Ensures-bytes_at :
    {A : Type 0} {last : ℕ} {P : A → Type 0} (cs : Bytes) (i n : ℕ) (k : Bytes → Result A)
    → i + n ≤ length cs
    → Ensures last P (k (slice cs i n))
    → Ensures last P (bytes_at cs i n >>= k)
Ensures-bytes_at cs i n k h rest =
    let inside : leb (i + n) (length cs) ≡ true = ground arith in rw inside rest
