-- ===== src/Tls/Hello.antt =====
-- The client hello as RFC 5246 and RFC 6066 lay it out: what src/tls.c is to read the name from.
use sniproxy.Prelude.{ℕ, ◌+◌, ◌/◌, ◌%◌, ◌<◌, ◌≡◌, ◌≢◌, List, [], ◌∷◌, ◌++◌, Bytes, length}

-- Two bytes, the high one first.
abbrev pub word : ℕ → Bytes
word n = n / 256 ∷ n % 256 ∷ []

-- A field with its length in front.
abbrev pub field8 : Bytes → Bytes
field8 s = length s ∷ s

abbrev pub field16 : Bytes → Bytes
field16 s = word (length s) ++ s

pub record Extension : Type 0 where
  pub type_high : ℕ
  pub type_low : ℕ
  pub body : Bytes

abbrev pub extension : Extension → Bytes
extension e = e.type_high ∷ e.type_low ∷ field16 e.body

abbrev pub extensions : List Extension → Bytes
extensions [] = []
extensions (e ∷ es) = extension e ++ extensions es

-- The extension with one name, of the type `host_name`.
abbrev pub server_name_body : Bytes → Bytes
server_name_body name = word (3 + length name) ++ (0 ∷ field16 name)

abbrev pub server_name : Bytes → Extension
server_name name = record { type_high = 0; type_low = 0; body = server_name_body name }

pub record Hello : Type 0 where
  pub minor : ℕ
  -- The length, the version and the random bytes of the handshake.
  pub fixed : Bytes
  pub session : Bytes
  pub cipher_suites : Bytes
  pub compression : Bytes
  pub before : List Extension
  pub name : Bytes
  pub after : List Extension

abbrev pub all_extensions : Hello → Bytes
all_extensions h = extensions h.before ++ (extension (server_name h.name) ++ extensions h.after)

abbrev pub handshake : Hello → Bytes
handshake h =
    0x01
    ∷ (h.fixed
        ++ (field8 h.session
            ++ (field16 h.cipher_suites ++ (field8 h.compression ++ field16 (all_extensions h)))))

abbrev pub tls_record : Hello → Bytes
tls_record h = 0x16 ∷ 3 ∷ h.minor ∷ field16 (handshake h)

-- The extensions in front are of other types.
abbrev pub Others : List Extension → Type 0
Others [] = Unit
Others (e ∷ es) = ((e.type_high ≡ 0 → e.type_low ≢ 0) × (length e.body < 65536)) × Others es

abbrev pub NoNul : Bytes → Type 0
NoNul [] = Unit
NoNul (c ∷ cs) = (0 < c) × NoNul cs

pub record IsWellFormed (h : Hello) : Type 0 where
  pub fixed_len : length h.fixed ≡ 37
  pub others : Others h.before
  pub no_nul : NoNul h.name
  pub not_empty : 0 < length h.name
  pub fits : length (handshake h) < 65536
