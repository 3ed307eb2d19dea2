-- ===== src/Prelude/Word.antt =====
-- `size_t` of 64 bits, with its wrap-around.
use Prim.Native.Nat.{ℕ, ◌+◌, ◌-◌, ◌%◌, ◌^◌}
use sniproxy.Prelude.Tests.{ltb, if◌then◌else◌}

abbrev pub size_mod : ℕ
size_mod = 2 ^ 64

abbrev pub add_size : ℕ → ℕ → ℕ
add_size a b = (a + b) % size_mod

abbrev pub sub_size : ℕ → ℕ → ℕ
sub_size a b = (a + size_mod - b) % size_mod

-- The macro `MIN`.
abbrev pub min_size : ℕ → ℕ → ℕ
min_size a b = if ltb a b then a else b
