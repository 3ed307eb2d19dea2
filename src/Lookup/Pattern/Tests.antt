-- ===== src/Lookup/Pattern/Tests.antt =====
-- Concrete runs of `apply_pattern` of src/backend.c.
use sniproxy.Prelude.{
  ℕ, zero, suc, ◌≡◌, ◌≢◌, ◌↔◌, ◌<◌, refl, Option, none, some, Bytes, codes, length, ltb, min,
  if◌then◌else◌, arith,
}
use sniproxy.Lookup.Pattern.{apply_pattern, pattern_loop}
use sniproxy.Lookup.Pattern.Expansion.{Expands, CopiesGroups, apply_pattern_lem}

-- The groups of a name of which one part was matched in parentheses.
unfoldable group : ℕ → Option Bytes
group zero = some (codes "www.example")
group (suc zero) = some (codes "www")
group (suc (suc n)) = none

abbrev copy_of : Option Bytes → ℕ → Option Bytes
copy_of none size = none
copy_of (some g) size = if ltb (length g) size then some g else none

unfoldable copy : ℕ → ℕ → Option Bytes
unfolding group
copy n size = copy_of (group n) size

apply_pattern_run : apply_pattern copy 1024 (codes "$1.in$$") ≡ some (some (codes "www.in$"))
unfolding pattern_loop group copy
apply_pattern_run = refl

-- A group that does not fit, and one that is missing.
apply_pattern_long : apply_pattern copy 3 (codes "$1") ≡ some none
unfolding pattern_loop group copy
apply_pattern_long = refl

apply_pattern_missing : apply_pattern copy 1024 (codes "$2") ≡ some none
unfolding pattern_loop group copy
apply_pattern_missing = refl

copy_of_fits :
    (o : Option Bytes) (size : ℕ) (g : Bytes)
    → o ≡ some g
    → length g < size
    → copy_of o size ≡ some g
copy_of_fits none size g e h = absurd cc
copy_of_fits (some g') size g e h = let same : g' ≡ g = cc in ground arith

copy_of_is_group :
    (o : Option Bytes) (size : ℕ) (g : Bytes)
    → copy_of o size ≡ some g
    → (o ≡ some g) × (length g < size)
copy_of_is_group none size g e = absurd cc
copy_of_is_group (some g') size g e = ground arith

copy-CopiesGroups : CopiesGroups group copy
unfolding copy
copy-CopiesGroups = record {
  fits = λ n size g e h. copy_of_fits (group n) size g e h;
  is_group = λ n size g e. copy_of_is_group (group n) size g e;
}

apply_pattern_lem_example :
    (apply_pattern copy 1024 (codes "$1.in") ≢ none)
    × ((s : Bytes)
        → (apply_pattern copy 1024 (codes "$1.in") ≡ some (some s))
          ↔ (Expands group (codes "$1.in") s × (length s < min 1024 1024)))
apply_pattern_lem_example = apply_pattern_lem copy 1024 group copy-CopiesGroups (codes "$1.in")
