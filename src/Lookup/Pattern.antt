-- ===== src/Lookup/Pattern.antt =====
-- `apply_pattern` of src/backend.c: the address that a pattern makes of the parts of a name that its
-- regular expression matched. `none` stands for a write outside of the memory given.
pub mod Expansion
mod Tests
use sniproxy.Prelude.{
  ℕ, zero, suc, ◌-◌, Bool, true, false, [], ◌∷◌, ◌++◌, Option, none, some, Bytes, length, ltb, leb,
  ◌==◌, ◌&&◌, min, if◌then◌else◌,
}

abbrev pub is_group_digit : ℕ → Bool
is_group_digit c = leb 48 c && leb c 57

-- `pcre_copy_substring` for the name and the matches at hand: the number of a group and the room for
-- it, with the NUL behind it. `none` is a negative result.
module _ (pcre_copy_substring : ℕ → ℕ → Option Bytes) (result_len : ℕ) where
  -- A write at `*dst`, where `out` has been written so far, and then the rest.
  abbrev pub put : Bytes → Option (Option Bytes) → Option (Option Bytes)
  put out rest = if ltb (length out) result_len then rest else none

  -- What stands in `dst`, and what is left of `length`.
  abbrev pub end_pattern : Bytes → ℕ → Option (Option Bytes)
  end_pattern out zero = some none
  end_pattern out (suc room) = put out (some (some out))

  -- What follows the copy of a group.
  abbrev pub copied :
      Bytes → ℕ → (Bytes → ℕ → Option (Option Bytes)) → Option Bytes → Option (Option Bytes)
  copied out room rest none = some none
  copied out room rest (some group) = rest (out ++ group) (room - length group)

  unfoldable pub pattern_loop : Bytes → Bytes → ℕ → Option (Option Bytes)
  pattern_loop [] out room = end_pattern out room
  pattern_loop (c ∷ src) out zero = some none
  pattern_loop (c ∷ []) out (suc room) = put out (pattern_loop [] (out ++ (c ∷ [])) room)
  pattern_loop (c ∷ d ∷ src) out (suc room) = elim (c == 36) [
    | true ↦ elim (is_group_digit d) [
      | true ↦
          put out
            (copied out (suc room) (pattern_loop src) (pcre_copy_substring (d - 48) (suc room)))
      | false ↦ put out (pattern_loop src (out ++ (d ∷ [])) room)
    ]
    | false ↦ put out (pattern_loop (d ∷ src) (out ++ (c ∷ [])) room)
  ]

  -- The string written for the result 1; nothing for the result 0.
  abbrev pub apply_pattern : Bytes → Option (Option Bytes)
  apply_pattern pattern = pattern_loop pattern [] (min 1024 result_len)
