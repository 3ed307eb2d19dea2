-- ===== src/Config/Parser.antt =====
-- src/cfg_parser.c: the parser of the configuration file. The callbacks of a grammar work on a state
-- `W` of their own, and `Ptr` is the type of the pointers that are not NULL. `none` stands for a write
-- outside of the buffer, a grammar that does not end with a NULL keyword, or fuel that does not suffice.
pub mod Total
pub mod Layout
mod Tests
use sniproxy.Prelude.{
  ℕ, zero, suc, Bool, true, false, List, [], ◌∷◌, ◌++◌, Option, none, some, Bytes, length, ◌==◌,
  ◌&&◌, ◌||◌, not, if◌then◌else◌, ℤ, pos, neg, is_positive,
}
use sniproxy.Config.Tokenizer.{
  Token, token_error, token_eol, token_obrace, token_cbrace, token_word, token_end, next_token,
}

infixl 5 ◌>>=◌
abbrev pub ◌>>=◌ {ℓ κ} : {A : Type ℓ} {B : Type κ} → Option A → (A → Option B) → Option B
none >>= f = none
some a >>= f = f a

pub record Callbacks (W Ptr : Type 0) : Type 0 where
  pub create : Option (W → Option Ptr × W)
  pub parse_arg : Option (Ptr → Bytes → W → ℤ × W)
  pub finalize : Option (Ptr → Ptr → W → ℤ × W)

-- `struct Keyword`, and the pointers to arrays of them: NULL, which also stands for what is behind an
-- array, and an entry with those that follow it.
mutual
  pub data Keyword (W Ptr : Type 0) : Type 0 where
    keyword : Option Bytes → Callbacks W Ptr → Grammar W Ptr → Keyword W Ptr

  pub data Grammar (W Ptr : Type 0) : Type 0 where
    null : Grammar W Ptr
    entry : Keyword W Ptr → Grammar W Ptr → Grammar W Ptr

-- `keyword`, `sub_context` and the callbacks' state between two tokens.
pub record Pending (W Ptr : Type 0) : Type 0 where
  pub current : Option (Keyword W Ptr)
  pub sub_context : Option Ptr
  pub world : W

-- The loop goes on, or the function returns.
pub data Action (W Ptr : Type 0) : Type 0 where
  go_on : Pending W Ptr → Action W Ptr
  return : ℤ → W → Action W Ptr

-- The result, the rest of the file and the callbacks' state.
abbrev pub Parsed : Type 0 → Type 0
Parsed W = ℤ × Bytes × W

-- The bytes of a string of C, in front of its first NUL.
abbrev pub c_string : Bytes → Bytes
c_string [] = []
c_string (zero ∷ s) = []
c_string (suc c ∷ s) = suc c ∷ c_string s

abbrev pub is_prefix : Bytes → Bytes → Bool
is_prefix [] s = true
is_prefix (c ∷ p) [] = false
is_prefix (c ∷ p) (d ∷ s) = (c == d) && is_prefix p s

-- The loop itself, as `self` in its own body.
abbrev pub Parse : Type 0 → Type 0 → Type 0
Parse W Ptr = Ptr → Grammar W Ptr → Pending W Ptr → Bytes → Option (Parsed W)

module _ {W Ptr : Type 0} where
  abbrev pub callbacks_of : Keyword W Ptr → Callbacks W Ptr
  callbacks_of (keyword name callbacks block) = callbacks

  abbrev pub block_grammar : Keyword W Ptr → Grammar W Ptr
  block_grammar (keyword name callbacks block) = block

  -- The last entry, with a NULL keyword, is taken where it can create.
  abbrev pub wildcard_entry : Keyword W Ptr → Option (W → Option Ptr × W) → Option (Keyword W Ptr)
  wildcard_entry k none = none
  wildcard_entry k (some create) = some k

  unfoldable pub find_keyword : Grammar W Ptr → Bytes → Option (Option (Keyword W Ptr))
  find_keyword null word = none
  find_keyword (entry (keyword none callbacks block) g) word =
      some (wildcard_entry (keyword none callbacks block) callbacks.create)
  find_keyword (entry (keyword (some name) callbacks block) g) word = elim (is_prefix word name) [
    | true ↦ some (some (keyword (some name) callbacks block))
    | false ↦ find_keyword g word
  ]

  abbrev pub nothing_pending : W → Pending W Ptr
  nothing_pending w = record { current = none; sub_context = none; world = w }

  -- `if (result <= 0) return result;`
  abbrev pub unless_positive : Option (Keyword W Ptr) → Option Ptr → ℤ × W → Action W Ptr
  unless_positive k sub (result, w) =
      if is_positive result
      then go_on (record { current = k; sub_context = sub; world = w })
      else return result w

  abbrev pub arg_of : Ptr → Option (Ptr → Bytes → W → ℤ × W) → Option (Bytes → W → ℤ × W)
  arg_of sub none = none
  arg_of sub (some parse_arg) = some (parse_arg sub)

  -- `keyword && sub_context && keyword->parse_arg`
  abbrev pub pending_arg : Option (Keyword W Ptr) → Option Ptr → Option (Bytes → W → ℤ × W)
  pending_arg (some k) (some sub) = arg_of sub (callbacks_of k).parse_arg
  pending_arg _ _ = none

  -- The first word is also the first argument where the keyword is NULL.
  abbrev pub first_arg : Keyword W Ptr → Ptr → Option (Bytes → W → ℤ × W)
  first_arg (keyword none callbacks block) sub = arg_of sub callbacks.parse_arg
  first_arg (keyword (some name) callbacks block) sub = none

  abbrev pub with_first_arg :
      Keyword W Ptr → Ptr → Bytes → W → Option (Bytes → W → ℤ × W) → Action W Ptr
  with_first_arg k sub word w none =
      go_on (record { current = some k; sub_context = some sub; world = w })
  with_first_arg k sub word w (some parse_arg) =
      unless_positive (some k) (some sub) (parse_arg (c_string word) w)

  abbrev pub created : Keyword W Ptr → Bytes → Option Ptr × W → Action W Ptr
  created k word (none, w) = return (neg 1) w
  created k word (some sub, w) = with_first_arg k sub word w (first_arg k sub)

  -- `create`, or the context itself.
  abbrev pub sub_context_of : Ptr → Option (W → Option Ptr × W) → W → Option Ptr × W
  sub_context_of context none w = (some context, w)
  sub_context_of context (some create) w = create w

  abbrev pub on_keyword : Ptr → Bytes → W → Option (Keyword W Ptr) → Action W Ptr
  on_keyword context word w none = return (neg 1) w
  on_keyword context word w (some k) =
      created k word (sub_context_of context (callbacks_of k).create w)

  abbrev pub on_word_with :
      Ptr
      → Grammar W Ptr
      → Pending W Ptr
      → Bytes
      → Option (Bytes → W → ℤ × W)
      → Option (Action W Ptr)
  on_word_with context grammar p word (some parse_arg) =
      some (unless_positive p.current p.sub_context (parse_arg (c_string word) p.world))
  on_word_with context grammar p word none = do
    found ← find_keyword grammar (c_string word)
    some (on_keyword context word p.world found)

  -- `case TOKEN_WORD`
  abbrev pub on_word : Ptr → Grammar W Ptr → Pending W Ptr → Bytes → Option (Action W Ptr)
  on_word context grammar p word =
      on_word_with context grammar p word (pending_arg p.current p.sub_context)

  abbrev pub finalized : Ptr → Ptr → Option (Ptr → Ptr → W → ℤ × W) → W → ℤ × W
  finalized context sub none w = (pos 1, w)
  finalized context sub (some finalize) w = finalize context sub w

  abbrev pub finalize_pending : Ptr → Option (Keyword W Ptr) → Option Ptr → W → ℤ × W
  finalize_pending context (some k) (some sub) w = finalized context sub (callbacks_of k).finalize w
  finalize_pending context _ _ w = (pos 1, w)

  -- `case TOKEN_EOL`
  abbrev pub on_eol : Ptr → Pending W Ptr → Action W Ptr
  on_eol context p =
      unless_positive none none (finalize_pending context p.current p.sub_context p.world)

  -- The keyword whose block begins, its context and its grammar.
  abbrev pub block_with :
      Keyword W Ptr → Ptr → Grammar W Ptr → Option (Keyword W Ptr × Ptr × Grammar W Ptr)
  block_with k sub null = none
  block_with k sub (entry e g) = some (k, sub, entry e g)

  abbrev pub pending_block :
      Option (Keyword W Ptr) → Option Ptr → Option (Keyword W Ptr × Ptr × Grammar W Ptr)
  pending_block (some k) (some sub) = block_with k sub (block_grammar k)
  pending_block _ _ = none

  -- What follows the block, by its result.
  abbrev pub after_block : Ptr → Keyword W Ptr → Ptr → ℤ × W → Action W Ptr
  after_block context k sub (result, w) =
      if is_positive result
      then unless_positive none none (finalized context sub (callbacks_of k).finalize w)
      else return result w

  abbrev pub act : Parse W Ptr → Ptr → Grammar W Ptr → Bytes → Action W Ptr → Option (Parsed W)
  act self context grammar file (go_on p) = self context grammar p file
  act self context grammar file (return result w) = some (result, file, w)

  -- `case TOKEN_OBRACE`
  abbrev pub on_obrace :
      Parse W Ptr
      → Ptr
      → Grammar W Ptr
      → W
      → Bytes
      → Option (Keyword W Ptr × Ptr × Grammar W Ptr)
      → Option (Parsed W)
  on_obrace self context grammar w file none = some (neg 1, file, w)
  on_obrace self context grammar w file (some (k, sub, block)) = do
    parsed ← self sub block (nothing_pending w) file
    act self context grammar parsed.1 (after_block context k sub (parsed.0, parsed.2))

  -- The `switch`.
  abbrev pub on_token :
      Parse W Ptr → Ptr → Grammar W Ptr → Pending W Ptr → Token × Bytes → Option (Parsed W)
  on_token self context grammar p (token_error, file) = some (neg 1, file, p.world)
  on_token self context grammar p (token_word word, file) = do
    action ← on_word context grammar p word
    act self context grammar file action
  on_token self context grammar p (token_obrace, file) =
      on_obrace self context grammar p.world file (pending_block p.current p.sub_context)
  on_token self context grammar p (token_eol, file) =
      act self context grammar file (on_eol context p)
  on_token self context grammar p (token_cbrace, file) = some (pos 1, file, p.world)
  on_token self context grammar p (token_end, file) = some (pos 1, file, p.world)

  -- The loop, on fuel, with the buffer of 256 bytes.
  unfoldable pub parse_loop : ℕ → Ptr → Grammar W Ptr → Pending W Ptr → Bytes → Option (Parsed W)
  parse_loop zero context grammar p file = none
  parse_loop (suc fuel) context grammar p file =
      next_token 256 file >>= on_token (parse_loop fuel) context grammar p

  -- Each token but the last takes up some of the file.
  abbrev pub parse_config : Ptr → Grammar W Ptr → W → Bytes → Option (Parsed W)
  parse_config context grammar w file =
      parse_loop (suc (length file)) context grammar (nothing_pending w) file
