-- ===== src/Config/Parser/Layout.antt =====
-- What a configuration file means, apart from the parser of src/cfg_parser.c: a list of statements, and
-- the calls of the grammar's callbacks that they stand for.
pub mod Opening
pub mod Agrees
pub mod Agreement
use sniproxy.Prelude.{
  ℕ, ◌<◌, ◌≡◌, Bool, true, false, List, [], ◌∷◌, Option, none, some, Bytes, ℤ, pos, neg,
  is_positive, if◌then◌else◌,
}
use sniproxy.Config.Tokenizer.{
  Token, token_eol, token_obrace, token_cbrace, token_word, token_end, next_token,
}
use sniproxy.Config.Parser.{
  Callbacks, Keyword, keyword, Grammar, null, entry, c_string, callbacks_of, block_grammar,
  find_keyword, sub_context_of, finalized, ◌>>=◌,
}

-- Statements: a word and its arguments, and for a section the statements of its block.
pub data Items : Type 0 where
  done : Items
  statement : Bytes → List Bytes → Items → Items
  section : Bytes → List Bytes → Items → Items → Items

-- The next token of a file, and what follows it.
abbrev pub Next : Bytes → Token → Bytes → Type 0
Next file t rest = next_token 256 file ≡ some (t, rest)

pub data Words : List Bytes → Bytes → Bytes → Type 0 where
  words_end : {file : Bytes} → Words [] file file
  words_cons :
      {a : Bytes} {more : List Bytes} {file after rest : Bytes}
      → Next file (token_word a) after
      → Words more after rest
      → Words (a ∷ more) file rest

-- A file lays out statements up to the brace that closes them, or to its end: each ends with its line
-- or at a `;`, or has a block in braces. There may be empty lines and comments in between.
pub data Lays : Items → Bytes → Bytes → Type 0 where
  lays_brace : {file rest : Bytes} → Next file token_cbrace rest → Lays done file rest
  lays_end : {file rest : Bytes} → Next file token_end rest → Lays done file rest
  lays_blank :
      {items : Items} {file after rest : Bytes}
      → Next file token_eol after
      → Lays items after rest
      → Lays items file rest
  lays_statement :
      {word : Bytes} {args : List Bytes} {items : Items} {file end after rest : Bytes}
      → Words (word ∷ args) file end
      → Next end token_eol after
      → Lays items after rest
      → Lays (statement word args items) file rest
  lays_section :
      {word : Bytes} {args : List Bytes} {body items : Items} {file end block after rest : Bytes}
      → Words (word ∷ args) file end
      → Next end token_obrace block
      → Lays body block after
      → Lays items after rest
      → Lays (section word args body items) file rest

module _ {W : Type 0} where
  -- A result that is not positive ends it all.
  abbrev pub and_then : ℤ × W → (W → Option (ℤ × W)) → Option (ℤ × W)
  and_then (result, w) f = if is_positive result then f w else some (result, w)

  abbrev pub run_args : (Bytes → W → ℤ × W) → List Bytes → W → (W → Option (ℤ × W)) → Option (ℤ × W)
  run_args parse_arg [] w f = f w
  run_args parse_arg (a ∷ more) w f =
      and_then (parse_arg (c_string a) w) (λ w. run_args parse_arg more w f)

module _ {W Ptr : Type 0} where
  -- The arguments, where there are none or the keyword takes them.
  abbrev pub given_args :
      Option (Ptr → Bytes → W → ℤ × W)
      → Ptr
      → List Bytes
      → W
      → (W → Option (ℤ × W))
      → Option (ℤ × W)
  given_args none sub [] w f = f w
  given_args none sub (a ∷ more) w f = none
  given_args (some parse_arg) sub args w f = run_args (parse_arg sub) args w f

  -- An entry without a keyword takes the word for its first argument.
  abbrev pub all_args : Keyword W Ptr → Bytes → List Bytes → List Bytes
  all_args (keyword none callbacks block) word args = word ∷ args
  all_args (keyword (some name) callbacks block) word args = args

  abbrev pub with_context :
      Keyword W Ptr
      → Bytes
      → List Bytes
      → (Ptr → W → Option (ℤ × W))
      → Option Ptr × W
      → Option (ℤ × W)
  with_context k word args f (none, w) = some (neg 1, w)
  with_context k word args f (some sub, w) =
      given_args (callbacks_of k).parse_arg sub (all_args k word args) w (f sub)

  abbrev pub run_found :
      Ptr
      → Bytes
      → List Bytes
      → (Keyword W Ptr → Ptr → W → Option (ℤ × W))
      → W
      → Option (Option (Keyword W Ptr))
      → Option (ℤ × W)
  run_found context word args f w none = none
  run_found context word args f w (some none) = some (neg 1, w)
  run_found context word args f w (some (some k)) =
      with_context k word args (f k) (sub_context_of context (callbacks_of k).create w)

  -- A statement's word and arguments, and then `f`.
  abbrev pub run_word :
      Ptr
      → Grammar W Ptr
      → Bytes
      → List Bytes
      → (Keyword W Ptr → Ptr → W → Option (ℤ × W))
      → W
      → Option (ℤ × W)
  run_word context g word args f w =
      run_found context word args f w (find_keyword g (c_string word))

  abbrev pub finish_statement : Ptr → Keyword W Ptr → Ptr → W → Option (ℤ × W)
  finish_statement context k sub w = some (finalized context sub (callbacks_of k).finalize w)

  -- A block where the keyword has one.
  abbrev pub in_block : Grammar W Ptr → W → Option (ℤ × W) → Option (ℤ × W)
  in_block null w run = some (neg 1, w)
  in_block (entry k g) w run = run

  -- The statements one by one: the keyword's `create`, `parse_arg` for each argument, the block if
  -- there is one, and `finalize`.
  unfoldable pub run_items : Ptr → Grammar W Ptr → Items → W → Option (ℤ × W)
  run_items context g done w = some (pos 1, w)
  run_items context g (statement word args items) w = do
    r ← run_word context g word args (finish_statement context) w
    and_then r (run_items context g items)
  run_items context g (section word args body items) w = do
    r ←
        run_word context g word args
          (λ k sub w. do
            r ← in_block (block_grammar k) w (run_items sub (block_grammar k) body w)
            and_then r (finish_statement context k sub))
          w
    and_then r (run_items context g items)
