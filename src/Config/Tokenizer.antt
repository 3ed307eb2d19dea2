-- ===== src/Config/Tokenizer.antt =====
-- src/cfg_tokenizer.c: the tokens of a configuration file. The file is the bytes from the current
-- position on: `getc` takes the first of them, and `fseek(config, -1, SEEK_CUR)` puts it back. `none`
-- stands for a write outside of the caller's buffer.
pub mod Progress
pub mod Spelling
mod Tests
use sniproxy.Prelude.{
  ℕ, ◌%◌, ◌^◌, Bool, true, false, List, [], ◌∷◌, ◌++◌, Option, none, some, Bytes, length, ltb, ◌==◌,
  ◌&&◌, ◌||◌, not, if◌then◌else◌,
}

pub data Token : Type 0 where
  token_error : Token
  token_eol : Token
  token_obrace : Token
  token_cbrace : Token
  -- The bytes of the buffer in front of the NUL that ends the word.
  token_word : Bytes → Token
  token_end : Token

-- Blank, tab, `;`, the ends of a line, `#`, `{` and `}`.
abbrev pub is_separator : ℕ → Bool
is_separator c =
    (c == 32)
    || (c == 9)
    || (c == 59)
    || (c == 10)
    || (c == 13)
    || (c == 35)
    || (c == 123)
    || (c == 125)

-- The variables of `next_word`; `word` is what stands in the buffer so far, its length being `len`.
pub record Reader : Type 0 where
  pub word : Bytes
  pub quoted : Bool
  pub escaped : Bool

-- What one round of the loop does: it goes on, ends the word, leaves the loop since the buffer is
-- full, or writes past the buffer.
pub data Round : Type 0 where
  next : Reader → Round
  ended : Bytes → Round
  full : Round
  overrun : Round

-- `buffer[len] = (char)ch; len++;`
abbrev pub store : ℕ → Reader → ℕ → Round
store buffer_len r c =
    if ltb (length r.word) buffer_len
    then next (record { word = r.word ++ (c ∷ []); quoted = r.quoted; escaped = false })
    else overrun

-- `buffer[len] = '\0'; len++; return len;`
abbrev pub terminate : ℕ → Reader → Round
terminate buffer_len r = if ltb (length r.word) buffer_len then ended r.word else overrun

-- The body of the loop.
abbrev pub read_byte : ℕ → Reader → ℕ → Round
read_byte buffer_len r c =
    if r.escaped
    then store buffer_len r c
    else if c == 92
    then next (record r { escaped = true })
    else if c == 34
    then next (record r { quoted = not r.quoted })
    else if is_separator c && not r.quoted
    then terminate buffer_len r
    else store buffer_len r c

-- The test of the loop, where there is a byte.
abbrev pub round : ℕ → Reader → ℕ → Round
round buffer_len r c = if ltb (length r.word) buffer_len then read_byte buffer_len r c else full

-- The word, or `token_error` for the result -1, and the rest of the file.
unfoldable pub word_loop : ℕ → Reader → Bytes → Option (Token × Bytes)
word_loop buffer_len r [] = some (token_error, [])
word_loop buffer_len r (c ∷ file) = elim (round buffer_len r c) [
  | next r' ↦ word_loop buffer_len r' file
  | ended word ↦ some (token_word word, c ∷ file)
  | full ↦ some (token_error, file)
  | overrun ↦ none
]

-- The `size_t` as the `int` that `next_word` takes. A negative one and 0 end the loop at once alike.
abbrev pub as_int : ℕ → ℕ
as_int n = if ltb (n % 2 ^ 32) (2 ^ 31) then n % 2 ^ 32 else 0

abbrev pub next_word : ℕ → Bytes → Option (Token × Bytes)
next_word buffer_len file =
    word_loop (as_int buffer_len) (record { word = []; quoted = false; escaped = false }) file

unfoldable pub chomp_line : Bytes → Bytes
chomp_line [] = []
chomp_line (c ∷ file) = if (c == 10) || (c == 13) then file else chomp_line file

abbrev pub is_blank_byte : ℕ → Bool
is_blank_byte c = (c == 32) || (c == 9)

-- The `switch`, but for blanks.
abbrev pub token_from : ℕ → ℕ → Bytes → Option (Token × Bytes)
token_from buffer_len c file =
    if c == 35
    then some (token_eol, chomp_line file)
    else if (c == 59) || (c == 10) || (c == 13)
    then some (token_eol, file)
    else if c == 123
    then some (token_obrace, file)
    else if c == 125
    then some (token_cbrace, file)
    else next_word buffer_len (c ∷ file)

unfoldable pub next_token : ℕ → Bytes → Option (Token × Bytes)
next_token buffer_len [] = some (token_end, [])
next_token buffer_len (c ∷ file) = elim (is_blank_byte c) [
  | true ↦ next_token buffer_len file
  | false ↦ token_from buffer_len c file
]
