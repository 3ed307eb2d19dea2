-- ===== src/Config/Tokenizer/Spelling.antt =====
-- How words are spelt in a configuration file, apart from the tokenizer of src/cfg_tokenizer.c.
use sniproxy.Prelude.{
  ℕ, ◌+◌, ◌^◌, ◌<◌, ◌≡◌, ◌≢◌, refl, ap, ◌∙◌, sym, Bool, true, false, [], ◌∷◌, ◌++◌, some, Bytes,
  length, length-append, arith, lt→ltb, ◌==◌, append-nil, ◌&&◌, not,
}
use sniproxy.Config.Tokenizer.{
  token_word, Reader, next, ended, round, word_loop, is_blank_byte, next_token, is_separator,
  token_from, as_int, next_word,
}

-- A text spells a word: a backslash takes the next byte as it is, a double quote begins or ends a
-- part in which separators are bytes like any others, and all other bytes stand for themselves.
pub data Spells : Bool → Bytes → Bytes → Type 0 where
  spells_end : Spells false [] []
  spells_escaped :
      {quoted : Bool} {text word : Bytes} (c : ℕ)
      → Spells quoted text word
      → Spells quoted (92 ∷ c ∷ text) (c ∷ word)
  spells_quote :
      {quoted : Bool} {text word : Bytes}
      → Spells (not quoted) text word
      → Spells quoted (34 ∷ text) word
  spells_plain :
      {quoted : Bool} {text word : Bytes} (c : ℕ)
      → c ≢ 92
      → c ≢ 34
      → (is_separator c && not quoted) ≡ false
      → Spells quoted text word
      → Spells quoted (c ∷ text) (c ∷ word)

reader : Bytes → Bool → Bool → Reader
reader word quoted escaped = record { word = word; quoted = quoted; escaped = escaped }

-- One round of the loop.
word_loop-next :
    (n : ℕ) (r r' : Reader) (c : ℕ) (file : Bytes)
    → round n r c ≡ next r'
    → word_loop n r (c ∷ file) ≡ word_loop n r' file
unfolding word_loop
word_loop-next n r r' c file e = rw (word_loop, e) refl

word_loop-ended :
    (n : ℕ) (r : Reader) (word : Bytes) (c : ℕ) (file : Bytes)
    → round n r c ≡ ended word
    → word_loop n r (c ∷ file) ≡ some (token_word word, c ∷ file)
unfolding word_loop
word_loop-ended n r word c file e = rw (word_loop, e) refl

-- What a round does with each kind of byte while there is room in the buffer.
round_escaped :
    (n : ℕ) (v : Bytes) (q : Bool) (c : ℕ)
    → length v < n
    → round n (reader v q true) c ≡ next (reader (v ++ (c ∷ [])) q false)
unfolding reader
round_escaped n v q c h = rw (lt→ltb _ _ h) refl

round_backslash :
    (n : ℕ) (v : Bytes) (q : Bool)
    → length v < n
    → round n (reader v q false) 92 ≡ next (reader v q true)
unfolding reader
round_backslash n v q h = rw (lt→ltb _ _ h) refl

round_quote :
    (n : ℕ) (v : Bytes) (q : Bool)
    → length v < n
    → round n (reader v q false) 34 ≡ next (reader v (not q) false)
unfolding reader
round_quote n v q h = rw (lt→ltb _ _ h) refl

==_false : (a b : ℕ) → a ≢ b → (a == b) ≡ false
==_false a b h = ground arith

round_plain :
    (n : ℕ) (v : Bytes) (q : Bool) (c : ℕ)
    → length v < n
    → c ≢ 92
    → c ≢ 34
    → (is_separator c && not q) ≡ false
    → round n (reader v q false) c ≡ next (reader (v ++ (c ∷ [])) q false)
unfolding reader
round_plain n v q c h b d s = rw (lt→ltb _ _ h, ==_false c 92 b, ==_false c 34 d, s) refl

round_separator :
    (n : ℕ) (v : Bytes) (c : ℕ)
    → length v < n
    → is_separator c ≡ true
    → round n (reader v false false) c ≡ ended v
unfolding reader
round_separator n v c h s = rw (lt→ltb _ _ h) (ground arith)

snoc_append : (v : Bytes) (c : ℕ) (w : Bytes) → (v ++ (c ∷ [])) ++ w ≡ v ++ (c ∷ w)
snoc_append [] c w = refl
snoc_append (x ∷ v) c w = ap (λ l. x ∷ l) (snoc_append v c w)

length-snoc : (v : Bytes) (c : ℕ) → length (v ++ (c ∷ [])) ≡ length v + 1
length-snoc v c = length-append v (c ∷ [])

module _ (n sep : ℕ) (rest : Bytes) (is_sep : is_separator sep ≡ true) where
  -- The loop reads the word behind what it has already.
  word_loop-Spells :
      {q : Bool} {text word : Bytes} (v : Bytes)
      → Spells q text word
      → length v + length word < n
      → word_loop n (reader v q false) (text ++ (sep ∷ rest))
        ≡ some (token_word (v ++ word), sep ∷ rest)
  word_loop-Spells v spells_end h =
      word_loop-ended n _ v sep rest (round_separator n v sep (omega (arith, h)) is_sep)
      ∙ ap (λ w. some (token_word w, sep ∷ rest)) (sym (append-nil v))
  word_loop-Spells {q} v (spells_escaped c s) h =
      word_loop-next n _ _ 92 _ (round_backslash n v q (omega (arith, h)))
      ∙ word_loop-next n _ _ c _ (round_escaped n v q c (omega (arith, h)))
      ∙ word_loop-Spells (v ++ (c ∷ [])) s (omega (arith, h, length-snoc v c))
      ∙ ap (λ w. some (token_word w, sep ∷ rest)) (snoc_append v c _)
  word_loop-Spells {q} v (spells_quote s) h =
      word_loop-next n _ _ 34 _ (round_quote n v q (omega (arith, h))) ∙ word_loop-Spells v s h
  word_loop-Spells {q} v (spells_plain c b d p s) h =
      word_loop-next n _ _ c _ (round_plain n v q c (omega (arith, h)) b d p)
      ∙ word_loop-Spells (v ++ (c ∷ [])) s (omega (arith, h, length-snoc v c))
      ∙ ap (λ w. some (token_word w, sep ∷ rest)) (snoc_append v c _)

-- No spelling begins with a separator.
first_of : (c : ℕ) (text word : Bytes) → Spells false (c ∷ text) word → is_separator c ≡ false
first_of _ _ _ (spells_escaped c s) = refl
first_of _ _ _ (spells_quote s) = refl
first_of _ _ _ (spells_plain c b d p s) = ground arith

token_from_word :
    (n c : ℕ) (file : Bytes) → is_separator c ≡ false → token_from n c file ≡ next_word n (c ∷ file)
token_from_word n c file e = ground arith

blank_false : (c : ℕ) → is_separator c ≡ false → is_blank_byte c ≡ false
blank_false c e = ground arith

pub next_token-blank :
    (n c : ℕ) (file : Bytes) → is_blank_byte c ≡ true → next_token n (c ∷ file) ≡ next_token n file
unfolding next_token
next_token-blank n c file e = rw (next_token, e) refl

pub next_token-from :
    (n c : ℕ) (file : Bytes)
    → is_blank_byte c ≡ false
    → next_token n (c ∷ file) ≡ token_from n c file
unfolding next_token
next_token-from n c file e = rw (next_token, e) refl

abbrev pub AreBlank : Bytes → Type 0
AreBlank [] = Unit
AreBlank (c ∷ cs) = (is_blank_byte c ≡ true) × AreBlank cs

pub next_token-blanks :
    (n : ℕ) (blanks file : Bytes)
    → AreBlank blanks
    → next_token n (blanks ++ file) ≡ next_token n file
next_token-blanks n [] file h = refl
next_token-blanks n (c ∷ cs) file h =
    next_token-blank n c (cs ++ file) h.0 ∙ next_token-blanks n cs file h.1

as_int-small : (n : ℕ) → n < 2 ^ 31 → as_int n ≡ n
as_int-small n h = ground arith

read_first :
    (n : ℕ) (text word : Bytes) (sep : ℕ) (rest : Bytes)
    → 0 < length text
    → Spells false text word
    → length word < n
    → n < 2 ^ 31
    → is_separator sep ≡ true
    → next_token n (text ++ (sep ∷ rest)) ≡ some (token_word word, sep ∷ rest)
unfolding reader
read_first n [] word sep rest some_text s h small e = absurd (omega (arith, some_text))
read_first n (c ∷ text) word sep rest some_text s h small e =
    let f = first_of c text word s in
    next_token-from n c _ (blank_false c f)
    ∙ token_from_word n c _ f
    ∙ ap (λ k. word_loop k (reader [] false false) ((c ∷ text) ++ (sep ∷ rest)))
        (as_int-small n small)
    ∙ word_loop-Spells n sep rest e [] s (omega (arith, h))

-- `next_token` reads any spelling of a word back, with quotes and backslashes, behind any blanks
-- and in front of a separator, where the text is not empty and the word with its NUL fits into the
-- buffer, which has less than 2 ^ 31 bytes: the separator is left for the next token.
pub next_token-Spells :
    (buffer_len : ℕ) (blanks text word : Bytes) (sep : ℕ) (rest : Bytes)
    → AreBlank blanks
    → 0 < length text
    → Spells false text word
    → length word < buffer_len
    → buffer_len < 2 ^ 31
    → is_separator sep ≡ true
    → next_token buffer_len (blanks ++ (text ++ (sep ∷ rest))) ≡ some (token_word word, sep ∷ rest)
next_token-Spells n blanks text word sep rest b some_text s h small e =
    next_token-blanks n blanks _ b ∙ read_first n text word sep rest some_text s h small e
