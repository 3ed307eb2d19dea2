-- ===== src/Config/Tokenizer/Progress.antt =====
-- The tokenizer of src/cfg_tokenizer.c stays inside of its buffer and moves on in the file.
use sniproxy.Prelude.{
  ℕ, ◌<◌, ◌≤◌, ◌≡◌, ◌≢◌, refl, ap, Bool, true, false, [], ◌∷◌, ◌++◌, Option, some, Bytes, length,
  arith, ltb→lt, ltb, ◌==◌, ◌||◌, if◌then◌else◌, ◌&&◌, not, if_elim,
}
use sniproxy.Config.Tokenizer.{
  Token, token_error, token_eol, token_obrace, token_cbrace, token_word, token_end, Reader, Round,
  next, ended, full, store, terminate, read_byte, round, word_loop, as_int, next_word, chomp_line,
  is_blank_byte, token_from, next_token, is_separator,
}

-- The bytes of a word with the NUL behind them fit into the buffer.
abbrev pub Fits : ℕ → Token → Type 0
Fits buffer_len (token_word w) = length w < buffer_len
Fits buffer_len _ = Unit

-- The end is reported where nothing is left; any other token takes up some bytes.
abbrev pub Moves : Token → Bytes → Bytes → Type 0
Moves token_end eaten rest = rest ≡ []
Moves _ eaten rest = 0 < length eaten

-- A token that fits, made of the bytes `eaten`, and the rest of the file.
pub data Reads (buffer_len : ℕ) (P : Token → Bytes → Bytes → Type 0) (file : Bytes)
    : Option (Token × Bytes) → Type 0 where
  reads :
      (t : Token) (eaten rest : Bytes)
      → file ≡ eaten ++ rest
      → Fits buffer_len t
      → P t eaten rest
      → Reads buffer_len P file (some (t, rest))

-- What `next_word` gives: a word or an error, of some bytes or of none.
abbrev OfWord : Token → Bytes → Bytes → Type 0
OfWord (token_word w) eaten rest = Unit
OfWord token_error eaten rest = Unit
OfWord _ eaten rest = 0 < 0

-- A round never writes past the buffer, and a word that ends leaves room for its NUL.
data IsSafe (buffer_len : ℕ) : Round → Type 0 where
  is_next : (r : Reader) → IsSafe buffer_len (next r)
  is_ended : (word : Bytes) → length word < buffer_len → IsSafe buffer_len (ended word)
  is_full : IsSafe buffer_len full

store-IsSafe : (n : ℕ) (r : Reader) (c : ℕ) → ltb (length r.word) n ≡ true → IsSafe n (store n r c)
store-IsSafe n r c e = rw e (is_next _)

terminate-IsSafe : (n : ℕ) (r : Reader) → ltb (length r.word) n ≡ true → IsSafe n (terminate n r)
terminate-IsSafe n r e = rw e (is_ended r.word (ltb→lt _ _ e))

if-IsSafe :
    (n : ℕ) (b : Bool) {x y : Round} → IsSafe n x → IsSafe n y → IsSafe n (if b then x else y)
if-IsSafe n true p q = p
if-IsSafe n false p q = q

round-IsSafe : (n : ℕ) (r : Reader) (c : ℕ) → IsSafe n (round n r c)
round-IsSafe n r c = by_test (ltb (length r.word) n) (λ e.
    if-IsSafe n r.escaped (store-IsSafe n r c e) (
      if-IsSafe n (c == 92) (is_next _) (
        if-IsSafe n (c == 34) (is_next _) (
          if-IsSafe n (is_separator c && not r.quoted) (terminate-IsSafe n r e)
            (store-IsSafe n r c e)))))
  where
    by_test :
        (b : Bool)
        → (b ≡ true → IsSafe n (read_byte n r c))
        → IsSafe n (if b then read_byte n r c else full)
    by_test true f = f refl
    by_test false f = is_full

Reads-prepend :
    {n : ℕ} {P Q : Token → Bytes → Bytes → Type 0} (c : ℕ) (file : Bytes)
    {o : Option (Token × Bytes)}
    → ((t : Token) (eaten rest : Bytes) → P t eaten rest → Q t (c ∷ eaten) rest)
    → Reads n P file o
    → Reads n Q (c ∷ file) o
Reads-prepend c file f (reads t eaten rest e fits p) =
    reads t (c ∷ eaten) rest (ap (λ l. c ∷ l) e) fits (f t eaten rest p)

OfWord-prepend :
    (c : ℕ) (t : Token) (eaten rest : Bytes) → OfWord t eaten rest → OfWord t (c ∷ eaten) rest
OfWord-prepend c (token_word w) eaten rest p = tt
OfWord-prepend c token_error eaten rest p = tt
OfWord-prepend c _ eaten rest p = p

Moves-prepend :
    (c : ℕ) (t : Token) (eaten rest : Bytes) → OfWord t eaten rest → Moves t (c ∷ eaten) rest
Moves-prepend c token_error eaten rest p = omega arith
Moves-prepend c (token_word w) eaten rest p = omega arith
Moves-prepend c token_eol eaten rest p = absurd (omega (arith, p))
Moves-prepend c token_obrace eaten rest p = absurd (omega (arith, p))
Moves-prepend c token_cbrace eaten rest p = absurd (omega (arith, p))
Moves-prepend c token_end eaten rest p = absurd (omega (arith, p))

word_loop-Reads : (n : ℕ) (r : Reader) (file : Bytes) → Reads n OfWord file (word_loop n r file)
unfolding word_loop
word_loop-Reads n r [] = reads token_error [] [] refl tt tt
word_loop-Reads n r (c ∷ file) =
    by_round (λ r'. word_loop-Reads n r' file) (round n r c) refl (round-IsSafe n r c)
  where
    by_round :
        ((r' : Reader) → Reads n OfWord file (word_loop n r' file))
        → (o : Round) → round n r c ≡ o
        → IsSafe n o
        → Reads n OfWord (c ∷ file) (word_loop n r (c ∷ file))
    by_round rest _ e (is_next r') =
        rw (word_loop, e) (Reads-prepend c file (OfWord-prepend c) (rest r'))
    by_round rest _ e (is_ended word h) =
        rw (word_loop, e) (reads (token_word word) [] (c ∷ file) refl h tt)
    by_round rest _ e is_full = rw (word_loop, e) (reads token_error (c ∷ []) file refl tt tt)

chomp_line_lem : (file : Bytes) → (eaten : Bytes) × (file ≡ eaten ++ chomp_line file)
unfolding chomp_line
chomp_line_lem [] = ([], refl)
chomp_line_lem (c ∷ file) = by_test ((c == 10) || (c == 13)) refl (chomp_line_lem file)
  where
    by_test :
        (b : Bool)
        → ((c == 10) || (c == 13)) ≡ b
        → (eaten : Bytes) × (file ≡ eaten ++ chomp_line file)
        → (eaten : Bytes) × ((c ∷ file) ≡ eaten ++ chomp_line (c ∷ file))
    by_test true e rest = rw (chomp_line, e) (c ∷ [], refl)
    by_test false e rest = rw (chomp_line, e) (c ∷ rest.0, ap (λ l. c ∷ l) rest.1)

abbrev start : Reader
start = record { word = []; quoted = false; escaped = false }

-- A byte that neither ends a word nor escapes from it stays in the word.
loop-Moves :
    (n c : ℕ) (file : Bytes)
    → is_separator c ≡ false
    → Reads n Moves (c ∷ file) (word_loop n start (c ∷ file))
unfolding word_loop
loop-Moves n c file e = by_round (round n start c) refl (round-IsSafe n start c) stays
  where
    stays : (word : Bytes) → round n start c ≢ ended word
    stays word = ground arith

    by_round :
        (o : Round)
        → round n start c ≡ o
        → IsSafe n o
        → ((word : Bytes) → round n start c ≢ ended word)
        → Reads n Moves (c ∷ file) (word_loop n start (c ∷ file))
    by_round _ e (is_next r') s =
        rw (word_loop, e) (Reads-prepend c file (Moves-prepend c) (word_loop-Reads n r' file))
    by_round _ e (is_ended word h) s = absurd (s word e)
    by_round _ e is_full s =
        rw (word_loop, e) (reads token_error (c ∷ []) file refl tt (omega arith))

as_int-le : (n : ℕ) → as_int n ≤ n
as_int-le n = ground arith

Fits-le : (k n : ℕ) (t : Token) → k ≤ n → Fits k t → Fits n t
Fits-le k n (token_word w) h f = omega (arith, h, f)
Fits-le k n token_error h f = tt
Fits-le k n token_eol h f = tt
Fits-le k n token_obrace h f = tt
Fits-le k n token_cbrace h f = tt
Fits-le k n token_end h f = tt

Reads-le :
    {k n : ℕ} {P : Token → Bytes → Bytes → Type 0} {file : Bytes} {o : Option (Token × Bytes)}
    → k ≤ n
    → Reads k P file o
    → Reads n P file o
Reads-le {k} {n} h (reads t eaten rest e f p) = reads t eaten rest e (Fits-le k n t h f) p

first-Moves :
    (n c : ℕ) (file : Bytes)
    → is_separator c ≡ false
    → Reads n Moves (c ∷ file) (next_word n (c ∷ file))
first-Moves n c file e = Reads-le (as_int-le n) (loop-Moves (as_int n) c file e)

-- A token of a single byte.
one-Moves :
    (n c : ℕ) (file : Bytes) (t : Token)
    → Fits n t
    → Moves t (c ∷ []) file
    → Reads n Moves (c ∷ file) (some (t, file))
one-Moves n c file t f m = reads t (c ∷ []) file refl f m

comment-Moves :
    (n c : ℕ) (file : Bytes) → Reads n Moves (c ∷ file) (some (token_eol, chomp_line file))
comment-Moves n c file =
    let l = chomp_line_lem file in
    reads token_eol (c ∷ l.0) (chomp_line file) (ap (λ l. c ∷ l) l.1) tt (omega arith)

in_word :
    (c : ℕ)
    → is_blank_byte c ≡ false
    → (c == 35) ≡ false
    → ((c == 59) || (c == 10) || (c == 13)) ≡ false
    → (c == 123) ≡ false
    → (c == 125) ≡ false
    → is_separator c ≡ false
in_word c b h e o x = ground arith

token_from-Moves :
    (n c : ℕ) (file : Bytes)
    → is_blank_byte c ≡ false
    → Reads n Moves (c ∷ file) (token_from n c file)
token_from-Moves n c file b =
    let P = Reads n Moves (c ∷ file) in
    if_elim P (c == 35) (λ e. comment-Moves n c file)
      (λ h.
        if_elim P ((c == 59) || (c == 10) || (c == 13))
          (λ e. one-Moves n c file token_eol tt (omega arith))
          (λ e.
            if_elim P (c == 123) (λ e. one-Moves n c file token_obrace tt (omega arith))
              (λ o.
                if_elim P (c == 125) (λ e. one-Moves n c file token_cbrace tt (omega arith))
                  (λ x. first-Moves n c file (in_word c b h e o x)))))

skip-Moves :
    (c : ℕ) (t : Token) (eaten rest : Bytes) → Moves t eaten rest → Moves t (c ∷ eaten) rest
skip-Moves c token_end eaten rest m = m
skip-Moves c token_error eaten rest m = omega arith
skip-Moves c token_eol eaten rest m = omega arith
skip-Moves c token_obrace eaten rest m = omega arith
skip-Moves c token_cbrace eaten rest m = omega arith
skip-Moves c (token_word w) eaten rest m = omega arith

-- `next_token` on any file and with a buffer of any length: no write leaves the buffer, a word
-- with its NUL fits into it, what is left is the end of the file, and a token other than the end
-- takes up at least one byte.
pub next_token-Reads :
    (buffer_len : ℕ) (file : Bytes) → Reads buffer_len Moves file (next_token buffer_len file)
unfolding next_token
next_token-Reads n [] = reads token_end [] [] refl tt refl
next_token-Reads n (c ∷ file) = by_blank (is_blank_byte c) refl (next_token-Reads n file)
  where
    by_blank :
        (b : Bool)
        → is_blank_byte c ≡ b
        → Reads n Moves file (next_token n file)
        → Reads n Moves (c ∷ file) (next_token n (c ∷ file))
    by_blank true e rest = rw (next_token, e) (Reads-prepend c file (skip-Moves c) rest)
    by_blank false e rest = rw (next_token, e) (token_from-Moves n c file e)
