-- ===== src/Config/Parser/Layout/Opening.antt =====
-- `parse_config` of src/cfg_parser.c on the words of one statement.
use sniproxy.Prelude.{
  ℕ, zero, suc, ◌≤◌, ◌<◌, ◌≡◌, ◌≢◌, refl, sym, ap, subst, ◌∙◌, Bool, true, false, List, ◌∷◌, Option,
  none, some, Bytes, length, length-append, arith, ℤ, neg, is_positive,
}
use sniproxy.Config.Tokenizer.{
  Token, token_eol, token_obrace, token_cbrace, token_word, token_end, next_token,
}
use sniproxy.Config.Tokenizer.Progress.{Moves, Reads, reads, next_token-Reads}
use sniproxy.Config.Parser.{
  Keyword, keyword, Grammar, Pending, Parsed, c_string, callbacks_of, find_keyword, nothing_pending,
  unless_positive, created, sub_context_of, on_keyword, on_token, parse_loop, ◌>>=◌, act,
}
use sniproxy.Config.Parser.Layout.{
  Next, Words, words_end, words_cons, and_then, run_args, given_args, with_context, run_found,
  run_word,
}

-- A token that is read takes up some of the file.
Reads-shorter :
    {n : ℕ} (file : Bytes) (t : Token) (rest : Bytes) {o : Option (Token × Bytes)}
    → o ≡ some (t, rest)
    → t ≢ token_end
    → Reads n Moves file o
    → length rest < length file
Reads-shorter file t rest e n (reads t' eaten rest' split fits m) = by_token t' (t_eq) (rest_eq) m
  where
    t_eq : t' ≡ t
    t_eq = cc

    rest_eq : rest' ≡ rest
    rest_eq = cc

    longer : 0 < length eaten → length rest < length file
    longer h = omega (arith, h, ap length split, length-append eaten rest', ap length rest_eq)

    by_token : (s : Token) → s ≡ t → rest' ≡ rest → Moves s eaten rest' → length rest < length file
    by_token token_end e1 e2 m = absurd (n (sym e1))
    by_token (token_word w) e1 e2 m = longer m
    by_token sniproxy.Config.Tokenizer.token_error e1 e2 m = longer m
    by_token token_eol e1 e2 m = longer m
    by_token token_obrace e1 e2 m = longer m
    by_token token_cbrace e1 e2 m = longer m

pub Next-shorter :
    (file : Bytes) (t : Token) (rest : Bytes)
    → Next file t rest
    → t ≢ token_end
    → length rest < length file
Next-shorter file t rest e n = Reads-shorter file t rest e n (next_token-Reads 256 file)

Reads-le :
    {n : ℕ} (file : Bytes) (t : Token) (rest : Bytes) {o : Option (Token × Bytes)}
    → o ≡ some (t, rest)
    → Reads n Moves file o
    → length rest ≤ length file
Reads-le file t rest e (reads t' eaten rest' split fits m) =
    let rest_eq : rest' ≡ rest = cc in
    omega (arith, ap length split, length-append eaten rest', ap length rest_eq)

pub Next-le :
    (file : Bytes) (t : Token) (rest : Bytes) → Next file t rest → length rest ≤ length file
Next-le file t rest e = Reads-le file t rest e (next_token-Reads 256 file)

pub Words-le :
    (words : List Bytes) (file rest : Bytes) → Words words file rest → length rest ≤ length file
Words-le _ file rest words_end = omega arith
Words-le (a ∷ more) file rest (words_cons {after = after} n words) =
    omega (arith, Next-le file (token_word a) after n, Words-le more after rest words)

module _ {W Ptr : Type 0} where
  -- One round of the loop.
  pub parse_loop-step :
      (fuel : ℕ) (context : Ptr) (g : Grammar W Ptr) (p : Pending W Ptr) (file : Bytes) (t : Token)
      (rest : Bytes)
      → Next file t rest
      → parse_loop (suc fuel) context g p file ≡ on_token (parse_loop fuel) context g p (t, rest)
  unfolding parse_loop
  parse_loop-step fuel context g p file t rest e = rw (parse_loop, e) refl

  abbrev pub pending_with : Keyword W Ptr → Ptr → W → Pending W Ptr
  pending_with k sub w = record { current = some k; sub_context = some sub; world = w }

  -- What the parser does with a statement's words: it returns where a callback refuses, or goes on
  -- behind them in the keyword's context, where `f` is still to be done.
  pub data Opens (context : Ptr) (g : Grammar W Ptr) (rest : Bytes)
      (f : Keyword W Ptr → Ptr → W → Option (ℤ × W)) (r : ℤ × W) (o : Option (Parsed W))
      : Type 0 where
    refuses :
        (left : Bytes)
        → is_positive r.0 ≡ false
        → o ≡ some (r.0, left, r.1)
        → Opens context g rest f r o
    opens :
        (fuel : ℕ) (k : Keyword W Ptr) (sub : Ptr) (w : W)
        → length rest < fuel
        → o ≡ parse_loop fuel context g (pending_with k sub w) rest
        → f k sub w ≡ some r
        → Opens context g rest f r o

  Opens-eq :
      {context : Ptr} {g : Grammar W Ptr} {rest : Bytes}
      {f : Keyword W Ptr → Ptr → W → Option (ℤ × W)} {r : ℤ × W} {o o' : Option (Parsed W)}
      → o ≡ o'
      → Opens context g rest f r o'
      → Opens context g rest f r o
  Opens-eq e h = subst (Opens _ _ _ _ _) (sym e) h

  refuses-eq :
      {context : Ptr} {g : Grammar W Ptr} {rest : Bytes}
      {f : Keyword W Ptr → Ptr → W → Option (ℤ × W)} {r : ℤ × W} (left : Bytes) (x : ℤ × W)
      → is_positive x.0 ≡ false
      → some x ≡ some r
      → Opens context g rest f r (some (x.0, left, x.1))
  refuses-eq {r = r} left x p e =
      let q : x ≡ r = cc in
      refuses left (ap (λ y. is_positive y.0) (sym q) ∙ p) (ap (λ y. some (y.0, left, y.1)) q)

  module _ (context : Ptr) (g : Grammar W Ptr) (f : Keyword W Ptr → Ptr → W → Option (ℤ × W))
      (r : ℤ × W) (k : Keyword W Ptr) (sub : Ptr) where
    -- Once an argument has been taken.
    taken-Opens :
        (fuel : ℕ) (after rest : Bytes) (x : ℤ × W) (cont : W → Option (ℤ × W))
        → and_then x cont ≡ some r
        → ((w : W)
            → cont w ≡ some r
            → Opens context g rest f r (parse_loop fuel context g (pending_with k sub w) after))
        → Opens context g rest f r
            (act (parse_loop fuel) context g after (unless_positive (some k) (some sub) x))
    taken-Opens fuel after rest (result, w) cont e h = by_sign (is_positive result) refl
      where
        by_sign :
            (b : Bool)
            → is_positive result ≡ b
            → Opens context g rest f r (
                act
                  (parse_loop fuel)
                  context
                  g
                  after
                  (unless_positive (some k) (some sub) (result, w)))
        by_sign true p = rw p (h w (simp p at e))
        by_sign false p = rw p (refuses-eq after (result, w) p (simp p at e))

    run_args-Opens :
        (parse_arg : Ptr → Bytes → W → ℤ × W) (args : List Bytes) (file rest : Bytes) (fuel : ℕ)
        (w : W)
        → (callbacks_of k).parse_arg ≡ some parse_arg
        → Words args file rest
        → length file < fuel
        → run_args (parse_arg sub) args w (f k sub) ≡ some r
        → Opens context g rest f r (parse_loop fuel context g (pending_with k sub w) file)
    run_args-Opens parse_arg _ file _ fuel w e words_end short run =
        opens fuel k sub w short refl run
    run_args-Opens parse_arg _ file rest zero w e (words_cons n more) short run =
        absurd (omega (arith, short))
    run_args-Opens parse_arg (a ∷ args) file rest (suc fuel) w e (words_cons {after = after} n more)
          short run =
        Opens-eq (parse_loop-step fuel context g _ file _ after n ∙ takes) (
          taken-Opens fuel after rest (parse_arg sub (c_string a) w)
            (λ w. run_args (parse_arg sub) args w (f k sub)) run
            (λ w' run'.
              run_args-Opens parse_arg args after rest fuel w' e more
                (omega (arith, short, Next-shorter file _ after n cc)) run'))
      where
        takes :
            on_token (parse_loop fuel) context g (pending_with k sub w) (token_word a, after)
            ≡ act
                (parse_loop fuel)
                context
                g
                after
                (unless_positive (some k) (some sub) (parse_arg sub (c_string a) w))
        takes = rw e refl

    given_args-Opens :
        (args : List Bytes) (file rest : Bytes) (fuel : ℕ) (w : W)
        (parse_arg : Option (Ptr → Bytes → W → ℤ × W))
        → (callbacks_of k).parse_arg ≡ parse_arg
        → Words args file rest
        → length file < fuel
        → given_args parse_arg sub args w (f k sub) ≡ some r
        → Opens context g rest f r (parse_loop fuel context g (pending_with k sub w) file)
    given_args-Opens _ file rest fuel w none e words_end short run =
        opens fuel k sub w short refl run
    given_args-Opens _ file rest fuel w none e (words_cons n more) short run = absurd cc
    given_args-Opens args file rest fuel w (some parse_arg) e words short run =
        run_args-Opens parse_arg args file rest fuel w e words short run

  -- From the keyword's context on.
  created-Opens :
      (context : Ptr) (g : Grammar W Ptr) (f : Keyword W Ptr → Ptr → W → Option (ℤ × W)) (r : ℤ × W)
      (k : Keyword W Ptr) (word : Bytes) (args : List Bytes) (after rest : Bytes) (fuel : ℕ)
      (made : Option Ptr × W)
      → Words args after rest
      → length after < fuel
      → with_context k word args (f k) made ≡ some r
      → Opens context g rest f r (act (parse_loop fuel) context g after (created k word made))
  created-Opens context g f r k word args after rest fuel (none, w) words short run =
      refuses-eq after (neg 1, w) refl run
  created-Opens context g f r (keyword (some name) callbacks block) word args after rest fuel
        (some sub, w) words short run =
      given_args-Opens context g f r _ sub args after rest fuel w callbacks.parse_arg refl words
        short run
  created-Opens context g f r (keyword none callbacks block) word args after rest fuel (some sub, w)
        words short run =
      by_arg callbacks.parse_arg refl
    where
      by_arg :
          (parse_arg : Option (Ptr → Bytes → W → ℤ × W))
          → callbacks.parse_arg ≡ parse_arg
          → Opens context g rest f r (
              act
                (parse_loop fuel)
                context
                g
                after
                (created (keyword none callbacks block) word (some sub, w)))
      by_arg none e = absurd (none_run (simp e at run))
        where
          none_run : none ≡ some r → ⊥
          none_run h = cc
      by_arg (some parse_arg) e = simp e (
          taken-Opens context g f r (keyword none callbacks block) sub fuel after rest
            (parse_arg sub (c_string word) w)
            (λ w. run_args (parse_arg sub) args w (f (keyword none callbacks block) sub))
            (simp e at run)
            (λ w' run'.
              run_args-Opens context g f r (keyword none callbacks block) sub parse_arg args after
                rest fuel w' e words short run'))

  found-Opens :
      (context : Ptr) (g : Grammar W Ptr) (f : Keyword W Ptr → Ptr → W → Option (ℤ × W)) (r : ℤ × W)
      (word : Bytes) (args : List Bytes) (after rest : Bytes) (fuel : ℕ) (w : W)
      (found : Option (Option (Keyword W Ptr)))
      → Words args after rest
      → length after < fuel
      → run_found context word args f w found ≡ some r
      → Opens context g rest f r (
          found
          >>= (λ k. some (on_keyword context word w k))
          >>= act (parse_loop fuel) context g after)
  found-Opens context g f r word args after rest fuel w none words short run = absurd cc
  found-Opens context g f r word args after rest fuel w (some none) words short run =
      refuses-eq after (neg 1, w) refl run
  found-Opens context g f r word args after rest fuel w (some (some k)) words short run =
      created-Opens context g f r k word args after rest fuel
        (sub_context_of context (callbacks_of k).create w) words short run

  -- The words of a statement, from between two statements on.
  pub run_word-Opens :
      (context : Ptr) (g : Grammar W Ptr) (f : Keyword W Ptr → Ptr → W → Option (ℤ × W)) (r : ℤ × W)
      (word : Bytes) (args : List Bytes) (file rest : Bytes) (fuel : ℕ) (w : W)
      → Words (word ∷ args) file rest
      → length file < fuel
      → run_word context g word args f w ≡ some r
      → Opens context g rest f r (parse_loop fuel context g (nothing_pending w) file)
  run_word-Opens context g f r word args file rest zero w words short run =
      absurd (omega (arith, short))
  run_word-Opens context g f r word args file rest (suc fuel) w (words_cons {after = after} n more)
        short run =
      Opens-eq (parse_loop-step fuel context g (nothing_pending w) file _ after n) (
        found-Opens context g f r word args after rest fuel w (find_keyword g (c_string word)) more
          (omega (arith, short, Next-shorter file _ after n cc)) run)
