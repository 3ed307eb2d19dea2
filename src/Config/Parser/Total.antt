-- ===== src/Config/Parser/Total.antt =====
-- `parse_config` of src/cfg_parser.c returns for every file.
use sniproxy.Prelude.{
  ℕ, zero, suc, ◌+◌, ◌≤◌, ◌<◌, ◌≡◌, ◌≢◌, refl, ap, ◌∙◌, Bool, true, false, Option, none, some,
  Bytes, length, length-append, arith, ℤ, is_positive, if_elim,
}
use sniproxy.Config.Tokenizer.{
  Token, token_error, token_eol, token_obrace, token_cbrace, token_word, token_end, next_token,
}
use sniproxy.Config.Tokenizer.Progress.{Moves, Reads, reads, next_token-Reads}
use sniproxy.Config.Parser.{
  Keyword, keyword, Grammar, null, entry, Pending, Action, go_on, return, Parsed, Parse, c_string,
  is_prefix, callbacks_of, block_grammar, wildcard_entry, find_keyword, nothing_pending,
  unless_positive, pending_arg, first_arg, with_first_arg, created, sub_context_of, on_keyword,
  on_word_with, finalize_pending, on_eol, block_with, pending_block, after_block, act, on_obrace,
  on_token, parse_loop, parse_config, ◌>>=◌, finalized,
}

-- The parser returns, with no more of the file left than there was.
pub data Returns {W : Type 0} (file : Bytes) : Option (Parsed W) → Type 0 where
  returns :
      (result : ℤ) (rest : Bytes) (w : W)
      → length rest ≤ length file
      → Returns file (some (result, rest, w))

Returns-weaken :
    {W : Type 0} {rest file : Bytes} {o : Option (Parsed W)}
    → length rest ≤ length file
    → Returns rest o
    → Returns file o
Returns-weaken le (returns result r w h) = returns result r w (omega (arith, h, le))

module _ {W Ptr : Type 0} where
  -- Each array, and each block's within it, ends with an entry whose keyword is NULL.
  unfoldable pub AreEnded : Grammar W Ptr → Type 0
  AreEnded null = Unit
  AreEnded (entry (keyword none callbacks block) g) = AreEnded block
  AreEnded (entry (keyword (some name) callbacks block) g) =
      AreEnded block × AreEnded g × (g ≢ null)

  abbrev pub IsEnded : Option (Keyword W Ptr) → Type 0
  IsEnded none = Unit
  IsEnded (some k) = AreEnded (block_grammar k)

  abbrev ActsEnded : Action W Ptr → Type 0
  ActsEnded (go_on p) = IsEnded p.current
  ActsEnded (return result w) = Unit

  data Finds : Option (Option (Keyword W Ptr)) → Type 0 where
    finds : {found : Option (Keyword W Ptr)} → IsEnded found → Finds (some found)

  data Acts : Option (Action W Ptr) → Type 0 where
    acts : {a : Action W Ptr} → ActsEnded a → Acts (some a)

  wildcard_entry-IsEnded :
      (k : Keyword W Ptr) (create : Option (W → Option Ptr × W))
      → AreEnded (block_grammar k)
      → IsEnded (wildcard_entry k create)
  wildcard_entry-IsEnded k none h = tt
  wildcard_entry-IsEnded k (some create) h = h

  find_keyword-Finds :
      (g : Grammar W Ptr) (word : Bytes) → AreEnded g → g ≢ null → Finds (find_keyword g word)
  unfolding find_keyword AreEnded
  find_keyword-Finds null word h n = absurd (n refl)
  find_keyword-Finds (entry (keyword none callbacks block) g) word h n =
      finds (wildcard_entry-IsEnded _ callbacks.create h)
  find_keyword-Finds (entry (keyword (some name) callbacks block) g) word h n =
      by_prefix (is_prefix word name) refl (find_keyword-Finds g word h.1 h.2)
    where
      by_prefix :
          (b : Bool)
          → is_prefix word name ≡ b
          → Finds (find_keyword g word)
          → Finds (find_keyword (entry (keyword (some name) callbacks block) g) word)
      by_prefix true e rest = rw (find_keyword, e) (finds h.0)
      by_prefix false e rest = rw (find_keyword, e) rest

  unless_positive-ActsEnded :
      (k : Option (Keyword W Ptr)) (sub : Option Ptr) (r : ℤ × W)
      → IsEnded k
      → ActsEnded (unless_positive k sub r)
  unless_positive-ActsEnded k sub (result, w) h =
      if_elim ActsEnded (is_positive result) (λ e. h) (λ e. tt)

  with_first_arg-ActsEnded :
      (k : Keyword W Ptr) (sub : Ptr) (word : Bytes) (w : W) (f : Option (Bytes → W → ℤ × W))
      → AreEnded (block_grammar k)
      → ActsEnded (with_first_arg k sub word w f)
  with_first_arg-ActsEnded k sub word w none h = h
  with_first_arg-ActsEnded k sub word w (some f) h = unless_positive-ActsEnded (some k) _ _ h

  created-ActsEnded :
      (k : Keyword W Ptr) (word : Bytes) (made : Option Ptr × W)
      → AreEnded (block_grammar k)
      → ActsEnded (created k word made)
  created-ActsEnded k word (none, w) h = tt
  created-ActsEnded k word (some sub, w) h =
      with_first_arg-ActsEnded k sub word w (first_arg k sub) h

  on_keyword-ActsEnded :
      (context : Ptr) (word : Bytes) (w : W) (found : Option (Keyword W Ptr))
      → IsEnded found
      → ActsEnded (on_keyword context word w found)
  on_keyword-ActsEnded context word w none h = tt
  on_keyword-ActsEnded context word w (some k) h =
      created-ActsEnded k word (sub_context_of context (callbacks_of k).create w) h

  found-Acts :
      (context : Ptr) (word : Bytes) (w : W) (found : Option (Option (Keyword W Ptr)))
      → Finds found
      → Acts (found >>= λ k. some (on_keyword context word w k))
  found-Acts context word w _ (finds h) = acts (on_keyword-ActsEnded context word w _ h)

  on_word-Acts :
      (context : Ptr) (g : Grammar W Ptr) (p : Pending W Ptr) (word : Bytes)
      (f : Option (Bytes → W → ℤ × W))
      → AreEnded g
      → g ≢ null
      → IsEnded p.current
      → Acts (on_word_with context g p word f)
  on_word-Acts context g p word (some f) h n c = acts (unless_positive-ActsEnded p.current _ _ c)
  on_word-Acts context g p word none h n c =
      found-Acts context word p.world _ (find_keyword-Finds g (c_string word) h n)

  after_block-ActsEnded :
      (context : Ptr) (k : Keyword W Ptr) (sub : Ptr) (r : ℤ × W)
      → ActsEnded (after_block context k sub r)
  after_block-ActsEnded context k sub (result, w) =
      if_elim ActsEnded (is_positive result)
        (λ e.
          unless_positive-ActsEnded none none (finalized context sub (callbacks_of k).finalize w)
            tt)
        (λ e. tt)

  -- A parser that returns for every file of less than `fuel` bytes.
  abbrev ReturnsBelow : ℕ → Parse W Ptr → Type 0
  ReturnsBelow fuel self =
      (context : Ptr) (g : Grammar W Ptr) (p : Pending W Ptr) (file : Bytes)
      → AreEnded g
      → g ≢ null
      → IsEnded p.current
      → length file < fuel
      → Returns file (self context g p file)

  entry_not_null : (k : Keyword W Ptr) (g : Grammar W Ptr) → entry k g ≢ null
  entry_not_null k g = cc

  abbrev BlockEnded : Option (Keyword W Ptr × Ptr × Grammar W Ptr) → Type 0
  BlockEnded none = Unit
  BlockEnded (some (k, sub, block)) = AreEnded block × (block ≢ null)

  block_with-BlockEnded :
      (k : Keyword W Ptr) (sub : Ptr) (block : Grammar W Ptr)
      → AreEnded block
      → BlockEnded (block_with k sub block)
  block_with-BlockEnded k sub null h = tt
  block_with-BlockEnded k sub (entry e g) h = (h, entry_not_null e g)

  pending-BlockEnded :
      (current : Option (Keyword W Ptr)) (sub : Option Ptr)
      → IsEnded current
      → BlockEnded (pending_block current sub)
  pending-BlockEnded none sub h = tt
  pending-BlockEnded (some k) none h = tt
  pending-BlockEnded (some k) (some sub) h = block_with-BlockEnded k sub (block_grammar k) h

  module _ (fuel : ℕ) (self : Parse W Ptr) (below : ReturnsBelow fuel self) (context : Ptr)
      (g : Grammar W Ptr) (ended : AreEnded g) (array : g ≢ null) where
    act-Returns :
        (file : Bytes) (a : Action W Ptr)
        → length file < fuel
        → ActsEnded a
        → Returns file (act self context g file a)
    act-Returns file (go_on p) short h = below context g p file ended array h short
    act-Returns file (return result w) short h = returns result file w (omega arith)

    chosen-Returns :
        (file : Bytes) (o : Option (Action W Ptr))
        → length file < fuel
        → Acts o
        → Returns file (o >>= act self context g file)
    chosen-Returns file _ short (acts h) = act-Returns file _ short h

    block_end-Returns :
        (k : Keyword W Ptr) (sub : Ptr) (file : Bytes) (o : Option (Parsed W))
        → length file < fuel
        → Returns file o
        → Returns file (
            o >>= λ parsed.
            act self context g parsed.1 (after_block context k sub (parsed.0, parsed.2)))
    block_end-Returns k sub file _ short (returns result rest w le) = Returns-weaken le (
        act-Returns rest (after_block context k sub (result, w)) (omega (arith, le, short))
          (after_block-ActsEnded context k sub (result, w)))

    on_obrace-Returns :
        (w : W) (file : Bytes) (block : Option (Keyword W Ptr × Ptr × Grammar W Ptr))
        → length file < fuel
        → BlockEnded block
        → Returns file (on_obrace self context g w file block)
    on_obrace-Returns w file none short h = returns _ file w (omega arith)
    on_obrace-Returns w file (some (k, sub, block)) short h =
        block_end-Returns k sub file _ short
          (below sub block (nothing_pending w) file h.0 h.1 tt short)

    on_token-Returns :
        (p : Pending W Ptr) (t : Token) (eaten rest : Bytes)
        → IsEnded p.current
        → length eaten + length rest ≤ fuel
        → Moves t eaten rest
        → Returns rest (on_token self context g p (t, rest))
    on_token-Returns p token_error eaten rest c short m = returns _ rest p.world (omega arith)
    on_token-Returns p token_cbrace eaten rest c short m = returns _ rest p.world (omega arith)
    on_token-Returns p token_end eaten rest c short m = returns _ rest p.world (omega arith)
    on_token-Returns p (token_word word) eaten rest c short m =
        chosen-Returns rest _ (omega (arith, short, m))
          (on_word-Acts context g p word (pending_arg p.current p.sub_context) ended array c)
    on_token-Returns p token_eol eaten rest c short m =
        act-Returns rest (on_eol context p) (omega (arith, short, m)) (
          unless_positive-ActsEnded none none
            (finalize_pending context p.current p.sub_context p.world) tt)
    on_token-Returns p token_obrace eaten rest c short m =
        on_obrace-Returns p.world rest (pending_block p.current p.sub_context)
          (omega (arith, short, m)) (pending-BlockEnded p.current p.sub_context c)

  token-Returns :
      (fuel : ℕ) (self : Parse W Ptr) (context : Ptr) (g : Grammar W Ptr) (p : Pending W Ptr)
      (file : Bytes) (o : Option (Token × Bytes))
      → ReturnsBelow fuel self
      → AreEnded g
      → g ≢ null
      → IsEnded p.current
      → length file ≤ fuel
      → Reads 256 Moves file o
      → Returns file (o >>= on_token self context g p)
  token-Returns fuel self context g p file _ below ended array c short
        (reads t eaten rest e fits m) =
      let l = ap length e ∙ length-append eaten rest in
      Returns-weaken (omega (arith, l)) (
        on_token-Returns fuel self below context g ended array p t eaten rest c
          (omega (arith, l, short)) m)

  parse_loop-Returns : (fuel : ℕ) → ReturnsBelow fuel (parse_loop fuel)
  unfolding parse_loop
  parse_loop-Returns zero context g p file ended array c short = absurd (omega (arith, short))
  parse_loop-Returns (suc fuel) context g p file ended array c short =
      token-Returns fuel (parse_loop fuel) context g p file (next_token 256 file)
        (parse_loop-Returns fuel) ended array c (omega (arith, short)) (next_token-Reads 256 file)

  -- `parse_config` returns for every file, where each array of the grammar ends with an entry
  -- whose keyword is NULL: a round for each byte of the file and one more are enough, no write
  -- leaves the buffer of 256 bytes and no search runs past its array.
  pub parse_config-Returns :
      (context : Ptr) (grammar : Grammar W Ptr) (w : W) (file : Bytes)
      → AreEnded grammar
      → grammar ≢ null
      → Returns file (parse_config context grammar w file)
  parse_config-Returns context grammar w file ended array =
      parse_loop-Returns (suc (length file)) context grammar (nothing_pending w) file ended array tt
        (omega arith)
