-- ===== src/Config/Parser/Layout/Agreement.antt =====
-- `parse_config` of src/cfg_parser.c does what the statements of its file stand for.
use sniproxy.Prelude.{
  ℕ, zero, suc, ◌≤◌, ◌<◌, ◌≡◌, refl, ap, ◌∙◌, Bool, true, false, List, ◌∷◌, Option, none, some,
  Bytes, length, arith, ℤ, pos, neg, is_positive, ◌⊎◌, inl, inr,
}
use sniproxy.Config.Tokenizer.{Token, token_eol, token_obrace, token_cbrace, token_end}
use sniproxy.Config.Parser.{
  Keyword, Grammar, null, entry, Parsed, callbacks_of, block_grammar, nothing_pending,
  unless_positive, block_with, after_block, act, on_obrace, parse_loop, parse_config, ◌>>=◌,
  finalized,
}
use sniproxy.Config.Parser.Layout.{
  Items, done, Next, Words, Lays, lays_brace, lays_end, lays_blank, lays_statement, lays_section,
  and_then, run_word, finish_statement, in_block, run_items,
}
use sniproxy.Config.Parser.Layout.Opening.{
  Next-shorter, parse_loop-step, pending_with, Opens, refuses, opens, run_word-Opens,
}
use sniproxy.Config.Parser.Layout.Agrees.{
  Agrees, completes, stops, Agrees-eq, stops-eq, completes-eq, bind_some, some_eq, Lays-le,
}

module _ (W Ptr : Type 0) where
  -- After a statement's `finalize`, or a block.
  rest-Agrees :
      (context : Ptr) (g : Grammar W Ptr) (fuel : ℕ) (after rest : Bytes) (x r : ℤ × W)
      (cont : W → Option (ℤ × W))
      → and_then x cont ≡ some r
      → ((w : W)
          → cont w ≡ some r
          → Agrees rest r (parse_loop fuel context g (nothing_pending w) after))
      → Agrees rest r (act (parse_loop fuel) context g after (unless_positive none none x))
  rest-Agrees context g fuel after rest (result, w) r cont e h = by_sign (is_positive result) refl
    where
      by_sign :
          (b : Bool)
          → is_positive result ≡ b
          → Agrees rest r
              (act (parse_loop fuel) context g after (unless_positive none none (result, w)))
      by_sign true p = rw p (h w (simp p at e))
      by_sign false p = rw p (stops-eq after (result, w) p (simp p at e))

  refused-Agrees :
      {o : Option (Parsed W)} {rest : Bytes} (left : Bytes) (x r : ℤ × W)
      (cont : W → Option (ℤ × W))
      → is_positive x.0 ≡ false
      → o ≡ some (x.0, left, x.1)
      → and_then x cont ≡ some r
      → Agrees rest r o
  refused-Agrees left (result, w) r cont p e h =
      Agrees-eq e (stops-eq left (result, w) p (simp p at h))

  -- The parser agrees with these statements in this part of a file.
  abbrev AgreesOn : Items → Bytes → Bytes → Type 0
  AgreesOn items file rest =
      (fuel : ℕ) (context : Ptr) (g : Grammar W Ptr) (w : W) (r : ℤ × W)
      → length file < fuel
      → run_items context g items w ≡ some r
      → Agrees rest r (parse_loop fuel context g (nothing_pending w) file)

  end-AgreesOn :
      (t : Token) (file rest : Bytes)
      → Next file t rest
      → (t ≡ token_cbrace) ⊎ (t ≡ token_end)
      → AgreesOn done file rest
  unfolding run_items
  end-AgreesOn t file rest n last zero context g w r short run = absurd (omega (arith, short))
  end-AgreesOn t file rest n (inl e) (suc fuel) context g w r short run =
      Agrees-eq
        (parse_loop-step fuel context g (nothing_pending w) file token_cbrace rest
          (n ∙ ap (λ t. some (t, rest)) e))
        (completes-eq (pos 1, w) refl run)
  end-AgreesOn t file rest n (inr e) (suc fuel) context g w r short run =
      Agrees-eq
        (parse_loop-step fuel context g (nothing_pending w) file token_end rest
          (n ∙ ap (λ t. some (t, rest)) e))
        (completes-eq (pos 1, w) refl run)

  blank-AgreesOn :
      (items : Items) (file after rest : Bytes)
      → Next file token_eol after
      → AgreesOn items after rest
      → AgreesOn items file rest
  blank-AgreesOn items file after rest n ih zero context g w r short run =
      absurd (omega (arith, short))
  blank-AgreesOn items file after rest n ih (suc fuel) context g w r short run =
      Agrees-eq (parse_loop-step fuel context g (nothing_pending w) file token_eol after n)
        (ih fuel context g w r (omega (arith, short, Next-shorter file token_eol after n cc)) run)

  -- What is behind the words of a statement, where `x` is what they and `f` give.
  abbrev Follows :
      Ptr
      → Grammar W Ptr
      → Items
      → Bytes
      → Bytes
      → (Keyword W Ptr → Ptr → W → Option (ℤ × W))
      → Type 0
  Follows context g items end rest f =
      (fuel : ℕ) (k : Keyword W Ptr) (sub : Ptr) (w : W) (x r : ℤ × W)
      → length end < fuel
      → f k sub w ≡ some x
      → and_then x (run_items context g items) ≡ some r
      → Agrees rest r (parse_loop fuel context g (pending_with k sub w) end)

  opened-Agrees :
      (context : Ptr) (g : Grammar W Ptr) (items : Items) (end rest : Bytes)
      (f : Keyword W Ptr → Ptr → W → Option (ℤ × W)) (x r : ℤ × W) (o : Option (Parsed W))
      → Follows context g items end rest f
      → and_then x (run_items context g items) ≡ some r
      → Opens context g end f x o
      → Agrees rest r o
  opened-Agrees context g items end rest f x r o follows h (refuses left p e) =
      refused-Agrees left x r (run_items context g items) p e h
  opened-Agrees context g items end rest f x r o follows h (opens fuel k sub w short e run) =
      Agrees-eq e (follows fuel k sub w x r short run h)

  -- A statement that its line ends.
  eol-Follows :
      (context : Ptr) (g : Grammar W Ptr) (items : Items) (end after rest : Bytes)
      → Next end token_eol after
      → AgreesOn items after rest
      → Follows context g items end rest (finish_statement context)
  eol-Follows context g items end after rest n ih zero k sub w x r short run h =
      absurd (omega (arith, short))
  eol-Follows context g items end after rest n ih (suc fuel) k sub w x r short run h =
      let q : finalized context sub (callbacks_of k).finalize w ≡ x = cc in
      Agrees-eq
        (parse_loop-step fuel context g (pending_with k sub w) end token_eol after n
          ∙ ap (λ y. act (parse_loop fuel) context g after (unless_positive none none y)) q)
        (rest-Agrees context g fuel after rest x r (run_items context g items) h (λ w' run'.
          ih fuel context g w' r (omega (arith, short, Next-shorter end token_eol after n cc))
            run'))

  -- Once the block of a section has been read.
  block_end-Agrees :
      (context : Ptr) (g : Grammar W Ptr) (items : Items) (k : Keyword W Ptr) (sub : Ptr) (fuel : ℕ)
      (after rest : Bytes) (y x r : ℤ × W) (o : Option (Parsed W))
      → ((w : W)
          → run_items context g items w ≡ some r
          → Agrees rest r (parse_loop fuel context g (nothing_pending w) after))
      → and_then y (finish_statement context k sub) ≡ some x
      → and_then x (run_items context g items) ≡ some r
      → Agrees after y o
      → Agrees rest r (
          o >>= λ parsed.
          act (parse_loop fuel) context g parsed.1 (after_block context k sub (parsed.0, parsed.2)))
  block_end-Agrees context g items k sub fuel after rest (result, w) x r o ih e h
        (completes p read) =
      let q : finalized context sub (callbacks_of k).finalize w ≡ x = some_eq (simp p at e) in
      Agrees-eq
        (rw (read, p)
          (ap (λ y. act (parse_loop fuel) context g after (unless_positive none none y)) q))
        (rest-Agrees context g fuel after rest x r (run_items context g items) h ih)
  block_end-Agrees context g items k sub fuel after rest (result, w) x r o ih e h
        (stops left p read) =
      let q : (result, w) ≡ x = some_eq (simp p at e) in
      Agrees-eq (rw (read, p) refl) (
        refused-Agrees left (result, w) r (run_items context g items) p refl
          (ap (λ y. and_then y (run_items context g items)) q ∙ h))

  block-Follows :
      (context : Ptr) (g : Grammar W Ptr) (body items : Items) (end block after rest : Bytes)
      → Next end token_obrace block
      → AgreesOn body block after
      → AgreesOn items after rest
      → length after ≤ length block
      → Follows context g items end rest (λ k sub w.
        in_block (block_grammar k) w (run_items sub (block_grammar k) body w) >>= λ y.
        and_then y (finish_statement context k sub))
  block-Follows context g body items end block after rest n body_ih ih le zero k sub w x r short run
        h =
      absurd (omega (arith, short))
  block-Follows context g body items end block after rest n body_ih ih le (suc fuel) k sub w x r
        short run h =
      Agrees-eq (parse_loop-step fuel context g (pending_with k sub w) end token_obrace block n)
        (by_grammar (block_grammar k) run)
    where
      less : length block < fuel
      less = omega (arith, short, Next-shorter end token_obrace block n cc)

      by_grammar :
          (b : Grammar W Ptr)
          → (in_block b w (run_items sub b body w) >>= λ y.
              and_then y (finish_statement context k sub))
            ≡ some x
          → Agrees rest r (on_obrace (parse_loop fuel) context g w block (block_with k sub b))
      by_grammar null e =
          refused-Agrees block (neg 1, w) r (run_items context g items) refl refl
            (ap (λ y. and_then y (run_items context g items)) (some_eq e) ∙ h)
      by_grammar (entry head tail) e =
          let run_body = bind_some (run_items sub (entry head tail) body w) _ x e in
          block_end-Agrees context g items k sub fuel after rest run_body.0 x r _
            (λ w' run'. ih fuel context g w' r (omega (arith, less, le)) run') run_body.2 h
            (body_ih fuel sub (entry head tail) w run_body.0 less run_body.1)

  -- What the words give is bound first in the statement's meaning.
  word-AgreesOn :
      (context : Ptr) (g : Grammar W Ptr) (word : Bytes) (args : List Bytes) (items : Items)
      (file end rest : Bytes) (f : Keyword W Ptr → Ptr → W → Option (ℤ × W)) (fuel : ℕ) (w : W)
      (r : ℤ × W)
      → Words (word ∷ args) file end
      → Follows context g items end rest f
      → length file < fuel
      → (run_word context g word args f w >>= λ x. and_then x (run_items context g items)) ≡ some r
      → Agrees rest r (parse_loop fuel context g (nothing_pending w) file)
  word-AgreesOn context g word args items file end rest f fuel w r words follows short run =
      let both = bind_some (run_word context g word args f w) _ r run in
      opened-Agrees context g items end rest f both.0 r _ follows both.2
        (run_word-Opens context g f both.0 word args file end fuel w words short both.1)

  Lays-AgreesOn :
      (items : Items) (file rest : Bytes) → Lays items file rest → AgreesOn items file rest
  unfolding run_items
  Lays-AgreesOn _ file rest (lays_brace n) = end-AgreesOn token_cbrace file rest n (inl refl)
  Lays-AgreesOn _ file rest (lays_end n) = end-AgreesOn token_end file rest n (inr refl)
  Lays-AgreesOn items file rest (lays_blank {after = after} n l) =
      blank-AgreesOn items file after rest n (Lays-AgreesOn items after rest l)
  Lays-AgreesOn _ file rest
        (lays_statement {word} {args} {items} {end = end} {after = after} words n l) =
      λ fuel context g w r short run.
        word-AgreesOn context g word args items file end rest (finish_statement context) fuel w r
          words (eol-Follows context g items end after rest n (Lays-AgreesOn items after rest l))
          short run
  Lays-AgreesOn _ file rest
        (lays_section {word} {args} {body} {items} {end = end} {block = block} {after = after} words
          n b l) =
      λ fuel context g w r short run.
        word-AgreesOn context g word args items file end rest _ fuel w r words
          (block-Follows context g body items end block after rest n
            (Lays-AgreesOn body block after b) (Lays-AgreesOn items after rest l)
            (Lays-le body block after b))
          short run

  -- `parse_config` on any file that lays out a list of statements, where keywords that are given
  -- arguments take them: it calls the grammar's `create`, `parse_arg` and `finalize` as the
  -- statements one by one and their blocks ask for, stops at the first result that is not positive
  -- and returns it, and otherwise returns 1 with all of the statements read.
  pub parse_config-Agrees :
      (context : Ptr) (grammar : Grammar W Ptr) (w : W) (items : Items) (file rest : Bytes)
      (r : ℤ × W)
      → Lays items file rest
      → run_items context grammar items w ≡ some r
      → Agrees rest r (parse_config context grammar w file)
  parse_config-Agrees context grammar w items file rest r lays run =
      Lays-AgreesOn items file rest lays (suc (length file)) context grammar w r (omega arith) run
