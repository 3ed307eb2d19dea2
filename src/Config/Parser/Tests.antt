-- ===== src/Config/Parser/Tests.antt =====
-- Concrete runs of the parser of src/cfg_parser.c. The callbacks note what they are called with.
use sniproxy.Prelude.{
  ℕ, ◌≡◌, ◌≢◌, refl, List, [], ◌∷◌, ◌++◌, Option, none, some, Bytes, codes, ℤ, pos,
}
use sniproxy.Config.Tokenizer.{next_token, word_loop}
use sniproxy.Config.Parser.{
  Callbacks, keyword, Grammar, null, entry, parse_config, parse_loop, find_keyword,
}
use sniproxy.Config.Parser.Total.{AreEnded, Returns, parse_config-Returns}
use sniproxy.Config.Parser.Layout.{
  Items, done, statement, section, Lays, lays_end, lays_brace, lays_blank, lays_statement,
  lays_section, words_end, words_cons, run_items,
}
use sniproxy.Config.Parser.Layout.Agrees.{Agrees}
use sniproxy.Config.Parser.Layout.Agreement.{parse_config-Agrees}

abbrev Log : Type 0
Log = List Bytes

abbrev note : Bytes → ℤ → Log → ℤ × Log
note what result log = (result, log ++ (what ∷ []))

abbrev make : Log → Option ℕ × Log
make log = (some 7, log ++ (codes "create" ∷ []))

abbrev noting : Option (Log → Option ℕ × Log) → Callbacks Log ℕ
noting create = record {
  create = create;
  parse_arg = some (λ sub arg. note arg (pos 1));
  finalize = some (λ context sub. note (codes "finalize") (pos 1));
}

abbrev last_entry : Grammar Log ℕ
last_entry =
    entry (keyword none (record { create = none; parse_arg = none; finalize = none }) null) null

abbrev table_grammar : Grammar Log ℕ
table_grammar = entry (keyword none (noting (some make)) null) last_entry

abbrev grammar : Grammar Log ℕ
grammar =
    entry (keyword (some (codes "user")) (noting none) null)
      (entry (keyword (some (codes "table")) (noting (some make)) table_grammar) last_entry)

abbrev file : Bytes
file = codes "user a\ntable {\nb\n}"

abbrev items : Items
items =
    statement (codes "user") (codes "a" ∷ [])
      (section (codes "table") [] (statement (codes "b") [] done) done)

grammar-AreEnded : AreEnded grammar
unfolding AreEnded
grammar-AreEnded = (tt, (tt, tt, cc), cc)

grammar_not_null : grammar ≢ null
grammar_not_null = cc

file-Lays : Lays items file []
unfolding next_token word_loop
file-Lays = lays_statement (words_cons refl (words_cons refl words_end)) refl (
    lays_section (words_cons refl words_end) refl
      (lays_blank refl (lays_statement (words_cons refl words_end) refl (lays_brace refl)))
      (lays_end refl))

parse_config-Returns_example : Returns file (parse_config 0 grammar [] file)
parse_config-Returns_example =
    parse_config-Returns 0 grammar [] file grammar-AreEnded grammar_not_null

abbrev calls : Log
calls =
    codes "a"
    ∷ codes "finalize"
    ∷ codes "create"
    ∷ codes "create"
    ∷ codes "b"
    ∷ codes "finalize"
    ∷ codes "finalize"
    ∷ []

run_file : run_items 0 grammar items [] ≡ some (pos 1, calls)
unfolding run_items find_keyword
run_file = refl

parse_config-Agrees_example : Agrees [] (pos 1, calls) (parse_config 0 grammar [] file)
parse_config-Agrees_example =
    parse_config-Agrees Log ℕ 0 grammar [] items file [] (pos 1, calls) file-Lays run_file

-- A brace without a block ends the parse, and what follows it is not read.
parse_config_brace : parse_config 0 grammar [] (codes "}user") ≡ some (pos 1, codes "user", [])
unfolding parse_loop next_token word_loop find_keyword
parse_config_brace = refl

-- The keyword is any that the word is a prefix of.
parse_config_prefix :
    parse_config 0 grammar [] (codes "u a;") ≡ some (pos 1, [], codes "a" ∷ codes "finalize" ∷ [])
unfolding parse_loop next_token word_loop find_keyword
parse_config_prefix = refl

-- No `finalize` for a statement that a brace ends, so that it is lost.
parse_config_lost :
    parse_config 0 table_grammar [] (codes "b }")
    ≡ some (pos 1, [], codes "create" ∷ codes "b" ∷ [])
unfolding parse_loop next_token word_loop find_keyword
parse_config_lost = refl
