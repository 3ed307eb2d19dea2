-- ===== src/Config/Tokenizer/Tests.antt =====
-- Concrete runs of the tokenizer of src/cfg_tokenizer.c.
use sniproxy.Prelude.{◌≡◌, refl, false, [], ◌++◌, some, codes, arith}
use sniproxy.Config.Tokenizer.{
  token_error, token_eol, token_word, next_token, chomp_line, word_loop,
}
use sniproxy.Config.Tokenizer.Progress.{Moves, Reads, next_token-Reads}
use sniproxy.Config.Tokenizer.Spelling.{
  Spells, spells_end, spells_escaped, spells_quote, spells_plain, next_token-Spells,
}

next_token_comment : next_token 256 (codes " # x\n80;") ≡ some (token_eol, codes "80;")
unfolding next_token chomp_line
next_token_comment = refl

next_token_word :
    next_token 256 (codes "\ta\"b c\"\\{}") ≡ some (token_word (codes "ab c{"), codes "}")
unfolding next_token word_loop
next_token_word = refl

-- A word that the end of the file ends is an error, and so is one that does not fit.
next_token_unfinished : next_token 256 (codes "80") ≡ some (token_error, [])
unfolding next_token word_loop
next_token_unfinished = refl

next_token_long : next_token 2 (codes "80 ") ≡ some (token_error, [])
unfolding next_token word_loop
next_token_long = refl

next_token-Reads_example : Reads 4 Moves (codes " abc;") (next_token 4 (codes " abc;"))
next_token-Reads_example = next_token-Reads 4 (codes " abc;")

spelling : Spells false (codes "\" \"\\;a") (codes " ;a")
spelling = spells_quote (
    spells_plain 32 (omega arith) (omega arith) refl (
      spells_quote
        (spells_escaped 59 (spells_plain 97 (omega arith) (omega arith) refl spells_end))))

next_token-Spells_example :
    next_token 4 (codes "\t" ++ (codes "\" \"\\;a" ++ codes "}"))
    ≡ some (token_word (codes " ;a"), codes "}")
next_token-Spells_example =
    next_token-Spells 4 (codes "\t") (codes "\" \"\\;a") (codes " ;a") 125 [] (refl, tt)
      (omega arith) spelling (omega arith) (omega arith) refl
