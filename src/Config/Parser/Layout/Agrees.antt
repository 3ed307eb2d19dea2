-- ===== src/Config/Parser/Layout/Agrees.antt =====
-- When a run of src/cfg_parser.c agrees with the meaning of the statements of its file.
use sniproxy.Prelude.{
  ◌≤◌, ◌≡◌, refl, sym, ap, ◌∙◌, true, false, Option, none, some, Bytes, length, arith, ℤ,
  is_positive,
}
use sniproxy.Config.Tokenizer.{token_eol, token_obrace, token_cbrace, token_end}
use sniproxy.Config.Parser.{Parsed, ◌>>=◌}
use sniproxy.Config.Parser.Layout.{
  Items, Lays, lays_brace, lays_end, lays_blank, lays_statement, lays_section,
}
use sniproxy.Config.Parser.Layout.Opening.{Next-le, Words-le}

-- The parser returns with the result and the state of the callbacks that are due, and where the result
-- is positive, it has read all of the statements.
pub data Agrees {W : Type 0} (rest : Bytes) (r : ℤ × W) (o : Option (Parsed W)) : Type 0 where
  completes : is_positive r.0 ≡ true → o ≡ some (r.0, rest, r.1) → Agrees rest r o
  stops : (left : Bytes) → is_positive r.0 ≡ false → o ≡ some (r.0, left, r.1) → Agrees rest r o

pub Agrees-eq :
    {W : Type 0} {rest : Bytes} {r : ℤ × W} {o o' : Option (Parsed W)}
    → o ≡ o'
    → Agrees rest r o'
    → Agrees rest r o
Agrees-eq e (completes p h) = completes p (e ∙ h)
Agrees-eq e (stops left p h) = stops left p (e ∙ h)

pub stops-eq :
    {W : Type 0} {rest : Bytes} {r : ℤ × W} (left : Bytes) (x : ℤ × W)
    → is_positive x.0 ≡ false
    → some x ≡ some r
    → Agrees rest r (some (x.0, left, x.1))
stops-eq {r = r} left x p e =
    let q : x ≡ r = cc in
    stops left (ap (λ y. is_positive y.0) (sym q) ∙ p) (ap (λ y. some (y.0, left, y.1)) q)

pub completes-eq :
    {W : Type 0} {rest : Bytes} {r : ℤ × W} (x : ℤ × W)
    → is_positive x.0 ≡ true
    → some x ≡ some r
    → Agrees rest r (some (x.0, rest, x.1))
completes-eq {rest = rest} {r = r} x p e =
    let q : x ≡ r = cc in
    completes (ap (λ y. is_positive y.0) (sym q) ∙ p) (ap (λ y. some (y.0, rest, y.1)) q)

-- A chain of two steps that gives a result, by the first one's.
pub bind_some :
    {W A : Type 0} (m : Option A) (f : A → Option (ℤ × W)) (r : ℤ × W)
    → (m >>= f) ≡ some r
    → (a : A) × (m ≡ some a) × (f a ≡ some r)
bind_some none f r e = absurd cc
bind_some (some a) f r e = (a, refl, e)

pub some_eq : {A : Type 0} {x y : A} → some x ≡ some y → x ≡ y
some_eq e = cc

pub Lays-le : (items : Items) (file rest : Bytes) → Lays items file rest → length rest ≤ length file
Lays-le _ file rest (lays_brace n) = Next-le file token_cbrace rest n
Lays-le _ file rest (lays_end n) = Next-le file token_end rest n
Lays-le items file rest (lays_blank {after = after} n l) =
    omega (arith, Next-le file token_eol after n, Lays-le items after rest l)
Lays-le _ file rest (lays_statement {items = items} {end = end} {after = after} words n l) =
    omega
      (arith, Words-le _ file end words, Next-le end token_eol after n, Lays-le items after rest l)
Lays-le _ file rest
      (lays_section {body = body} {items = items} {end = end} {block = block} {after = after} words
        n b l) =
    omega (
      arith,
      Words-le _ file end words,
      Next-le end token_obrace block n,
      Lays-le body block after b,
      Lays-le items after rest l,
    )
