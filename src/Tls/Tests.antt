-- ===== src/Tls/Tests.antt =====
-- src/tls.c at a concrete client hello.
use sniproxy.Prelude.{ℕ, zero, suc, ◌≡◌, refl, true, [], ◌∷◌, ◌++◌, Bytes, codes, arith}
use sniproxy.Parse.{ok}
use sniproxy.Parse.Ensures.{Ensures, CopiedFrom, AreBytes}
use sniproxy.Tls.{parse_tls_header}
use sniproxy.Tls.Hello.{Hello, IsWellFormed, tls_record}
use sniproxy.Tls.RoundTrip.{parse_tls_header-name}
use sniproxy.Tls.Safe.{parse_tls_header-Ensures}

abbrev zeros : ℕ → Bytes
zeros zero = []
zeros (suc n) = 0 ∷ zeros n

abbrev hello : Hello
hello = record {
  minor = 1;
  fixed = zeros 37;
  session = [];
  cipher_suites = 0 ∷ 47 ∷ [];
  compression = 0 ∷ [];
  before = record { type_high = 0; type_low = 35; body = [] } ∷ [];
  name = codes "a.example";
  after = [];
}

hello-IsWellFormed : IsWellFormed hello
hello-IsWellFormed = record {
  fixed_len = refl;
  others = ((λ _ e. absurd (omega arith), omega arith), tt);
  no_nul = ground arith;
  not_empty = omega arith;
  fits = omega arith;
}

parse_tls_header-name_example :
    parse_tls_header (tls_record hello ++ (1 ∷ [])) true true ≡ ok (codes "a.example")
parse_tls_header-name_example =
    parse_tls_header-name hello (1 ∷ []) hello-IsWellFormed (omega arith)

abbrev alert : Bytes
alert = 21 ∷ 3 ∷ 1 ∷ 0 ∷ 2 ∷ 2 ∷ 40 ∷ []

alert-AreBytes : AreBytes alert
alert-AreBytes = ground arith

parse_tls_header-Ensures_example : Ensures 5 (CopiedFrom alert) (parse_tls_header alert true true)
parse_tls_header-Ensures_example =
    parse_tls_header-Ensures alert alert-AreBytes (omega arith) true true
