-- ===== src/Lookup/Tests.antt =====
-- src/backend.c with a matcher that compares strings of one byte.
use sniproxy.Prelude.{ℕ, refl, true, false, List, [], ◌∷◌, Option, none, some, Bytes, codes}
use sniproxy.Address.{hostname}
use sniproxy.Lookup.{Backend, lookup_backend}
use sniproxy.Lookup.First.{Searched, lookup_backend_lem}

abbrev matcher : Bytes → Bytes → Option (List ℕ)
matcher (p ∷ ps) [] = none
matcher (p ∷ ps) (c ∷ cs) = some (1 ∷ [])
matcher [] name = some (0 ∷ [])

abbrev to_a : Backend
to_a = record {
  pattern = codes "a";
  pattern_re = true;
  address = record { kind = hostname; bytes = codes "a.example"; port = 0 };
  use_proxy_header = false;
}

lookup_backend_lem_example :
    Searched matcher (to_a ∷ []) (codes "a") (lookup_backend matcher (to_a ∷ []) (some (codes "a")))
lookup_backend_lem_example = lookup_backend_lem matcher (to_a ∷ []) (some (codes "a")) (refl, tt)
