-- ===== src/Lookup/First.antt =====
-- The search of `lookup_backend` in src/backend.c takes the first backend that matches.
use sniproxy.Prelude.{
  ℕ, ◌≡◌, refl, sym, ap, subst, true, List, [], ◌∷◌, ◌++◌, Option, none, some, Bytes,
}
use sniproxy.Lookup.{Backend, search_backends, lookup_backend, name_bytes}

module _ (pcre_exec : Bytes → Bytes → Option (List ℕ)) where
  -- None of these backends matches, and each pattern is compiled.
  abbrev pub AllMiss : List Backend → Bytes → Type 0
  AllMiss [] name = Unit
  AllMiss (b ∷ bs) name =
      ((b.pattern_re ≡ true) × (pcre_exec b.pattern name ≡ none)) × AllMiss bs name

  abbrev pub AllCompiled : List Backend → Type 0
  AllCompiled [] = Unit
  AllCompiled (b ∷ bs) = (b.pattern_re ≡ true) × AllCompiled bs

  -- What a search through all of the backends finds.
  pub data Searched (backends : List Backend) (name : Bytes)
      : Option (Option (Backend × List ℕ)) → Type 0 where
    missed : AllMiss backends name → Searched backends name (some none)
    found :
        (before : List Backend) (b : Backend) (after : List Backend) (ms : List ℕ)
        → backends ≡ before ++ (b ∷ after)
        → AllMiss before name
        → pcre_exec b.pattern name ≡ some ms
        → Searched backends name (some (some (b, ms)))

  Searched-cons :
      (b : Backend) (bs : List Backend) (name : Bytes) (r : Option (Option (Backend × List ℕ)))
      → b.pattern_re ≡ true
      → pcre_exec b.pattern name ≡ none
      → Searched bs name r
      → Searched (b ∷ bs) name r
  Searched-cons b bs name _ c e (missed all) = missed ((c, e), all)
  Searched-cons b bs name _ c e (found before b' after ms split all m) =
      found (b ∷ before) b' after ms (ap (λ l. b ∷ l) split) ((c, e), all) m

  -- One step of the loop.
  search_miss :
      (b : Backend) (bs : List Backend) (name : Bytes)
      → b.pattern_re ≡ true
      → pcre_exec b.pattern name ≡ none
      → search_backends pcre_exec (b ∷ bs) name ≡ search_backends pcre_exec bs name
  unfolding search_backends
  search_miss b bs name c e = rw (c, e) refl

  search_hit :
      (b : Backend) (bs : List Backend) (name : Bytes) (ms : List ℕ)
      → b.pattern_re ≡ true
      → pcre_exec b.pattern name ≡ some ms
      → search_backends pcre_exec (b ∷ bs) name ≡ some (some (b, ms))
  unfolding search_backends
  search_hit b bs name ms c e = rw (c, e) refl

  search :
      (backends : List Backend) (name : Bytes)
      → AllCompiled backends
      → Searched backends name (search_backends pcre_exec backends name)
  unfolding search_backends
  search [] name h = missed tt
  search (b ∷ bs) name h = by_match (search bs name h.1) (pcre_exec b.pattern name) refl
    where
      by_match :
          Searched bs name (search_backends pcre_exec bs name)
          → (m : Option (List ℕ)) → pcre_exec b.pattern name ≡ m
          → Searched (b ∷ bs) name (search_backends pcre_exec (b ∷ bs) name)
      by_match rest none e =
          subst (Searched (b ∷ bs) name) (sym (search_miss b bs name h.0 e))
            (Searched-cons b bs name _ h.0 e rest)
      by_match rest (some ms) e =
          subst (Searched (b ∷ bs) name) (sym (search_hit b bs name ms h.0 e))
            (found [] b bs ms refl tt e)

  -- `lookup_backend` on a table whose patterns are all compiled: it finds the first backend in the
  -- table's order whose pattern matches the name, with the matches, and nothing only where no
  -- pattern matches. A NULL name is searched for as the empty string.
  pub lookup_backend_lem :
      (backends : List Backend) (name : Option Bytes)
      → AllCompiled backends
      → Searched backends (name_bytes name) (lookup_backend pcre_exec backends name)
  lookup_backend_lem backends name h = search backends (name_bytes name) h
