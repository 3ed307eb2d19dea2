-- ===== src/Tables/Names.antt =====
-- The names of tables in src/table.c, and what `table_lookup` finds by them.
use sniproxy.Prelude.{
  ◌≡◌, ◌⊎◌, refl, sym, ap, ap₂, ◌∙◌, true, false, Bool-cases, List, [], ◌∷◌, Option, none, some,
  Bytes, ◌==◌, inl, inr, arith, ==_iff,
}
use sniproxy.Lookup.{Backend}
use sniproxy.Tables.{Table, strcmp_eq, same_name, table_lookup, replace_backends}

strcmp_eq-eq : (a b : Bytes) → strcmp_eq a b ≡ true → a ≡ b
strcmp_eq-eq [] [] e = refl
strcmp_eq-eq [] (y ∷ ys) e = absurd cc
strcmp_eq-eq (x ∷ xs) [] e = absurd cc
strcmp_eq-eq (x ∷ xs) (y ∷ ys) e = elim (Bool-cases (x == y)) [
  | inl same ↦ ap₂ (λ c cs. c ∷ cs) ((==_iff x y).0 same) (strcmp_eq-eq xs ys (simp same at e))
  | inr other ↦ let no : false ≡ true = simp other at e in absurd cc
]

strcmp_eq-same : (a : Bytes) → strcmp_eq a a ≡ true
strcmp_eq-same [] = refl
strcmp_eq-same (x ∷ xs) = let e : (x == x) ≡ true = ground arith in rw (e, strcmp_eq-same xs) refl

pub same_name-eq : (a b : Option Bytes) → same_name a b ≡ true → a ≡ b
same_name-eq none none e = refl
same_name-eq (some a) (some b) e = ap (λ s. some s) (strcmp_eq-eq a b e)
same_name-eq none (some b) e = absurd cc
same_name-eq (some a) none e = absurd cc

pub same_name-same : (a : Option Bytes) → same_name a a ≡ true
same_name-same none = refl
same_name-same (some a) = strcmp_eq-same a

-- Different names, either way round.
pub same_name-sym : (a b : Option Bytes) → same_name a b ≡ false → same_name b a ≡ false
same_name-sym a b e = elim (Bool-cases (same_name b a)) [
  | inr other ↦ other
  | inl same ↦
      let no : true ≡ false =
        sym (same_name-same a) ∙ ap (same_name a) (sym (same_name-eq b a same)) ∙ e in
      absurd cc
]

-- The backends of the table that a name finds.
abbrev pub backends_in : Option Table → Option (List Backend)
backends_in none = none
backends_in (some table) = some table.backends

abbrev pub backends_of : List Table → Option Bytes → Option (List Backend)
backends_of tables name = backends_in (table_lookup tables name)

abbrev pub or_else : {A : Type 0} → Option A → Option A → Option A
or_else none b = b
or_else (some a) b = some a

pub lookup_hit :
    (t : Table) (ts : List Table) (name : Option Bytes)
    → same_name t.name name ≡ true
    → table_lookup (t ∷ ts) name ≡ some t
unfolding table_lookup
lookup_hit t ts name e = rw (table_lookup, e) refl

pub lookup_miss :
    (t : Table) (ts : List Table) (name : Option Bytes)
    → same_name t.name name ≡ false
    → table_lookup (t ∷ ts) name ≡ table_lookup ts name
unfolding table_lookup
lookup_miss t ts name e = rw (table_lookup, e) refl

replace_hit :
    (t : Table) (ts : List Table) (name : Option Bytes) (bs : List Backend)
    → same_name t.name name ≡ true
    → replace_backends (t ∷ ts) name bs ≡ record t { backends = bs } ∷ ts
unfolding replace_backends
replace_hit t ts name bs e = rw (replace_backends, e) refl

replace_miss :
    (t : Table) (ts : List Table) (name : Option Bytes) (bs : List Backend)
    → same_name t.name name ≡ false
    → replace_backends (t ∷ ts) name bs ≡ t ∷ replace_backends ts name bs
unfolding replace_backends
replace_miss t ts name bs e = rw (replace_backends, e) refl

pub replace_backends-same :
    (ts : List Table) (m : Option Bytes) (bs : List Backend) (existing : Table)
    → table_lookup ts m ≡ some existing
    → backends_of (replace_backends ts m bs) m ≡ some bs
unfolding table_lookup
replace_backends-same [] m bs existing e = absurd cc
replace_backends-same (t ∷ ts) m bs existing e = elim (Bool-cases (same_name t.name m)) [
  | inl same ↦
      ap (λ l. backends_of l m) (replace_hit t ts m bs same)
      ∙ ap backends_in (lookup_hit (record t { backends = bs }) ts m same)
  | inr other ↦
      ap (λ l. backends_of l m) (replace_miss t ts m bs other)
      ∙ ap backends_in (lookup_miss t (replace_backends ts m bs) m other)
      ∙ replace_backends-same ts m bs existing (sym (lookup_miss t ts m other) ∙ e)
]

pub replace_backends-other :
    (ts : List Table) (m name : Option Bytes) (bs : List Backend)
    → same_name m name ≡ false
    → backends_of (replace_backends ts m bs) name ≡ backends_of ts name
unfolding replace_backends
replace_backends-other [] m name bs differs = refl
replace_backends-other (t ∷ ts) m name bs differs = elim (Bool-cases (same_name t.name m)) [
  | inl same ↦
      let miss : same_name t.name name ≡ false =
        ap (λ s. same_name s name) (same_name-eq t.name m same) ∙ differs in
      ap (λ l. backends_of l name) (replace_hit t ts m bs same)
      ∙ ap backends_in (lookup_miss (record t { backends = bs }) ts name miss)
      ∙ ap backends_in (sym (lookup_miss t ts name miss))
  | inr other ↦
      ap (λ l. backends_of l name) (replace_miss t ts m bs other)
      ∙ both_ways other (Bool-cases (same_name t.name name))
          (replace_backends-other ts m name bs differs)
]
  where
    both_ways :
        same_name t.name m ≡ false
        → (same_name t.name name ≡ true) ⊎ (same_name t.name name ≡ false)
        → backends_of (replace_backends ts m bs) name ≡ backends_of ts name
        → backends_of (t ∷ replace_backends ts m bs) name ≡ backends_of (t ∷ ts) name
    both_ways other (inl hit) ih =
        ap backends_in
          (lookup_hit t (replace_backends ts m bs) name hit ∙ sym (lookup_hit t ts name hit))
    both_ways other (inr miss) ih =
        ap backends_in (lookup_miss t (replace_backends ts m bs) name miss)
        ∙ ih
        ∙ ap backends_in (sym (lookup_miss t ts name miss))
