-- ===== src/Tables/Reload.antt =====
-- What `reload_tables` of src/table.c leaves behind: the tables of the new configuration.
use sniproxy.Prelude.{
  ◌+◌, ◌-◌, ◌<◌, ◌≡◌, ◌⊎◌, refl, sym, ap, subst, ◌∙◌, Bool, true, false, Bool-cases, List, [], ◌∷◌,
  ◌++◌, Option, none, some, Bytes, ◌==◌, inl, inr, arith, map, ◌||◌, if◌then◌else◌,
}
use sniproxy.Lookup.{Backend, ◌>>=◌}
use sniproxy.Tables.{
  Table, table_ref_get, table_ref_put, same_name, table_lookup, init_table, init_backend, is_used,
  take_off, stay_on, remove_first, remove_next, replace_backends, still_listed, take_over,
  take_over_all, reload_tables,
}
use sniproxy.Tables.Names.{
  same_name-eq, same_name-same, backends_of, backends_in, or_else, lookup_hit, lookup_miss,
  replace_backends-same, replace_backends-other,
}

-- The list that one round leaves: the name finds these backends, other names what they found.
data Takes (tables : List Table) (m : Option Bytes) (bs : List Backend)
    : Option (List Table × List Table) → Type 0 where
  takes :
      (tables' left : List Table)
      → backends_of tables' m ≡ some bs
      → ((name : Option Bytes)
          → same_name m name ≡ false
          → backends_of tables' name ≡ backends_of tables name)
      → Takes tables m bs (some (tables', left))

-- A table whose count is at least 1 can lose a reference.
pub put_counted :
    (t : Table) → 0 < t.reference_count → (left : List Table) × (table_ref_put t ≡ some left)
put_counted t h = elim (Bool-cases (t.reference_count == 1)) [
  | inl one ↦ ([], ground arith)
  | inr more ↦ (record t { reference_count = t.reference_count - 1 } ∷ [], ground arith)
]

put-get :
    (t : Table)
    → 0 < t.reference_count
    → table_ref_put (table_ref_get t)
      ≡ some (record t { reference_count = t.reference_count + 1 - 1 } ∷ [])
put-get t h = ground arith

take_over-Takes :
    (tables : List Table) (n : Table) (found : Option Table)
    → 0 < n.reference_count
    → table_lookup tables n.name ≡ found
    → Takes tables n.name n.backends (take_over tables n found)
take_over-Takes tables n none h e =
    subst (λ o. Takes tables n.name n.backends (o >>= still_listed tables)) (sym (put-get n h))
      (takes (listed ∷ tables) []
        (ap backends_in (lookup_hit listed tables n.name (same_name-same n.name)))
        (λ name differs. ap backends_in (lookup_miss listed tables name differs)))
  where
    listed : Table
    listed = record n { reference_count = n.reference_count + 1 - 1 }
take_over-Takes tables n (some existing) h e =
    let put = put_counted (record n { backends = existing.backends }) h in
    subst
      (λ o.
        Takes tables n.name n.backends
          (o >>= λ left. some (replace_backends tables n.name n.backends, left)))
      (sym put.1)
      (takes (replace_backends tables n.name n.backends) put.0
        (replace_backends-same tables n.name n.backends existing e)
        (λ name differs. replace_backends-other tables n.name name n.backends differs))

abbrev pub AllCounted : List Table → Type 0
AllCounted [] = Unit
AllCounted (t ∷ ts) = (0 < t.reference_count) × AllCounted ts

-- No two tables have the same name.
abbrev pub NoTwins : List Table → Type 0
NoTwins [] = Unit
NoTwins (t ∷ ts) = (table_lookup ts t.name ≡ none) × NoTwins ts

module _ (pcre_compile : Bytes → Bool) where
  abbrev pub renewed : Option Table → Option (List Backend)
  renewed none = none
  renewed (some new) = some (init_table pcre_compile new).backends

  -- Each name finds what the new tables have for it, and what the old ones have otherwise.
  pub data Overrides (new_tables tables : List Table)
      : Option (List Table × List Table) → Type 0 where
    overrides :
        (tables' left : List Table)
        → ((name : Option Bytes)
            → backends_of tables' name
              ≡ or_else (renewed (table_lookup new_tables name)) (backends_of tables name))
        → Overrides new_tables tables (some (tables', left))

  round-name :
      (n : Table) (ns : List Table) (name : Option Bytes) (found found1 : Option (List Backend))
      → table_lookup ns n.name ≡ none
      → (same_name n.name name ≡ true) ⊎ (same_name n.name name ≡ false)
      → (same_name n.name name ≡ true → found1 ≡ some (init_table pcre_compile n).backends)
      → (same_name n.name name ≡ false → found1 ≡ found)
      → or_else (renewed (table_lookup ns name)) found1
        ≡ or_else (renewed (table_lookup (n ∷ ns) name)) found
  round-name n ns name found found1 none_left (inl same) hit miss =
      ap (λ o. or_else (renewed o) found1)
        (ap (table_lookup ns) (sym (same_name-eq n.name name same)) ∙ none_left)
      ∙ hit same
      ∙ ap (λ o. or_else (renewed o) found) (sym (lookup_hit n ns name same))
  round-name n ns name found found1 none_left (inr other) hit miss =
      ap (or_else (renewed (table_lookup ns name))) (miss other)
      ∙ ap (λ o. or_else (renewed o) found) (sym (lookup_miss n ns name other))

  rest-Overrides :
      (n : Table) (ns tables tables1 left : List Table) (o : Option (List Table × List Table))
      → table_lookup ns n.name ≡ none
      → backends_of tables1 n.name ≡ some (init_table pcre_compile n).backends
      → ((name : Option Bytes)
          → same_name n.name name ≡ false
          → backends_of tables1 name ≡ backends_of tables name)
      → Overrides ns tables1 o
      → Overrides (n ∷ ns) tables (o >>= λ rest. some (rest.0, left ++ rest.1))
  rest-Overrides n ns tables tables1 left _ none_left hit miss (overrides tables' left' f) =
      overrides tables' (left ++ left') (λ name.
        f name
        ∙ round-name n ns name (backends_of tables name) (backends_of tables1 name) none_left
            (Bool-cases (same_name n.name name))
            (λ same. ap (backends_of tables1) (sym (same_name-eq n.name name same)) ∙ hit)
            (miss name))

  round-Overrides :
      (n : Table) (ns tables : List Table) (o : Option (List Table × List Table))
      → table_lookup ns n.name ≡ none
      → Takes tables n.name (init_table pcre_compile n).backends o
      → ((tables1 : List Table) → Overrides ns tables1 (take_over_all pcre_compile tables1 ns))
      → Overrides (n ∷ ns) tables (
          o >>= λ both.
          take_over_all pcre_compile both.0 ns >>= λ rest. some (rest.0, both.1 ++ rest.1))
  round-Overrides n ns tables _ none_left (takes tables1 left hit miss) ih =
      rest-Overrides n ns tables tables1 left _ none_left hit miss (ih tables1)

  pub take_over_all-Overrides :
      (new_tables tables : List Table)
      → AllCounted new_tables
      → NoTwins new_tables
      → Overrides new_tables tables (take_over_all pcre_compile tables new_tables)
  unfolding take_over_all table_lookup
  take_over_all-Overrides [] tables counted twins = overrides tables [] (λ name. refl)
  take_over_all-Overrides (n ∷ ns) tables counted twins =
      round-Overrides n ns tables _ twins.0
        (take_over-Takes tables (init_table pcre_compile n) (table_lookup tables n.name) counted.0
          refl)
        (λ tables1. take_over_all-Overrides ns tables1 counted.1 twins.1)

  -- A list whose counts are all at least 1 is left, and others that lost a reference.
  pub data Leaves : Option (List Table × List Table) → Type 0 where
    leaves : (tables left : List Table) → AllCounted tables → Leaves (some (tables, left))

  take_off-Leaves :
      (t : Table) (o : Option (List Table × List Table))
      → 0 < t.reference_count
      → Leaves o
      → Leaves (take_off t o)
  take_off-Leaves t _ h (leaves tables left counted) =
      let put = put_counted t h in
      subst (λ p. Leaves (p >>= λ l. some (tables, l ++ left))) (sym put.1)
        (leaves tables (put.0 ++ left) counted)

  stay_on-Leaves :
      (t : Table) (o : Option (List Table × List Table))
      → 0 < t.reference_count
      → Leaves o
      → Leaves (stay_on t o)
  stay_on-Leaves t _ h (leaves tables left counted) = leaves (t ∷ tables) left (h, counted)

  remove_first-Leaves :
      (new_tables tables : List Table) → AllCounted tables → Leaves (remove_first new_tables tables)
  unfolding remove_first
  remove_first-Leaves new [] counted = leaves [] [] tt
  remove_first-Leaves new (t ∷ ts) counted =
      by_use (is_used new t) refl (remove_first-Leaves new ts counted.1)
    where
      by_use :
          (b : Bool)
          → is_used new t ≡ b
          → Leaves (remove_first new ts)
          → Leaves (remove_first new (t ∷ ts))
      by_use true e ih = rw (remove_first, e) (leaves (t ∷ ts) [] counted)
      by_use false e ih = rw (remove_first, e) (take_off-Leaves t _ counted.0 ih)

  pub remove_next-Leaves :
      (new_tables tables : List Table) → AllCounted tables → Leaves (remove_next new_tables tables)
  unfolding remove_next
  remove_next-Leaves new [] counted = leaves [] [] tt
  remove_next-Leaves new (t ∷ []) counted = leaves (t ∷ []) [] counted
  remove_next-Leaves new (t ∷ u ∷ ts) counted =
      by_use (is_used new u) refl (remove_next-Leaves new (u ∷ ts) counted.1)
        (remove_next-Leaves new ts counted.1.1)
    where
      by_use :
          (b : Bool)
          → is_used new u ≡ b
          → Leaves (remove_next new (u ∷ ts))
          → Leaves (remove_next new ts)
          → Leaves (remove_next new (t ∷ u ∷ ts))
      by_use true e ih ih' = rw (remove_next, e) (stay_on-Leaves t _ counted.0 ih)
      by_use false e ih ih' =
          rw (remove_next, e) (take_off-Leaves u _ counted.1.0 (stay_on-Leaves t _ counted.0 ih'))

  -- The backend with its pattern compiled, where it has been compiled or `pcre_compile` takes it.
  abbrev pub compiled : Backend → Backend
  compiled b = record {
    pattern = b.pattern;
    pattern_re = b.pattern_re || pcre_compile b.pattern;
    address = b.address;
    use_proxy_header = b.use_proxy_header;
  }

  init_backend-compiled : (b : Backend) → init_backend pcre_compile b ≡ compiled b
  init_backend-compiled b = elim (Bool-cases b.pattern_re) [
    | inl e ↦
        ap (λ x. if x then b else record b { pattern_re = pcre_compile b.pattern }) e
        ∙ ap (λ x. record b { pattern_re = x }) e
        ∙ sym (ap (λ x. record b { pattern_re = x || pcre_compile b.pattern }) e)
    | inr e ↦
        ap (λ x. if x then b else record b { pattern_re = pcre_compile b.pattern }) e
        ∙ sym (ap (λ x. record b { pattern_re = x || pcre_compile b.pattern }) e)
  ]

  backends_compiled : (bs : List Backend) → map (init_backend pcre_compile) bs ≡ map compiled bs
  backends_compiled [] = refl
  backends_compiled (b ∷ bs) =
      ap (λ x. x ∷ map (init_backend pcre_compile) bs) (init_backend-compiled b)
      ∙ ap (λ xs. compiled b ∷ xs) (backends_compiled bs)

  -- The new tables have been taken over: each of their names finds its new backends.
  pub data TakesOver (new_tables : List Table) : Option (List Table × List Table) → Type 0 where
    takes_over :
        (tables left : List Table)
        → ((name : Option Bytes) (new : Table)
            → table_lookup new_tables name ≡ some new
            → backends_of tables name ≡ some (map compiled new.backends))
        → TakesOver new_tables (some (tables, left))

  overridden-TakesOver :
      (new_tables tables : List Table) (g : List Table → List Table)
      (o : Option (List Table × List Table))
      → Overrides new_tables tables o
      → TakesOver new_tables (o >>= λ rest. some (rest.0, g rest.1))
  overridden-TakesOver new tables g _ (overrides tables' left' f) =
      takes_over tables' (g left') (λ name n e.
        f name
        ∙ ap (λ o. or_else (renewed o) (backends_of tables name)) e
        ∙ ap some (backends_compiled n.backends))

  from_next :
      (new_tables before : List Table) (o : Option (List Table × List Table))
      → AllCounted new_tables
      → NoTwins new_tables
      → Leaves o
      → TakesOver new_tables (
          o >>= λ next. take_over_all pcre_compile next.0 new_tables >>= λ rest.
          some (rest.0, before ++ (next.1 ++ rest.1)))
  from_next new before _ counted twins (leaves tables left h) =
      overridden-TakesOver new tables (λ others. before ++ (left ++ others)) _
        (take_over_all-Overrides new tables counted twins)

  from_first :
      (new_tables : List Table) (o : Option (List Table × List Table))
      → AllCounted new_tables
      → NoTwins new_tables
      → Leaves o
      → TakesOver new_tables (
          o >>= λ first. remove_next new_tables first.0 >>= λ next.
          take_over_all pcre_compile next.0 new_tables >>= λ rest.
          some (rest.0, first.1 ++ (next.1 ++ rest.1)))
  from_first new _ counted twins (leaves tables left h) =
      from_next new left _ counted twins (remove_next-Leaves new tables h)

  -- `reload_tables`, where all tables of both lists have a reference count of at least 1 and no
  -- two new ones have the same name: no `assert` fails and no table is freed while it is listed,
  -- and each name of the new tables finds the new backends, in their order, each with its pattern
  -- compiled if it was compiled already or `pcre_compile` takes it, and else not.
  pub reload_tables-TakesOver :
      (new_tables tables : List Table)
      → AllCounted tables
      → AllCounted new_tables
      → NoTwins new_tables
      → TakesOver new_tables (reload_tables pcre_compile tables new_tables)
  reload_tables-TakesOver new tables h counted twins =
      from_first new (remove_first new tables) counted twins (remove_first-Leaves new tables h)
