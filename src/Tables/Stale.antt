-- ===== src/Tables/Stale.antt =====
-- `reload_tables` of src/table.c passes over the table behind one that it removes.
use sniproxy.Prelude.{
  ◌<◌, ◌≡◌, refl, sym, ap, subst, ◌∙◌, Bool, true, false, Bool-cases, List, [], ◌∷◌, ◌++◌, Option,
  none, some, Bytes, inl, inr,
}
use sniproxy.Lookup.{◌>>=◌}
use sniproxy.Tables.{
  Table, same_name, table_lookup, is_found, is_used, take_off, stay_on, remove_first, remove_next,
  take_over_all, reload_tables,
}
use sniproxy.Tables.Names.{
  same_name-eq, backends_of, backends_in, or_else, lookup_hit, lookup_miss, same_name-same,
}
use sniproxy.Tables.Reload.{
  put_counted, AllCounted, NoTwins, renewed, Overrides, overrides, take_over_all-Overrides, Leaves,
  leaves, remove_next-Leaves,
}

module _ (pcre_compile : Bytes → Bool) (new_tables : List Table) where
  -- The list begins with this table.
  data HasHead (t : Table) : Option (List Table × List Table) → Type 0 where
    has_head : (rest left : List Table) → HasHead t (some (t ∷ rest, left))

  stay_on-HasHead :
      (t : Table) (o : Option (List Table × List Table))
      → Leaves pcre_compile o
      → HasHead t (stay_on t o)
  stay_on-HasHead t _ (leaves tables left h) = has_head tables left

  take_off-HasHead :
      (t u : Table) (o : Option (List Table × List Table))
      → 0 < u.reference_count
      → HasHead t o
      → HasHead t (take_off u o)
  take_off-HasHead t u _ h (has_head rest left) =
      let put = put_counted u h in
      subst (λ p. HasHead t (p >>= λ l. some (t ∷ rest, l ++ left))) (sym put.1)
        (has_head rest (put.0 ++ left))

  -- The first table of the second loop stays.
  remove_next-HasHead :
      (t : Table) (tables : List Table)
      → AllCounted (t ∷ tables)
      → HasHead t (remove_next new_tables (t ∷ tables))
  unfolding remove_next
  remove_next-HasHead t [] h = has_head [] []
  remove_next-HasHead t (u ∷ ts) h = by_use (is_used new_tables u) refl
    where
      by_use :
          (b : Bool) → is_used new_tables u ≡ b → HasHead t (remove_next new_tables (t ∷ u ∷ ts))
      by_use true e =
          rw (remove_next, e)
            (stay_on-HasHead t (remove_next new_tables (u ∷ ts))
              (remove_next-Leaves pcre_compile new_tables (u ∷ ts) h.1))
      by_use false e =
          rw (remove_next, e)
            (take_off-HasHead t u (stay_on t (remove_next new_tables ts)) h.1.0 (
              stay_on-HasHead t (remove_next new_tables ts)
                (remove_next-Leaves pcre_compile new_tables ts h.1.1)))

  -- The first two tables of a list.
  data HasTwo (t u : Table) : Option (List Table × List Table) → Type 0 where
    has_two : (rest left : List Table) → HasTwo t u (some (t ∷ u ∷ rest, left))

  stay_on-HasTwo :
      (t u : Table) (o : Option (List Table × List Table)) → HasHead u o → HasTwo t u (stay_on t o)
  stay_on-HasTwo t u _ (has_head rest left) = has_two rest left

  take_off-HasTwo :
      (t u y : Table) (o : Option (List Table × List Table))
      → 0 < y.reference_count
      → HasTwo t u o
      → HasTwo t u (take_off y o)
  take_off-HasTwo t u y _ h (has_two rest left) =
      let put = put_counted y h in
      subst (λ p. HasTwo t u (p >>= λ l. some (t ∷ u ∷ rest, l ++ left))) (sym put.1)
        (has_two rest (put.0 ++ left))

  remove_next-skips :
      (k y z : Table) (tables : List Table)
      → AllCounted (y ∷ z ∷ tables)
      → is_used new_tables y ≡ false
      → HasTwo k z (remove_next new_tables (k ∷ y ∷ z ∷ tables))
  unfolding remove_next
  remove_next-skips k y z tables h e =
      rw (remove_next, e)
        (take_off-HasTwo k z y (stay_on k (remove_next new_tables (z ∷ tables))) h.0 (
          stay_on-HasTwo k z (remove_next new_tables (z ∷ tables))
            (remove_next-HasHead z tables h.1)))

  remove_first-used :
      (k : Table) (tables : List Table)
      → is_used new_tables k ≡ true
      → remove_first new_tables (k ∷ tables) ≡ some (k ∷ tables, [])
  unfolding remove_first
  remove_first-used k tables e = rw (remove_first, e) refl

  not_found : (o : Option Table) → is_found o ≡ false → o ≡ none
  not_found none e = refl
  not_found (some t) e = absurd cc

  other_name :
      (k z : Table)
      → is_used new_tables k ≡ true
      → is_used new_tables z ≡ false
      → same_name k.name z.name ≡ false
  other_name k z used stale = elim (Bool-cases (same_name k.name z.name)) [
    | inr other ↦ other
    | inl same ↦
        let both : true ≡ false =
          sym used
          ∙ ap (λ n. is_found (table_lookup new_tables n)) (same_name-eq k.name z.name same)
          ∙ stale in
        absurd cc
  ]

  -- The list in the end has the table, with its backends.
  pub data Keeps (z : Table) : Option (List Table × List Table) → Type 0 where
    keeps :
        (tables left : List Table)
        → backends_of tables z.name ≡ some z.backends
        → Keeps z (some (tables, left))

  taken_over-Keeps :
      (k z : Table) (rest : List Table) (g : List Table → List Table)
      (o : Option (List Table × List Table))
      → is_used new_tables k ≡ true
      → is_used new_tables z ≡ false
      → Overrides pcre_compile new_tables (k ∷ z ∷ rest) o
      → Keeps z (o >>= λ r. some (r.0, g r.1))
  taken_over-Keeps k z rest g _ used stale (overrides tables left f) = keeps tables (g left) (
      f z.name
      ∙ ap (λ o. or_else (renewed pcre_compile o) (backends_of (k ∷ z ∷ rest) z.name))
          (not_found (table_lookup new_tables z.name) stale)
      ∙ ap backends_in (
          lookup_miss k (z ∷ rest) z.name (other_name k z used stale)
          ∙ lookup_hit z rest z.name (same_name-same z.name)))

  next-Keeps :
      (k z : Table) (o : Option (List Table × List Table))
      → AllCounted new_tables
      → NoTwins new_tables
      → is_used new_tables k ≡ true
      → is_used new_tables z ≡ false
      → HasTwo k z o
      → Keeps z (
          o >>= λ next. take_over_all pcre_compile next.0 new_tables >>= λ rest.
          some (rest.0, [] ++ (next.1 ++ rest.1)))
  next-Keeps k z _ counted twins used stale (has_two rest left) =
      taken_over-Keeps k z rest (λ others. left ++ others) _ used stale
        (take_over_all-Overrides pcre_compile new_tables (k ∷ z ∷ rest) counted twins)

  -- `reload_tables`, where all tables of both lists have a reference count of at least 1 and no
  -- two new ones have the same name, and where the list begins with a table that the new ones
  -- still have and two that they do not: the name of the second of these still finds its old
  -- backends.
  pub reload_tables-Keeps :
      (k y z : Table) (tables : List Table)
      → AllCounted (k ∷ y ∷ z ∷ tables)
      → AllCounted new_tables
      → NoTwins new_tables
      → is_used new_tables k ≡ true
      → is_used new_tables y ≡ false
      → is_used new_tables z ≡ false
      → Keeps z (reload_tables pcre_compile (k ∷ y ∷ z ∷ tables) new_tables)
  reload_tables-Keeps k y z tables h counted twins used stale_y stale_z =
      let first = remove_first-used k (y ∷ z ∷ tables) used in
      subst
        (λ o. Keeps z (
          o >>= λ first. remove_next new_tables first.0 >>= λ next.
          take_over_all pcre_compile next.0 new_tables >>= λ rest.
          some (rest.0, first.1 ++ (next.1 ++ rest.1))))
        (sym first)
        (next-Keeps k z _ counted twins used stale_z (remove_next-skips k y z tables h.1 stale_y))
