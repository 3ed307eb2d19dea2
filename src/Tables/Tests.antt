-- ===== src/Tables/Tests.antt =====
-- Concrete runs of src/table.c.
use sniproxy.Prelude.{◌≡◌, refl, Bool, true, false, List, [], ◌∷◌, some, Bytes, codes, arith, neg}
use sniproxy.Address.{hostname}
use sniproxy.Lookup.{Backend}
use sniproxy.Tables.{
  Table, accept_table_arg, table_ref_get, table_ref_put, table_lookup, is_used, reload_tables,
  free_tables,
}
use sniproxy.Tables.Reload.{AllCounted, NoTwins, TakesOver, reload_tables-TakesOver}
use sniproxy.Tables.Stale.{Keeps, reload_tables-Keeps}

abbrev compile : Bytes → Bool
compile pattern = true

abbrev backend : Bytes → Backend
backend pattern = record {
  pattern = pattern;
  pattern_re = false;
  address = record { kind = hostname; bytes = codes "h"; port = 80 };
  use_proxy_header = false;
}

abbrev table : Bytes → Bytes → Table
table name pattern = record {
  name = some name;
  backends = backend pattern ∷ [];
  use_proxy_header = false;
  reference_count = 1;
}

abbrev old_tables : List Table
old_tables = table (codes "a") (codes "x") ∷ table (codes "b") [] ∷ table (codes "c") [] ∷ []

abbrev new_tables : List Table
new_tables = table (codes "a") (codes "y") ∷ table (codes "d") [] ∷ []

old-AllCounted : AllCounted old_tables
old-AllCounted = (omega arith, (omega arith, (omega arith, tt)))

new-AllCounted : AllCounted new_tables
new-AllCounted = (omega arith, (omega arith, tt))

new-NoTwins : NoTwins new_tables
unfolding table_lookup
new-NoTwins = (refl, (refl, tt))

reload_tables-TakesOver_example :
    TakesOver compile new_tables (reload_tables compile old_tables new_tables)
reload_tables-TakesOver_example =
    reload_tables-TakesOver compile new_tables old_tables old-AllCounted new-AllCounted new-NoTwins

a_is_used : is_used new_tables (table (codes "a") (codes "x")) ≡ true
unfolding table_lookup
a_is_used = refl

b_is_stale : is_used new_tables (table (codes "b") []) ≡ false
unfolding table_lookup
b_is_stale = refl

c_is_stale : is_used new_tables (table (codes "c") []) ≡ false
unfolding table_lookup
c_is_stale = refl

reload_tables-Keeps_example :
    Keeps compile new_tables (table (codes "c") []) (reload_tables compile old_tables new_tables)
reload_tables-Keeps_example =
    reload_tables-Keeps compile new_tables (table (codes "a") (codes "x")) (table (codes "b") [])
      (table (codes "c") []) [] old-AllCounted new-AllCounted new-NoTwins a_is_used b_is_stale
      c_is_stale

-- A second name is refused.
accept_table_arg_twice :
    accept_table_arg true (table (codes "a") []) (codes "b") ≡ (neg 1, table (codes "a") [])
accept_table_arg_twice = refl

-- Freed with its last reference, and not before.
table_ref_put_last : table_ref_put (table (codes "a") []) ≡ some []
table_ref_put_last = refl

table_ref_put_more :
    table_ref_put (table_ref_get (table (codes "a") [])) ≡ some (table (codes "a") [] ∷ [])
table_ref_put_more = refl

free_tables_run : free_tables old_tables ≡ some []
unfolding free_tables
free_tables_run = refl
