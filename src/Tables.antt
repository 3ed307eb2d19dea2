-- ===== src/Tables.antt =====
-- src/table.c: the tables by name, their reference counts, and taking over those of a new
-- configuration. A list of tables is a list of the structs themselves. `none` stands for a failed
-- `assert`, or for a table that is freed while a list holds it. The counts do not overflow.
pub mod Names
pub mod Stale
pub mod Reload
mod Tests
use sniproxy.Prelude.{
  ℕ, zero, suc, ◌+◌, ◌-◌, Bool, true, false, List, [], ◌∷◌, ◌++◌, map, Option, none, some, Bytes,
  ltb, ◌==◌, ◌&&◌, if◌then◌else◌, ℤ, pos, neg,
}
use sniproxy.Lookup.{Backend, ◌>>=◌}

pub record Table : Type 0 where
  pub name : Option Bytes
  pub backends : List Backend
  pub use_proxy_header : Bool
  pub reference_count : ℕ

-- `malloc` fails or gives memory.
abbrev pub new_table : Bool → Option Table
new_table false = none
new_table true =
    some (record { name = none; backends = []; use_proxy_header = false; reference_count = 0 })

-- `strdup` likewise.
abbrev pub name_table : Bool → Table → Bytes → Option Bytes → ℤ × Table
name_table false table arg none = (neg 1, table)
name_table true table arg none = (pos 1, record table { name = some arg })
name_table strdup table arg (some name) = (neg 1, table)

abbrev pub accept_table_arg : Bool → Table → Bytes → ℤ × Table
accept_table_arg strdup table arg = name_table strdup table arg table.name

abbrev pub table_ref_get : Table → Table
table_ref_get table = record table { reference_count = table.reference_count + 1 }

-- The table where others still hold it, and nothing where it is freed.
abbrev pub table_ref_put : Table → Option (List Table)
table_ref_put table =
    if ltb 0 table.reference_count
    then if table.reference_count == 1
      then some []
      else some (record table { reference_count = table.reference_count - 1 } ∷ [])
    else none

abbrev pub add_table : List Table → Table → List Table
add_table tables table = table_ref_get table ∷ tables

abbrev pub strcmp_eq : Bytes → Bytes → Bool
strcmp_eq [] [] = true
strcmp_eq (x ∷ xs) (y ∷ ys) = (x == y) && strcmp_eq xs ys
strcmp_eq _ _ = false

-- Both names are NULL, or both are there and equal.
abbrev pub same_name : Option Bytes → Option Bytes → Bool
same_name none none = true
same_name (some a) (some b) = strcmp_eq a b
same_name _ _ = false

unfoldable pub table_lookup : List Table → Option Bytes → Option Table
table_lookup [] name = none
table_lookup (table ∷ tables) name = elim (same_name table.name name) [
  | true ↦ some table
  | false ↦ table_lookup tables name
]

-- The tables that are left to others.
unfoldable pub free_tables : List Table → Option (List Table)
free_tables [] = some []
free_tables (table ∷ tables) = do
  left ← table_ref_put table
  more ← free_tables tables
  some (left ++ more)

-- `pcre_compile` succeeds for a pattern or not.
abbrev pub init_backend : (Bytes → Bool) → Backend → Backend
init_backend pcre_compile b =
    if b.pattern_re then b else record b { pattern_re = pcre_compile b.pattern }

abbrev pub init_table : (Bytes → Bool) → Table → Table
init_table pcre_compile table = record table {
  backends = map (init_backend pcre_compile) table.backends;
}

abbrev pub is_found : Option Table → Bool
is_found none = false
is_found (some table) = true

-- A table that the new configuration still has.
abbrev pub is_used : List Table → Table → Bool
is_used new_tables table = is_found (table_lookup new_tables table.name)

-- A table that is taken off its list, with what follows.
abbrev pub take_off : Table → Option (List Table × List Table) → Option (List Table × List Table)
take_off table rest = do left ← table_ref_put table; both ← rest; some (both.0, left ++ both.1)

abbrev pub stay_on : Table → Option (List Table × List Table) → Option (List Table × List Table)
stay_on table rest = do both ← rest; some (table ∷ both.0, both.1)

-- The first loop of `reload_tables`: the list, and the tables left to others.
unfoldable pub remove_first : List Table → List Table → Option (List Table × List Table)
remove_first new_tables [] = some ([], [])
remove_first new_tables (table ∷ tables) = elim (is_used new_tables table) [
  | true ↦ some (table ∷ tables, [])
  | false ↦ take_off table (remove_first new_tables tables)
]

-- The second loop, `iter` being the first of the list: it looks at the table behind it.
unfoldable pub remove_next : List Table → List Table → Option (List Table × List Table)
remove_next new_tables [] = some ([], [])
remove_next new_tables (iter ∷ []) = some (iter ∷ [], [])
remove_next new_tables (iter ∷ temp ∷ tables) = elim (is_used new_tables temp) [
  | true ↦ stay_on iter (remove_next new_tables (temp ∷ tables))
  | false ↦ take_off temp (stay_on iter (remove_next new_tables tables))
]

-- The first table of that name gets the backends.
unfoldable pub replace_backends : List Table → Option Bytes → List Backend → List Table
replace_backends [] name backends = []
replace_backends (table ∷ tables) name backends = elim (same_name table.name name) [
  | true ↦ record table { backends = backends } ∷ tables
  | false ↦ table ∷ replace_backends tables name backends
]

-- A table that is on the list and loses a reference.
abbrev pub still_listed : List Table → List Table → Option (List Table × List Table)
still_listed tables [] = none
still_listed tables (table ∷ others) = some (table ∷ tables, [])

-- One round of the last loop: the list, and the tables left to others.
abbrev pub take_over : List Table → Table → Option Table → Option (List Table × List Table)
take_over tables new none = do left ← table_ref_put (table_ref_get new); still_listed tables left
take_over tables new (some existing) = do
  left ← table_ref_put (record new { backends = existing.backends })
  some (replace_backends tables new.name new.backends, left)

unfoldable pub take_over_all :
    (Bytes → Bool) → List Table → List Table → Option (List Table × List Table)
take_over_all pcre_compile tables [] = some (tables, [])
take_over_all pcre_compile tables (new ∷ new_tables) = do
  both ← take_over tables (init_table pcre_compile new) (table_lookup tables new.name)
  rest ← take_over_all pcre_compile both.0 new_tables
  some (rest.0, both.1 ++ rest.1)

abbrev pub reload_tables :
    (Bytes → Bool) → List Table → List Table → Option (List Table × List Table)
reload_tables pcre_compile tables new_tables = do
  first ← remove_first new_tables tables
  next ← remove_next new_tables first.0
  rest ← take_over_all pcre_compile next.0 new_tables
  some (rest.0, first.1 ++ (next.1 ++ rest.1))
