-- ===== src/Catalog.antt =====
-- schema/catalog.py: the names that a query may mention, matched without regard to case.
pub mod Laws
use mcp_text_to_sql_agent.Prelude.{
  String, Bool, true, false, Option, none, some, List, [], ◌∷◌, ◌++◌, map, contains, ◌==◌,
  if◌then◌else◌,
}
use mcp_text_to_sql_agent.Platform.{Platform}

-- `columns_by_table`: table name to column names, all case-folded, in insertion order.
pub record SchemaCatalog : Type 0 where
  pub columns_by_table : List (String × List String)

-- `mapping.get(key)`
unfoldable pub columns_at : List (String × List String) → String → Option (List String)
columns_at [] key = none
columns_at ((t, cols) ∷ rest) key = if t == key then some cols else columns_at rest key

abbrev pub or_empty : Option (List String) → List String
or_empty none = []
or_empty (some cols) = cols

-- `mapping.get(key, frozenset())`
unfoldable pub columns_or_empty : List (String × List String) → String → List String
unfolding columns_at
columns_or_empty m key = or_empty (columns_at m key)

unfoldable pub is_empty : SchemaCatalog → Bool
is_empty c = elim c.columns_by_table [ [] ↦ true | _ ∷ _ ↦ false ]

abbrev keys : List (String × List String) → List String
keys m = map (λ e. e.0) m

abbrev pub found : Option (List String) → Bool
found none = false
found (some _) = true

-- `bucket.add(name)`
abbrev pub add : String → List String → List String
add name bucket = if contains name bucket then bucket else bucket ++ name ∷ []

abbrev pub add_column : Option String → List String → List String
add_column none bucket = bucket
add_column (some name) bucket = add name bucket

module _ (P : Platform) where
  unfoldable pub has_table : SchemaCatalog → String → Bool
  unfolding columns_at
  has_table c name = found (columns_at c.columns_by_table (P.casefold name))

  unfoldable pub has_column : SchemaCatalog → String → String → Bool
  unfolding columns_or_empty
  has_column c table column =
      contains (P.casefold column) (columns_or_empty c.columns_by_table (P.casefold table))

  unfoldable pub columns_of : SchemaCatalog → List String → List String
  unfolding columns_or_empty
  columns_of c [] = []
  columns_of c (table ∷ tables) =
      columns_or_empty c.columns_by_table (P.casefold table) ++ columns_of c tables

  -- `_nearest`
  unfoldable pub nearest : String → List String → Option String
  nearest name candidates = elim (P.get_close_matches (P.casefold name) candidates) [
    | [] ↦ none
    | best ∷ _ ↦ some best
  ]

  unfoldable pub suggest_table : SchemaCatalog → String → Option String
  unfolding nearest
  suggest_table c name = nearest name (keys c.columns_by_table)

  unfoldable pub suggest_column : SchemaCatalog → String → List String → Option String
  unfolding nearest columns_of
  suggest_column c name tables = nearest name (columns_of c tables)

  -- One row of the load: `columns.setdefault(table, set())`, then the column if there is one.
  unfoldable pub load_row :
      List (String × List String) → String → Option String → List (String × List String)
  load_row [] table column = (table, add_column column []) ∷ []
  load_row ((t, cols) ∷ rest) table column =
      if t == table
      then (t, add_column column cols) ∷ rest
      else (t, cols) ∷ load_row rest table column

  abbrev pub folded : Option String → Option String
  folded none = none
  folded (some name) = some (P.casefold name)

  unfoldable pub load_rows :
      List (String × List String) → List (String × Option String) → List (String × List String)
  unfolding load_row
  load_rows m [] = m
  load_rows m ((table, column) ∷ rows) =
      load_rows (load_row m (P.casefold table) (folded column)) rows

  -- `load_catalog`, from the rows of `_LOAD_SQL`
  unfoldable pub load_catalog : List (String × Option String) → SchemaCatalog
  unfolding load_rows
  load_catalog rows = record { columns_by_table = load_rows [] rows }
