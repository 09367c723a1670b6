-- ===== src/Catalog/Laws.antt =====
-- schema/catalog.py: a loaded catalog knows exactly the names of its rows, without regard to case.
use mcp_text_to_sql_agent.Prelude.{
  differs-sym, String, ◌==◌, eq_iff, ◌≡◌, refl, sym, ◌∙◌, ap, Bool, true, false, ◌&&◌, ◌||◌,
  Bool-cases, inl, inr, Option, none, some, List, [], ◌∷◌, ◌++◌, contains, any, if◌then◌else◌,
  subst,
}
use mcp_text_to_sql_agent.Platform.{Platform}
use mcp_text_to_sql_agent.Catalog.{
  columns_at, columns_or_empty, has_table, has_column, load_row, load_rows, load_catalog, found,
  add_column, or_empty, folded,
}

-- Whether a row's column is the one that is looked for.
abbrev is_column : String → Option String → Bool
is_column key none = false
is_column key (some c) = key == c

or_assoc : (a b c : Bool) → (a || b) || c ≡ a || (b || c)
or_assoc true b c = refl
or_assoc false b c = refl

or_comm : (a b : Bool) → a || b ≡ b || a
or_comm true true = refl
or_comm true false = refl
or_comm false true = refl
or_comm false false = refl

contains-append :
    (key : String) (xs : List String) (y : String)
    → contains key (xs ++ y ∷ []) ≡ (key == y) || contains key xs
contains-append key [] y = refl
contains-append key (x ∷ xs) y =
    ap (λ b. (key == x) || b) (contains-append key xs y)
    ∙ sym (or_assoc (key == x) (key == y) (contains key xs))
    ∙ ap (λ b. b || contains key xs) (or_comm (key == x) (key == y))
    ∙ or_assoc (key == y) (key == x) (contains key xs)

absorbs :
    (key c : String) (bucket : List String)
    → contains c bucket ≡ true
    → contains key bucket ≡ (key == c) || contains key bucket
absorbs key c bucket h = elim (Bool-cases (key == c)) [
  | inl e ↦ rw (e, (eq_iff key c).0 e) h
  | inr e ↦ rw e
]

contains-add_column :
    (key : String) (column : Option String) (bucket : List String)
    → contains key (add_column column bucket) ≡ is_column key column || contains key bucket
contains-add_column key none bucket = refl
contains-add_column key (some c) bucket = elim (Bool-cases (contains c bucket)) [
  | inl e ↦ rw e (absorbs key c bucket e)
  | inr e ↦ rw e (contains-append key bucket c)
]

found_if :
    (b : Bool) (cols : List String) (o : Option (List String))
    → found (if b then some cols else o) ≡ found o || b
found_if true cols o = or_comm true (found o)
found_if false cols o = or_comm false (found o)

contains_if :
    (m : List (String × List String)) (table key name : String) (column : Option String)
    → contains name (
        or_empty (
          if table == key
          then some (add_column column (columns_or_empty m table))
          else columns_at m key))
      ≡ contains name (or_empty (columns_at m key)) || ((table == key) && is_column name column)
unfolding columns_or_empty
contains_if m table key name column = elim (Bool-cases (table == key)) [
  | inl e ↦
      rw (e, (eq_iff table key).0 e)
        (contains-add_column name column (or_empty (columns_at m key))
          ∙ or_comm (is_column name column) (contains name (or_empty (columns_at m key))))
  | inr e ↦ rw e (or_comm false (contains name (or_empty (columns_at m key))))
]

module _ (P : Platform) where
  columns_at-load_row :
      (m : List (String × List String)) (table key : String) (column : Option String)
      → columns_at (load_row P m table column) key ≡ (
          if table == key
          then some (add_column column (columns_or_empty m table))
          else columns_at m key)
  unfolding columns_at load_row columns_or_empty
  columns_at-load_row [] table key column = refl
  columns_at-load_row ((t, cols) ∷ rest) table key column = elim (Bool-cases (t == table)) [
    | inl e ↦ elim (Bool-cases (table == key)) [
      | inl k ↦ rw (e, (eq_iff t table).0 e, k)
      | inr k ↦ rw (e, (eq_iff t table).0 e, k)
    ]
    | inr e ↦ elim (Bool-cases (t == key)) [
      | inl k ↦
          let differs : (table == key) ≡ false =
            differs-sym key table (subst (λ s. (s == table) ≡ false) ((eq_iff t key).0 k) e) in
          rw (e, k, differs)
      | inr k ↦ rw (e, k) (columns_at-load_row rest table key column)
    ]
  ]

  -- A row names a table; and a column of it.
  abbrev pub row_has_table : String → String × Option String → Bool
  row_has_table name (table, column) = P.casefold table == P.casefold name

  abbrev pub row_has_column : String → String → String × Option String → Bool
  row_has_column table column (t, c) =
      (P.casefold t == P.casefold table) && is_column (P.casefold column) (folded P c)

  found-load_rows :
      (rows : List (String × Option String)) (m : List (String × List String)) (name : String)
      → found (columns_at (load_rows P m rows) (P.casefold name))
        ≡ found (columns_at m (P.casefold name)) || any (row_has_table name) rows
  unfolding load_rows
  found-load_rows [] m name = or_comm false _
  found-load_rows ((table, column) ∷ rows) m name =
      found-load_rows rows (load_row P m (P.casefold table) (folded P column)) name
      ∙ ap (λ b. b || any (row_has_table name) rows)
          (rw (columns_at-load_row m (P.casefold table) (P.casefold name) (folded P column))
            (found_if (P.casefold table == P.casefold name) _ _))
      ∙ or_assoc (found (columns_at m (P.casefold name))) _ _

  contains-load_rows :
      (rows : List (String × Option String)) (m : List (String × List String))
      (table column : String)
      → contains (P.casefold column) (columns_or_empty (load_rows P m rows) (P.casefold table))
        ≡ contains (P.casefold column) (columns_or_empty m (P.casefold table))
          || any (row_has_column table column) rows
  unfolding load_rows columns_or_empty
  contains-load_rows [] m table column = or_comm false _
  contains-load_rows ((t, c) ∷ rows) m table column =
      contains-load_rows rows (load_row P m (P.casefold t) (folded P c)) table column
      ∙ ap (λ b. b || any (row_has_column table column) rows)
          (rw (columns_at-load_row m (P.casefold t) (P.casefold table) (folded P c))
            (contains_if m (P.casefold t) (P.casefold table) (P.casefold column) (folded P c)))
      ∙ or_assoc (contains (P.casefold column) (columns_or_empty m (P.casefold table))) _ _

  -- A table is in the catalog exactly if a row names it, and a column is in a table exactly if a
  -- row names both, however the case of the letters differs and however the rows are ordered.
  pub load_catalog-has :
      (rows : List (String × Option String)) (table column : String)
      → (has_table P (load_catalog P rows) table ≡ any (row_has_table table) rows)
        × (has_column P (load_catalog P rows) table column ≡ any (row_has_column table column) rows)
  unfolding has_table has_column load_catalog columns_at columns_or_empty
  load_catalog-has rows table column =
      (found-load_rows rows [] table, contains-load_rows rows [] table column)
