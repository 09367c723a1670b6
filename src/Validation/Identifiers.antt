-- ===== src/Validation/Identifiers.antt =====
-- validation/validator.py, stage 4: the names of a statement against the catalog.
use mcp_text_to_sql_agent.Prelude.{
  String, not, ◌||◌, ◌==◌, Option, none, some, List, [], ◌∷◌, ◌++◌, contains, keep, ◌⧺◌,
  if◌then◌else◌,
}
use mcp_text_to_sql_agent.Platform.{Platform, column}
use mcp_text_to_sql_agent.Catalog.{
  SchemaCatalog, is_empty, has_table, has_column, columns_of, suggest_table, suggest_column,
}
use mcp_text_to_sql_agent.Validation.Decides.{◌then_check◌}
use mcp_text_to_sql_agent.Validation.Result.{ValidationResult, identifiers, fail_name}
use mcp_text_to_sql_agent.Validation.Names.{non_empty, local_names, resolve_alias}

module _ (P : Platform) (catalog : SchemaCatalog) where
  open P use {Expr, Float, casefold, find_all, name, qualifier}

  -- One round of the first loop: the table is local or in the catalog.
  unfoldable pub check_table : String → List String → String → Option (ValidationResult Float)
  check_table sql locals table =
      if contains (casefold table) locals || has_table P catalog table
      then none
      else some (
          fail_name sql identifiers "table_not_found" ("table \"" ⧺ table ⧺ "\" does not exist")
            table (suggest_table P catalog table))

  unfoldable pub check_tables : String → List String → List String → Option (ValidationResult Float)
  check_tables sql locals [] = none
  check_tables sql locals (table ∷ tables) =
      check_table sql locals table then_check check_tables sql locals tables

  -- `[t for t in tables if t.casefold() not in local_names]`
  unfoldable pub real_tables : List String → List String → List String
  real_tables locals tables = keep (λ t. not (contains (casefold t) locals)) tables

  -- A column with a qualifier.
  unfoldable pub check_qualified :
      String → Expr → List String → String → String → Option (ValidationResult Float)
  check_qualified sql statement locals qualifier column_name =
      if contains (casefold qualifier) locals
      then none
      else let target = resolve_alias P statement qualifier in
        if not (has_table P catalog target) || has_column P catalog target column_name
        then none
        else some (
            fail_name sql identifiers "unknown_identifier"
              ("column \"" ⧺ column_name ⧺ "\" does not exist on table \"" ⧺ target ⧺ "\"")
              column_name (suggest_column P catalog column_name (target ∷ [])))

  -- A column without one.
  unfoldable pub check_unqualified :
      String → List String → List String → String → Option (ValidationResult Float)
  check_unqualified sql reals reachable column_name =
      if contains (casefold column_name) reachable
      then none
      else some (
          fail_name sql identifiers "unknown_identifier"
            ("column \"" ⧺ column_name ⧺ "\" does not exist on any referenced table") column_name
            (suggest_column P catalog column_name reals))

  -- One round of the second loop.
  unfoldable pub check_column :
      String
      → Expr
      → List String
      → List String
      → List String
      → Expr
      → Option (ValidationResult Float)
  check_column sql statement locals reals reachable c =
      if not (non_empty (name c)) || (name c == "*")
      then none
      else if non_empty (qualifier c)
      then check_qualified sql statement locals (qualifier c) (name c)
      else check_unqualified sql reals reachable (name c)

  unfoldable pub check_columns :
      String
      → Expr
      → List String
      → List String
      → List String
      → List Expr
      → Option (ValidationResult Float)
  check_columns sql statement locals reals reachable [] = none
  check_columns sql statement locals reals reachable (c ∷ cs) =
      check_column sql statement locals reals reachable c
      then_check check_columns sql statement locals reals reachable cs

  -- From the point where every table has resolved: with no real table there is nothing to check.
  unfoldable pub check_reachable :
      String → Expr → List String → List String → Option (ValidationResult Float)
  check_reachable sql statement locals [] = none
  check_reachable sql statement locals (r ∷ rs) =
      check_columns sql statement locals (r ∷ rs) (columns_of P catalog (r ∷ rs) ++ locals)
        (find_all statement column)

  -- `_check_identifiers`
  unfoldable pub check_identifiers : String → Expr → List String → Option (ValidationResult Float)
  check_identifiers sql statement tables =
      if is_empty catalog
      then none
      else check_tables sql (local_names P statement) tables
        then_check check_reachable sql statement (local_names P statement)
            (real_tables (local_names P statement) tables)
