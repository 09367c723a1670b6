-- ===== src/Profiling/Profiler.antt =====
-- profiling/profiler.py: `TableProfiler` and the values that it returns.
pub mod Column
pub mod Sending
pub mod Reading
pub mod Naming
pub mod Containment
pub mod Shape
pub mod Discretion
pub mod Totality
use mcp_text_to_sql_agent.Prelude.{
  ℕ, ◌-◌, ◌+◌, String, Bool, true, false, not, Option, none, some, List, [], ◌∷◌, length, take,
  contains, ℤ, pos, negsuc, map, first, any, ◌⧺◌, ◌==◌, if◌then◌else◌, ◌++◌,
}
use mcp_text_to_sql_agent.Platform.{Platform}
use mcp_text_to_sql_agent.Settings.{ProfilingSettings, clamp_sample_rows}
use mcp_text_to_sql_agent.Catalog.{
  SchemaCatalog, columns_at, has_table, suggest_table, suggest_column,
}
use mcp_text_to_sql_agent.Profiling.Statements.{
  Connection, Sent, Result, returned, raised, Raised, unknown_table, profiling_error, key_error,
  Ran, and_then, fetched, column_types, row_estimate,
}
use mcp_text_to_sql_agent.Profiling.Profiler.Column.{ColumnProfile, profile_column, Profiler}

pub record TableProfile (Float : Type 0) : Type 0 where
  pub table : String
  pub columns : List (ColumnProfile Float)
  pub row_estimate : Option ℕ
  pub scanned_rows : ℕ
  pub columns_omitted : ℕ

-- What `_select_columns` returns.
pub record Selection : Type 0 where
  pub selected : List (String × String)
  pub omitted : ℕ

module _ (P : Platform) (self : Profiler P) where
  open P use {casefold, Float}
  open self use {conn, catalog, settings, schema}

  -- `_resolve_table`
  unfoldable pub resolve_table : String → Result String
  unfolding has_table suggest_table
  resolve_table table =
      if has_table P catalog table
      then returned (casefold table)
      else raised (unknown_table table (suggest_table P catalog table))

  unfoldable pub hint : Option String → String
  hint none = ""
  hint (some suggestion) = "; did you mean " ⧺ self.repr suggestion ⧺ "?"

  -- The error for the first of the unknown names.
  unfoldable pub unknown_column : String → String → Raised
  unfolding hint suggest_column
  unknown_column table c = profiling_error (
      "column "
      ⧺ self.repr c
      ⧺ " is not in "
      ⧺ self.repr table
      ⧺ hint (suggest_column P catalog c (table ∷ [])))

  unfoldable pub names_after : String → List String → Option String → Result (List String)
  unfolding unknown_column
  names_after table requested none = returned (map casefold requested)
  names_after table requested (some c) = raised (unknown_column table c)

  -- The names of the columns to profile, before the cap.
  unfoldable pub column_names : String → Option (List String) → List String → Result (List String)
  unfolding names_after
  column_names table none known = returned (self.sorted known)
  column_names table (some requested) known =
      names_after table requested (first (λ c. not (contains (casefold c) known)) requested)

  abbrev pub or_else : Option String → Option String → Option String
  or_else (some t) other = some t
  or_else none other = other

  -- `types.get(name)` of the dictionary made from the rows, in which a later row wins.
  unfoldable pub type_of : List (String × String) → String → Option String
  type_of [] name = none
  type_of ((c, data_type) ∷ rows) name =
      or_else (type_of rows name) (if casefold c == name then some data_type else none)

  abbrev pub or_unknown : Option String → String
  or_unknown (some t) = t
  or_unknown none = "unknown"

  unfoldable pub typed : List (String × String) → List String → List (String × String)
  unfolding type_of
  typed types [] = []
  typed types (name ∷ names) = (name, or_unknown (type_of types name)) ∷ typed types names

  -- `_column_types`
  unfoldable pub read_column_types : String → Sent → Ran (List (String × String))
  unfolding fetched
  read_column_types table sent =
      fetched (conn.fetch_types sent schema table) (sent ++ column_types schema table ∷ [])

  unfoldable pub selection : List String → List (String × String) → Selection
  unfolding typed
  selection names types = record {
    selected = typed types (take settings.profile_max_columns names);
    omitted = length names - settings.profile_max_columns;
  }

  abbrev pub return_selection : List String → List (String × String) → Sent → Ran Selection
  return_selection names types sent = record {
    result = returned (selection names types);
    sent = sent;
  }

  unfoldable pub select_named : String → Result (List String) → Sent → Ran Selection
  unfolding and_then read_column_types selection
  select_named table (raised e) sent = record { result = raised e; sent = sent }
  select_named table (returned names) sent =
      let types = read_column_types table sent in
      and_then types.result types.sent (return_selection names)

  -- `known = self._catalog.columns_by_table[table]`, or the `KeyError`, and the rest.
  unfoldable pub select_known :
      String → Option (List String) → Option (List String) → Sent → Ran Selection
  unfolding select_named column_names
  select_known table requested none sent = record { result = raised key_error; sent = sent }
  select_known table requested (some known) sent =
      select_named table (column_names table requested known) sent

  -- `_select_columns`
  unfoldable pub select_columns : String → Option (List String) → Sent → Ran Selection
  unfolding select_known columns_at
  select_columns table requested sent =
      select_known table requested (columns_at catalog.columns_by_table table) sent

  -- None for no row, for a null and for the -1 of a table that was never analysed.
  abbrev pub estimate : Option (Option ℤ) → Option ℕ
  estimate none = none
  estimate (some none) = none
  estimate (some (some (pos n))) = some n
  estimate (some (some (negsuc n))) = none

  abbrev pub return_estimate : Option (Option ℤ) → Sent → Ran (Option ℕ)
  return_estimate row sent = record { result = returned (estimate row); sent = sent }

  -- `_row_estimate`
  unfoldable pub read_row_estimate : String → Sent → Ran (Option ℕ)
  unfolding fetched and_then
  read_row_estimate table sent =
      let rows =
        fetched (conn.fetch_estimate sent schema table) (sent ++ row_estimate schema table ∷ []) in
      and_then rows.result rows.sent return_estimate

  abbrev pub prepend :
      ColumnProfile Float → List (ColumnProfile Float) → Sent → Ran (List (ColumnProfile Float))
  prepend p ps sent = record { result = returned (p ∷ ps); sent = sent }

  -- The loop over the selected columns.
  unfoldable pub profile_columns :
      String → ℕ → List (String × String) → Sent → Ran (List (ColumnProfile Float))
  unfolding and_then profile_column
  profile_columns table samples [] sent = record { result = returned []; sent = sent }
  profile_columns table samples ((name, data_type) ∷ rest) sent =
      let column = profile_column P self table name data_type samples sent in
      and_then column.result column.sent λ p sent'.
        let others = profile_columns table samples rest sent' in
        and_then others.result others.sent (prepend p)

  abbrev pub assemble :
      String → ℕ → List (ColumnProfile Float) → Option ℕ → Sent → Ran (TableProfile Float)
  assemble table omitted columns rows sent = record {
    result = returned (record {
      table = table;
      columns = columns;
      row_estimate = rows;
      scanned_rows = settings.profile_scan_limit;
      columns_omitted = omitted;
    });
    sent = sent;
  }

  unfoldable pub with_columns :
      String → ℕ → List (ColumnProfile Float) → Sent → Ran (TableProfile Float)
  unfolding and_then read_row_estimate
  with_columns table omitted columns sent =
      let rows = read_row_estimate table sent in
      and_then rows.result rows.sent (assemble table omitted columns)

  unfoldable pub with_selection : String → ℕ → Selection → Sent → Ran (TableProfile Float)
  unfolding and_then profile_columns with_columns
  with_selection table samples chosen sent =
      let columns = profile_columns table samples chosen.selected sent in
      and_then columns.result columns.sent (with_columns table chosen.omitted)

  unfoldable pub profile_resolved :
      Option (List String) → Option ℤ → Result String → Sent → Ran (TableProfile Float)
  unfolding and_then select_columns with_selection clamp_sample_rows
  profile_resolved columns sample_rows (raised e) sent = record { result = raised e; sent = sent }
  profile_resolved columns sample_rows (returned table) sent =
      let chosen = select_columns table columns sent in
      and_then chosen.result chosen.sent
        (with_selection table (clamp_sample_rows settings sample_rows))

  unfoldable pub profile :
      String → Option (List String) → Option ℤ → Sent → Ran (TableProfile Float)
  unfolding profile_resolved resolve_table
  profile table columns sample_rows sent =
      profile_resolved columns sample_rows (resolve_table table) sent
