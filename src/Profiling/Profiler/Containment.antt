-- ===== src/Profiling/Profiler/Containment.antt =====
-- profiling/profiler.py: a profile stays within the catalog, the settings and the columns whose
-- names are not sensitive.
use mcp_text_to_sql_agent.Prelude.{
  ℕ, String, false, Option, some, ℤ, List, [], ◌∷◌, ◌++◌, All, In, ◌≡◌, ◌⊎◌, ◌↔◌, inl, inr, refl,
  subst, Option-cases,
}
use mcp_text_to_sql_agent.Platform.{Platform}
use mcp_text_to_sql_agent.Settings.{clamp_sample_rows}
use mcp_text_to_sql_agent.Settings.Bounds.{clamp_sample_rows_bounds}
use mcp_text_to_sql_agent.Catalog.{columns_at, has_table, suggest_table}
use mcp_text_to_sql_agent.Profiling.Statements.{
  Returned, Sent, Result, returned, raised, unknown_table, fetched, column_types, row_estimate,
}
use mcp_text_to_sql_agent.Profiling.Profiler.Column.{Profiler}
use mcp_text_to_sql_agent.Profiling.Profiler.{
  resolve_table, column_names, read_column_types, select_named, select_known, select_columns,
  Selection, read_row_estimate, profile_columns, with_columns, with_selection, profile_resolved,
  profile, return_selection, return_estimate, assemble,
}
use mcp_text_to_sql_agent.Profiling.Profiler.Sending.{fetched-keeps, and_then-keeps, sends}
use mcp_text_to_sql_agent.Profiling.Profiler.Reading.{
  IsPermitted, Permitted, IsAllowed, profile_columns-Permitted,
}
use mcp_text_to_sql_agent.Profiling.Profiler.Naming.{select_known-IsSelectionOf, IsSelectionOf}

module _ (P : Platform) (self : Profiler P) (table : String) (known : List String) where
  open P use {Float}
  open self use {conn, settings, schema}

  read_row_estimate-Permitted :
      (s : Sent)
      → Permitted P self table known s
      → Permitted P self table known (read_row_estimate P self table s).sent
  unfolding read_row_estimate
  read_row_estimate-Permitted s h =
      let Q = IsPermitted P self table known in
      let sent = s ++ row_estimate schema table ∷ [] in
      and_then-keeps Q (fetched (conn.fetch_estimate s schema table) sent) (return_estimate P self)
        (fetched-keeps Q (conn.fetch_estimate s schema table) sent
          (sends Q s (row_estimate schema table) h (refl, refl)))
        λ _ _ _ h'. h'

  with_selection-Permitted :
      (n : ℕ) (chosen : Selection) (s : Sent)
      → IsAllowed settings n
      → IsSelectionOf P self known chosen
      → Permitted P self table known s
      → Permitted P self table known (with_selection P self table n chosen s).sent
  unfolding with_selection with_columns
  with_selection-Permitted n chosen s allowed (named, _) h =
      let Q = IsPermitted P self table known in
      and_then-keeps Q (profile_columns P self table n chosen.selected s)
        (with_columns P self table chosen.omitted)
        (profile_columns-Permitted P self table known n chosen.selected s named allowed h)
        λ columns s' _ h'.
          and_then-keeps Q (read_row_estimate P self table s')
            (assemble P self table chosen.omitted columns) (read_row_estimate-Permitted s' h')
            λ _ _ _ h2. h2

  select_named-Permitted :
      (r : Result (List String)) (s : Sent)
      → Permitted P self table known s
      → Permitted P self table known (select_named P self table r s).sent
  unfolding select_named read_column_types
  select_named-Permitted (raised e) s h = h
  select_named-Permitted (returned names) s h =
      let Q = IsPermitted P self table known in
      let sent = s ++ column_types schema table ∷ [] in
      and_then-keeps Q (fetched (conn.fetch_types s schema table) sent)
        (return_selection P self names)
        (fetched-keeps Q (conn.fetch_types s schema table) sent
          (sends Q s (column_types schema table) h (refl, refl)))
        λ _ _ _ h'. h'

  -- Once the table is resolved, a profile sends what is permitted.
  profile_known-Permitted :
      ((xs : List String) (a : String) → In a (self.sorted xs) ↔ In a xs)
      → (columns : Option (List String)) (sample_rows : Option ℤ)
      → columns_at self.catalog.columns_by_table table ≡ some known
      → Permitted P self table known
          (profile_resolved P self columns sample_rows (returned table) []).sent
  unfolding profile_resolved select_columns
  profile_known-Permitted same columns sample_rows e =
      let Q = IsPermitted P self table known in
      let chosen = select_known P self table columns (some known) [] in
      let n = clamp_sample_rows settings sample_rows in
      rw (e, select_columns)
        (and_then-keeps Q chosen (with_selection P self table n) select_known-Permitted
          λ c s' got h.
            with_selection-Permitted n c s' (clamp_sample_rows_bounds settings sample_rows)
              (subst (Returned (IsSelectionOf P self known)) got
                (select_known-IsSelectionOf P self same table columns known []))
              h)
    where
      select_known-Permitted :
          Permitted P self table known (select_known P self table columns (some known) []).sent
      select_known-Permitted =
          select_named-Permitted (column_names P self table columns known) [] tt

module _ (P : Platform) (self : Profiler P)
    (same_members : (xs : List String) (a : String) → In a (self.sorted xs) ↔ In a xs) where
  open P use {casefold}
  open self use {catalog}

  -- Given that `sorted` keeps the members of a list: a profile of a table that the catalog does not
  -- have sends nothing and raises the error that names it. Any other profile sends statements only on
  -- that table: the two that read its description, and, for columns that the catalog lists and whose
  -- name is not sensitive, the statistics within the configured bounds and samples of no more rows
  -- than configured, the latter only if sampling is allowed.
  pub profile-IsPermitted :
      (table : String) (columns : Option (List String)) (sample_rows : Option ℤ)
      → ((has_table P catalog table ≡ false)
          × (profile P self table columns sample_rows [] ≡ record {
            result = raised (unknown_table table (suggest_table P catalog table));
            sent = [];
          }))
        ⊎ ((known : List String) × (columns_at catalog.columns_by_table (casefold table)
              ≡ some known)
            × All
                (IsPermitted P self (casefold table) known)
                (profile P self table columns sample_rows []).sent)
  unfolding profile resolve_table profile_resolved
  profile-IsPermitted table columns sample_rows =
      elim (Option-cases (columns_at catalog.columns_by_table (casefold table))) [
        | inl e ↦ inl (rw (e, has_table) refl, rw (e, has_table) refl)
        | inr (known, e) ↦ inr (
          known,
          e,
          rw (e, has_table)
              (profile_known-Permitted P self (casefold table) known same_members columns
                sample_rows e),
        )
      ]
