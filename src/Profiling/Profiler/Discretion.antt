-- ===== src/Profiling/Profiler/Discretion.antt =====
-- profiling/profiler.py: what a whole profile tells.
use mcp_text_to_sql_agent.Prelude.{
  ℕ, ◌≤◌, String, Option, some, ℤ, List, [], ◌∷◌, All, In, length, ◌≡◌, ◌↔◌, refl, ap, suc, arith,
  Option-cases, Bool-cases, inl, inr,
}
use mcp_text_to_sql_agent.Platform.{Platform}
use mcp_text_to_sql_agent.Settings.{clamp_sample_rows}
use mcp_text_to_sql_agent.Settings.Bounds.{clamp_sample_rows_bounds}
use mcp_text_to_sql_agent.Catalog.{columns_at, has_table}
use mcp_text_to_sql_agent.Profiling.Statements.{
  Sent, returned, Returned, and_then, StatisticsQuery, StatisticsRow,
}
use mcp_text_to_sql_agent.Profiling.Profiler.Column.{Profiler, ColumnProfile, profile_column}
use mcp_text_to_sql_agent.Profiling.Profiler.{
  TableProfile, Selection, select_columns, select_known, profile_columns, prepend, with_columns,
  with_selection, read_row_estimate, assemble, profile_resolved, profile, resolve_table,
}
use mcp_text_to_sql_agent.Profiling.Profiler.Reading.{IsAllowed}
use mcp_text_to_sql_agent.Profiling.Profiler.Naming.{IsSelectionOf, select_known-IsSelectionOf}
use mcp_text_to_sql_agent.Profiling.Profiler.Shape.{
  IsAnswer, IsDiscreet, profile_column-IsDiscreet, and_then-Returned, Anything, anything,
}

module _ (P : Platform) (self : Profiler P) where
  open P use {Float}
  open self use {settings}

  abbrev AreDiscreet : ℕ → List (ColumnProfile Float) → Type 0
  AreDiscreet n columns = All (IsDiscreet P self) columns × (length columns ≡ n)

  -- A profile of the table, with at most the configured number of columns, each discreet.
  abbrev pub IsGuardedProfile : String → TableProfile Float → Type 0
  IsGuardedProfile table p =
      (p.table ≡ table)
      × (length p.columns ≤ settings.profile_max_columns)
      × All (IsDiscreet P self) p.columns

module _ (P : Platform) (self : Profiler P)
    (answers : (s : Sent) (q : StatisticsQuery) (rows : List StatisticsRow)
      → self.conn.fetch_statistics s q ≡ some rows
      → All (IsAnswer q) rows) where
  open P use {Float, casefold}
  open self use {settings, catalog}

  profile_columns-AreDiscreet :
      (table : String) (n : ℕ) (chosen : List (String × String)) (s : Sent)
      → IsAllowed settings n
      → Returned
          (AreDiscreet P self (length chosen))
          (profile_columns P self table n chosen s).result
  unfolding profile_columns
  profile_columns-AreDiscreet table n [] s allowed = (tt, refl)
  profile_columns-AreDiscreet table n ((c, t) ∷ rest) s allowed =
      and_then-Returned (IsDiscreet P self) (AreDiscreet P self (suc (length rest)))
        (profile_column P self table c t n s)
        (λ p s'.
          and_then (profile_columns P self table n rest s').result
            (profile_columns P self table n rest s').sent (prepend P self p))
        (profile_column-IsDiscreet P self answers table c t n s allowed)
        λ p s' discreet.
          and_then-Returned (AreDiscreet P self (length rest))
            (AreDiscreet P self (suc (length rest))) (profile_columns P self table n rest s')
            (prepend P self p) (profile_columns-AreDiscreet table n rest s' allowed)
            λ ps _ h. ((discreet, h.0), ap suc h.1)

  with_selection-IsGuardedProfile :
      (table : String) (known : List String) (n : ℕ) (chosen : Selection) (s : Sent)
      → IsAllowed settings n
      → IsSelectionOf P self known chosen
      → Returned (IsGuardedProfile P self table) (with_selection P self table n chosen s).result
  unfolding with_selection with_columns
  with_selection-IsGuardedProfile table known n chosen s allowed (_, few) =
      and_then-Returned (AreDiscreet P self (length chosen.selected))
        (IsGuardedProfile P self table) (profile_columns P self table n chosen.selected s)
        (with_columns P self table chosen.omitted)
        (profile_columns-AreDiscreet table n chosen.selected s allowed)
        λ columns s' h.
          and_then-Returned Anything (IsGuardedProfile P self table)
            (read_row_estimate P self table s') (assemble P self table chosen.omitted columns)
            (anything (read_row_estimate P self table s').result)
            λ _ _ _. (refl, omega (arith, few, h.1), h.0)

  module _ (same_members : (xs : List String) (a : String) → In a (self.sorted xs) ↔ In a xs) where
    profile_resolved-IsGuardedProfile :
        (table : String) (columns : Option (List String)) (sample_rows : Option ℤ) (s : Sent)
        → Returned
            (IsGuardedProfile P self table)
            (profile_resolved P self columns sample_rows (returned table) s).result
    unfolding profile_resolved select_columns
    profile_resolved-IsGuardedProfile table columns sample_rows s =
        elim (Option-cases (columns_at catalog.columns_by_table table)) [
          | inl e ↦ rw (e, select_columns) tt
          | inr (known, e) ↦
              rw (e, select_columns)
                (and_then-Returned (IsSelectionOf P self known) (IsGuardedProfile P self table)
                  (select_known P self table columns (some known) s)
                  (with_selection P self table (clamp_sample_rows settings sample_rows))
                  (select_known-IsSelectionOf P self same_members table columns known s)
                  λ chosen s' h.
                    with_selection-IsGuardedProfile table known
                      (clamp_sample_rows settings sample_rows) chosen s'
                      (clamp_sample_rows_bounds settings sample_rows) h)
        ]

    -- Given that `sorted` keeps the members of a list, and that the database answers the statistics
    -- statement as it is written (a frequent value has the `HAVING` count, and there are extremes
    -- only if some are selected): a profile that is returned is that of the case-folded table, has no
    -- more columns than configured, and each of them is discreet. A column whose name is sensitive is
    -- given with no value at all; any other one with frequent values that reach the configured
    -- threshold, with extremes only if its type is ordered, and with samples only if they are allowed.
    pub profile-IsGuardedProfile :
        (table : String) (columns : Option (List String)) (sample_rows : Option ℤ) (s : Sent)
        → Returned
            (IsGuardedProfile P self (casefold table))
            (profile P self table columns sample_rows s).result
    unfolding profile resolve_table
    profile-IsGuardedProfile table columns sample_rows s =
        elim (Bool-cases (has_table P catalog table)) [
          | inl e ↦ rw e (profile_resolved-IsGuardedProfile (casefold table) columns sample_rows s)
          | inr e ↦ rw (e, profile_resolved) tt
        ]
