-- ===== src/Profiling/Profiler/Totality.antt =====
-- profiling/profiler.py: when a profile is returned, whatever becomes of its columns.
use mcp_text_to_sql_agent.Prelude.{
  ℕ, zero, suc, String, Bool, true, Option, none, some, ℤ, List, [], ◌∷◌, ◌++◌, ◌≡◌, inl, inr,
  Bool-cases, Option-cases, arith,
}
use mcp_text_to_sql_agent.Platform.{Platform}
use mcp_text_to_sql_agent.Settings.{clamp_sample_rows}
use mcp_text_to_sql_agent.Catalog.{columns_at, has_table}
use mcp_text_to_sql_agent.Profiling.Sensitivity.{is_sensitive}
use mcp_text_to_sql_agent.Profiling.Statements.{
  Connection, Sent, Result, returned, raised, unknown_table, profiling_error, driver_error,
  key_error, Ran, Returned, and_then, fetched, control, accepted, StatisticsQuery, StatisticsRow,
  Statement, begin, commit, set_timeout, column_types, row_estimate, statistics,
}
use mcp_text_to_sql_agent.Profiling.Profiler.Column.{
  Profiler, Stats, supports_extremes, in_transaction, after_begin, run_statement, after_rows,
  return_rows, run_stats, statistics_query, stats_of, run_sample, with_stats, after_stats,
  profile_open_column, profile_column, reasons, rare, with_values,
}
use mcp_text_to_sql_agent.Profiling.Profiler.Shape.{in_transaction-Returned, Anything, anything}
use mcp_text_to_sql_agent.Profiling.Profiler.{
  read_column_types, read_row_estimate, return_estimate, profile_columns, prepend, with_columns,
  with_selection, assemble, select_known, select_columns, select_named, return_selection,
  column_names, profile_resolved, resolve_table, profile, Selection,
}

-- A value, or a failure of the database.
abbrev IsAnswered : {A : Type 0} → Result A → Type 0
IsAnswered (returned a) = Unit
IsAnswered (raised driver_error) = Unit
IsAnswered (raised _) = ⊥

abbrev pub IsReturned : {A : Type 0} → Result A → Type 0
IsReturned (returned a) = Unit
IsReturned (raised e) = ⊥

module _ {A B : Type 0} where
  and_then-IsAnswered :
      (Q : A → Type 0) (r : Ran A) (next : A → Sent → Ran B)
      → IsAnswered r.result
      → Returned Q r.result
      → ((a : A) (s : Sent) → Q a → IsAnswered (next a s).result)
      → IsAnswered (and_then r.result r.sent next).result
  unfolding and_then
  and_then-IsAnswered Q r next h q keep = go r.result h q
    where
      go : (t : Result A) → IsAnswered t → Returned Q t → IsAnswered (and_then t r.sent next).result
      go (returned a) _ k = keep a r.sent k
      go (raised driver_error) k _ = tt
      go (raised (unknown_table t o)) k _ = elim k [ ]
      go (raised (profiling_error m)) k _ = elim k [ ]
      go (raised key_error) k _ = elim k [ ]

  and_then-IsReturned :
      (r : Ran A) (next : A → Sent → Ran B)
      → IsReturned r.result
      → ((a : A) (s : Sent) → IsReturned (next a s).result)
      → IsReturned (and_then r.result r.sent next).result
  unfolding and_then
  and_then-IsReturned r next h keep = go r.result h
    where
      go : (t : Result A) → IsReturned t → IsReturned (and_then t r.sent next).result
      go (returned a) _ = keep a r.sent
      go (raised e) k = elim k [ ]

-- The statistics have a row.
abbrev pub HasRow : List StatisticsRow → Type 0
HasRow [] = ⊥
HasRow (row ∷ rows) = Unit

abbrev pub IsPresent : {A : Type 0} → Option A → Type 0
IsPresent none = ⊥
IsPresent (some a) = Unit

control-IsAnswered :
    (conn : Connection) (st : Statement) (s : Sent) → IsAnswered (control conn st s).result
unfolding control accepted
control-IsAnswered conn st s = elim (Bool-cases (conn.accepts s st)) [
  | inl e ↦ rw e tt
  | inr e ↦ rw e tt
]

fetched-IsAnswered : {A : Type 0} (rows : Option A) (s : Sent) → IsAnswered (fetched rows s).result
unfolding fetched
fetched-IsAnswered none s = tt
fetched-IsAnswered (some rows) s = tt

module _ (P : Platform) (self : Profiler P) where
  open P use {Float}
  open self use {conn, catalog, settings, schema, sensitive_patterns}

  in_transaction-IsAnswered :
      {A : Type 0} (st : Statement) (rows : Sent → Option A) (s : Sent)
      → IsAnswered (in_transaction P self st rows s).result
  unfolding in_transaction after_begin run_statement after_rows
  in_transaction-IsAnswered st rows s =
      and_then-IsAnswered Anything (control conn begin s) (after_begin P self st rows)
        (control-IsAnswered conn begin s) (anything (control conn begin s).result)
        λ u s1 _.
          let timeout = control conn (set_timeout settings.profile_timeout_ms) s1 in
          and_then-IsAnswered Anything timeout (run_statement P self st rows)
            (control-IsAnswered conn (set_timeout settings.profile_timeout_ms) s1)
            (anything timeout.result)
            λ u2 s2 _.
              let got = fetched (rows s2) (s2 ++ st ∷ []) in
              and_then-IsAnswered Anything got (after_rows P self)
                (fetched-IsAnswered (rows s2) (s2 ++ st ∷ [])) (anything got.result)
                λ a s3 _.
                  and_then-IsAnswered Anything (control conn commit s3) (return_rows P self a)
                    (control-IsAnswered conn commit s3) (anything (control conn commit s3).result)
                    λ _ _ _. tt

  stats_of-IsAnswered :
      (table column : String) (top_k : ℕ) (rows : List StatisticsRow) (s : Sent)
      → HasRow rows
      → IsAnswered (stats_of P self table column top_k rows s).result
  unfolding stats_of
  stats_of-IsAnswered table column top_k [] s h = elim h [ ]
  stats_of-IsAnswered table column top_k (row ∷ rows) s h = tt

  with_stats-IsReturned :
      (table column data_type : String) (n : ℕ) (stats : Stats Float) (s : Sent)
      → IsReturned (with_stats P self table column data_type n stats s).result
  unfolding with_stats run_sample
  with_stats-IsReturned table column data_type zero stats s = tt
  with_stats-IsReturned table column data_type (suc k) stats s =
      and_then-IsReturned (run_sample P self table column (suc k) s)
        (with_values P self column data_type stats
          (reasons P self data_type ++ rare P self settings.profile_top_k stats.frequent))
        tt λ _ _. tt

  after_stats-IsReturned :
      (table column data_type : String) (n : ℕ) (r : Result (Stats Float)) (s : Sent)
      → IsAnswered r
      → IsReturned (after_stats P self table column data_type n r s).result
  unfolding after_stats
  after_stats-IsReturned table column data_type n (returned stats) s h =
      with_stats-IsReturned table column data_type n stats s
  after_stats-IsReturned table column data_type n (raised driver_error) s h = tt
  after_stats-IsReturned table column data_type n (raised (unknown_table t o)) s h = elim h [ ]
  after_stats-IsReturned table column data_type n (raised (profiling_error m)) s h = elim h [ ]
  after_stats-IsReturned table column data_type n (raised key_error) s h = elim h [ ]

  fetched-IsReturned :
      {A : Type 0} (rows : Option A) (s : Sent)
      → IsPresent rows
      → IsReturned (fetched rows s).result
  unfolding fetched
  fetched-IsReturned none s h = elim h [ ]
  fetched-IsReturned (some rows) s h = tt

  read_row_estimate-IsReturned :
      (table : String) (s : Sent)
      → IsPresent (conn.fetch_estimate s schema table)
      → IsReturned (read_row_estimate P self table s).result
  unfolding read_row_estimate
  read_row_estimate-IsReturned table s h =
      let sent = s ++ row_estimate schema table ∷ [] in
      and_then-IsReturned (fetched (conn.fetch_estimate s schema table) sent)
        (return_estimate P self) (fetched-IsReturned (conn.fetch_estimate s schema table) sent h)
        λ _ _. tt

  module _
      (has_row : (s : Sent) (q : StatisticsQuery) (rows : List StatisticsRow)
        → conn.fetch_statistics s q ≡ some rows
        → HasRow rows) where
    run_stats-IsAnswered :
        (table column : String) (extremes : Bool) (top_k : ℕ) (s : Sent)
        → IsAnswered (run_stats P self table column extremes top_k s).result
    unfolding run_stats
    run_stats-IsAnswered table column extremes top_k s =
        let query = statistics_query P self table column extremes top_k in
        and_then-IsAnswered HasRow
          (in_transaction P self (statistics query) (λ s'. conn.fetch_statistics s' query) s)
          (stats_of P self table column top_k)
          (in_transaction-IsAnswered (statistics query) (λ s'. conn.fetch_statistics s' query) s)
          (in_transaction-Returned P self HasRow (statistics query)
            (λ s'. conn.fetch_statistics s' query) s λ s' rows. has_row s' query rows)
          λ rows s' h. stats_of-IsAnswered table column top_k rows s' h

    profile_column-IsReturned :
        (table column data_type : String) (n : ℕ) (s : Sent)
        → IsReturned (profile_column P self table column data_type n s).result
    unfolding profile_column profile_open_column
    profile_column-IsReturned table column data_type n s =
        elim (Bool-cases (is_sensitive P column sensitive_patterns)) [
          | inl e ↦ rw e tt
          | inr e ↦
              rw (e, profile_open_column)
                (after_stats-IsReturned table column data_type n _ _ (
                  run_stats-IsAnswered table column (supports_extremes P self data_type)
                    settings.profile_top_k s))
        ]

    profile_columns-IsReturned :
        (table : String) (n : ℕ) (chosen : List (String × String)) (s : Sent)
        → IsReturned (profile_columns P self table n chosen s).result
    unfolding profile_columns
    profile_columns-IsReturned table n [] s = tt
    profile_columns-IsReturned table n ((c, t) ∷ rest) s =
        and_then-IsReturned (profile_column P self table c t n s)
          (λ p s'.
            and_then (profile_columns P self table n rest s').result
              (profile_columns P self table n rest s').sent (prepend P self p))
          (profile_column-IsReturned table c t n s)
          λ p s'.
            and_then-IsReturned (profile_columns P self table n rest s') (prepend P self p)
              (profile_columns-IsReturned table n rest s') λ _ _. tt

    module _
        (has_estimate : (s : Sent) (table : String)
          → IsPresent (conn.fetch_estimate s schema table)) where
      with_selection-IsReturned :
          (table : String) (n : ℕ) (chosen : Selection) (s : Sent)
          → IsReturned (with_selection P self table n chosen s).result
      unfolding with_selection with_columns
      with_selection-IsReturned table n chosen s =
          and_then-IsReturned (profile_columns P self table n chosen.selected s)
            (with_columns P self table chosen.omitted)
            (profile_columns-IsReturned table n chosen.selected s)
            λ columns s'.
              and_then-IsReturned (read_row_estimate P self table s')
                (assemble P self table chosen.omitted columns)
                (read_row_estimate-IsReturned table s' (has_estimate s' table)) λ _ _. tt

      module _
          (has_types : (s : Sent) (table : String)
            → IsPresent (conn.fetch_types s schema table)) where
        select_named-IsReturned :
            (table : String) (names : List String) (s : Sent)
            → IsReturned (select_named P self table (returned names) s).result
        unfolding select_named read_column_types
        select_named-IsReturned table names s =
            let sent = s ++ column_types schema table ∷ [] in
            and_then-IsReturned (fetched (conn.fetch_types s schema table) sent)
              (return_selection P self names)
              (fetched-IsReturned (conn.fetch_types s schema table) sent (has_types s table))
              λ _ _. tt

        profile_known-IsReturned :
            (table : String) (known : List String) (sample_rows : Option ℤ) (s : Sent)
            → columns_at catalog.columns_by_table table ≡ some known
            → IsReturned (profile_resolved P self none sample_rows (returned table) s).result
        unfolding profile_resolved select_columns select_known column_names
        profile_known-IsReturned table known sample_rows s e =
            let n = clamp_sample_rows settings sample_rows in
            rw (e, select_columns)
              (and_then-IsReturned (select_named P self table (returned (self.sorted known)) s)
                (with_selection P self table n)
                (select_named-IsReturned table (self.sorted known) s)
                λ c s'. with_selection-IsReturned table n c s')

        -- Given that the statement for the statistics of a column returns at least one row, and that the
        -- statements for the types of the columns and for the estimate of the rows do not fail: the
        -- profile of all columns of a table of the catalog is returned, whichever of the statements that
        -- begin and end transactions, set the timeout, and read the statistics and the samples fail.
        pub profile-IsReturned :
            (table : String) (sample_rows : Option ℤ) (s : Sent)
            → has_table P catalog table ≡ true
            → IsReturned (profile P self table none sample_rows s).result
        unfolding profile resolve_table has_table
        profile-IsReturned table sample_rows s known_table =
            elim (Option-cases (columns_at catalog.columns_by_table (P.casefold table))) [
              | inl e ↦ absurd (ground (arith, known_table, e))
              | inr (known, e) ↦
                  rw (e, has_table)
                    (profile_known-IsReturned (P.casefold table) known sample_rows s e)
            ]
