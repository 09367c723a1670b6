-- ===== src/Profiling/Profiler/Reading.antt =====
-- profiling/profiler.py: which statements the profile of a column sends.
use mcp_text_to_sql_agent.Prelude.{
  if◌then◌else◌, max, none, some, ℕ, zero, suc, ◌≤◌, String, Bool, true, false, List, [], ◌∷◌, ◌++◌,
  All, In, ◌≡◌, ◌⊎◌, inl, inr, refl, arith, Bool-cases,
}
use mcp_text_to_sql_agent.Platform.{Platform}
use mcp_text_to_sql_agent.Settings.{ProfilingSettings}
use mcp_text_to_sql_agent.Profiling.Sensitivity.{is_sensitive}
use mcp_text_to_sql_agent.Profiling.Statements.{
  Sent, Result, returned, raised, unknown_table, profiling_error, driver_error, key_error, and_then,
  StatisticsRow, Statement, begin, commit, set_timeout, column_types, row_estimate, statistics,
  sample,
}
use mcp_text_to_sql_agent.Profiling.Profiler.Column.{
  Profiler, supports_extremes, in_transaction, run_stats, statistics_query, stats_of, run_sample,
  sample_query, Stats, with_stats, after_stats, profile_open_column, profile_column, reasons, rare,
  with_values,
}
use mcp_text_to_sql_agent.Profiling.Profiler.{profile_columns, prepend}
use mcp_text_to_sql_agent.Profiling.Profiler.Sending.{and_then-keeps, in_transaction-keeps}

-- A number of sample rows that the settings allow.
abbrev pub IsAllowed : ProfilingSettings → ℕ → Type 0
IsAllowed settings n =
    (n ≤ settings.profile_sample_rows) × ((settings.profile_allow_value_sampling ≡ true) ⊎ (n ≡ 0))

module _ (P : Platform) (self : Profiler P) (table : String) (known : List String) where
  open P use {Float}
  open self use {conn, settings, schema, sensitive_patterns}

  -- A column of the catalog whose values may be read.
  abbrev pub IsReadable : String → Type 0
  IsReadable column = In column known × (is_sensitive P column sensitive_patterns ≡ false)

  -- The statements that a profile of the table may send.
  abbrev pub IsPermitted : Statement → Type 0
  IsPermitted begin = Unit
  IsPermitted commit = Unit
  IsPermitted (set_timeout n) = n ≡ settings.profile_timeout_ms
  IsPermitted (column_types s t) = (s ≡ schema) × (t ≡ table)
  IsPermitted (row_estimate s t) = (s ≡ schema) × (t ≡ table)
  IsPermitted (statistics q) =
      IsReadable q.column
      × (q.schema ≡ schema)
      × (q.table ≡ table)
      × (q.scan_limit ≡ settings.profile_scan_limit)
      × (q.max_value_chars ≡ settings.profile_max_value_chars)
      × (q.min_frequency ≡ settings.profile_min_value_frequency)
      × (q.limit ≡ max settings.profile_top_k 1)
      × ((q.extremes ≡ none) ⊎ (q.extremes ≡ some settings.profile_max_value_chars))
  IsPermitted (sample q) =
      IsReadable q.column
      × (q.schema ≡ schema)
      × (q.table ≡ table)
      × (settings.profile_allow_value_sampling ≡ true)
      × (q.max_value_chars ≡ settings.profile_max_value_chars)
      × (q.limit ≤ settings.profile_sample_rows)

  abbrev pub Permitted : Sent → Type 0
  Permitted s = All IsPermitted s

  stats_of-Permitted :
      (column : String) (top_k : ℕ) (rows : List StatisticsRow) (s : Sent)
      → Permitted s
      → Permitted (stats_of P self table column top_k rows s).sent
  unfolding stats_of
  stats_of-Permitted column top_k [] s h = h
  stats_of-Permitted column top_k (row ∷ rows) s h = h

  extremes_lem :
      (extremes : Bool)
      → ((if extremes then some settings.profile_max_value_chars else none) ≡ none)
        ⊎ ((if extremes then some settings.profile_max_value_chars else none)
            ≡ some settings.profile_max_value_chars)
  extremes_lem true = inr refl
  extremes_lem false = inl refl

  run_stats-Permitted :
      (column : String) (extremes : Bool) (s : Sent)
      → IsReadable column
      → Permitted s
      → Permitted (run_stats P self table column extremes settings.profile_top_k s).sent
  unfolding run_stats statistics_query
  run_stats-Permitted column extremes s readable h =
      let top_k = settings.profile_top_k in
      let query = statistics_query P self table column extremes top_k in
      and_then-keeps IsPermitted
        (in_transaction P self (statistics query) (λ s'. conn.fetch_statistics s' query) s)
        (stats_of P self table column top_k)
        (in_transaction-keeps P self IsPermitted tt tt refl (statistics query)
          (λ s'. conn.fetch_statistics s' query) s
          (readable, refl, refl, refl, refl, refl, refl, extremes_lem extremes) h)
        λ rows s' _ h'. stats_of-Permitted column top_k rows s' h'

  run_sample-Permitted :
      (column : String) (n : ℕ) (s : Sent)
      → IsReadable column
      → settings.profile_allow_value_sampling ≡ true
      → n ≤ settings.profile_sample_rows
      → Permitted s
      → Permitted (run_sample P self table column n s).sent
  unfolding run_sample sample_query
  run_sample-Permitted column n s readable allowed few h =
      let query = sample_query P self table column n in
      in_transaction-keeps P self IsPermitted tt tt refl (sample query)
        (λ s'. conn.fetch_sample s' query) s (readable, refl, refl, allowed, refl, few) h

  with_stats-Permitted :
      (column data_type : String) (n : ℕ) (stats : Stats Float) (s : Sent)
      → IsReadable column
      → IsAllowed settings n
      → Permitted s
      → Permitted (with_stats P self table column data_type n stats s).sent
  unfolding with_stats
  with_stats-Permitted column data_type zero stats s readable allowed h = h
  with_stats-Permitted column data_type (suc k) stats s readable (few, inr e) h =
      absurd (ground (arith, e))
  with_stats-Permitted column data_type (suc k) stats s readable (few, inl allowed) h =
      and_then-keeps IsPermitted (run_sample P self table column (suc k) s)
        (with_values P self column data_type stats
          (reasons P self data_type ++ rare P self settings.profile_top_k stats.frequent))
        (run_sample-Permitted column (suc k) s readable allowed few h) λ _ s' _ h'. h'

  after_stats-Permitted :
      (column data_type : String) (n : ℕ) (r : Result (Stats Float)) (s : Sent)
      → IsReadable column
      → IsAllowed settings n
      → Permitted s
      → Permitted (after_stats P self table column data_type n r s).sent
  unfolding after_stats
  after_stats-Permitted column data_type n (returned stats) s readable allowed h =
      with_stats-Permitted column data_type n stats s readable allowed h
  after_stats-Permitted column data_type n (raised driver_error) s readable allowed h = h
  after_stats-Permitted column data_type n (raised (unknown_table t o)) s readable allowed h = h
  after_stats-Permitted column data_type n (raised (profiling_error m)) s readable allowed h = h
  after_stats-Permitted column data_type n (raised key_error) s readable allowed h = h

  profile_column-Permitted :
      (column data_type : String) (n : ℕ) (s : Sent)
      → In column known
      → IsAllowed settings n
      → Permitted s
      → Permitted (profile_column P self table column data_type n s).sent
  unfolding profile_column profile_open_column
  profile_column-Permitted column data_type n s named allowed h =
      elim (Bool-cases (is_sensitive P column sensitive_patterns)) [
        | inl e ↦ rw e h
        | inr e ↦ rw e (
            after_stats-Permitted column data_type n _ _ (named, e) allowed
              (run_stats-Permitted column (supports_extremes P self data_type) s (named, e) h))
      ]

  pub profile_columns-Permitted :
      (n : ℕ) (chosen : List (String × String)) (s : Sent)
      → All (λ c. In c.0 known) chosen
      → IsAllowed settings n
      → Permitted s
      → Permitted (profile_columns P self table n chosen s).sent
  unfolding profile_columns
  profile_columns-Permitted n [] s named allowed h = h
  profile_columns-Permitted n ((c, t) ∷ rest) s (named, others) allowed h =
      and_then-keeps IsPermitted (profile_column P self table c t n s)
        (λ p s'.
          and_then (profile_columns P self table n rest s').result
            (profile_columns P self table n rest s').sent (prepend P self p))
        (profile_column-Permitted c t n s named allowed h)
        λ p s' _ h'.
          and_then-keeps IsPermitted (profile_columns P self table n rest s') (prepend P self p)
            (profile_columns-Permitted n rest s' others allowed h') λ _ s2 _ h2. h2
