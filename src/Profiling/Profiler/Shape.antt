-- ===== src/Profiling/Profiler/Shape.antt =====
-- profiling/profiler.py: what a returned profile tells of each column.
use mcp_text_to_sql_agent.Prelude.{
  if◌then◌else◌, suc, zero, true, false, Bool-cases, refl, ℕ, ◌≤◌, String, Bool, Option, none, some,
  List, [], ◌∷◌, All, ◌≡◌, ◌⊎◌, inl, inr, arith, Option-cases, ◌++◌,
}
use mcp_text_to_sql_agent.Platform.{Platform}
use mcp_text_to_sql_agent.Profiling.Sensitivity.{is_sensitive}
use mcp_text_to_sql_agent.Profiling.Statements.{
  driver_error, profiling_error, key_error, unknown_table, statistics, Sent, Result, returned,
  raised, Ran, Returned, and_then, fetched, Statement, StatisticsQuery, StatisticsRow, control,
  begin, commit, set_timeout,
}
use mcp_text_to_sql_agent.Profiling.Profiler.Reading.{IsAllowed}
use mcp_text_to_sql_agent.Profiling.Profiler.Column.{
  frequent_at, with_stats, after_stats, profile_column, profile_open_column, run_stats,
  statistics_query, stats_of, run_sample, with_values, reasons, rare, without_values,
  withheld_sensitive_name, supports_extremes, ColumnProfile, Profiler, FrequentValue, Stats,
  in_transaction, after_begin, run_statement, after_rows, return_rows, frequent_of,
}

module _ {A B : Type 0} where
  pub and_then-Returned :
      (Q : A → Type 0) (R : B → Type 0) (r : Ran A) (next : A → Sent → Ran B)
      → Returned Q r.result
      → ((a : A) (s : Sent) → Q a → Returned R (next a s).result)
      → Returned R (and_then r.result r.sent next).result
  unfolding and_then
  and_then-Returned Q R r next h keep = go r.result h
    where
      go : (t : Result A) → Returned Q t → Returned R (and_then t r.sent next).result
      go (returned a) q = keep a r.sent q
      go (raised e) q = tt

-- The extremes of a row are null if the statement selects nulls for them.
abbrev pub HasExtremes : Option ℕ → StatisticsRow → Type 0
HasExtremes none row = (row.lo ≡ none) × (row.hi ≡ none)
HasExtremes (some n) row = Unit

-- What the statement asks of the database: a frequent value has the `HAVING` count, and there are
-- extremes only if some are selected.
abbrev pub IsAnswer : StatisticsQuery → StatisticsRow → Type 0
IsAnswer q row = ((row.value ≡ none) ⊎ (q.min_frequency ≤ row.freq)) × HasExtremes q.extremes row

-- Any answer.
abbrev pub Anything : {A : Type 0} → A → Type 0
Anything _ = Unit

pub anything : {A : Type 0} (r : Result A) → Returned Anything r
anything (returned a) = tt
anything (raised e) = tt

module _ (P : Platform) (self : Profiler P) where
  open P use {Float}
  open self use {conn, settings, schema, sensitive_patterns}

  fetched-Returned :
      {A : Type 0} (Q : A → Type 0) (rows : Option A) (s : Sent)
      → ((a : A) → rows ≡ some a → Q a)
      → Returned Q (fetched rows s).result
  unfolding fetched
  fetched-Returned Q none s h = tt
  fetched-Returned Q (some a) s h = h a refl

  pub in_transaction-Returned :
      {A : Type 0} (Q : A → Type 0) (st : Statement) (rows : Sent → Option A) (s : Sent)
      → ((s' : Sent) (a : A) → rows s' ≡ some a → Q a)
      → Returned Q (in_transaction P self st rows s).result
  unfolding in_transaction after_begin run_statement after_rows
  in_transaction-Returned Q st rows s h =
      and_then-Returned Anything Q (control conn begin s) (after_begin P self st rows) (anything _)
        λ u s1 _.
          and_then-Returned Anything Q (control conn (set_timeout settings.profile_timeout_ms) s1)
            (run_statement P self st rows) (anything _)
            λ u2 s2 _.
              and_then-Returned Q Q (fetched (rows s2) (s2 ++ st ∷ [])) (after_rows P self)
                (fetched-Returned Q (rows s2) _ (h s2))
                λ a s3 q.
                  and_then-Returned Anything Q (control conn commit s3) (return_rows P self a)
                    (anything _) λ _ _ _. q

  -- The frequent values are frequent, and there are extremes only for an ordered type.
  abbrev pub IsGuarded : Bool → List FrequentValue → Option String → Option String → Type 0
  IsGuarded extremes frequent minimum maximum =
      All (λ f. settings.profile_min_value_frequency ≤ f.count) frequent
      × ((extremes ≡ true) ⊎ ((minimum ≡ none) × (maximum ≡ none)))

  abbrev GuardedStats : Bool → Stats Float → Type 0
  GuardedStats extremes stats = IsGuarded extremes stats.frequent stats.minimum stats.maximum

  frequent_of-IsGuarded :
      (q : StatisticsQuery) (rows : List StatisticsRow)
      → q.min_frequency ≡ settings.profile_min_value_frequency
      → All (IsAnswer q) rows
      → All (λ f. settings.profile_min_value_frequency ≤ f.count) (frequent_of rows)
  unfolding frequent_of
  frequent_of-IsGuarded q [] same h = tt
  frequent_of-IsGuarded q (row ∷ rows) same ((counted, _), h) = elim (Option-cases row.value) [
    | inl e ↦ rw e (frequent_of-IsGuarded q rows same h)
    | inr (v, e) ↦ rw e (is_counted v e, frequent_of-IsGuarded q rows same h)
  ]
    where
      is_counted :
          (v : String) → row.value ≡ some v → settings.profile_min_value_frequency ≤ row.freq
      is_counted v e = elim counted [
        | inl n ↦ absurd (ground (arith, e, n))
        | inr le ↦ omega (arith, le, same)
      ]

  stats_of-Guarded :
      (table column : String) (extremes : Bool) (top_k : ℕ) (rows : List StatisticsRow) (s : Sent)
      → All (IsAnswer (statistics_query P self table column extremes top_k)) rows
      → Returned (GuardedStats extremes) (stats_of P self table column top_k rows s).result
  unfolding stats_of statistics_query
  stats_of-Guarded table column extremes top_k [] s h = tt
  stats_of-Guarded table column extremes top_k (row ∷ rows) s h =
      (frequent_at-Guarded top_k, extremes_of extremes h.0.1)
    where
      frequent_at-Guarded :
          (k : ℕ)
          → All
              (λ f. settings.profile_min_value_frequency ≤ f.count)
              (frequent_at P self k (row ∷ rows))
      frequent_at-Guarded zero = tt
      frequent_at-Guarded (suc k) =
          frequent_of-IsGuarded (statistics_query P self table column extremes top_k) (row ∷ rows)
            refl h

      extremes_of :
          (b : Bool)
          → HasExtremes (if b then some settings.profile_max_value_chars else none) row
          → (b ≡ true) ⊎ ((row.lo ≡ none) × (row.hi ≡ none))
      extremes_of true _ = inl refl
      extremes_of false k = inr k

  -- A column profile tells nothing of a sensitive column, and of another only frequent values that
  -- are frequent, the extremes of an ordered type, and samples if they are allowed.
  abbrev pub IsDiscreet : ColumnProfile Float → Type 0
  IsDiscreet c =
      ((is_sensitive P c.column sensitive_patterns ≡ true)
        × (c ≡ without_values c.column c.data_type (withheld_sensitive_name ∷ [])))
      ⊎ ((is_sensitive P c.column sensitive_patterns ≡ false)
          × IsGuarded (supports_extremes P self c.data_type) c.frequent_values c.minimum c.maximum
          × ((settings.profile_allow_value_sampling ≡ true) ⊎ (c.sample_values ≡ [])))

  with_stats-IsDiscreet :
      (table column data_type : String) (n : ℕ) (stats : Stats Float) (s : Sent)
      → is_sensitive P column sensitive_patterns ≡ false
      → IsAllowed settings n
      → GuardedStats (supports_extremes P self data_type) stats
      → Returned IsDiscreet (with_stats P self table column data_type n stats s).result
  unfolding with_stats
  with_stats-IsDiscreet table column data_type zero stats s open_name allowed h =
      inr (open_name, h, inr refl)
  with_stats-IsDiscreet table column data_type (suc k) stats s open_name (few, inr e) h =
      absurd (ground (arith, e))
  with_stats-IsDiscreet table column data_type (suc k) stats s open_name (few, inl allowed) h =
      and_then-Returned Anything IsDiscreet (run_sample P self table column (suc k) s)
        (with_values P self column data_type stats
          (reasons P self data_type ++ rare P self settings.profile_top_k stats.frequent))
        (anything (run_sample P self table column (suc k) s).result)
        λ samples s' _. inr (open_name, h, inl allowed)

  after_stats-IsDiscreet :
      (table column data_type : String) (n : ℕ) (r : Result (Stats Float)) (s : Sent)
      → is_sensitive P column sensitive_patterns ≡ false
      → IsAllowed settings n
      → Returned (GuardedStats (supports_extremes P self data_type)) r
      → Returned IsDiscreet (after_stats P self table column data_type n r s).result
  unfolding after_stats
  after_stats-IsDiscreet table column data_type n (returned stats) s open_name allowed h =
      with_stats-IsDiscreet table column data_type n stats s open_name allowed h
  after_stats-IsDiscreet table column data_type n (raised driver_error) s open_name allowed h =
      inr (open_name, (tt, inr (refl, refl)), inr refl)
  after_stats-IsDiscreet table column data_type n (raised (unknown_table _ _)) s open_name _ h = tt
  after_stats-IsDiscreet table column data_type n (raised (profiling_error _)) s open_name _ h = tt
  after_stats-IsDiscreet table column data_type n (raised key_error) s open_name _ h = tt

  module _
      (answers : (s : Sent) (q : StatisticsQuery) (rows : List StatisticsRow)
        → conn.fetch_statistics s q ≡ some rows
        → All (IsAnswer q) rows) where
    run_stats-Guarded :
        (table column : String) (extremes : Bool) (top_k : ℕ) (s : Sent)
        → Returned (GuardedStats extremes) (run_stats P self table column extremes top_k s).result
    unfolding run_stats
    run_stats-Guarded table column extremes top_k s =
        let query = statistics_query P self table column extremes top_k in
        and_then-Returned (All (IsAnswer query)) (GuardedStats extremes)
          (in_transaction P self (statistics query) (λ s'. conn.fetch_statistics s' query) s)
          (stats_of P self table column top_k)
          (in_transaction-Returned (All (IsAnswer query)) (statistics query)
            (λ s'. conn.fetch_statistics s' query) s λ s' rows. answers s' query rows)
          λ rows s' h. stats_of-Guarded table column extremes top_k rows s' h

    pub profile_column-IsDiscreet :
        (table column data_type : String) (n : ℕ) (s : Sent)
        → IsAllowed settings n
        → Returned IsDiscreet (profile_column P self table column data_type n s).result
    unfolding profile_column profile_open_column
    profile_column-IsDiscreet table column data_type n s allowed =
        elim (Bool-cases (is_sensitive P column sensitive_patterns)) [
          | inl e ↦ rw e (inl (e, refl))
          | inr e ↦
              rw (e, profile_open_column)
                (after_stats-IsDiscreet table column data_type n _ _ e allowed (
                  run_stats-Guarded table column (supports_extremes P self data_type)
                    settings.profile_top_k s))
        ]
