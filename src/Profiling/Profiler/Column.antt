-- ===== src/Profiling/Profiler/Column.antt =====
-- profiling/profiler.py: one column, and the gates that come before its values are read.
use mcp_text_to_sql_agent.Prelude.{
  ℕ, zero, suc, ◌-◌, max, String, Bool, false, Option, none, some, List, [], ◌∷◌, ◌++◌, any, ◌⧺◌,
  if◌then◌else◌, strip, show, nat_eq,
}
use mcp_text_to_sql_agent.Platform.{Platform}
use mcp_text_to_sql_agent.Settings.{ProfilingSettings}
use mcp_text_to_sql_agent.Catalog.{SchemaCatalog}
use mcp_text_to_sql_agent.Profiling.Sensitivity.{is_sensitive, begins_with}
use mcp_text_to_sql_agent.Profiling.Statements.{
  Connection, Sent, Result, returned, raised, profiling_error, driver_error, Ran, and_then, fetched,
  control, StatisticsQuery, SampleQuery, StatisticsRow, Statement, begin, commit, set_timeout,
  statistics, sample,
}

-- The fields of a `TableProfiler`, and the functions of Python that it uses: `round(a / b, 4)`,
-- `sorted`, `repr` and `str.endswith`.
pub record Profiler (P : Platform) : Type 0 where
  pub conn : Connection
  pub catalog : SchemaCatalog
  pub settings : ProfilingSettings
  pub schema : String
  pub sensitive_patterns : List String
  pub rounded_ratio : ℕ → ℕ → P.Float
  pub sorted : List String → List String
  pub repr : String → String
  pub ends_with : String → String → Bool

pub record FrequentValue : Type 0 where
  pub value : String
  pub count : ℕ

pub record ColumnProfile (Float : Type 0) : Type 0 where
  pub column : String
  pub data_type : String
  pub null_fraction : Option Float
  pub distinct_count : Option ℕ
  pub minimum : Option String
  pub maximum : Option String
  pub frequent_values : List FrequentValue
  pub sample_values : List String
  pub withheld : List String

-- `_Stats`, with the frequent values beside it.
pub record Stats (Float : Type 0) : Type 0 where
  pub null_fraction : Option Float
  pub distinct_count : ℕ
  pub minimum : Option String
  pub maximum : Option String
  pub frequent : List FrequentValue

abbrev pub ordered_type_prefixes : List String
ordered_type_prefixes =
    "smallint" ∷ "integer" ∷ "bigint" ∷ "decimal" ∷ "numeric" ∷ "real" ∷ "double precision"
    ∷ "money" ∷ "date" ∷ "timestamp" ∷ "time" ∷ "interval" ∷ []

abbrev pub withheld_sensitive_name : String
withheld_sensitive_name = "column name matches the sensitive-column denylist"

abbrev pub withheld_sampling_disabled : String
withheld_sampling_disabled = "raw values require PROFILE_ALLOW_VALUE_SAMPLING"

abbrev pub withheld_top_k_disabled : String
withheld_top_k_disabled = "frequent values are disabled (PROFILE_TOP_K=0)"

abbrev pub withheld_refused : String
withheld_refused = "the database refused to compute statistics for this column"

unfoldable pub withheld_rare : ℕ → String
withheld_rare threshold =
    "every value occurs fewer than " ⧺ show threshold ⧺ " times in the scanned rows"

unfoldable pub withheld_unordered_type : String → String
withheld_unordered_type data_type = "extremes are not reported for type " ⧺ data_type

-- A profile that says only why the values are absent.
abbrev pub without_values : {Float : Type 0} → String → String → List String → ColumnProfile Float
without_values column data_type reasons = record {
  column = column;
  data_type = data_type;
  null_fraction = none;
  distinct_count = none;
  minimum = none;
  maximum = none;
  frequent_values = [];
  sample_values = [];
  withheld = reasons;
}

-- The values of the rows that have one.
unfoldable pub frequent_of : List StatisticsRow → List FrequentValue
frequent_of [] = []
frequent_of (row ∷ rows) = elim row.value [
  | none ↦ frequent_of rows
  | some v ↦ record { value = v; count = row.freq } ∷ frequent_of rows
]

module _ (P : Platform) (self : Profiler P) where
  open P use {casefold, Float}
  open self use {conn, settings, schema}

  -- `_supports_extremes`
  unfoldable pub supports_extremes : String → Bool
  unfolding begins_with strip
  supports_extremes data_type =
      let lowered = casefold (strip data_type) in
      if self.ends_with lowered "[]"
      then false
      else any (λ prefix. begins_with prefix lowered) ordered_type_prefixes

  -- `with self._conn.transaction(), self._conn.cursor() as cur`: the timeout, one statement and its
  -- rows. The rollback after a failure is the driver's.
  abbrev pub return_rows : {A : Type 0} → A → Unit {0} → Sent → Ran A
  return_rows rows _ sent = record { result = returned rows; sent = sent }

  unfoldable pub after_rows : {A : Type 0} → A → Sent → Ran A
  unfolding and_then control
  after_rows rows sent =
      let ended = control conn commit sent in and_then ended.result ended.sent (return_rows rows)

  unfoldable pub run_statement :
      {A : Type 0} → Statement → (Sent → Option A) → Unit {0} → Sent → Ran A
  unfolding and_then fetched after_rows
  run_statement statement rows _ sent =
      let got = fetched (rows sent) (sent ++ statement ∷ []) in
      and_then got.result got.sent after_rows

  unfoldable pub after_begin :
      {A : Type 0} → Statement → (Sent → Option A) → Unit {0} → Sent → Ran A
  unfolding and_then control run_statement
  after_begin statement rows _ sent =
      let timeout = control conn (set_timeout settings.profile_timeout_ms) sent in
      and_then timeout.result timeout.sent (run_statement statement rows)

  unfoldable pub in_transaction : {A : Type 0} → Statement → (Sent → Option A) → Sent → Ran A
  unfolding and_then control after_begin
  in_transaction statement rows sent =
      let started = control conn begin sent in
      and_then started.result started.sent (after_begin statement rows)

  unfoldable pub statistics_query : String → String → Bool → ℕ → StatisticsQuery
  statistics_query table column extremes top_k = record {
    column = column;
    schema = schema;
    table = table;
    extremes = if extremes then some settings.profile_max_value_chars else none;
    scan_limit = settings.profile_scan_limit;
    max_value_chars = settings.profile_max_value_chars;
    min_frequency = settings.profile_min_value_frequency;
    limit = max top_k 1;
  }

  abbrev pub null_fraction : ℕ → ℕ → Option Float
  null_fraction zero non_null = none
  null_fraction (suc n) non_null = some (self.rounded_ratio (suc n - non_null) (suc n))

  abbrev pub frequent_at : ℕ → List StatisticsRow → List FrequentValue
  frequent_at zero rows = []
  frequent_at (suc k) rows = frequent_of rows

  -- The statistics, which the first row carries.
  unfoldable pub stats_of : String → String → ℕ → List StatisticsRow → Sent → Ran (Stats Float)
  unfolding frequent_of
  stats_of table column top_k [] sent = record {
    result = raised (profiling_error ("no statistics returned for " ⧺ table ⧺ "." ⧺ column));
    sent = sent;
  }
  stats_of table column top_k (row ∷ rows) sent = record {
    result = returned (record {
      null_fraction = null_fraction row.n row.non_null;
      distinct_count = row.distinct_count;
      minimum = row.lo;
      maximum = row.hi;
      frequent = frequent_at top_k (row ∷ rows);
    });
    sent = sent;
  }

  -- `_run_stats`
  unfoldable pub run_stats : String → String → Bool → ℕ → Sent → Ran (Stats Float)
  unfolding and_then in_transaction statistics_query stats_of
  run_stats table column extremes top_k sent =
      let query = statistics_query table column extremes top_k in
      let rows = in_transaction (statistics query) (λ s. conn.fetch_statistics s query) sent in
      and_then rows.result rows.sent (stats_of table column top_k)

  unfoldable pub sample_query : String → String → ℕ → SampleQuery
  sample_query table column limit = record {
    column = column;
    schema = schema;
    table = table;
    max_value_chars = settings.profile_max_value_chars;
    limit = limit;
  }

  -- No values after a `psycopg.Error`.
  abbrev pub or_no_values : Result (List String) → List String
  or_no_values (returned values) = values
  or_no_values (raised e) = []

  -- `_sample`
  unfoldable pub run_sample : String → String → ℕ → Sent → Ran (List String)
  unfolding in_transaction sample_query
  run_sample table column limit sent =
      let query = sample_query table column limit in
      let rows = in_transaction (sample query) (λ s. conn.fetch_sample s query) sent in
      record { result = returned (or_no_values rows.result); sent = rows.sent }

  -- Why extremes and frequent values are absent.
  unfoldable pub reasons : String → List String
  unfolding supports_extremes withheld_unordered_type
  reasons data_type =
      (if supports_extremes data_type then [] else withheld_unordered_type data_type ∷ [])
      ++ (if nat_eq settings.profile_top_k 0 then withheld_top_k_disabled ∷ [] else [])

  -- `if top_k > 0 and not frequent`
  abbrev pub rare : ℕ → List FrequentValue → List String
  unfolding withheld_rare
  rare zero frequent = []
  rare (suc k) [] = withheld_rare settings.profile_min_value_frequency ∷ []
  rare (suc k) (_ ∷ _) = []

  abbrev pub with_values :
      String → String → Stats Float → List String → List String → Sent → Ran (ColumnProfile Float)
  with_values column data_type stats why samples sent = record {
    result = returned (record {
      column = column;
      data_type = data_type;
      null_fraction = stats.null_fraction;
      distinct_count = some stats.distinct_count;
      minimum = stats.minimum;
      maximum = stats.maximum;
      frequent_values = stats.frequent;
      sample_values = samples;
      withheld = why;
    });
    sent = sent;
  }

  -- The samples, if the caller may have any.
  unfoldable pub with_stats :
      String → String → String → ℕ → Stats Float → Sent → Ran (ColumnProfile Float)
  unfolding and_then run_sample reasons
  with_stats table column data_type zero stats sent =
      with_values column data_type stats
        (reasons data_type
          ++ rare settings.profile_top_k stats.frequent
          ++ withheld_sampling_disabled ∷ [])
        [] sent
  with_stats table column data_type (suc k) stats sent =
      let samples = run_sample table column (suc k) sent in
      and_then samples.result samples.sent (
        with_values column data_type stats
          (reasons data_type ++ rare settings.profile_top_k stats.frequent))

  -- `except psycopg.Error`; another exception goes on.
  unfoldable pub after_stats :
      String → String → String → ℕ → Result (Stats Float) → Sent → Ran (ColumnProfile Float)
  unfolding with_stats reasons
  after_stats table column data_type samples (returned stats) sent =
      with_stats table column data_type samples stats sent
  after_stats table column data_type samples (raised driver_error) sent = record {
    result =
        returned (without_values column data_type (reasons data_type ++ withheld_refused ∷ []));
    sent = sent;
  }
  after_stats table column data_type samples (raised e) sent = record {
    result = raised e;
    sent = sent;
  }

  unfoldable pub profile_open_column :
      String → String → String → ℕ → Sent → Ran (ColumnProfile Float)
  unfolding run_stats after_stats supports_extremes
  profile_open_column table column data_type samples sent =
      let stats =
        run_stats table column (supports_extremes data_type) settings.profile_top_k sent in
      after_stats table column data_type samples stats.result stats.sent

  -- `_profile_column`
  unfoldable pub profile_column : String → String → String → ℕ → Sent → Ran (ColumnProfile Float)
  unfolding is_sensitive profile_open_column
  profile_column table column data_type samples sent =
      if is_sensitive P column self.sensitive_patterns
      then record {
        result = returned (without_values column data_type (withheld_sensitive_name ∷ []));
        sent = sent;
      }
      else profile_open_column table column data_type samples sent
