-- ===== src/Profiling/Statements.antt =====
-- profiling/profiler.py: the statements that the profiler composes, the answers of the database, and
-- the calls that send them. A statement is the template it is composed from, by its constructor, with
-- the identifiers and the parameters that fill it.
use mcp_text_to_sql_agent.Prelude.{
  ℕ, ℤ, String, Bool, true, false, Option, none, some, List, [], ◌∷◌, ◌++◌,
}

-- The `WITH scan AS ...` statement of `_run_stats`.
pub record StatisticsQuery : Type 0 where
  pub column : String
  pub schema : String
  pub table : String
  -- The length of `lo` and `hi`, or none if both are `NULL::text`.
  pub extremes : Option ℕ
  pub scan_limit : ℕ
  pub max_value_chars : ℕ
  pub min_frequency : ℕ
  pub limit : ℕ

-- The `SELECT left({col}::text, %s)` statement of `_sample`.
pub record SampleQuery : Type 0 where
  pub column : String
  pub schema : String
  pub table : String
  pub max_value_chars : ℕ
  pub limit : ℕ

pub data Statement : Type 0 where
  begin : Statement
  commit : Statement
  set_timeout : ℕ → Statement
  -- The query of `_column_types` and `_ROW_ESTIMATE_SQL`, with the schema and the table.
  column_types : String → String → Statement
  row_estimate : String → String → Statement
  statistics : StatisticsQuery → Statement
  sample : SampleQuery → Statement

abbrev pub Sent : Type 0
Sent = List Statement

-- A row of the statistics; the frequent value is null where the left join found none.
pub record StatisticsRow : Type 0 where
  pub n : ℕ
  pub non_null : ℕ
  pub distinct_count : ℕ
  pub lo : Option String
  pub hi : Option String
  pub value : Option String
  pub freq : ℕ

-- The read-only connection: what a statement yields after those sent before it, none being a
-- `psycopg.Error`. A cell is the text that `str` makes of it.
pub record Connection : Type 0 where
  pub accepts : Sent → Statement → Bool
  pub fetch_types : Sent → String → String → Option (List (String × String))
  -- The first row: none at all, or its `reltuples`, which may be null.
  pub fetch_estimate : Sent → String → String → Option (Option (Option ℤ))
  pub fetch_statistics : Sent → StatisticsQuery → Option (List StatisticsRow)
  pub fetch_sample : Sent → SampleQuery → Option (List String)

-- What a method raises.
pub data Raised : Type 0 where
  unknown_table : String → Option String → Raised
  profiling_error : String → Raised
  driver_error : Raised
  key_error : Raised

pub data Result (A : Type 0) : Type 0 where
  returned : A → Result A
  raised : Raised → Result A

pub record Ran (A : Type 0) : Type 0 where
  pub result : Result A
  pub sent : Sent

module _ {A : Type 0} where
  -- `cur.execute` with `cur.fetchall`.
  unfoldable pub fetched : Option A → Sent → Ran A
  fetched none sent = record { result = raised driver_error; sent = sent }
  fetched (some rows) sent = record { result = returned rows; sent = sent }

module _ {A B : Type 0} where
  -- The statement after one that returned; an exception leaves the block.
  unfoldable pub and_then : Result A → Sent → (A → Sent → Ran B) → Ran B
  and_then (returned a) sent next = next a sent
  and_then (raised e) sent next = record { result = raised e; sent = sent }

unfoldable pub accepted : Bool → Sent → Ran (Unit {0})
accepted true sent = record { result = returned tt; sent = sent }
accepted false sent = record { result = raised driver_error; sent = sent }

unfoldable pub control : Connection → Statement → Sent → Ran (Unit {0})
unfolding accepted
control conn statement sent = accepted (conn.accepts sent statement) (sent ++ statement ∷ [])

-- What an answer satisfies if it was returned.
abbrev pub Returned : {A : Type 0} → (A → Type 0) → Result A → Type 0
Returned Q (returned a) = Q a
Returned Q (raised e) = Unit
