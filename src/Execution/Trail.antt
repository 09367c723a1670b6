-- ===== src/Execution/Trail.antt =====
-- execution/executor.py: the audit trail of a call, and what a call sends.
use mcp_text_to_sql_agent.Validation.Result.{or_default}
use mcp_text_to_sql_agent.Prelude.{String, ◌≡◌, ◌⊎◌, Option, none, some, ℕ}
use mcp_text_to_sql_agent.Platform.{Platform}
use mcp_text_to_sql_agent.Exceptions.{class_of, class_name, sql_validation}
use mcp_text_to_sql_agent.Execution.RowLimit.{Bounded, bounded, apply_row_limit}
use mcp_text_to_sql_agent.Execution.Audit.{Caller, AuditRow, AuditTrail, record_row}
use mcp_text_to_sql_agent.Execution.Executor.{QueryResult, World, Result, ok, err}

module _ (P : Platform) where
  -- The audit row agrees with what the caller of `execute` got for the text: the bounded statement
  -- and the shape of its result; or the refused text with the error type of the refusal; or the
  -- bounded statement that the database refused, with the class of the error.
  abbrev pub Describes : (sql : String) (cap : ℕ) → AuditRow → Result (QueryResult P) → Type 0
  Describes sql cap row (ok r) =
      (row.outcome ≡ "success")
      × (row.generated_sql ≡ r.executed_sql)
      × (row.row_count ≡ some r.row_count)
      × (row.truncated ≡ some r.truncated)
      × (row.error_type ≡ none)
  Describes sql cap row (err e) =
      ((row.outcome ≡ "rejected")
        × (row.generated_sql ≡ sql)
        × ((message : String) × (identifier : Option String) × (e
              ≡ sql_validation (or_default row.error_type "invalid") message identifier))
        × (row.row_count ≡ none)
        × (row.truncated ≡ none))
      ⊎ ((row.outcome ≡ "error")
          × (row.error_type ≡ some (class_name (class_of e)))
          × ((b : Bounded) × (apply_row_limit P sql cap ≡ bounded b) × (row.generated_sql ≡ b.sql))
          × (row.row_count ≡ none)
          × (row.truncated ≡ none))

  -- One row more, written or logged, that names the caller and describes what it got.
  abbrev pub IsAudited :
      (sql : String) (cap : ℕ)
      → Caller
      → Option String
      → AuditTrail
      → Result (QueryResult P) × World
      → Type 0
  IsAudited sql cap caller db_role before answer =
      (row : AuditRow) × (answer.1.trail ≡ record_row P row before)
      × (row.caller ≡ caller)
      × (row.db_role ≡ db_role)
      × Describes sql cap row answer.0
