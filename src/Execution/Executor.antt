-- ===== src/Execution/Executor.antt =====
-- execution/executor.py: `SQLExecutor`.
use mcp_text_to_sql_agent.Prelude.{
  true, false, ℕ, String, Bool, ◌&&◌, ◌==◌, ◌||◌, ℤ, Option, none, some, List, ltb, length, take,
  if◌then◌else◌,
}
use mcp_text_to_sql_agent.Platform.{Outcome, done, failed, Platform, Value, DriverError, Fetched}
use mcp_text_to_sql_agent.Settings.{ExecutionSettings, clamp_rows, clamp_timeout_ms}
use mcp_text_to_sql_agent.Exceptions.{
  DomainError, raised, sql_validation, execution_error, statement_timeout_error,
  permission_denied_error, class_of, class_name,
}
use mcp_text_to_sql_agent.Database.{Sent, in_transaction}
use mcp_text_to_sql_agent.Validation.Result.{ValidationResult, or_default, feedback}
use mcp_text_to_sql_agent.Validation.Validator.{SqlValidator, validate}
use mcp_text_to_sql_agent.Execution.RowLimit.{RowLimit, Bounded, bounded, refused, apply_row_limit}
use mcp_text_to_sql_agent.Execution.Audit.{Caller, AuditTrail, record_row}

-- `audit` is None or the log with its `db_role`.
pub record SqlExecutor (P : Platform) : Type 0 where
  pub validator : SqlValidator P
  pub settings : ExecutionSettings P.Float
  pub audit : Option (Option String)

pub record QueryResult (P : Platform) : Type 0 where
  pub columns : List String
  pub rows : List (List (Value P.Float))
  pub row_count : ℕ
  pub truncated : Bool
  pub duration_ms : P.Float
  pub executed_sql : String
  pub row_limit : ℕ
  pub estimated_cost : Option P.Float

-- What the calls change: the statements sent as the read-only role, and the audit trail.
pub record World : Type 0 where
  pub sent : Sent
  pub trail : AuditTrail

pub data Result (A : Type 0) : Type 0 where
  ok : A → Result A
  err : DomainError → Result A

-- `_translate`
unfoldable pub translate : DriverError → DomainError
translate exc =
    let sqlstate = or_default exc.sqlstate "" in
    let message = or_default exc.message_primary "the query could not be executed" in
    if sqlstate == "57014"
    then raised statement_timeout_error message
    else if (sqlstate == "42501") || (sqlstate == "25006")
    then raised permission_denied_error message
    else raised execution_error message

-- `SQLValidationError(validation.error_type or "invalid", validation.feedback, validation.identifier)`
unfoldable pub validation_error : {Float : Type 0} → ValidationResult Float → DomainError
validation_error validation =
    sql_validation (or_default validation.error_type "invalid") (feedback validation)
      validation.identifier

-- The audit fields that an outcome sets; the others keep their defaults.
pub record AuditFields : Type 0 where
  pub outcome : String
  pub sql : String
  pub error_type : Option String
  pub duration_ms : Option ℕ
  pub row_count : Option ℕ
  pub truncated : Option Bool

-- The options of one call.
pub record Limits : Type 0 where
  pub max_rows : Option ℤ
  pub timeout_ms : Option ℤ

module _ (P : Platform) where
  open P use {Float, truncate_float, elapsed}

  -- `_record`
  unfoldable pub record_call : SqlExecutor P → Caller → AuditFields → World → World
  unfolding record_row
  record_call x caller fields w = elim x.audit [
    | none ↦ w
    | some db_role ↦ record w {
      trail =
          record_row P
            (record {
              caller = caller;
              generated_sql = fields.sql;
              db_role = db_role;
              duration_ms = fields.duration_ms;
              row_count = fields.row_count;
              truncated = fields.truncated;
              outcome = fields.outcome;
              error_type = fields.error_type;
            })
            w.trail;
    }
  ]

  abbrev pub rejected : String → Option String → AuditFields
  rejected sql error_type = record {
    outcome = "rejected";
    sql = sql;
    error_type = error_type;
    duration_ms = none;
    row_count = none;
    truncated = none;
  }

  abbrev pub explained : String → AuditFields
  explained sql = record {
    outcome = "explained";
    sql = sql;
    error_type = none;
    duration_ms = none;
    row_count = none;
    truncated = none;
  }

  abbrev pub errored : String → DomainError → Float → AuditFields
  errored sql error duration = record {
    outcome = "error";
    sql = sql;
    error_type = some (class_name (class_of error));
    duration_ms = some (truncate_float duration);
    row_count = none;
    truncated = none;
  }

  abbrev pub succeeded : QueryResult P → AuditFields
  succeeded result = record {
    outcome = "success";
    sql = result.executed_sql;
    error_type = none;
    duration_ms = some (truncate_float result.duration_ms);
    row_count = some result.row_count;
    truncated = some result.truncated;
  }

  -- After the validation of `explain`, by its outcome.
  unfoldable pub report_explained :
      SqlExecutor P
      → Caller
      → String
      → ValidationResult Float
      → Bool
      → World
      → Result (Unit {0}) × World
  report_explained x caller sql validation true w = (ok tt, record_call x caller (explained sql) w)
  report_explained x caller sql validation false w = (
    err (validation_error validation),
    record_call x caller (rejected sql validation.error_type) w,
  )

  -- `explain`. The clamp of the timeout is computed and discarded.
  unfoldable pub explain :
      SqlExecutor P → Caller → String → Option ℤ → World → Result (Unit {0}) × World
  unfolding report_explained
  explain x caller sql timeout_ms w =
      let discarded = clamp_timeout_ms x.settings timeout_ms in
      let v = validate P x.validator sql w.sent in
      report_explained x caller sql v.result v.result.valid (record w { sent = v.sent })

  -- `rows`, `truncated` and the rest of the result, from what the cursor fetched.
  unfoldable pub shape_result : Bounded → Option Float → Fetched Float → Float → QueryResult P
  shape_result b cost fetched duration =
      let rows = take b.effective fetched.rows in
      record {
        columns = fetched.columns;
        rows = rows;
        row_count = length rows;
        truncated = ltb b.effective (length fetched.rows) && b.server_capped;
        duration_ms = duration;
        executed_sql = b.sql;
        row_limit = b.effective;
        estimated_cost = cost;
      }

  -- The `except` clause, or the result.
  unfoldable pub finish :
      SqlExecutor P
      → Caller
      → Option Float
      → Bounded
      → Outcome Float
      → World
      → Result (QueryResult P) × World
  finish x caller cost b (failed exc) w =
      (err (translate exc), record_call x caller (errored b.sql (translate exc) (elapsed w.sent)) w)
  finish x caller cost b (done fetched) w =
      let result = shape_result b cost fetched (elapsed w.sent) in
      (ok result, record_call x caller (succeeded result) w)

  -- The second half of `execute`: the bounded statement runs.
  unfoldable pub run_bounded :
      SqlExecutor P → Caller → ℕ → Option Float → RowLimit → World → Result (QueryResult P) × World
  unfolding finish
  run_bounded x caller timeout cost (refused message) w = (err (raised execution_error message), w)
  run_bounded x caller timeout cost (bounded b) w =
      let r = in_transaction P timeout b.sql w.sent in
      finish x caller cost b r.outcome (record w { sent = r.sent })

  -- After the validation of `execute`, by its outcome.
  unfoldable pub after_validation :
      SqlExecutor P
      → Caller
      → String
      → Limits
      → ValidationResult Float
      → Bool
      → World
      → Result (QueryResult P) × World
  unfolding run_bounded
  after_validation x caller sql limits validation true w =
      run_bounded x caller (clamp_timeout_ms x.settings limits.timeout_ms) validation.estimated_cost
        (apply_row_limit P sql (clamp_rows x.settings limits.max_rows)) w
  after_validation x caller sql limits validation false w = (
    err (validation_error validation),
    record_call x caller (rejected sql validation.error_type) w,
  )

  -- `execute`
  unfoldable pub execute :
      SqlExecutor P → Caller → String → Limits → World → Result (QueryResult P) × World
  unfolding after_validation
  execute x caller sql limits w =
      let v = validate P x.validator sql w.sent in
      after_validation x caller sql limits v.result v.result.valid (record w { sent = v.sent })
