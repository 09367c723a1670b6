-- ===== src/Execution/Agreement.antt =====
-- execution/executor.py: `explain` and `execute` judge a query alike.
use mcp_text_to_sql_agent.Prelude.{String, ◌≡◌, refl, Bool, true, false, ◌⊎◌, inl, inr, Option, ℤ}
use mcp_text_to_sql_agent.Platform.{Platform}
use mcp_text_to_sql_agent.Exceptions.{DomainError}
use mcp_text_to_sql_agent.Validation.Result.{ValidationResult}
use mcp_text_to_sql_agent.Validation.Validator.{validate}
use mcp_text_to_sql_agent.Execution.Audit.{Caller}
use mcp_text_to_sql_agent.Execution.Executor.{
  SqlExecutor, QueryResult, World, Result, ok, err, Limits, report_explained, after_validation,
  explain, execute,
}

module _ (P : Platform) (x : SqlExecutor P) (caller : Caller) (sql : String) (limits : Limits) where
  -- Either validation accepted the text and the first call returns, or both raise the same error
  -- and leave the same world.
  abbrev pub IsAlike : Bool → Result (Unit {0}) × World → Result (QueryResult P) × World → Type 0
  IsAlike valid explained executed =
      ((valid ≡ true) × (explained.0 ≡ ok tt))
      ⊎ ((valid ≡ false)
          × ((e : DomainError) × (w : World) × (explained ≡ (err e, w)) × (executed ≡ (err e, w))))

  after_validation-IsAlike :
      (v : ValidationResult P.Float) (valid : Bool) (w : World)
      → IsAlike valid
          (report_explained P x caller sql v valid w)
          (after_validation P x caller sql limits v valid w)
  unfolding report_explained after_validation
  after_validation-IsAlike v true w = inl (refl, refl)
  after_validation-IsAlike v false w = inr (refl, (_, _, refl, refl))

  -- Where validation refuses a text, `explain` and `execute` raise the same error and leave the
  -- same world, the audit entry included; where it accepts one, `explain` returns.
  pub explain-IsAlike :
      (timeout_ms : Option ℤ) (w : World)
      → IsAlike
          (validate P x.validator sql w.sent).result.valid
          (explain P x caller sql timeout_ms w)
          (execute P x caller sql limits w)
  unfolding explain execute
  explain-IsAlike timeout_ms w = after_validation-IsAlike _ _ _
