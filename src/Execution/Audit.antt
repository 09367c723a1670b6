-- ===== src/Execution/Audit.antt =====
-- execution/executor.py: `AuditLog`, which writes over a connection of its own, as the owner.
use mcp_text_to_sql_agent.Prelude.{
  ℕ, String, Bool, Option, List, [], ◌∷◌, ◌++◌, length, if◌then◌else◌,
}
use mcp_text_to_sql_agent.Platform.{Platform}

-- What identifies a call; every field of it is passed on to the audit as it came.
pub record Caller : Type 0 where
  pub question : Option String
  pub request_id : Option String
  pub trace_id : Option String
  pub session_id : Option String
  pub validation_attempts : ℕ

-- One row of `agent_meta.query_audit`.
pub record AuditRow : Type 0 where
  pub caller : Caller
  pub generated_sql : String
  pub db_role : Option String
  pub duration_ms : Option ℕ
  pub row_count : Option ℕ
  pub truncated : Option Bool
  pub outcome : String
  pub error_type : Option String

-- The rows in the table, and those that went to the error log because the write failed.
pub record AuditTrail : Type 0 where
  pub written : List AuditRow
  pub logged : List AuditRow

module _ (P : Platform) where
  -- `AuditLog.record`: a failed write is logged and never raised.
  unfoldable pub record_row : AuditRow → AuditTrail → AuditTrail
  record_row row trail =
      if P.audit_accepts (length trail.written)
      then record trail { written = trail.written ++ row ∷ [] }
      else record trail { logged = trail.logged ++ row ∷ [] }

-- Every row, written or logged.
abbrev pub entries : AuditTrail → List AuditRow
entries trail = trail.written ++ trail.logged
