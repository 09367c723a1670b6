-- ===== src/Validation/Result.antt =====
-- validation/validator.py: the stages, the outcome of an attempt, and its one-line feedback.
use mcp_text_to_sql_agent.Prelude.{
  String, Bool, true, false, Option, none, some, List, [], ◌⧺◌, ◌==◌, strip, until_line_break,
  if◌then◌else◌,
}

pub data ValidationStage : Type 0 where
  parse single_statement read_only identifiers explain : ValidationStage

pub record ValidationResult (Float : Type 0) : Type 0 where
  pub valid : Bool
  pub sql : String
  pub stage_failed : Option ValidationStage
  pub error_type : Option String
  pub message : Option String
  pub identifier : Option String
  pub suggestion : Option String
  pub estimated_cost : Option Float
  pub plan_summary : Option String
  pub tables : List String

-- `value or default`, for a text that may be absent.
abbrev pub or_default : Option String → String → String
or_default none default = default
or_default (some s) default = if s == "" then default else s

abbrev pub truthy : Option String → Bool
truthy none = false
truthy (some s) = if s == "" then false else true

abbrev suggestion_text : Option String → String
suggestion_text none = ""
suggestion_text (some s) = if s == "" then "" else " Nearest match: " ⧺ s

module _ {Float : Type 0} where
  -- `ValidationResult(valid=True, sql=sql, tables=tables)`
  abbrev pub passed : String → List String → ValidationResult Float
  passed sql tables = record {
    valid = true;
    sql = sql;
    stage_failed = none;
    error_type = none;
    message = none;
    identifier = none;
    suggestion = none;
    estimated_cost = none;
    plan_summary = none;
    tables = tables;
  }

  -- `_fail` with its defaults
  abbrev pub fail : String → ValidationStage → String → String → ValidationResult Float
  fail sql stage error_type message = record {
    valid = false;
    sql = sql;
    stage_failed = some stage;
    error_type = some error_type;
    message = some message;
    identifier = none;
    suggestion = none;
    estimated_cost = none;
    plan_summary = none;
    tables = [];
  }

  -- `_fail(..., identifier=..., suggestion=...)`
  abbrev pub fail_name :
      String → ValidationStage → String → String → String → Option String → ValidationResult Float
  fail_name sql stage error_type message identifier suggestion = record {
    valid = false;
    sql = sql;
    stage_failed = some stage;
    error_type = some error_type;
    message = some message;
    identifier = some identifier;
    suggestion = suggestion;
    estimated_cost = none;
    plan_summary = none;
    tables = [];
  }

  -- The property `feedback`: its parts joined by spaces.
  unfoldable pub feedback : ValidationResult Float → String
  feedback r =
      if r.valid
      then "valid"
      else or_default r.message "validation failed" ⧺ suggestion_text r.suggestion

-- `_first_line`
unfoldable pub first_line : String → String
unfolding strip until_line_break
first_line text =
    let stripped = strip text in
    if stripped == "" then "could not parse the query" else strip (until_line_break stripped)
