-- ===== src/Validation/Explain.antt =====
-- validation/validator.py, stage 5: the planner's opinion, without running the query.
use mcp_text_to_sql_agent.Prelude.{
  String, Bool, false, Option, none, some, List, ◌∷◌, ◌==◌, ◌⧺◌, if◌then◌else◌,
}
use mcp_text_to_sql_agent.Platform.{
  Platform, Value, number, text, list, dict, cons, Fields, end, field, DriverError, done, failed,
  Outcome,
}
use mcp_text_to_sql_agent.Settings.{ExecutionSettings, clamp_timeout_ms}
use mcp_text_to_sql_agent.Database.{Sent, in_transaction}
use mcp_text_to_sql_agent.Validation.Result.{ValidationResult, explain, or_default, passed, fail}

abbrev pub explain_prefix : String
explain_prefix = "EXPLAIN (FORMAT JSON) "

-- `_ERROR_TYPES.get(sqlstate, "explain_failed")`
unfoldable pub error_type_of : String → String
error_type_of sqlstate =
    if sqlstate == "42P01"
    then "table_not_found"
    else if sqlstate == "42703"
    then "unknown_identifier"
    else if sqlstate == "42501"
    then "permission_denied"
    else if sqlstate == "57014"
    then "statement_timeout"
    else if sqlstate == "42601"
    then "syntax_error"
    else "explain_failed"

-- What `_read_plan` finds: the total cost, and the type of the top node.
pub record Plan (Float : Type 0) : Type 0 where
  pub cost : Option Float
  pub summary : Option String

module _ {Float : Type 0} where
  -- `mapping.get(key)`: the last entry of a key counts, as in a Python dict.
  unfoldable pub dict_get : Fields Float → String → Option (Value Float)
  dict_get end key = none
  dict_get (field k v rest) key = elim (dict_get rest key) [
    | some w ↦ some w
    | none ↦ if k == key then some v else none
  ]

  -- `float(cost) if cost is not None else None`. PostgreSQL writes a number there; of another value
  -- the source would make a number or raise, which is not modelled.
  unfoldable pub cost_of : Option (Value Float) → Option Float
  cost_of (some (number x)) = some x
  cost_of _ = none

  -- `str(node) if node else None`; PostgreSQL writes a text there.
  unfoldable pub summary_of : Option (Value Float) → Option String
  summary_of (some (text s)) = if s == "" then none else some s
  summary_of _ = none

  abbrev pub no_plan : Plan Float
  no_plan = record { cost = none; summary = none }

  unfoldable pub read_fields : Option (Value Float) → Plan Float
  unfolding dict_get cost_of summary_of
  read_fields (some (dict plan)) = record {
    cost = cost_of (dict_get plan "Total Cost");
    summary = summary_of (dict_get plan "Node Type");
  }
  read_fields _ = no_plan

  -- `row[0]` must be a list that begins with a dict; anything else, truthy or not, has no plan.
  unfoldable pub read_payload : Value Float → Plan Float
  unfolding read_fields dict_get
  read_payload (list (cons (dict top) rest)) = read_fields (dict_get top "Plan")
  read_payload _ = no_plan

  -- `_read_plan` of `cur.fetchone()`
  unfoldable pub read_plan : List (List (Value Float)) → Plan Float
  unfolding read_payload
  read_plan ((payload ∷ cells) ∷ rows) = read_payload payload
  read_plan _ = no_plan

-- What the fifth stage returns, and what the connection was sent.
pub record Validated (P : Platform) : Type 0 where
  pub result : ValidationResult P.Float
  pub sent : Sent

module _ (P : Platform) where
  open P use {Float, float_lt, format_float}

  -- `_from_database_error`
  unfoldable pub from_database_error : String → DriverError → ValidationResult Float
  unfolding error_type_of
  from_database_error sql exc =
      fail sql explain (error_type_of (or_default exc.sqlstate ""))
        (or_default exc.message_primary "the planner rejected the query")

  -- `cost > self._execution.max_estimated_cost`
  unfoldable pub over_ceiling : ExecutionSettings Float → Option Float → Bool
  over_ceiling execution none = false
  over_ceiling execution (some cost) = float_lt execution.max_estimated_cost cost

  abbrev format_cost : Option Float → String
  format_cost none = ""
  format_cost (some cost) = format_float cost

  unfoldable pub judge_plan :
      ExecutionSettings Float → String → List String → Plan Float → ValidationResult Float
  unfolding over_ceiling
  judge_plan execution sql tables plan =
      let failure = fail sql explain "cost_exceeded" (
        "the planner estimates a cost of "
        ⧺ format_cost plan.cost
        ⧺ ", over the ceiling of "
        ⧺ format_float execution.max_estimated_cost
        ⧺ ". Narrow the query.") in
      if over_ceiling execution plan.cost
      then record failure {
        estimated_cost = plan.cost;
        plan_summary = plan.summary;
        tables = tables;
      }
      else record (passed sql tables) { estimated_cost = plan.cost; plan_summary = plan.summary }

  -- The `except` clause, or the judgement of the plan.
  unfoldable pub judge_answer :
      ExecutionSettings Float → String → List String → Outcome Float → Sent → Validated P
  unfolding from_database_error read_plan judge_plan
  judge_answer execution sql tables (failed exc) sent = record {
    result = from_database_error sql exc;
    sent = sent;
  }
  judge_answer execution sql tables (done fetched) sent = record {
    result = judge_plan execution sql tables (read_plan fetched.rows);
    sent = sent;
  }

  -- `_explain`
  unfoldable pub ask_planner :
      ExecutionSettings Float → String → String → List String → Sent → Validated P
  unfolding judge_answer clamp_timeout_ms
  ask_planner execution sql stripped tables sent =
      let r = in_transaction P (clamp_timeout_ms execution none) (explain_prefix ⧺ stripped) sent in
      judge_answer execution sql tables r.outcome r.sent
