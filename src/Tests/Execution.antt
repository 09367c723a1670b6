-- ===== src/Tests/Execution.antt =====
-- execution/executor.py at the sample platform.
use mcp_text_to_sql_agent.Prelude.{
  String, false, length, strip, lstrip, rstrip, is_space, show, is_line_break, until_line_break,
  clamp, ℕ, ◌≤◌, ◌<◌, ◌≡◌, ◌↔◌, refl, sym, ◌∙◌, ap, true, some, none, Option, List, [], ◌∷◌, take,
  pos,
}
use mcp_text_to_sql_agent.Catalog.{
  is_empty, columns_at, columns_of, columns_or_empty, has_column, has_table, nearest,
  suggest_column, suggest_table,
}
use mcp_text_to_sql_agent.Validation.Static.{
  validate_static, check_parsed, check_statements, check_expression,
}
use mcp_text_to_sql_agent.Validation.Decides.{or_result, ◌then_check◌}
use mcp_text_to_sql_agent.Validation.ReadOnly.{
  check_read_only, check_root, is_any, check_nodes, check_node, check_into,
}
use mcp_text_to_sql_agent.Validation.Identifiers.{
  check_identifiers, check_tables, check_table, check_column, check_columns, check_qualified,
  check_unqualified, check_reachable, real_tables,
}
use mcp_text_to_sql_agent.Validation.Names.{
  referenced_tables, cte_names, distinct_from, folded_names, local_names, resolve_alias,
}
use mcp_text_to_sql_agent.Validation.Result.{first_line}
use mcp_text_to_sql_agent.Validation.Validator.{validate, after_static}
use mcp_text_to_sql_agent.Validation.Explain.{
  ask_planner, judge_answer, read_plan, read_payload, read_fields, dict_get, cost_of, summary_of,
  judge_plan, over_ceiling, from_database_error, error_type_of,
}
use mcp_text_to_sql_agent.Database.{
  in_transaction, after_begin, after_timeout, after_run, after_commit, Sent,
}
use mcp_text_to_sql_agent.Settings.{clamp_timeout_ms, clamp_rows}
use mcp_text_to_sql_agent.Execution.Executor.{
  execute, after_validation, run_bounded, finish, shape_result, record_call, QueryResult, ok,
}
use mcp_text_to_sql_agent.Execution.RowLimit.{apply_row_limit, bound_statement, existing_limit}
use mcp_text_to_sql_agent.Execution.Audit.{record_row}
use mcp_text_to_sql_agent.Platform.{
  sqlglot_error, run, Fetched, Outcome, done, failed, number, statements, Parsed, Value,
}
use mcp_text_to_sql_agent.Validation.Planning.{planning_actions}
use mcp_text_to_sql_agent.Execution.Runs.{IsRun, execute-IsRun}
use mcp_text_to_sql_agent.Execution.Bounds.{execute_row_bounds, execute_truncated}
use mcp_text_to_sql_agent.Execution.Traffic.{QueriesOnly, execute-sent}
use mcp_text_to_sql_agent.Settings.Bounds.{AtMostAsked}
use mcp_text_to_sql_agent.Tests.Settings.{settings-InFieldRange, settings-accepted}
use mcp_text_to_sql_agent.Tests.Sample.{
  Node, query, platform, settings, validator, executor, caller, world, two_rows, text, answer,
  all_rows, sql, limit, count_marks-marks,
}

abbrev rows_of : Outcome ℕ → List (List (Value ℕ))
rows_of (done fetched) = fetched.rows
rows_of (failed exc) = []

abbrev statements_of : Parsed Node → List (Option Node)
statements_of (statements ss) = ss
statements_of (sqlglot_error message) = []

abbrev first_of : List Node → Option Node
first_of [] = none
first_of (e ∷ es) = some e

abbrev pub result : QueryResult platform
result = record {
  columns = "id" ∷ [];
  rows = (number 1 ∷ []) ∷ (number 2 ∷ []) ∷ [];
  row_count = 2;
  truncated = true;
  duration_ms = 8;
  executed_sql = "LLL";
  row_limit = 2;
  estimated_cost = none;
}

-- The statement is limited to three rows, of which two are returned.
text-executed : (execute platform executor caller text two_rows world).0 ≡ ok result
unfolding strip lstrip rstrip is_space show is_line_break until_line_break clamp is_empty columns_at
    columns_of columns_or_empty has_column has_table nearest suggest_column suggest_table
    validate_static check_parsed check_statements check_expression or_result ◌then_check◌
    check_read_only check_root is_any check_nodes check_node check_into check_identifiers
    check_tables check_table check_column check_columns check_qualified check_unqualified
    check_reachable real_tables referenced_tables cte_names distinct_from folded_names local_names
    resolve_alias first_line validate after_static ask_planner judge_answer read_plan read_payload
    read_fields dict_get cost_of summary_of judge_plan over_ceiling from_database_error
    error_type_of in_transaction after_begin after_timeout after_run after_commit clamp_timeout_ms
    clamp_rows execute after_validation run_bounded finish shape_result record_call apply_row_limit
    bound_statement existing_limit record_row
text-executed = refl

abbrev limited_text : String
limited_text = "SELECT id FROM orders LIMIT 1"

abbrev limited_result : QueryResult platform
limited_result = record {
  columns = "id" ∷ [];
  rows = (number 1 ∷ []) ∷ [];
  row_count = 1;
  truncated = false;
  duration_ms = 8;
  executed_sql = "LL";
  row_limit = 1;
  estimated_cost = none;
}

-- The statement's own limit is below the caller's, and its one row is no truncation.
limited-executed :
    (execute platform executor caller limited_text two_rows world).0 ≡ ok limited_result
unfolding strip lstrip rstrip is_space show is_line_break until_line_break clamp is_empty columns_at
    columns_of columns_or_empty has_column has_table nearest suggest_column suggest_table
    validate_static check_parsed check_statements check_expression or_result ◌then_check◌
    check_read_only check_root is_any check_nodes check_node check_into check_identifiers
    check_tables check_table check_column check_columns check_qualified check_unqualified
    check_reachable real_tables referenced_tables cte_names distinct_from folded_names local_names
    resolve_alias first_line validate after_static ask_planner judge_answer read_plan read_payload
    read_fields dict_get cost_of summary_of judge_plan over_ceiling from_database_error
    error_type_of in_transaction after_begin after_timeout after_run after_commit clamp_timeout_ms
    clamp_rows execute after_validation run_bounded finish shape_result record_call apply_row_limit
    bound_statement existing_limit record_row
limited-executed = refl

execute-IsRun_example : IsRun platform executor text two_rows world result
execute-IsRun_example =
    execute-IsRun platform executor caller text two_rows world result text-executed

execute_row_bounds_example :
    (result.row_count ≡ length result.rows)
    × (result.row_count ≤ result.row_limit)
    × (result.row_limit ≤ 1000)
    × AtMostAsked 1 (some (pos 2)) result.row_limit
execute_row_bounds_example =
    execute_row_bounds platform executor caller text two_rows world result settings-InFieldRange
      settings-accepted text-executed

answer-honours :
    (k : ℕ) (before : Sent) (fetched : Fetched ℕ)
    → answer before (run (sql (limit (query (some 1)) k))) ≡ done fetched
    → fetched.rows ≡ take k all_rows
answer-honours k before fetched h =
    sym (ap rows_of h) ∙ ap (λ n. take n all_rows) (count_marks-marks k)

execute_truncated_example :
    (limited_result.rows ≡ take (clamp_rows settings (some (pos 2))) (take 1 all_rows))
    × ((false ≡ true) ↔ (clamp_rows settings (some (pos 2)) < 1))
execute_truncated_example =
    execute_truncated platform executor caller limited_text two_rows world limited_result
      (query (some 1)) (some 1) all_rows (_, refl, refl, refl, refl, refl) refl answer-honours
      limited-executed

execute-sent_example :
    (n : ℕ) × QueriesOnly platform executor caller "DROP TABLE orders" two_rows
      (validate platform validator "DROP TABLE orders" []).result.valid
      (take n (planning_actions platform validator "DROP TABLE orders"))
      (execute platform executor caller "DROP TABLE orders" two_rows world).1.sent
execute-sent_example = execute-sent platform executor caller "DROP TABLE orders" two_rows world
