-- ===== src/Tests/Validation.antt =====
-- validation/validator.py and mcp transaction at the sample platform.
use mcp_text_to_sql_agent.Catalog.Laws.{row_has_table, row_has_column, load_catalog-has}
use mcp_text_to_sql_agent.Catalog.{load_catalog}
use mcp_text_to_sql_agent.Prelude.{
  any, strip, lstrip, rstrip, is_space, show, is_line_break, until_line_break, clamp, ◌≡◌, refl,
  true, [], ◌∷◌, none, List, String, Option, some,
}
use mcp_text_to_sql_agent.Catalog.{
  is_empty, columns_at, columns_of, columns_or_empty, has_column, has_table, nearest,
  suggest_column, suggest_table,
}
use mcp_text_to_sql_agent.Validation.Static.{
  validate_static, check_parsed, check_statements, check_expression,
}
use mcp_text_to_sql_agent.Validation.Decides.{or_result, ◌then_check◌, Decides}
use mcp_text_to_sql_agent.Validation.ReadOnly.{
  check_read_only, check_root, is_any, check_nodes, check_node, check_into,
}
use mcp_text_to_sql_agent.Validation.Identifiers.{
  check_identifiers, check_tables, check_table, check_column, check_columns, check_qualified,
  check_unqualified, check_reachable, real_tables,
}
use mcp_text_to_sql_agent.Validation.Names.{
  referenced_tables, cte_names, distinct_from, folded_names, local_names, resolve_alias,
}
use mcp_text_to_sql_agent.Validation.Result.{first_line}
use mcp_text_to_sql_agent.Validation.Validator.{validate, after_static, SqlValidator}
use mcp_text_to_sql_agent.Validation.Explain.{
  ask_planner, judge_answer, read_plan, read_payload, read_fields, dict_get, cost_of, summary_of,
  judge_plan, over_ceiling, from_database_error, error_type_of,
}
use mcp_text_to_sql_agent.Database.{
  in_transaction, after_begin, after_timeout, after_run, after_commit,
}
use mcp_text_to_sql_agent.Settings.{clamp_timeout_ms}
use mcp_text_to_sql_agent.Validation.Containment.{
  IsReadOnly, IsNotReadOnly, check_read_only-Decides,
}
use mcp_text_to_sql_agent.Validation.Resolution.{Resolves, IsUnresolved, check_identifiers-Decides}
use mcp_text_to_sql_agent.Validation.Acceptance.{FirstFailure, IsVerdict, validate_static-IsVerdict}
use mcp_text_to_sql_agent.Validation.Planning.{
  PlansOnly, validate-PlansOnly, IsPlanned, validate-IsAccepted,
}
use mcp_text_to_sql_agent.Tests.Sample.{
  platform, planner, catalog, settings, validator, text, query, dropped,
}

pub static-valid : (validate_static platform catalog text).valid ≡ true
unfolding strip lstrip rstrip is_space show is_line_break until_line_break clamp is_empty columns_at
    columns_of columns_or_empty has_column has_table nearest suggest_column suggest_table
    validate_static check_parsed check_statements check_expression or_result ◌then_check◌
    check_read_only check_root is_any check_nodes check_node check_into check_identifiers
    check_tables check_table check_column check_columns check_qualified check_unqualified
    check_reachable real_tables referenced_tables cte_names distinct_from folded_names local_names
    resolve_alias first_line
static-valid = refl

pub text-valid : (validate platform validator text []).result.valid ≡ true
unfolding strip lstrip rstrip is_space show is_line_break until_line_break clamp is_empty columns_at
    columns_of columns_or_empty has_column has_table nearest suggest_column suggest_table
    validate_static check_parsed check_statements check_expression or_result ◌then_check◌
    check_read_only check_root is_any check_nodes check_node check_into check_identifiers
    check_tables check_table check_column check_columns check_qualified check_unqualified
    check_reachable real_tables referenced_tables cte_names distinct_from folded_names local_names
    resolve_alias first_line validate after_static ask_planner judge_answer read_plan read_payload
    read_fields dict_get cost_of summary_of judge_plan over_ceiling from_database_error
    error_type_of in_transaction after_begin after_timeout after_run after_commit clamp_timeout_ms
text-valid = refl

check_read_only-Decides_example :
    Decides
      (IsNotReadOnly platform)
      (IsReadOnly platform dropped)
      (check_read_only platform "DROP TABLE orders" dropped)
check_read_only-Decides_example = check_read_only-Decides platform "DROP TABLE orders" dropped

check_identifiers-Decides_example :
    Decides
      (IsUnresolved platform catalog)
      (Resolves platform catalog (query none) ("orders" ∷ []))
      (check_identifiers platform catalog text (query none) ("orders" ∷ []))
check_identifiers-Decides_example =
    check_identifiers-Decides platform catalog text (query none) ("orders" ∷ [])

validate_static-IsVerdict_example :
    IsVerdict platform catalog "DROP TABLE orders"
      (validate_static platform catalog "DROP TABLE orders")
validate_static-IsVerdict_example = validate_static-IsVerdict platform catalog "DROP TABLE orders"

validate-PlansOnly_example :
    PlansOnly platform validator text [] (validate platform validator text []).sent
validate-PlansOnly_example = validate-PlansOnly platform validator text []

abbrev planned : SqlValidator planner
planned = record { catalog = catalog; execution = settings }

planned-valid : (validate planner planned text []).result.valid ≡ true
unfolding strip lstrip rstrip is_space show is_line_break until_line_break clamp is_empty columns_at
    columns_of columns_or_empty has_column has_table nearest suggest_column suggest_table
    validate_static check_parsed check_statements check_expression or_result ◌then_check◌
    check_read_only check_root is_any check_nodes check_node check_into check_identifiers
    check_tables check_table check_column check_columns check_qualified check_unqualified
    check_reachable real_tables referenced_tables cte_names distinct_from folded_names local_names
    resolve_alias first_line validate after_static ask_planner judge_answer read_plan read_payload
    read_fields dict_get cost_of summary_of judge_plan over_ceiling from_database_error
    error_type_of in_transaction after_begin after_timeout after_run after_commit clamp_timeout_ms
planned-valid = refl

validate-IsAccepted_example :
    FirstFailure planner catalog text none
    × IsPlanned planner planned text [] (validate planner planned text []).result.estimated_cost
    × (over_ceiling planner settings (validate planner planned text []).result.estimated_cost
        ≡ mathlib.Core.Bool.false)
validate-IsAccepted_example = validate-IsAccepted planner planned text [] planned-valid

abbrev rows : List (String × Option String)
rows = ("orders", some "id") ∷ ("customers", none) ∷ []

load_catalog-has_example :
    (has_table platform (load_catalog platform rows) "orders"
      ≡ any (row_has_table platform "orders") rows)
    × (has_column platform (load_catalog platform rows) "orders" "id"
        ≡ any (row_has_column platform "orders" "id") rows)
load_catalog-has_example = load_catalog-has platform rows "orders" "id"
