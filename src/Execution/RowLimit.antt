-- ===== src/Execution/RowLimit.antt =====
-- execution/executor.py: `apply_row_limit` and `_existing_limit`.
use mcp_text_to_sql_agent.Prelude.{
  ℕ, ◌+◌, min, String, Bool, true, ◌&&◌, ℤ, pos, Option, none, some, ltb, if◌then◌else◌,
}
use mcp_text_to_sql_agent.Platform.{Platform, limit_node, literal}
use mcp_text_to_sql_agent.Validation.ReadOnly.{allowed_roots, is_any}

-- What `apply_row_limit` returns.
pub record Bounded : Type 0 where
  pub sql : String
  pub effective : ℕ
  pub server_capped : Bool

-- Or the message of the `ExecutionError` that it raises.
pub data RowLimit : Type 0 where
  bounded : Bounded → RowLimit
  refused : String → RowLimit

-- `value if value >= 0 else None`
abbrev pub not_negative : Option ℤ → Option ℕ
not_negative (some (pos n)) = some n
not_negative _ = none

-- `effective` by the query's own limit.
abbrev pub effective_limit : Option ℕ → ℕ → ℕ
effective_limit none max_rows = max_rows
effective_limit (some existing) max_rows = min existing max_rows

abbrev pub is_server_capped : Option ℕ → ℕ → Bool
is_server_capped none max_rows = true
is_server_capped (some existing) max_rows = ltb max_rows existing

module _ (P : Platform) where
  open P use {Expr, is_node, limit_arg, expression, is_int, int_name}

  -- `_existing_limit`
  unfoldable pub existing_limit : Expr → Option ℕ
  existing_limit statement = elim (limit_arg statement) [
    | none ↦ none
    | some node ↦
        if is_node node limit_node
        then (if is_node (expression node) literal && is_int (expression node)
            then not_negative (int_name (expression node))
            else none)
        else none
  ]

  unfoldable pub bound_statement : Expr → ℕ → Bounded
  unfolding existing_limit
  bound_statement statement max_rows =
      let existing = existing_limit statement in
      let effective = effective_limit existing max_rows in
      record {
        sql = P.sql (P.limit statement (effective + 1));
        effective = effective;
        server_capped = is_server_capped existing max_rows;
      }

  -- `apply_row_limit`
  unfoldable pub apply_row_limit : String → ℕ → RowLimit
  unfolding bound_statement
  apply_row_limit sql max_rows = elim (P.parse_one sql) [
    | none ↦ refused "the query could not be parsed to apply a row limit"
    | some statement ↦
        if is_any P statement allowed_roots
        then bounded (bound_statement statement max_rows)
        else refused "the query could not be re-parsed to apply a row limit"
  ]
