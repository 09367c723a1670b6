-- ===== src/Validation/Static.antt =====
-- validation/validator.py, stages 1 to 4: what the text and the catalog decide, with no I/O.
use mcp_text_to_sql_agent.Prelude.{
  ℕ, String, count, List, [], ◌∷◌, somes, length, ltb, show, strip, ◌==◌, ◌⧺◌, if◌then◌else◌,
}
use mcp_text_to_sql_agent.Platform.{Platform, Parsed, statements, sqlglot_error}
use mcp_text_to_sql_agent.Catalog.{SchemaCatalog}
use mcp_text_to_sql_agent.Validation.Decides.{or_result}
use mcp_text_to_sql_agent.Validation.Result.{
  ValidationResult, parse, single_statement, passed, fail, first_line,
}
use mcp_text_to_sql_agent.Validation.Names.{referenced_tables}
use mcp_text_to_sql_agent.Validation.ReadOnly.{check_read_only}
use mcp_text_to_sql_agent.Validation.Identifiers.{check_identifiers}

abbrev pub max_sql_chars : ℕ
max_sql_chars = 100000

module _ (P : Platform) (catalog : SchemaCatalog) where
  open P use {Expr, Float, is_expression}

  -- Stages 3 and 4 of the one statement.
  unfoldable pub check_expression : String → Expr → ValidationResult Float
  check_expression sql statement =
      if is_expression statement
      then or_result (check_read_only P sql statement) (
          or_result (check_identifiers P catalog sql statement (referenced_tables P statement))
            (passed sql (referenced_tables P statement)))
      else fail sql parse "syntax_error" "the parser produced a tree this validator cannot inspect"

  -- Stage 2.
  unfoldable pub check_statements : String → List Expr → ValidationResult Float
  check_statements sql (statement ∷ []) = check_expression sql statement
  check_statements sql parsed = fail sql single_statement "multiple_statements" (
      "expected exactly one statement, found "
      ⧺ show (length parsed)
      ⧺ ". Stacked statements are never accepted.")

  unfoldable pub check_parsed : String → Parsed Expr → ValidationResult Float
  check_parsed sql (sqlglot_error text) = fail sql parse "syntax_error" (first_line text)
  check_parsed sql (statements ss) = check_statements sql (somes ss)

  -- `validate_static`
  unfoldable pub validate_static : String → ValidationResult Float
  validate_static sql =
      let stripped = strip sql in
      if stripped == ""
      then fail sql parse "syntax_error" "the query is empty"
      else if ltb max_sql_chars (count stripped)
      then fail sql parse "syntax_error" (
          "the query is "
          ⧺ show (count stripped)
          ⧺ " characters, over the "
          ⧺ show max_sql_chars
          ⧺ " limit")
      else check_parsed sql (P.parse stripped)
