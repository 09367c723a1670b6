-- ===== src/Execution/Reparse.antt =====
-- execution/executor.py: a statement that validation accepted is one that the row limit accepts.
use mcp_text_to_sql_agent.Validation.Containment.{is_any-true_iff}
use mcp_text_to_sql_agent.Prelude.{ℕ, String, ◌≡◌, true, Option, some, List, [], ◌∷◌, somes, strip}
use mcp_text_to_sql_agent.Platform.{Platform, statements}
use mcp_text_to_sql_agent.Database.{Sent}
use mcp_text_to_sql_agent.Validation.Validator.{SqlValidator, validate}
use mcp_text_to_sql_agent.Validation.Planning.{validate-valid_static}
use mcp_text_to_sql_agent.Validation.ReadOnly.{allowed_roots, is_any}
use mcp_text_to_sql_agent.Validation.Acceptance.{valid-IsAccepted}
use mcp_text_to_sql_agent.Execution.RowLimit.{bounded, bound_statement, apply_row_limit}

module _ (P : Platform) where
  -- `sqlglot.parse_one` of a text yields the one statement that `sqlglot.parse` finds in it when
  -- the text is stripped of the space around it.
  abbrev pub Reparses : String → Type 0
  Reparses sql =
      (ss : List (Option P.Expr)) (e : P.Expr)
      → P.parse (strip sql) ≡ statements ss
      → somes ss ≡ e ∷ []
      → P.parse_one sql ≡ some e

  apply_row_limit-accepted :
      (sql : String) (n : ℕ) (e : P.Expr)
      → P.parse_one sql ≡ some e
      → is_any P e allowed_roots ≡ true
      → apply_row_limit P sql n ≡ bounded (bound_statement P e n)
  unfolding apply_row_limit bound_statement
  apply_row_limit-accepted sql n e parsed root = rw (parsed, root, apply_row_limit)

  pub valid-bounded :
      (v : SqlValidator P) (sql : String) (sent : Sent) (n : ℕ)
      → Reparses sql
      → (validate P v sql sent).result.valid ≡ true
      → (e : P.Expr) × (apply_row_limit P sql n ≡ bounded (bound_statement P e n))
  valid-bounded v sql sent n again h =
      let (e, one, safe, _) =
        valid-IsAccepted P v.catalog sql (validate-valid_static P v sql sent h) in
      let (ss, parsed, single) = one.parsed in
      (
        e,
        apply_row_limit-accepted sql n e (again ss e parsed single)
            ((is_any-true_iff P e allowed_roots).1 safe.root),
      )
