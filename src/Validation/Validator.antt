-- ===== src/Validation/Validator.antt =====
-- validation/validator.py: `SQLValidator.validate`, all five stages.
use mcp_text_to_sql_agent.Prelude.{true, false, String, strip, Bool}
use mcp_text_to_sql_agent.Platform.{Platform}
use mcp_text_to_sql_agent.Settings.{ExecutionSettings}
use mcp_text_to_sql_agent.Catalog.{SchemaCatalog}
use mcp_text_to_sql_agent.Database.{Sent}
use mcp_text_to_sql_agent.Validation.Static.{validate_static}
use mcp_text_to_sql_agent.Validation.Explain.{Validated, ask_planner}

-- The validator's own fields but its connection. The validator holds one read-only connection and
-- the executor may borrow another of the same role and settings: `Sent` is the sequence of what is
-- sent over the two.
pub record SqlValidator (P : Platform) : Type 0 where
  pub catalog : SchemaCatalog
  pub execution : ExecutionSettings P.Float

module _ (P : Platform) where
  -- The rest of `validate`, by whether the static stages passed.
  unfoldable pub after_static : SqlValidator P → String → Sent → Bool → Validated P
  after_static v sql sent false = record { result = validate_static P v.catalog sql; sent = sent }
  after_static v sql sent true =
      ask_planner P v.execution sql (strip sql) (validate_static P v.catalog sql).tables sent

  unfoldable pub validate : SqlValidator P → String → Sent → Validated P
  unfolding after_static
  validate v sql sent = after_static v sql sent (validate_static P v.catalog sql).valid
