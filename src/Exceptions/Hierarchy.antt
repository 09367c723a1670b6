-- ===== src/Exceptions/Hierarchy.antt =====
-- Facts about the class hierarchy.
use mcp_text_to_sql_agent.Prelude.{◌≡◌, refl, true}
use mcp_text_to_sql_agent.Exceptions.{ErrorClass, text_to_sql_error, is_subclass}

-- Every class is a `TextToSQLError`: the walk up the bases ends at the root.
pub is_subclass-root : (c : ErrorClass) → is_subclass c text_to_sql_error ≡ true
unfolding is_subclass
is_subclass-root text_to_sql_error = refl
is_subclass-root _ = refl
