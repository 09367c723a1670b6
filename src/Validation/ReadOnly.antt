-- ===== src/Validation/ReadOnly.antt =====
-- validation/validator.py, stage 3: nothing that could change state, anywhere in the tree.
use mcp_text_to_sql_agent.Prelude.{
  String, Bool, Option, none, some, List, [], ◌∷◌, any, ◌⧺◌, if◌then◌else◌,
}
use mcp_text_to_sql_agent.Platform.{
  Platform, NodeClass, select, union_node, intersect, except, insert, update, delete, merge, create,
  drop_node, alter, truncate_table, grant, copy, command, lock,
}
use mcp_text_to_sql_agent.Validation.Decides.{◌then_check◌}
use mcp_text_to_sql_agent.Validation.Result.{ValidationResult, read_only, fail}

abbrev pub allowed_roots : List NodeClass
allowed_roots = select ∷ union_node ∷ intersect ∷ except ∷ []

abbrev pub forbidden_nodes : List NodeClass
forbidden_nodes =
    insert ∷ update ∷ delete ∷ merge ∷ create ∷ drop_node ∷ alter ∷ truncate_table ∷ grant ∷ copy
    ∷ command ∷ []

module _ (P : Platform) where
  open P use {Expr, Float, is_node, walk, has_into, key, upper}

  -- `isinstance(node, classes)`
  unfoldable pub is_any : Expr → List NodeClass → Bool
  is_any e classes = any (is_node e) classes

  -- One round of the walk: the failure that the node causes.
  unfoldable pub check_node : String → Expr → Option (ValidationResult Float)
  check_node sql node =
      (if is_any node forbidden_nodes
        then some (
            fail sql read_only "not_read_only" (
              upper (key node)
              ⧺ " is not permitted anywhere in the query, including inside a CTE or subquery"))
        else none)
      then_check (if is_node node lock
          then some (
              fail sql read_only "not_read_only"
                "row locking (FOR UPDATE / FOR SHARE) is not permitted")
          else none)

  -- The walk, up to the first failure.
  unfoldable pub check_nodes : String → List Expr → Option (ValidationResult Float)
  check_nodes sql [] = none
  check_nodes sql (node ∷ nodes) = check_node sql node then_check check_nodes sql nodes

  -- After the walk: `SELECT ... INTO`.
  unfoldable pub check_into : String → Expr → Option (ValidationResult Float)
  check_into sql statement =
      if has_into statement
      then some (
          fail sql read_only "not_read_only"
            "SELECT ... INTO creates a table and is not permitted; use a plain SELECT")
      else none

  -- The root.
  unfoldable pub check_root : String → Expr → Option (ValidationResult Float)
  check_root sql statement =
      if is_any statement allowed_roots
      then none
      else some (
          fail sql read_only "not_read_only"
            ("only SELECT statements are permitted, got " ⧺ upper (key statement)))

  -- `_check_read_only`
  unfoldable pub check_read_only : String → Expr → Option (ValidationResult Float)
  check_read_only sql statement =
      check_root sql statement
      then_check check_nodes sql (walk statement)
      then_check check_into sql statement
