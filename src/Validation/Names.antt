-- ===== src/Validation/Names.antt =====
-- validation/validator.py: the names that a statement mentions or defines.
use mcp_text_to_sql_agent.Prelude.{
  String, Bool, true, false, ◌&&◌, List, [], ◌∷◌, ◌++◌, ◌==◌, map, contains, keep, if◌then◌else◌,
}
use mcp_text_to_sql_agent.Platform.{Platform, select, cte, subquery, alias_node, table_node}

abbrev pub non_empty : String → Bool
non_empty s = if s == "" then false else true

-- Distinct, in the order of first appearance, as the keys of a dict.
unfoldable pub distinct_from : List String → List String → List String
distinct_from seen [] = []
distinct_from seen (s ∷ ss) =
    let kept = distinct_from (s ∷ seen) ss in
    let skipped = distinct_from seen ss in if contains s seen then skipped else s ∷ kept

module _ (P : Platform) where
  open P use {Expr, casefold, is_node, find_all, name, alias, alias_or_name, this, expressions}

  -- `_referenced_tables`
  unfoldable pub referenced_tables : Expr → List String
  unfolding distinct_from
  referenced_tables e = distinct_from [] (keep non_empty (map name (find_all e table_node)))

  -- The case-folded names, without the empty ones.
  unfoldable pub folded_names : (Expr → String) → List Expr → List String
  folded_names of es = map casefold (keep non_empty (map of es))

  -- A CTE's own name, and the columns that it exposes.
  unfoldable pub cte_names : List Expr → List String
  unfolding folded_names
  cte_names [] = []
  cte_names (c ∷ cs) =
      folded_names alias (c ∷ [])
      ++ (if is_node (this c) select then folded_names alias_or_name (expressions (this c)) else [])
      ++ cte_names cs

  -- `_local_names`
  unfoldable pub local_names : Expr → List String
  unfolding cte_names folded_names
  local_names e =
      cte_names (find_all e cte)
      ++ folded_names alias (find_all e subquery)
      ++ folded_names alias (find_all e alias_node)

  resolve_in : List Expr → String → String
  resolve_in [] qualifier = qualifier
  resolve_in (t ∷ ts) qualifier =
      if non_empty (alias t) && (casefold (alias t) == casefold qualifier)
      then name t
      else resolve_in ts qualifier

  -- `_resolve_alias`
  unfoldable pub resolve_alias : Expr → String → String
  unfolding resolve_in
  resolve_alias e qualifier = resolve_in (find_all e table_node) qualifier
