-- ===== src/Validation/Containment.antt =====
-- validation/validator.py, stage 3: what the read-only check lets through, and only that.
use mcp_text_to_sql_agent.Prelude.{
  String, ◌≡◌, ◌↔◌, refl, sym, ◌∙◌, true, false, some, List, [], ◌∷◌, All, Any, any_iff,
  any-eq-false_iff, inl, false≢true,
}
use mcp_text_to_sql_agent.Platform.{Platform, NodeClass, lock}
use mcp_text_to_sql_agent.Validation.Decides.{
  Decides, Decides-then, Decides-map, Decides-if_fails, Decides-if_passes,
}
use mcp_text_to_sql_agent.Validation.Result.{ValidationResult, read_only}
use mcp_text_to_sql_agent.Validation.ReadOnly.{
  allowed_roots, forbidden_nodes, is_any, check_node, check_nodes, check_into, check_root,
  check_read_only,
}

module _ (P : Platform) where
  open P use {Expr, Float, is_node, walk, has_into}

  -- A node that is of none of the forbidden classes, and no row lock.
  abbrev pub IsHarmless : Expr → Type 0
  IsHarmless node =
      All (λ c. ¬ (is_node node c ≡ true)) forbidden_nodes × (is_node node lock ≡ false)

  -- What stage 3 asks for: a query at the root, harmless nodes only, and no INTO at the root. An INTO
  -- below the root, as in the left branch of a UNION, is not looked for.
  pub record IsReadOnly (statement : Expr) : Type 0 where
    pub root : Any (λ c. is_node statement c ≡ true) allowed_roots
    pub nodes : All IsHarmless (walk statement)
    pub no_root_into : has_into statement ≡ false

  -- A failure of stage 3 with its error type.
  abbrev pub IsNotReadOnly : ValidationResult Float → Type 0
  IsNotReadOnly r =
      (r.valid ≡ false) × (r.stage_failed ≡ some read_only) × (r.error_type ≡ some "not_read_only")

  pub is_any-true_iff :
      (e : Expr) (cs : List NodeClass) → (is_any P e cs ≡ true) ↔ Any (λ c. is_node e c ≡ true) cs
  unfolding is_any
  is_any-true_iff e cs = any_iff (is_node e) (λ c. is_node e c ≡ true) (λ c. (λ h. h, λ h. h)) cs

  is_any-false_iff :
      (e : Expr) (cs : List NodeClass)
      → (is_any P e cs ≡ false) ↔ All (λ c. ¬ (is_node e c ≡ true)) cs
  unfolding is_any
  is_any-false_iff e cs =
      any-eq-false_iff (is_node e) (λ c. is_node e c ≡ true) (λ c. (λ h. h, λ h. h)) cs

  check_node_lem :
      (sql : String) (n : Expr) → Decides IsNotReadOnly (IsHarmless n) (check_node P sql n)
  unfolding check_node
  check_node_lem sql n =
      Decides-then IsNotReadOnly _ _ _ _
        (Decides-if_fails IsNotReadOnly (All (λ c. ¬ (is_node n c ≡ true)) forbidden_nodes)
          (is_any P n forbidden_nodes) _
          (λ bad h. false≢true (sym ((is_any-false_iff n forbidden_nodes).1 h) ∙ bad))
          (is_any-false_iff n forbidden_nodes).0 (refl, refl, refl))
        (Decides-if_fails IsNotReadOnly (is_node n lock ≡ false) (is_node n lock) _
          (λ locked h. false≢true (sym h ∙ locked)) (λ h. h) (refl, refl, refl))

  check_nodes_lem :
      (sql : String) (ns : List Expr)
      → Decides IsNotReadOnly (All IsHarmless ns) (check_nodes P sql ns)
  unfolding check_nodes
  check_nodes_lem sql [] = inl (refl, tt)
  check_nodes_lem sql (n ∷ ns) =
      Decides-then IsNotReadOnly _ _ _ _ (check_node_lem sql n) (check_nodes_lem sql ns)

  check_root_lem :
      (sql : String) (e : Expr)
      → Decides IsNotReadOnly (Any (λ c. is_node e c ≡ true) allowed_roots) (check_root P sql e)
  unfolding check_root
  check_root_lem sql e =
      Decides-if_passes IsNotReadOnly _ (is_any P e allowed_roots) _
        (is_any-true_iff e allowed_roots).0
        (λ other h. false≢true (sym other ∙ (is_any-true_iff e allowed_roots).1 h))
        (refl, refl, refl)

  check_into_lem :
      (sql : String) (e : Expr) → Decides IsNotReadOnly (has_into e ≡ false) (check_into P sql e)
  unfolding check_into
  check_into_lem sql e =
      Decides-if_fails IsNotReadOnly _ (has_into e) _ (λ into h. false≢true (sym h ∙ into)) (λ h. h)
        (refl, refl, refl)

  -- The read-only check passes exactly the statements with an allowed root, no forbidden or
  -- locking node at any depth, and no INTO at the root, whatever INTO there is below it; and it
  -- fails every other statement as stage 3 does.
  pub check_read_only-Decides :
      (sql : String) (e : Expr) → Decides IsNotReadOnly (IsReadOnly e) (check_read_only P sql e)
  unfolding check_read_only
  check_read_only-Decides sql e =
      Decides-map IsNotReadOnly _ _ _
        (λ h. record { root = h.0; nodes = h.1.0; no_root_into = h.1.1 })
        (λ h. (h.root, (h.nodes, h.no_root_into)))
        (Decides-then IsNotReadOnly _ _ _ _ (check_root_lem sql e) (
          Decides-then IsNotReadOnly _ _ _ _ (check_nodes_lem sql (walk e)) (check_into_lem sql e)))
