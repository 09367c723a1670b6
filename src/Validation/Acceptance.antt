-- ===== src/Validation/Acceptance.antt =====
-- validation/validator.py, stages 1 to 4 together: the first stage that fails.
use mcp_text_to_sql_agent.Prelude.{
  ◌≤◌, ◌<◌, String, count, ◌≡◌, ◌≢◌, refl, sym, ◌∙◌, Bool, true, false, ◌⊎◌, inl, inr, false≢true,
  Option, none, some, List, [], ◌∷◌, somes, length, strip, ◌==◌, eq_iff, arith, ltb, ltb→lt,
  le_of_not-ltb, Bool-cases,
}
use mcp_text_to_sql_agent.Platform.{Platform, Parsed, statements, sqlglot_error}
use mcp_text_to_sql_agent.Catalog.{SchemaCatalog}
use mcp_text_to_sql_agent.Validation.Decides.{Decides, or_result}
use mcp_text_to_sql_agent.Validation.Result.{
  ValidationStage, parse, single_statement, read_only, identifiers, explain, ValidationResult,
  passed,
}
use mcp_text_to_sql_agent.Validation.Names.{referenced_tables}
use mcp_text_to_sql_agent.Validation.Containment.{
  IsReadOnly, IsNotReadOnly, check_read_only-Decides,
}
use mcp_text_to_sql_agent.Validation.Resolution.{Resolves, IsUnresolved, check_identifiers-Decides}
use mcp_text_to_sql_agent.Validation.Static.{
  max_sql_chars, check_expression, check_statements, check_parsed, validate_static,
}

module _ (P : Platform) (catalog : SchemaCatalog) where
  open P use {Expr, Float, is_expression}

  -- The text is not blank, and not too long.
  abbrev pub IsSized : String → Type 0
  IsSized sql = (strip sql ≢ "") × (count (strip sql) ≤ max_sql_chars)

  -- The text is one statement, which can be inspected.
  pub record IsOneStatement (sql : String) (statement : Expr) : Type 0 where
    pub sized : IsSized sql
    pub parsed :
        (ss : List (Option Expr)) × (P.parse (strip sql) ≡ statements ss)
        × (somes ss ≡ statement ∷ [])
    pub inspectable : is_expression statement ≡ true

  -- Why the text is no statement that can be inspected.
  abbrev pub IsMalformed : String → Type 0
  IsMalformed sql =
      (strip sql ≡ "")
      ⊎ ((max_sql_chars < count (strip sql))
          ⊎ (((text : String) × (P.parse (strip sql) ≡ sqlglot_error text))
              ⊎ ((ss : List (Option Expr)) × (e : Expr) × (P.parse (strip sql) ≡ statements ss)
                  × (somes ss ≡ e ∷ [])
                  × (is_expression e ≡ false))))

  -- What the stage of the first failure says; none of them failed where it is none.
  abbrev pub FirstFailure : String → Option ValidationStage → Type 0
  FirstFailure sql none =
      (e : Expr) × IsOneStatement sql e
      × IsReadOnly P e
      × Resolves P catalog e (referenced_tables P e)
  FirstFailure sql (some parse) = IsMalformed sql
  FirstFailure sql (some single_statement) =
      IsSized sql
      × ((ss : List (Option Expr)) × (P.parse (strip sql) ≡ statements ss)
          × (length (somes ss) ≢ 1))
  FirstFailure sql (some read_only) = (e : Expr) × IsOneStatement sql e × (¬ IsReadOnly P e)
  FirstFailure sql (some identifiers) =
      (e : Expr) × IsOneStatement sql e
      × IsReadOnly P e
      × (¬ Resolves P catalog e (referenced_tables P e))
  FirstFailure sql (some explain) = ⊥

  abbrev pub is_none : Option ValidationStage → Bool
  is_none none = true
  is_none (some _) = false

  -- The result agrees with the first failure, and is valid exactly where there is none.
  abbrev pub IsVerdict : String → ValidationResult Float → Type 0
  IsVerdict sql r = FirstFailure sql r.stage_failed × (r.valid ≡ is_none r.stage_failed)

  read_only_failure :
      (sql : String) (e : Expr) (r : ValidationResult Float)
      → IsOneStatement sql e
      → ¬ IsReadOnly P e
      → IsNotReadOnly P r
      → IsVerdict sql r
  read_only_failure sql e r one bad (v, s, _) = rw (s, v) ((e, one, bad), refl)

  identifier_failure :
      (sql : String) (e : Expr) (r : ValidationResult Float)
      → IsOneStatement sql e
      → IsReadOnly P e
      → ¬ Resolves P catalog e (referenced_tables P e)
      → IsUnresolved P catalog r
      → IsVerdict sql r
  identifier_failure sql e r one safe bad (v, s, _) = rw (s, v) ((e, one, safe, bad), refl)

  expression_lem :
      (sql : String) (e : Expr) (ro ids : Option (ValidationResult Float))
      → IsOneStatement sql e
      → Decides (IsNotReadOnly P) (IsReadOnly P e) ro
      → Decides (IsUnresolved P catalog) (Resolves P catalog e (referenced_tables P e)) ids
      → IsVerdict sql (or_result ro (or_result ids (passed sql (referenced_tables P e))))
  unfolding or_result
  expression_lem sql e ro ids one (inr (bad, (f, e1, why))) _ =
      rw e1 (read_only_failure sql e f one bad why)
  expression_lem sql e ro ids one (inl (e1, safe)) (inr (bad, (f, e2, why))) =
      rw (e1, e2) (identifier_failure sql e f one safe bad why)
  expression_lem sql e ro ids one (inl (e1, safe)) (inl (e2, good)) =
      rw (e1, e2) ((e, one, safe, good), refl)

  statements_lem :
      (sql : String) (ss : List (Option Expr)) (es : List Expr)
      → IsSized sql
      → P.parse (strip sql) ≡ statements ss
      → somes ss ≡ es
      → IsVerdict sql (check_statements P catalog sql es)
  unfolding check_statements
  statements_lem sql ss [] sized h k = ((sized, (ss, h, rw k (omega arith))), refl)
  statements_lem sql ss (e ∷ []) sized h k = elim (Bool-cases (is_expression e)) [
    | inl good ↦
        unfold check_expression in
        rw good (
          expression_lem sql e _ _
            (record { sized = sized; parsed = (ss, h, k); inspectable = good })
            (check_read_only-Decides P sql e)
            (check_identifiers-Decides P catalog sql e (referenced_tables P e)))
    | inr odd ↦ unfold check_expression in rw odd (inr (inr (inr (ss, e, h, k, odd))), refl)
  ]
  statements_lem sql ss (e ∷ e' ∷ es) sized h k = ((sized, (ss, h, rw k (omega arith))), refl)

  parsed_lem :
      (sql : String) (p : Parsed Expr)
      → IsSized sql
      → P.parse (strip sql) ≡ p
      → IsVerdict sql (check_parsed P catalog sql p)
  unfolding check_parsed
  parsed_lem sql (sqlglot_error text) sized h = (inr (inr (inl (text, h))), refl)
  parsed_lem sql (statements ss) sized h = statements_lem sql ss (somes ss) sized h refl

  -- The static stages report the first one that fails: a malformed text, not exactly one
  -- statement, a statement that is not read-only, or one whose names do not resolve; and the
  -- result is valid exactly when none of these holds.
  pub validate_static-IsVerdict : (sql : String) → IsVerdict sql (validate_static P catalog sql)
  unfolding validate_static
  validate_static-IsVerdict sql = elim (Bool-cases (strip sql == "")) [
    | inl blank ↦ rw blank (inl ((eq_iff (strip sql) "").0 blank), refl)
    | inr text ↦ rw text (elim (Bool-cases (ltb max_sql_chars (count (strip sql)))) [
      | inl long ↦ rw long (inr (inl (ltb→lt _ _ long)), refl)
      | inr short ↦ rw short (
          parsed_lem sql (P.parse (strip sql))
            (λ e. false≢true (sym text ∙ (eq_iff (strip sql) "").1 e), le_of_not-ltb _ _ short)
            refl)
    ])
  ]

  no_failure :
      (sql : String) (stage : Option ValidationStage)
      → FirstFailure sql stage
      → is_none stage ≡ true
      → FirstFailure sql none
  no_failure sql none first h = first
  no_failure sql (some s) first h = absurd (false≢true h)

  -- A text that the static stages accept is one statement that passes stage 3, and whose names
  -- resolve.
  pub valid-IsAccepted :
      (sql : String) → (validate_static P catalog sql).valid ≡ true → FirstFailure sql none
  valid-IsAccepted sql h =
      let (first, same) = validate_static-IsVerdict sql in
      no_failure sql (validate_static P catalog sql).stage_failed first (sym same ∙ h)
