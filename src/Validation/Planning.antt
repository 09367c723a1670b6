-- ===== src/Validation/Planning.antt =====
-- validation/validator.py, stage 5 and `validate`: what reaches the database, and the ceiling.
use mcp_text_to_sql_agent.Prelude.{
  ℕ, String, ◌≡◌, refl, sym, ◌∙◌, Bool, true, false, false≢true, List, ◌++◌, take, strip, ◌⧺◌,
  append-nil, Option, none, Bool-cases, inl, arith, inr, subst, ◌⊎◌,
}
use mcp_text_to_sql_agent.Platform.{Platform, Action, Outcome, Fetched, done, failed}
use mcp_text_to_sql_agent.Settings.{ExecutionSettings, clamp_timeout_ms}
use mcp_text_to_sql_agent.Database.{Sent, in_transaction}
use mcp_text_to_sql_agent.Database.Laws.{transaction_actions, in_transaction-IsTransaction}
use mcp_text_to_sql_agent.Validation.Static.{validate_static}
use mcp_text_to_sql_agent.Validation.Acceptance.{FirstFailure, valid-IsAccepted}
use mcp_text_to_sql_agent.Validation.Explain.{
  Plan, read_plan, judge_plan, explain_prefix, ask_planner, judge_answer, over_ceiling,
}
use mcp_text_to_sql_agent.Validation.Validator.{SqlValidator, validate, after_static}

module _ (P : Platform) where
  -- The actions of the planning transaction of a text, if nothing interrupts it.
  abbrev pub planning_actions : SqlValidator P → String → List Action
  planning_actions v sql =
      transaction_actions v.execution.statement_timeout_ms (explain_prefix ⧺ strip sql)

  -- Nothing but a prefix of the planning transaction is sent, and of that nothing at all if the
  -- static stages refuse the text.
  abbrev pub PlansOnly : SqlValidator P → String → Sent → Sent → Type 0
  PlansOnly v sql before after =
      ((n : ℕ) × (after ≡ before ++ take n (planning_actions v sql)))
      × (((validate_static P v.catalog sql).valid ≡ true) ⊎ (after ≡ before))

  judge_answer-sent :
      (e : ExecutionSettings P.Float) (sql : String) (tables : List String) (o : Outcome P.Float)
      (sent : Sent)
      → (judge_answer P e sql tables o sent).sent ≡ sent
  unfolding judge_answer
  judge_answer-sent e sql tables (failed exc) sent = refl
  judge_answer-sent e sql tables (done rows) sent = refl

  after_static-PlansOnly :
      (v : SqlValidator P) (sql : String) (sent : Sent) (b : Bool)
      → (validate_static P v.catalog sql).valid ≡ b
      → PlansOnly v sql sent (after_static P v sql sent b).sent
  unfolding after_static ask_planner clamp_timeout_ms
  after_static-PlansOnly v sql sent false h = ((0, sym (append-nil sent)), inr refl)
  after_static-PlansOnly v sql sent true h = rw judge_answer-sent (
    (in_transaction-IsTransaction P v.execution.statement_timeout_ms (explain_prefix ⧺ strip sql)
        sent).0,
    inl h,
  )

  -- Validation never runs the query: whatever the database answers, all that it is sent is a
  -- timeout and an EXPLAIN of the stripped text in one transaction, up to the first failure, and
  -- nothing is sent for a text that the static stages refuse.
  pub validate-PlansOnly :
      (v : SqlValidator P) (sql : String) (sent : Sent)
      → PlansOnly v sql sent (validate P v sql sent).sent
  unfolding validate
  validate-PlansOnly v sql sent = after_static-PlansOnly v sql sent _ refl

  -- A text that passes validation has passed its static stages.
  pub validate-valid_static :
      (v : SqlValidator P) (sql : String) (sent : Sent)
      → (validate P v sql sent).result.valid ≡ true
      → (validate_static P v.catalog sql).valid ≡ true
  unfolding validate
  validate-valid_static v sql sent h = elim (Bool-cases (validate_static P v.catalog sql).valid) [
    | inl good ↦ good
    | inr bad ↦ subst (λ b. (after_static P v sql sent b).result.valid ≡ true) bad h
  ]

  judge_answer-cost :
      (e : ExecutionSettings P.Float) (sql : String) (tables : List String) (o : Outcome P.Float)
      (sent : Sent)
      → (judge_answer P e sql tables o sent).result.valid ≡ true
      → over_ceiling P e (judge_answer P e sql tables o sent).result.estimated_cost ≡ false
  unfolding judge_answer
  judge_answer-cost e sql tables (failed exc) sent h = absurd (false≢true h)
  judge_answer-cost e sql tables (done fetched) sent h = ground arith

  after_static-cost :
      (v : SqlValidator P) (sql : String) (sent : Sent) (b : Bool)
      → (validate_static P v.catalog sql).valid ≡ b
      → (after_static P v sql sent b).result.valid ≡ true
      → over_ceiling P v.execution (after_static P v sql sent b).result.estimated_cost ≡ false
  unfolding after_static ask_planner
  after_static-cost v sql sent false e h = absurd (false≢true (sym e ∙ h))
  after_static-cost v sql sent true e h =
      judge_answer-cost v.execution sql (validate_static P v.catalog sql).tables
        (in_transaction P (clamp_timeout_ms v.execution none) (explain_prefix ⧺ strip sql)
          sent).outcome
        (in_transaction P (clamp_timeout_ms v.execution none) (explain_prefix ⧺ strip sql)
          sent).sent
        h

  -- A query whose estimated cost is above the ceiling never passes validation.
  pub validate-cost :
      (v : SqlValidator P) (sql : String) (sent : Sent)
      → (validate P v sql sent).result.valid ≡ true
      → over_ceiling P v.execution (validate P v sql sent).result.estimated_cost ≡ false
  unfolding validate
  validate-cost v sql sent h = after_static-cost v sql sent _ refl h

  -- The plan that the database made of the text, without running it, and what it costs.
  abbrev pub IsPlanned : SqlValidator P → String → Sent → Option P.Float → Type 0
  IsPlanned v sql sent cost =
      (fetched : Fetched P.Float) × ((in_transaction P (clamp_timeout_ms v.execution none)
          (explain_prefix ⧺ strip sql) sent).outcome
        ≡ done fetched)
      × (cost ≡ (read_plan fetched.rows).cost)

  judge_plan-cost :
      (e : ExecutionSettings P.Float) (sql : String) (tables : List String) (plan : Plan P.Float)
      → (judge_plan P e sql tables plan).estimated_cost ≡ plan.cost
  unfolding judge_plan
  judge_plan-cost e sql tables plan = elim (Bool-cases (over_ceiling P e plan.cost)) [
    | inl over ↦ rw over refl
    | inr under ↦ rw under refl
  ]

  judge_answer-IsPlanned :
      (e : ExecutionSettings P.Float) (sql : String) (tables : List String) (o : Outcome P.Float)
      (sent : Sent)
      → (judge_answer P e sql tables o sent).result.valid ≡ true
      → (fetched : Fetched P.Float) × (o ≡ done fetched)
        × ((judge_answer P e sql tables o sent).result.estimated_cost
            ≡ (read_plan fetched.rows).cost)
  unfolding judge_answer
  judge_answer-IsPlanned e sql tables (failed exc) sent h = absurd (false≢true h)
  judge_answer-IsPlanned e sql tables (done fetched) sent h =
      (fetched, refl, judge_plan-cost e sql tables (read_plan fetched.rows))

  after_static-IsPlanned :
      (v : SqlValidator P) (sql : String) (sent : Sent) (b : Bool)
      → (validate_static P v.catalog sql).valid ≡ b
      → (after_static P v sql sent b).result.valid ≡ true
      → IsPlanned v sql sent (after_static P v sql sent b).result.estimated_cost
  unfolding after_static ask_planner
  after_static-IsPlanned v sql sent false e h = absurd (false≢true (sym e ∙ h))
  after_static-IsPlanned v sql sent true e h =
      judge_answer-IsPlanned v.execution sql (validate_static P v.catalog sql).tables _ _ h

  -- A text that `validate` accepts is one statement with an allowed root, no forbidden or locking node
  -- at any depth and no INTO at its root, whose names resolve against the catalog; the database
  -- planned it, and the cost that the plan gives is not above the ceiling.
  pub validate-IsAccepted :
      (v : SqlValidator P) (sql : String) (sent : Sent)
      → (validate P v sql sent).result.valid ≡ true
      → FirstFailure P v.catalog sql none
        × IsPlanned v sql sent (validate P v sql sent).result.estimated_cost
        × (over_ceiling P v.execution (validate P v sql sent).result.estimated_cost ≡ false)
  unfolding validate
  validate-IsAccepted v sql sent h = (
    valid-IsAccepted P v.catalog sql (validate-valid_static v sql sent h),
    after_static-IsPlanned v sql sent _ refl h,
    validate-cost v sql sent h,
  )
