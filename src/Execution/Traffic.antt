-- ===== src/Execution/Traffic.antt =====
-- execution/executor.py: what a call of `execute` or `explain` sends to the database, and that the
-- two calls judge a query alike.
use mcp_text_to_sql_agent.Prelude.{
  ℕ, String, ◌≡◌, refl, ◌∙◌, ap, subst, Bool, true, false, ◌⊎◌, inl, inr, Option, some, List, ◌++◌,
  take, arith, ℤ,
}
use mcp_text_to_sql_agent.Platform.{Platform, Action, Outcome, done, failed}
use mcp_text_to_sql_agent.Settings.{clamp_rows, clamp_timeout_ms}
use mcp_text_to_sql_agent.Database.{Sent}
use mcp_text_to_sql_agent.Database.Laws.{transaction_actions, in_transaction-IsTransaction}
use mcp_text_to_sql_agent.Validation.Result.{ValidationResult}
use mcp_text_to_sql_agent.Validation.Validator.{validate}
use mcp_text_to_sql_agent.Validation.Planning.{planning_actions, validate-PlansOnly}
use mcp_text_to_sql_agent.Execution.RowLimit.{
  Bounded, RowLimit, bounded, refused, bound_statement, apply_row_limit,
}
use mcp_text_to_sql_agent.Execution.Audit.{Caller}
use mcp_text_to_sql_agent.Execution.Runs.{apply_row_limit-bounded}
use mcp_text_to_sql_agent.Execution.Executor.{
  AuditFields, SqlExecutor, World, Limits, record_call, report_explained, explain, finish,
  run_bounded, after_validation, execute,
}

module _ (P : Platform) (x : SqlExecutor P) (caller : Caller) where
  -- The query transaction: the timeout of the call, and a statement with its limit set.
  abbrev pub query_actions : Limits → P.Expr → List Action
  query_actions limits e =
      transaction_actions (clamp_timeout_ms x.settings limits.timeout_ms)
        (bound_statement P e (clamp_rows x.settings limits.max_rows)).sql

  -- After what was sent before: nothing, or a prefix of the query transaction of a text that
  -- validation accepted.
  abbrev pub QueriesOnly : String → Limits → Bool → Sent → Sent → Type 0
  QueriesOnly sql limits valid before after =
      (after ≡ before)
      ⊎ ((valid ≡ true)
          × ((e : P.Expr) × (m : ℕ) × (P.parse_one sql ≡ some e)
              × (after ≡ before ++ take m (query_actions limits e))))

  record_call-sent :
      (fields : AuditFields) (w : World) → (record_call P x caller fields w).sent ≡ w.sent
  unfolding record_call
  record_call-sent fields w = ground arith

  finish-sent :
      (cost : Option P.Float) (b : Bounded) (o : Outcome P.Float) (w : World)
      → (finish P x caller cost b o w).1.sent ≡ w.sent
  unfolding finish
  finish-sent cost b (failed exc) w = record_call-sent _ w
  finish-sent cost b (done fetched) w = record_call-sent _ w

  run_bounded-sent :
      (sql : String) (limits : Limits) (cost : Option P.Float) (l : RowLimit) (w : World)
      → apply_row_limit P sql (clamp_rows x.settings limits.max_rows) ≡ l
      → QueriesOnly sql limits true w.sent
          (run_bounded P x caller (clamp_timeout_ms x.settings limits.timeout_ms) cost l w).1.sent
  unfolding run_bounded
  run_bounded-sent sql limits cost (refused message) w h = inl refl
  run_bounded-sent sql limits cost (bounded b) w h =
      let (e, parsed, same) = apply_row_limit-bounded P sql _ b h in
      let timeout = clamp_timeout_ms x.settings limits.timeout_ms in
      let (m, sent) = (in_transaction-IsTransaction P timeout b.sql w.sent).0 in
      inr (
        refl,
        (
          e,
          m,
          parsed,
          finish-sent cost b _ _
              ∙ sent
              ∙ ap (λ (s : Bounded). w.sent ++ take m (transaction_actions timeout s.sql)) same,
        ),
      )

  after_validation-sent :
      (sql : String) (limits : Limits) (v : ValidationResult P.Float) (valid : Bool) (w : World)
      → QueriesOnly sql limits valid w.sent
          (after_validation P x caller sql limits v valid w).1.sent
  unfolding after_validation
  after_validation-sent sql limits v false w = inl (record_call-sent _ w)
  after_validation-sent sql limits v true w = run_bounded-sent sql limits v.estimated_cost _ w refl

  -- Whatever the model wrote and whatever the database answers, `execute` sends a prefix of the
  -- planning transaction and then, only if validation accepted the text, a prefix of one
  -- transaction that runs the statement with its limit set, under the clamped timeout.
  pub execute-sent :
      (sql : String) (limits : Limits) (w : World)
      → (n : ℕ) × QueriesOnly sql limits
          (validate P x.validator sql w.sent).result.valid
          (w.sent ++ take n (planning_actions P x.validator sql))
          (execute P x caller sql limits w).1.sent
  unfolding execute
  execute-sent sql limits w =
      let (n, planned) = (validate-PlansOnly P x.validator sql w.sent).0 in
      (
        n,
        subst
            (λ s.
              QueriesOnly sql limits (validate P x.validator sql w.sent).result.valid s
                (after_validation P x caller sql limits (validate P x.validator sql w.sent).result
                  (validate P x.validator sql w.sent).result.valid
                  (record w { sent = (validate P x.validator sql w.sent).sent })).1.sent)
            planned (after_validation-sent sql limits _ _ _),
      )

  report-sent :
      (sql : String) (v : ValidationResult P.Float) (valid : Bool) (w : World)
      → (report_explained P x caller sql v valid w).1.sent ≡ w.sent
  unfolding report_explained
  report-sent sql v true w = record_call-sent _ w
  report-sent sql v false w = record_call-sent _ w

  -- `explain` sends a prefix of the planning transaction, and nothing else.
  pub explain-sent :
      (sql : String) (timeout_ms : Option ℤ) (w : World)
      → (n : ℕ) × ((explain P x caller sql timeout_ms w).1.sent
          ≡ w.sent ++ take n (planning_actions P x.validator sql))
  unfolding explain
  explain-sent sql timeout_ms w =
      let (n, planned) = (validate-PlansOnly P x.validator sql w.sent).0 in
      (n, report-sent sql _ _ _ ∙ planned)
