-- ===== src/Execution/Runs.antt =====
-- execution/executor.py: what a result of `execute` says about the run that gave it.
use mcp_text_to_sql_agent.Prelude.{
  subst, ℕ, ◌+◌, ◌≤◌, String, ◌≡◌, refl, Bool, true, false, Option, none, some, arith,
}
use mcp_text_to_sql_agent.Platform.{Platform, run, Fetched, Outcome, done, failed}
use mcp_text_to_sql_agent.Settings.{clamp_rows}
use mcp_text_to_sql_agent.Database.{Sent, in_transaction}
use mcp_text_to_sql_agent.Database.Laws.{AnsweredBy, in_transaction-IsTransaction}
use mcp_text_to_sql_agent.Validation.Result.{ValidationResult}
use mcp_text_to_sql_agent.Validation.Validator.{validate}
use mcp_text_to_sql_agent.Execution.RowLimit.{
  effective_limit, Bounded, RowLimit, bounded, refused, existing_limit, bound_statement,
  apply_row_limit,
}
use mcp_text_to_sql_agent.Execution.Audit.{Caller}
use mcp_text_to_sql_agent.Execution.Executor.{
  SqlExecutor, QueryResult, World, ok, Limits, shape_result, finish, run_bounded, after_validation,
  execute,
}

module _ (P : Platform) where
  -- A result comes from a validated statement with its limit set, which the database answered.
  pub record IsRun (x : SqlExecutor P) (sql : String) (limits : Limits) (w : World)
      (r : QueryResult P) : Type 0 where
    pub valid : (validate P x.validator sql w.sent).result.valid ≡ true
    pub statement : P.Expr
    pub parsed : P.parse_one sql ≡ some statement
    pub fetched : Fetched P.Float
    pub before : Sent
    pub answered :
        P.answer before
          (run (bound_statement P statement (clamp_rows x.settings limits.max_rows)).sql)
        ≡ done fetched
    pub duration : P.Float
    pub cost : Option P.Float
    pub shaped :
        r
        ≡ shape_result P
            (bound_statement P statement (clamp_rows x.settings limits.max_rows))
            cost
            fetched
            duration

  finish-ok :
      (x : SqlExecutor P) (caller : Caller) (cost : Option P.Float) (b : Bounded)
      (o : Outcome P.Float) (w : World) (r : QueryResult P)
      → (finish P x caller cost b o w).0 ≡ ok r
      → (fetched : Fetched P.Float) × (o ≡ done fetched)
        × (r ≡ shape_result P b cost fetched (P.elapsed w.sent))
  unfolding finish
  finish-ok x caller cost b (failed exc) w r h = cc
  finish-ok x caller cost b (done fetched) w r h = (fetched, refl, cc)

  pub apply_row_limit-bounded :
      (sql : String) (n : ℕ) (b : Bounded)
      → apply_row_limit P sql n ≡ bounded b
      → (e : P.Expr) × (P.parse_one sql ≡ some e) × (b ≡ bound_statement P e n)
  unfolding apply_row_limit
  apply_row_limit-bounded sql n b h = ground arith

  module _ (x : SqlExecutor P) (caller : Caller) (sql : String) (limits : Limits) where
    abbrev cap : ℕ
    cap = clamp_rows x.settings limits.max_rows

    run_bounded-IsRun :
        (timeout : ℕ) (cost : Option P.Float) (l : RowLimit) (w : World) (r : QueryResult P)
        → apply_row_limit P sql cap ≡ l
        → (run_bounded P x caller timeout cost l w).0 ≡ ok r
        → (w' : World) → (validate P x.validator sql w'.sent).result.valid ≡ true
        → IsRun x sql limits w' r
    unfolding run_bounded
    run_bounded-IsRun timeout cost (refused message) w r limited h w' valid = absurd (cc h)
    run_bounded-IsRun timeout cost (bounded b) w r limited h w' valid =
        let (e, parsed, same) = apply_row_limit-bounded sql cap b limited in
        let (fetched, answer, shaped) = finish-ok x caller cost b _ _ r h in
        let (before, given) =
          subst (AnsweredBy P b.sql) answer
            (in_transaction-IsTransaction P timeout b.sql w.sent).1 in
        record {
          valid = valid;
          statement = e;
          parsed = parsed;
          fetched = fetched;
          before = before;
          answered = rw (← same) given;
          duration = P.elapsed (in_transaction P timeout b.sql w.sent).sent;
          cost = cost;
          shaped = rw (← same) shaped;
        }

    after_validation-IsRun :
        (v : ValidationResult P.Float) (valid : Bool) (w w' : World) (r : QueryResult P)
        → (validate P x.validator sql w'.sent).result.valid ≡ valid
        → (after_validation P x caller sql limits v valid w).0 ≡ ok r
        → IsRun x sql limits w' r
    unfolding after_validation
    after_validation-IsRun v false w w' r e h = absurd (cc h)
    after_validation-IsRun v true w w' r e h =
        run_bounded-IsRun _ v.estimated_cost (apply_row_limit P sql cap) w r refl h w' e

    -- A result of `execute` is the outcome of a run: the query passed validation in this very call,
    -- and its rows are what the database answered to the statement with its limit set.
    pub execute-IsRun :
        (w : World) (r : QueryResult P)
        → (execute P x caller sql limits w).0 ≡ ok r
        → IsRun x sql limits w r
    unfolding execute
    execute-IsRun w r h = after_validation-IsRun _ _ _ w r refl h

  -- No more than the query's own limit, if it has one.
  abbrev pub AtMostOwn : Option ℕ → ℕ → Type 0
  AtMostOwn none n = Unit
  AtMostOwn (some own) n = n ≤ own

  effective_limit-AtMostOwn :
      (own : Option ℕ) (n : ℕ) → (effective_limit own n ≤ n) × AtMostOwn own (effective_limit own n)
  effective_limit-AtMostOwn none n = (omega arith, tt)
  effective_limit-AtMostOwn (some own) n = (omega arith, omega arith)

  -- Every branch of the row limit: never above the cap, at most the query's own limit, and the
  -- statement asks for one row more.
  pub bound_statement_bounds :
      (e : P.Expr) (n : ℕ)
      → ((bound_statement P e n).effective ≤ n)
        × AtMostOwn (existing_limit P e) (bound_statement P e n).effective
        × ((bound_statement P e n).sql ≡ P.sql (P.limit e ((bound_statement P e n).effective + 1)))
  unfolding bound_statement
  bound_statement_bounds e n =
      let (low, within) = effective_limit-AtMostOwn (existing_limit P e) n in (low, within, refl)
