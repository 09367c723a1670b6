-- ===== src/Execution/Bounds.antt =====
-- execution/executor.py: how many rows a caller gets, and what `truncated` means.
use native.Mathlib.Nat.{zero-min, min-zero, suc-min-suc, le_trans}
use mcp_text_to_sql_agent.Prelude.{
  zero, suc, ℕ, ◌+◌, ◌≤◌, ◌<◌, String, ◌≡◌, ◌↔◌, refl, sym, ◌∙◌, ap, true, Option, none, some, List,
  [], ◌∷◌, take, length, ltb, ◌&&◌, arith, min, length-take, pos, negsuc, ℤ, subst,
}
use mcp_text_to_sql_agent.Platform.{limit_node, literal, Platform, Value, run, Fetched, done}
use mcp_text_to_sql_agent.Settings.{InFieldRange, check_ceilings, clamp_rows}
use mcp_text_to_sql_agent.Settings.Bounds.{clamp_rows_bounds, AtMostAsked}
use mcp_text_to_sql_agent.Database.{Sent}
use mcp_text_to_sql_agent.Execution.RowLimit.{
  existing_limit, bound_statement, effective_limit, is_server_capped,
}
use mcp_text_to_sql_agent.Execution.Audit.{Caller}
use mcp_text_to_sql_agent.Execution.Executor.{
  SqlExecutor, QueryResult, World, ok, Limits, shape_result, execute,
}
use mcp_text_to_sql_agent.Execution.Runs.{execute-IsRun, bound_statement_bounds}

module _ {A : Type 0} where
  pub take-take : (m n : ℕ) (xs : List A) → take m (take n xs) ≡ take (min m n) xs
  take-take zero n xs = rw zero-min
  take-take (suc m) zero xs = rw min-zero
  take-take (suc m) (suc n) [] = rw suc-min-suc
  take-take (suc m) (suc n) (x ∷ xs) = rw suc-min-suc (ap (λ t. x ∷ t) (take-take m n xs))

-- The rows of a query whose answer without any limit is `rows`, under its own limit.
abbrev pub under_own_limit {ℓ} : {A : Type ℓ} → Option ℕ → List A → List A
under_own_limit none rows = rows
under_own_limit (some own) rows = take own rows

AtMostAsked-mono :
    (least : ℕ) {m n : ℕ} (asked : Option ℤ)
    → m ≤ n
    → AtMostAsked least asked n
    → AtMostAsked least asked m
AtMostAsked-mono least none h k = tt
AtMostAsked-mono least (some (pos asked)) h k = le_trans h k
AtMostAsked-mono least (some (negsuc asked)) h k = le_trans h k

module _ (P : Platform) where
  -- Under accepted settings a result has as many rows as it says and no more than its limit, and
  -- the limit exceeds neither the server's ceiling nor what the caller asked for, one row being
  -- the least that can be asked for.
  pub execute_row_bounds :
      (x : SqlExecutor P) (caller : Caller) (sql : String) (limits : Limits) (w : World)
      (r : QueryResult P)
      → InFieldRange x.settings
      → check_ceilings x.settings ≡ none
      → (execute P x caller sql limits w).0 ≡ ok r
      → (r.row_count ≡ length r.rows)
        × (r.row_count ≤ r.row_limit)
        × (r.row_limit ≤ x.settings.max_rows_ceiling)
        × AtMostAsked 1 limits.max_rows r.row_limit
  unfolding shape_result
  execute_row_bounds x caller sql limits w r range accepted h =
      let run_of = execute-IsRun P x caller sql limits w r h in
      let bounds =
        bound_statement_bounds P run_of.statement (clamp_rows x.settings limits.max_rows) in
      let clamped = clamp_rows_bounds x.settings limits.max_rows range accepted in
      rw run_of.shaped (
        refl,
        omega (arith, length-take {0} _ run_of.fetched.rows),
        le_trans bounds.0 clamped.1,
        AtMostAsked-mono 1 limits.max_rows bounds.0 clamped.2,
      )

  -- A result's rows and its `truncated`, from the rows that the statement has without any limit.
  module _ {A : Type 0} (cap : ℕ) (rows : List A) where
    take-own :
        (own : Option ℕ)
        → take (effective_limit own cap) (take (effective_limit own cap + 1) rows)
          ≡ take cap (under_own_limit own rows)
    take-own none = take-take _ _ rows ∙ ap (λ n. take n rows) (omega arith)
    take-own (some own) =
        take-take _ _ rows ∙ ap (λ n. take n rows) (omega arith) ∙ sym (take-take cap own rows)

    capped_iff :
        (own : Option ℕ)
        → ((ltb (effective_limit own cap) (length (take (effective_limit own cap + 1) rows))
              && is_server_capped own cap)
            ≡ true)
          ↔ (cap < length (under_own_limit own rows))
    capped_iff none = ground (arith, length-take (cap + 1) rows)
    capped_iff (some own) = ground (arith, length-take (min own cap + 1) rows, length-take own rows)

  -- The limit that a query itself has: none at all, or `LIMIT` with an integer that is not negative.
  abbrev pub HasLimit : P.Expr → Option ℕ → Type 0
  HasLimit e none = P.limit_arg e ≡ none
  HasLimit e (some n) =
      (node : P.Expr) × (P.limit_arg e ≡ some node)
      × (P.is_node node limit_node ≡ true)
      × (P.is_node (P.expression node) literal ≡ true)
      × (P.is_int (P.expression node) ≡ true)
      × (P.int_name (P.expression node) ≡ some (pos n))

  existing_limit-HasLimit :
      (e : P.Expr) (own : Option ℕ) → HasLimit e own → existing_limit P e ≡ own
  unfolding existing_limit
  existing_limit-HasLimit e none h = rw (h, existing_limit) refl
  existing_limit-HasLimit e (some n) (node, found, limits, is_literal, integer, named) =
      rw (found, limits, is_literal, integer, named, existing_limit) refl

  -- What a caller sees of a query that the parser reads, that has no limit or `LIMIT` with an integer,
  -- and that the database answers as `LIMIT` documents it: the first rows of the query's own answer,
  -- up to the cap, and `truncated` exactly if there are more.
  pub execute_truncated :
      (x : SqlExecutor P) (caller : Caller) (sql : String) (limits : Limits) (w : World)
      (r : QueryResult P) (e : P.Expr) (own : Option ℕ) (rows : List (List (Value P.Float)))
      → HasLimit e own
      → P.parse_one sql ≡ some e
      → ((k : ℕ) (before : Sent) (fetched : Fetched P.Float)
          → P.answer before (run (P.sql (P.limit e k))) ≡ done fetched
          → fetched.rows ≡ take k rows)
      → (execute P x caller sql limits w).0 ≡ ok r
      → (r.rows ≡ take (clamp_rows x.settings limits.max_rows) (under_own_limit own rows))
        × ((r.truncated ≡ true)
            ↔ (clamp_rows x.settings limits.max_rows < length (under_own_limit own rows)))
  unfolding shape_result bound_statement
  execute_truncated x caller sql limits w r e own rows limit parsed honours h =
      let run_of = execute-IsRun P x caller sql limits w r h in
      let cap = clamp_rows x.settings limits.max_rows in
      let same : run_of.statement ≡ e = cc (run_of.parsed, parsed) in
      let read = existing_limit-HasLimit e own limit in
      let got : run_of.fetched.rows ≡ take (effective_limit (existing_limit P e) cap + 1) rows =
        honours _ run_of.before run_of.fetched (
          subst
            (λ s. P.answer run_of.before (run (bound_statement P s cap).sql) ≡ done run_of.fetched)
            same run_of.answered) in
      rw (run_of.shaped, same, got, read) (take-own cap rows own, capped_iff cap rows own)
