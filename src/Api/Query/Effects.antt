-- ===== src/Api/Query/Effects.antt =====
-- api/query.py: what a request makes the database do.
use mcp_text_to_sql_agent.Prelude.{
  ℕ, String, ◌≡◌, refl, Bool, true, false, List, ◌++◌, take, some, none,
}
use mcp_text_to_sql_agent.Platform.{Platform}
use mcp_text_to_sql_agent.Answering.{Reply, returned, threw, Candidate, QuestionAnswerer, candidate}
use mcp_text_to_sql_agent.Validation.Validator.{validate}
use mcp_text_to_sql_agent.Validation.Planning.{planning_actions}
use mcp_text_to_sql_agent.Execution.Executor.{
  SqlExecutor, QueryResult, World, Result, ok, err, Limits,
}
use mcp_text_to_sql_agent.Execution.Traffic.{QueriesOnly, explain-sent, execute-sent}
use mcp_text_to_sql_agent.Api.Query.{
  QueryRequest, QueryStep, ServerSentEvent, after_explain, after_execute, with_candidate,
  after_candidate, answer_question, caller_of,
}

module _ (P : Platform) (since : ℕ → P.Float) (answerer : QuestionAnswerer)
    (x : SqlExecutor P) where
  after_explain-world :
      (c : Candidate) (events : List (ServerSentEvent P)) (steps : List (QueryStep P.Float))
      (r : Result (Unit {0}) × World)
      → (after_explain P since answerer x c events steps r).world ≡ r.1
  unfolding after_explain
  after_explain-world c events steps (ok done, w) = refl
  after_explain-world c events steps (err e, w) = refl

  after_execute-world :
      (c : Candidate) (events : List (ServerSentEvent P)) (steps : List (QueryStep P.Float))
      (r : Result (QueryResult P) × World)
      → (after_execute P since answerer x c events steps r).world ≡ r.1
  unfolding after_execute
  after_execute-world c events steps (ok result, w) = refl
  after_execute-world c events steps (err e, w) = refl

  abbrev limits_of : QueryRequest → Limits
  limits_of request = record {
    max_rows = request.options.max_rows;
    timeout_ms = request.options.timeout_ms;
  }

  -- A prefix of the planning transaction was sent, and with `explain_only` nothing else; without
  -- it, a prefix of the query transaction too, if validation accepted the candidate.
  abbrev pub AsksOnly : QueryRequest → String → String → Bool → World → World → Type 0
  AsksOnly request id sql true before after =
      (n : ℕ) × (after.sent ≡ before.sent ++ take n (planning_actions P x.validator sql))
  AsksOnly request id sql false before after =
      (n : ℕ) × QueriesOnly P x (caller_of (some request.question) (some id)) sql
        (limits_of request) (validate P x.validator sql before.sent).result.valid
        (before.sent ++ take n (planning_actions P x.validator sql)) after.sent

  with_candidate-AsksOnly :
      (request : QueryRequest) (id : String) (c : Candidate) (events : List (ServerSentEvent P))
      (explain_only : Bool) (w : World)
      → AsksOnly request id c.sql explain_only w
          (with_candidate P since answerer x request id c events explain_only w).world
  unfolding with_candidate
  with_candidate-AsksOnly request id c events true w =
      rw after_explain-world
        (explain-sent P x (caller_of none none) c.sql request.options.timeout_ms w)
  with_candidate-AsksOnly request id c events false w =
      rw after_execute-world
        (execute-sent P x (caller_of (some request.question) (some id)) c.sql (limits_of request) w)

  -- What became of the question decides what the database is asked.
  abbrev pub AsksFor : QueryRequest → String → Reply Candidate → World → World → Type 0
  AsksFor request id (threw f) before after = after ≡ before
  AsksFor request id (returned c) before after =
      AsksOnly request id c.sql request.options.explain_only before after

  after_candidate-AsksFor :
      (request : QueryRequest) (id : String) (events : List (ServerSentEvent P))
      (r : Reply Candidate) (w : World)
      → AsksFor request id r w (after_candidate P since answerer x request id events r w).world
  unfolding after_candidate
  after_candidate-AsksFor request id events (threw f) w = refl
  after_candidate-AsksFor request id events (returned c) w =
      with_candidate-AsksOnly request id c _ request.options.explain_only w

  -- A request with `explain_only` never runs its query: the database is asked for a plan of the
  -- candidate at most. Without it the candidate runs at most once, limited, and only if validation
  -- accepted it; and a question that could not be answered changes nothing.
  pub answer_question-AsksFor :
      (request : QueryRequest) (id : String) (w : World)
      → AsksFor request id
          (candidate answerer request.question).1
          w
          (answer_question P since answerer x request id w).world
  unfolding answer_question
  answer_question-AsksFor request id w = after_candidate-AsksFor request id _ _ w
