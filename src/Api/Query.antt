-- ===== src/Api/Query.antt =====
-- api/query.py and api/schemas.py: one question, answered in one body or as a stream of events.
pub mod Stream
pub mod Agreement
pub mod Drain
pub mod Effects
use mcp_text_to_sql_agent.Prelude.{
  ℕ, ℤ, String, Bool, true, false, Option, none, some, List, [], ◌∷◌, ◌++◌, map, length,
  if◌then◌else◌,
}
use mcp_text_to_sql_agent.Platform.{Platform, Value}
use mcp_text_to_sql_agent.Exceptions.{sql_validation_error, is_instance}
use mcp_text_to_sql_agent.Answering.{
  Reply, returned, threw, Usage, Candidate, QuestionAnswerer, candidate,
}
use mcp_text_to_sql_agent.Execution.Audit.{Caller}
use mcp_text_to_sql_agent.Execution.Executor.{
  SqlExecutor, QueryResult, World, Result, ok, err, execute, explain,
}
use mcp_text_to_sql_agent.Api.Errors.{
  internal_error, generic_failure, sql_validation_failed, published,
}
use mcp_text_to_sql_agent.Api.Handlers.{Failure, domain, api_error, unhandled}

pub record QueryOptions : Type 0 where
  pub max_rows : Option ℤ
  pub timeout_ms : Option ℤ
  pub explain_only : Bool

pub record QueryRequest : Type 0 where
  pub question : String
  pub stream : Bool
  pub options : QueryOptions

pub record QueryStep (Float : Type 0) : Type 0 where
  pub stage : String
  pub duration_ms : Float
  pub status : String

pub record Answer (P : Platform) : Type 0 where
  pub candidate : Candidate
  pub result : Option (QueryResult P)
  pub steps : List (QueryStep P.Float)

-- `ServerSentEvent`, by its name, with its data.
pub data ServerSentEvent (P : Platform) : Type 0 where
  stage : (stage status : String) → ServerSentEvent P
  sql : (sql : String) (attempt : ℕ) → ServerSentEvent P
  rows : List String → List (List (Value P.Float)) → (truncated : Bool) → ServerSentEvent P
  finished :
      (row_count : ℕ) (executed : Bool) → List (QueryStep P.Float) → Usage → ServerSentEvent P
  error : (code message request_id : String) → ServerSentEvent P

abbrev pub validation_failed_message : String
validation_failed_message = "the generated query did not pass validation"

-- The keyword arguments that a call of the executor leaves out have their defaults.
abbrev pub caller_of : Option String → Option String → Caller
caller_of question request_id = record {
  question = question;
  request_id = request_id;
  trace_id = none;
  session_id = none;
  validation_attempts = 1;
}

-- `0 if answer.result is None else answer.result.row_count`, and the like.
abbrev pub row_count_of : {P : Platform} → Option (QueryResult P) → ℕ
row_count_of none = 0
row_count_of (some result) = result.row_count

abbrev pub is_some : {A : Type 0} → Option A → Bool
is_some none = false
is_some (some a) = true

-- `getattr(usage, "input_tokens", 0) or 0`, and the output tokens.
abbrev pub usage_of : Option Usage → Usage
usage_of none = record { input_tokens = 0; output_tokens = 0 }
usage_of (some usage) = usage

abbrev pub reply_of : {A : Type 0} → Result A → Reply A
reply_of (ok a) = returned a
reply_of (err e) = threw (domain e)

module _ (P : Platform) where
  -- What `_answer` has done by its end: the events observed, its outcome, and the world.
  pub record Work : Type 0 where
    pub events : List (ServerSentEvent P)
    pub reply : Reply (Answer P)
    pub world : World

-- `since n` is the duration of the phase that the n-th call of `_timed` measures.
module _ (P : Platform) (since : ℕ → P.Float) (answerer : QuestionAnswerer)
    (x : SqlExecutor P) where
  -- The step that `_timed` appends when the awaited call returns.
  unfoldable pub timed : List (QueryStep P.Float) → String → List (QueryStep P.Float)
  timed steps name =
      steps ++ record { stage = name; duration_ms = since (length steps); status = "ok" } ∷ []

  -- The end of `_answer` with `explain_only`.
  unfoldable pub after_explain :
      Candidate
      → List (ServerSentEvent P)
      → List (QueryStep P.Float)
      → Result (Unit {0}) × World
      → Work P
  unfolding timed
  after_explain c events steps (err e, w) = record {
    events = events;
    reply = threw (domain e);
    world = w;
  }
  after_explain c events steps (ok done, w) = record {
    events = events ++ stage "validate" "ok" ∷ [];
    reply = returned (record { candidate = c; result = none; steps = timed steps "validate" });
    world = w;
  }

  -- The end of `_answer` without it.
  unfoldable pub after_execute :
      Candidate
      → List (ServerSentEvent P)
      → List (QueryStep P.Float)
      → Result (QueryResult P) × World
      → Work P
  unfolding timed
  after_execute c events steps (err e, w) = record {
    events = events;
    reply = threw (domain e);
    world = w;
  }
  after_execute c events steps (ok result, w) = record {
    events = events ++ stage "execute" "ok" ∷ rows result.columns result.rows result.truncated ∷ [];
    reply =
        returned (record { candidate = c; result = some result; steps = timed steps "execute" });
    world = w;
  }

  -- `_answer` once it has a candidate.
  unfoldable pub with_candidate :
      QueryRequest → String → Candidate → List (ServerSentEvent P) → Bool → World → Work P
  unfolding after_explain after_execute timed
  with_candidate request request_id c events true w =
      after_explain c events (timed [] "answer")
        (explain P x (caller_of none none) c.sql request.options.timeout_ms w)
  with_candidate request request_id c events false w = after_execute c events (timed [] "answer") (
      execute P x (caller_of (some request.question) (some request_id)) c.sql
        (record { max_rows = request.options.max_rows; timeout_ms = request.options.timeout_ms }) w)

  unfoldable pub after_candidate :
      QueryRequest → String → List (ServerSentEvent P) → Reply Candidate → World → Work P
  unfolding with_candidate
  after_candidate request request_id events (threw f) w = record {
    events = events;
    reply = threw f;
    world = w;
  }
  after_candidate request request_id events (returned c) w =
      with_candidate request request_id c (events ++ sql c.sql 1 ∷ []) request.options.explain_only
        w

  -- `QueryService._answer`, with its observer.
  unfoldable pub answer_question : QueryRequest → String → World → Work P
  unfolding after_candidate
  answer_question request request_id w =
      let composed = candidate answerer request.question in
      after_candidate request request_id (map (λ name. stage name "ok") composed.0) composed.1 w

  -- The terminal event that `_produce` pushes for a failure.
  unfoldable pub error_event : String → Failure → ServerSentEvent P
  error_event request_id (domain exc) =
      if is_instance exc sql_validation_error
      then error sql_validation_failed.code validation_failed_message request_id
      else error (published exc).error.code (published exc).message request_id
  error_event request_id (api_error e message) = error e.code message request_id
  error_event request_id unhandled = error internal_error.code generic_failure request_id

  -- And for an answer.
  unfoldable pub done_event : Answer P → ServerSentEvent P
  done_event answer =
      finished (row_count_of answer.result) (is_some answer.result) answer.steps
        (usage_of answer.candidate.usage)

  unfoldable pub terminal_event : String → Reply (Answer P) → ServerSentEvent P
  unfolding error_event done_event
  terminal_event request_id (threw f) = error_event request_id f
  terminal_event request_id (returned answer) = done_event answer

  -- `_produce`: the queue it fills, of events and the final None, and the world it leaves.
  unfoldable pub produce : QueryRequest → String → World → List (Option (ServerSentEvent P)) × World
  unfolding answer_question terminal_event
  produce request request_id w =
      let work = answer_question request request_id w in
      (map some work.events ++ some (terminal_event request_id work.reply) ∷ none ∷ [], work.world)

  -- The route without `stream`: what it raises for a failure of `answer`.
  unfoldable pub raised_by_route : Failure → Failure
  raised_by_route (domain exc) =
      if is_instance exc sql_validation_error
      then api_error sql_validation_failed validation_failed_message
      else domain exc
  raised_by_route (api_error e message) = api_error e message
  raised_by_route unhandled = unhandled
