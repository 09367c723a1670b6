-- ===== src/Api/Query/Agreement.antt =====
-- api/query.py and api/errors.py: the stream and the plain response report a failure alike.
use mcp_text_to_sql_agent.Prelude.{ℕ, String, ◌≡◌, refl, true, Bool-cases, inl, inr}
use mcp_text_to_sql_agent.Platform.{Platform}
use mcp_text_to_sql_agent.Exceptions.{DomainError, sql_validation_error, is_instance}
use mcp_text_to_sql_agent.Answering.{QuestionAnswerer}
use mcp_text_to_sql_agent.Execution.Executor.{SqlExecutor}
use mcp_text_to_sql_agent.Api.Handlers.{Failure, domain, api_error, unhandled, Envelope, handle}
use mcp_text_to_sql_agent.Api.Query.{ServerSentEvent, error, error_event, raised_by_route}

module _ (P : Platform) (since : ℕ → P.Float) (answerer : QuestionAnswerer)
    (x : SqlExecutor P) where
  -- The event that says what an error response says.
  abbrev pub as_event : Envelope → ServerSentEvent P
  as_event e = error e.error.code e.message e.request_id

  -- Both response shapes have one error rendering: for every failure, the terminal event of the
  -- stream carries the code, the message and the request id of the error response that the same
  -- failure gets without streaming.
  pub error_event-agrees :
      (id : String) (f : Failure)
      → error_event P since answerer x id f
        ≡ as_event (handle id (raised_by_route P since answerer x f))
  unfolding error_event handle raised_by_route
  error_event-agrees id (api_error e message) = refl
  error_event-agrees id unhandled = refl
  error_event-agrees id (domain exc) = elim (Bool-cases (is_instance exc sql_validation_error)) [
    | inl e ↦ rw e
    | inr e ↦ rw e
  ]

  -- What a caller reads of a validation failure is the same for every one: its detail, which names
  -- parts of the schema, reaches neither response.
  pub validation-IsHidden :
      (id : String) (e e' : DomainError)
      → is_instance e sql_validation_error ≡ true
      → is_instance e' sql_validation_error ≡ true
      → (error_event P since answerer x id (domain e)
          ≡ error_event P since answerer x id (domain e'))
        × (handle id (raised_by_route P since answerer x (domain e))
            ≡ handle id (raised_by_route P since answerer x (domain e')))
  unfolding error_event raised_by_route
  validation-IsHidden id e e' h h' = rw (h, h') (refl, refl)
