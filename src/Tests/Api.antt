-- ===== src/Tests/Api.antt =====
-- src/api at the sample platform.
use mcp_text_to_sql_agent.Api.Query.Effects.{answer_question-AsksFor}
use mcp_text_to_sql_agent.Validation.Planning.{planning_actions}
use mcp_text_to_sql_agent.Api.Query.Drain.{
  Round, ready, quiet, drain, IsDelivered, produce-IsDelivered,
}
use mcp_text_to_sql_agent.Prelude.{
  take, All, ◌++◌, ℕ, ◌<◌, String, ◌≡◌, ◌⊎◌, refl, Bool, true, false, some, none, List, [], ◌∷◌,
  length,
}
use mcp_text_to_sql_agent.Exceptions.{
  DomainError, sql_validation, is_instance, sql_validation_error, mro, class_of, is_subclass,
  class_name,
}
use mcp_text_to_sql_agent.Answering.{candidate, returned, QuestionAnswerer}
use mcp_text_to_sql_agent.Api.Handlers.{domain, handle}
use mcp_text_to_sql_agent.Api.Admission.{
  admitted, refused, acquire, release, too_many, Server, Run, start, step, arrives, ends, drops,
  new_admission,
}
use mcp_text_to_sql_agent.Api.Admission.Cap.{IsCounted, taken, new_server, Run-cap}
use mcp_text_to_sql_agent.Api.Query.{
  QueryRequest, answer_question, terminal_event, produce, error_event, raised_by_route,
}
use mcp_text_to_sql_agent.Api.Query.Stream.{IsStream, produce-IsStream}
use mcp_text_to_sql_agent.Api.Query.Agreement.{as_event, error_event-agrees, validation-IsHidden}
use mcp_text_to_sql_agent.Tests.Sample.{validator, platform, executor, world, text}

abbrev answerer : QuestionAnswerer
answerer = record {
  Context = String;
  retrieve = λ question. returned "orders(id)";
  generate = λ question context. returned (record { sql = text; usage = none });
}

abbrev since : ℕ → ℕ
since n = n

abbrev request : QueryRequest
request = record {
  question = "which orders are there?";
  stream = true;
  options = record { max_rows = none; timeout_ms = none; explain_only = false };
}

abbrev unknown_column : DomainError
unknown_column = sql_validation "unknown_identifier" "no such column custmer_id" (some "custmer_id")

abbrev two_statements : DomainError
two_statements = sql_validation "multiple_statements" "expected one statement" none

produce-IsStream_example :
    IsStream platform answerer request.question
      (terminal_event platform since answerer executor "r-1")
      false
      (answer_question platform since answerer executor request "r-1" world)
      (produce platform since answerer executor request "r-1" world).0
produce-IsStream_example = produce-IsStream platform since answerer executor request "r-1" world

error_event-agrees_example :
    error_event platform since answerer executor "r-1" (domain unknown_column)
    ≡ as_event platform since answerer executor
        (handle "r-1" (raised_by_route platform since answerer executor (domain unknown_column)))
error_event-agrees_example =
    error_event-agrees platform since answerer executor "r-1" (domain unknown_column)

unknown_column-IsValidation : is_instance unknown_column sql_validation_error ≡ true
unfolding is_instance is_subclass class_of mro class_name
unknown_column-IsValidation = refl

two_statements-IsValidation : is_instance two_statements sql_validation_error ≡ true
unfolding is_instance is_subclass class_of mro class_name
two_statements-IsValidation = refl

validation-IsHidden_example :
    (error_event platform since answerer executor "r-1" (domain unknown_column)
      ≡ error_event platform since answerer executor "r-1" (domain two_statements))
    × (handle "r-1" (raised_by_route platform since answerer executor (domain unknown_column))
        ≡ handle "r-1" (raised_by_route platform since answerer executor (domain two_statements)))
validation-IsHidden_example =
    validation-IsHidden platform since answerer executor "r-1" unknown_column two_statements
      unknown_column-IsValidation two_statements-IsValidation

-- A server with room for one question, after one that arrived, ended, and was followed by another.
-- Of two slots one has a request, and the stream that took the other was closed too early.
abbrev busy : Server
busy = record {
  admission = record { limit = 2; held = mcp_text_to_sql_agent.Prelude.pos 2 };
  in_flight = "second" ∷ [];
  dropped = 1;
}

one-Run : Run (new_server 2) (record {
  admission = record { limit = 2; held = mcp_text_to_sql_agent.Prelude.pos 1 };
  in_flight = "second" ∷ [];
  dropped = 0;
})
unfolding acquire release
one-Run =
    step _ _ _
      (step _ _ _
        (step _ _ _ (start (new_server 2)) (arrives (new_admission 2) _ "first" [] 0 refl))
        (ends _ "first" [] [] 0))
      (arrives _ _ "second" [] 0 refl)

busy-Run : Run (new_server 2) busy
unfolding acquire release
busy-Run =
    step _ _ _ (step _ _ _ one-Run (arrives _ _ "third" ("second" ∷ []) 0 refl))
      (drops _ "third" [] ("second" ∷ []) 0)

Run-cap_example :
    IsCounted 2 busy
    × (((2 < 2)
          × (acquire busy.admission
              ≡ admitted (record { limit = 2; held = mcp_text_to_sql_agent.Prelude.pos 3 })))
        ⊎ ((taken busy ≡ 2) × (acquire busy.admission ≡ refused (too_many busy.admission))))
Run-cap_example = Run-cap 2 busy busy-Run

-- The stages, a keepalive, and the SQL, after which the client hangs up.
abbrev rounds : List Round
rounds = ready ∷ ready ∷ quiet false ∷ ready ∷ quiet true ∷ []

produce-IsDelivered_example :
    IsDelivered rounds
      ((answer_question platform since answerer executor request "r-1" world).events
        ++ terminal_event platform since answerer executor "r-1"
            (answer_question platform since answerer executor request "r-1" world).reply
          ∷ [])
      (drain rounds (produce platform since answerer executor request "r-1" world).0)
produce-IsDelivered_example =
    produce-IsDelivered platform since answerer executor request "r-1" world rounds

abbrev asked_to_explain : QueryRequest
asked_to_explain = record {
  question = "which orders are there?";
  stream = false;
  options = record { max_rows = none; timeout_ms = none; explain_only = true };
}

answer_question-AsksFor_example :
    (n : ℕ) × ((answer_question platform since answerer executor asked_to_explain "r-1"
        world).world.sent
      ≡ take n (planning_actions platform validator text))
unfolding candidate
answer_question-AsksFor_example =
    answer_question-AsksFor platform since answerer executor asked_to_explain "r-1" world
