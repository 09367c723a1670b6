-- ===== src/Api/Handlers.antt =====
-- api/errors.py: `ApiError` and the exception handlers that `install` registers.
use mcp_text_to_sql_agent.Prelude.{String}
use mcp_text_to_sql_agent.Exceptions.{DomainError}
use mcp_text_to_sql_agent.Api.Errors.{ErrorCode, internal_error, generic_failure, published}

-- What may be raised while a request is served: an `ApiError`, an exception of the program's own
-- hierarchy, or any other.
pub data Failure : Type 0 where
  domain : DomainError → Failure
  api_error : ErrorCode → String → Failure
  unhandled : Failure

-- The body and the header of `envelope`, without `details`, which no error of a query has.
pub record Envelope : Type 0 where
  pub error : ErrorCode
  pub message : String
  pub request_id : String

-- The handler that answers a failure.
unfoldable pub handle : String → Failure → Envelope
handle request_id (api_error error message) = record {
  error = error;
  message = message;
  request_id = request_id;
}
handle request_id (domain exc) =
    let p = published exc in
    record { error = p.error; message = p.message; request_id = request_id }
handle request_id unhandled = record {
  error = internal_error;
  message = generic_failure;
  request_id = request_id;
}
