-- ===== src/Api/Errors.antt =====
-- api/errors.py: the published codes, and what of a failure a caller may read.
pub mod Laws
use mcp_text_to_sql_agent.Prelude.{
  ℕ, String, Bool, ◌&&◌, ◌||◌, ◌==◌, nat_eq, if◌then◌else◌, Option, none, some,
}
use mcp_text_to_sql_agent.Exceptions.{
  DomainError, statement_timeout_error, permission_denied_error, sql_validation_error,
  llm_quota_exceeded_error, llm_unavailable_error, llm_error, retrieval_error, configuration_error,
  is_instance, message_of,
}

pub record ErrorCode : Type 0 where
  pub status : ℕ
  pub code : String

abbrev pub invalid_request : ErrorCode
invalid_request = record { status = 400; code = "invalid_request" }

abbrev pub query_timeout : ErrorCode
query_timeout = record { status = 408; code = "query_timeout" }

abbrev pub payload_too_large : ErrorCode
payload_too_large = record { status = 413; code = "payload_too_large" }

abbrev pub sql_validation_failed : ErrorCode
sql_validation_failed = record { status = 422; code = "sql_validation_failed" }

abbrev pub ambiguous_question : ErrorCode
ambiguous_question = record { status = 422; code = "ambiguous_question" }

abbrev pub rate_limited : ErrorCode
rate_limited = record { status = 429; code = "rate_limited" }

abbrev pub internal_error : ErrorCode
internal_error = record { status = 500; code = "internal_error" }

abbrev pub llm_unavailable : ErrorCode
llm_unavailable = record { status = 502; code = "llm_unavailable" }

abbrev pub database_unavailable : ErrorCode
database_unavailable = record { status = 503; code = "database_unavailable" }

abbrev pub not_found : ErrorCode
not_found = record { status = 404; code = "not_found" }

abbrev pub method_not_allowed : ErrorCode
method_not_allowed = record { status = 405; code = "method_not_allowed" }

abbrev pub generic_failure : String
generic_failure = "the server could not complete this request"

-- `_BY_STATUS.get(status, ErrorCode(status, "request_failed"))`
unfoldable pub code_by_status : ℕ → ErrorCode
code_by_status status =
    if nat_eq status 400
    then invalid_request
    else if nat_eq status 404
    then not_found
    else if nat_eq status 405
    then method_not_allowed
    else if nat_eq status 408
    then query_timeout
    else if nat_eq status 413
    then payload_too_large
    else if nat_eq status 429
    then rate_limited
    else if nat_eq status 503
    then database_unavailable
    else record { status = status; code = "request_failed" }

unfoldable pub code_for : DomainError → ErrorCode
unfolding is_instance
code_for exc =
    if is_instance exc statement_timeout_error
    then query_timeout
    else if is_instance exc permission_denied_error
    then sql_validation_failed
    else if is_instance exc sql_validation_error
    then sql_validation_failed
    else if is_instance exc llm_quota_exceeded_error
    then rate_limited
    else if is_instance exc llm_unavailable_error || is_instance exc llm_error
    then llm_unavailable
    else if is_instance exc retrieval_error
    then ambiguous_question
    else if is_instance exc configuration_error
    then internal_error
    else internal_error

-- `error is INTERNAL_ERROR`: no other published code has its status.
unfoldable pub is_internal : ErrorCode → Bool
is_internal error = nat_eq error.status internal_error.status

-- The code and the message that a caller sees, for one failure.
pub record Publication : Type 0 where
  pub error : ErrorCode
  pub message : String

unfoldable pub published : DomainError → Publication
unfolding code_for is_internal message_of
published exc =
    let error = code_for exc in
    if is_internal error
    then record { error = internal_error; message = generic_failure }
    else record { error = error; message = message_of exc }

-- `_http_message`: fixed text for each status.
unfoldable pub http_message : ℕ → String
http_message status =
    if nat_eq status 404
    then "no route matches this path"
    else if nat_eq status 405
    then "that method is not allowed on this path"
    else "the request could not be completed"
