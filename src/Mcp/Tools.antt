-- ===== src/Mcp/Tools.antt =====
-- mcp_servers/common.py: the dispatch of a tool call, and what an agent reads of a failure.
pub mod Dispatch
use mcp_text_to_sql_agent.Prelude.{
  String, ◌==◌, Bool, true, false, not, ◌||◌, Option, none, some, List, [], ◌∷◌, if◌then◌else◌,
}
use mcp_text_to_sql_agent.Exceptions.{
  DomainError, raised, sql_validation, unknown_table, statement_timeout_error,
  permission_denied_error, unknown_table_error, sql_validation_error,
  embedding_model_mismatch_error, profiling_error, retrieval_error, execution_error, is_instance,
  message_of,
}

abbrev pub generic_failure : String
generic_failure = "the server could not complete this call"

-- `exc.error_type`, which only a validation error has.
abbrev pub own_error_type : DomainError → String
own_error_type (sql_validation error_type message identifier) = error_type
own_error_type _ = ""

-- `_error_type`
unfoldable pub error_type : DomainError → String
unfolding is_instance
error_type exc =
    if is_instance exc statement_timeout_error
    then "statement_timeout"
    else if is_instance exc permission_denied_error
    then "permission_denied"
    else if is_instance exc unknown_table_error
    then "table_not_found"
    else if is_instance exc sql_validation_error
    then own_error_type exc
    else if is_instance exc embedding_model_mismatch_error
    then "connection_failed"
    else if is_instance exc profiling_error || is_instance exc retrieval_error
    then "invalid_arguments"
    else if is_instance exc execution_error
    then "execution_failed"
    else "internal_error"

-- A payload: the keys of `_failed`, a None among them being dropped, or what a handler returned,
-- with the value of its key `ok`, if it has one.
pub data Payload (Json : Type 0) : Type 0 where
  failed : (error_type message : String) (identifier suggestion : Option String) → Payload Json
  handled : (ok : Option Bool) → Json → Payload Json

-- A key that is set only if its value is not empty.
abbrev pub if_given : Option String → Option String
if_given none = none
if_given (some s) = if s == "" then none else some s

-- What a handler returns or raises.
pub data Handled (Json : Type 0) : Type 0 where
  returned : (ok : Option Bool) → Json → Handled Json
  domain : DomainError → Handled Json
  unexpected : Handled Json

-- A `ValidationError`: its message, and the joined path, None if it is empty.
pub record Violation : Type 0 where
  pub message : String
  pub path : Option String

-- What `jsonschema.validate` does: it returns, raises a `ValidationError`, or raises anything else, as
-- it does for a schema that is none.
pub data Checked : Type 0 where
  passes : Checked
  violates : Violation → Checked
  check_raises : Checked

-- `isError`, the text of the content, and the payload.
pub record CallResult (Json : Type 0) : Type 0 where
  pub is_error : Bool
  pub text : String
  pub payload : Payload Json

-- `check` is `jsonschema.validate` with the tool's `input_schema`.
pub record ToolSpec (Arguments Json : Type 0) : Type 0 where
  pub name : String
  pub check : Arguments → Checked
  pub handler : Arguments → Handled Json

module _ {Json : Type 0} where
  -- `error_payload` of an exception of the program's own, failed.
  unfoldable pub error_payload : DomainError → Payload Json
  unfolding error_type
  error_payload (sql_validation type message identifier) =
      failed type message (if_given identifier) none
  error_payload (unknown_table table suggestion message) =
      failed (error_type (unknown_table table suggestion message)) message (some table)
        (if_given suggestion)
  error_payload (raised c message) = failed (error_type (raised c message)) message none none

  -- The `try` around the handler.
  unfoldable pub after_handler : Handled Json → Payload Json
  unfolding error_payload
  after_handler (returned ok json) = handled ok json
  after_handler (domain exc) = error_payload exc
  after_handler unexpected = failed "internal_error" generic_failure none none

  -- `not payload.get("ok", False)`
  abbrev pub is_error_of : Payload Json → Bool
  is_error_of (failed type message identifier suggestion) = not false
  is_error_of (handled none json) = not false
  is_error_of (handled (some ok) json) = not ok

  abbrev pub with_text : Payload Json → Option String → Option (CallResult Json)
  with_text payload none = none
  with_text payload (some text) =
      some (record { is_error = is_error_of payload; text = text; payload = payload })

  -- `to_call_result`; `dumps` is `json.dumps(payload, indent=2, default=str)`, which may raise.
  unfoldable pub to_call_result :
      (Payload Json → Option String) → Payload Json → Option (CallResult Json)
  to_call_result dumps payload = with_text payload (dumps payload)

  unfoldable pub lifted :
      (Payload Json → Option String) → Option (Payload Json) → Option (CallResult Json)
  unfolding to_call_result
  lifted dumps none = none
  lifted dumps (some payload) = to_call_result dumps payload

module _ {Arguments Json : Type 0} where
  -- The rest of `_dispatch`; none is an exception that goes on.
  unfoldable pub after_check : ToolSpec Arguments Json → Arguments → Checked → Option (Payload Json)
  unfolding after_handler
  after_check spec arguments (violates violation) =
      some (failed "invalid_arguments" violation.message violation.path none)
  after_check spec arguments passes = some (after_handler (spec.handler arguments))
  after_check spec arguments check_raises = none

  -- `by_name.get(tool_name)`: the last of a name counts, as in a dict.
  unfoldable pub find_tool :
      List (ToolSpec Arguments Json) → String → Option (ToolSpec Arguments Json)
  find_tool [] name = none
  find_tool (spec ∷ specs) name = elim (find_tool specs name) [
    | some later ↦ some later
    | none ↦ if spec.name == name then some spec else none
  ]

  abbrev pub after_find :
      (Payload Json → Option String)
      → Arguments
      → Option (ToolSpec Arguments Json)
      → Option (CallResult Json)
  after_find dumps arguments none = none
  after_find dumps arguments (some spec) =
      lifted dumps (after_check spec arguments (spec.check arguments))

  -- `call_tool`, by `_dispatch`; none is an exception: the ValueError for a tool that there is not,
  -- or one of `jsonschema.validate` or of `json.dumps`.
  unfoldable pub call_tool :
      (Payload Json → Option String)
      → List (ToolSpec Arguments Json)
      → String
      → Arguments
      → Option (CallResult Json)
  unfolding find_tool after_check lifted
  call_tool dumps specs name arguments = after_find dumps arguments (find_tool specs name)
