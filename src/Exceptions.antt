-- ===== src/Exceptions.antt =====
-- core/exceptions.py: the hierarchy of the errors that the program raises deliberately.
pub mod Hierarchy
use mcp_text_to_sql_agent.Prelude.{
  ℕ, zero, suc, String, Bool, Option, none, some, List, [], ◌∷◌, any, ◌==◌,
}

-- One constructor for each class; `UnanswerableQuestionError` is that of generation/generator.py.
pub data ErrorClass : Type 0 where
  text_to_sql_error configuration_error : ErrorClass
  llm_error llm_unavailable_error llm_quota_exceeded_error llm_response_error : ErrorClass
  unanswerable_question_error : ErrorClass
  retrieval_error embedding_model_mismatch_error : ErrorClass
  sql_validation_error : ErrorClass
  execution_error statement_timeout_error permission_denied_error : ErrorClass
  profiling_error unknown_table_error : ErrorClass
  benchmark_error artifact_integrity_error unsafe_archive_error : ErrorClass
  unsafe_identifier_error conversion_error : ErrorClass
  agent_error budget_exhausted_error : ErrorClass

-- The class that a class statement names in its brackets.
unfoldable pub base : ErrorClass → Option ErrorClass
base text_to_sql_error = none
base configuration_error = some text_to_sql_error
base llm_error = some text_to_sql_error
base llm_unavailable_error = some llm_error
base llm_quota_exceeded_error = some llm_unavailable_error
base llm_response_error = some llm_error
base unanswerable_question_error = some llm_response_error
base retrieval_error = some text_to_sql_error
base embedding_model_mismatch_error = some retrieval_error
base sql_validation_error = some text_to_sql_error
base execution_error = some text_to_sql_error
base statement_timeout_error = some execution_error
base permission_denied_error = some execution_error
base profiling_error = some text_to_sql_error
base unknown_table_error = some profiling_error
base benchmark_error = some text_to_sql_error
base artifact_integrity_error = some benchmark_error
base unsafe_archive_error = some benchmark_error
base unsafe_identifier_error = some benchmark_error
base conversion_error = some benchmark_error
base agent_error = some text_to_sql_error
base budget_exhausted_error = some agent_error

-- `type(exc).__name__`
unfoldable pub class_name : ErrorClass → String
class_name text_to_sql_error = "TextToSQLError"
class_name configuration_error = "ConfigurationError"
class_name llm_error = "LLMError"
class_name llm_unavailable_error = "LLMUnavailableError"
class_name llm_quota_exceeded_error = "LLMQuotaExceededError"
class_name llm_response_error = "LLMResponseError"
class_name unanswerable_question_error = "UnanswerableQuestionError"
class_name retrieval_error = "RetrievalError"
class_name embedding_model_mismatch_error = "EmbeddingModelMismatchError"
class_name sql_validation_error = "SQLValidationError"
class_name execution_error = "ExecutionError"
class_name statement_timeout_error = "StatementTimeoutError"
class_name permission_denied_error = "PermissionDeniedError"
class_name profiling_error = "ProfilingError"
class_name unknown_table_error = "UnknownTableError"
class_name benchmark_error = "BenchmarkError"
class_name artifact_integrity_error = "ArtifactIntegrityError"
class_name unsafe_archive_error = "UnsafeArchiveError"
class_name unsafe_identifier_error = "UnsafeIdentifierError"
class_name conversion_error = "ConversionError"
class_name agent_error = "AgentError"
class_name budget_exhausted_error = "BudgetExhaustedError"

-- The bases of a class, nearest first, `depth` steps up.
ancestors_from : ℕ → ErrorClass → List ErrorClass
unfolding base
ancestors_from zero c = []
ancestors_from (suc depth) c = elim (base c) [ none ↦ [] | some b ↦ b ∷ ancestors_from depth b ]

-- A class and its bases, nearest first. No class has more than three.
unfoldable pub mro : ErrorClass → List ErrorClass
unfolding ancestors_from
mro c = c ∷ ancestors_from 3 c

-- `issubclass`, by the name of the class; `isinstance` of a value asks it of the value's class.
unfoldable pub is_subclass : ErrorClass → ErrorClass → Bool
unfolding mro class_name
is_subclass c d = any (λ a. class_name a == class_name d) (mro c)

-- An instance. Two classes carry more than their message, and `message` is `str(exc)`.
pub data DomainError : Type 0 where
  raised : ErrorClass → String → DomainError
  sql_validation : (error_type message : String) → Option String → DomainError
  unknown_table : (table : String) → Option String → (message : String) → DomainError

unfoldable pub class_of : DomainError → ErrorClass
class_of (raised c message) = c
class_of (sql_validation error_type message identifier) = sql_validation_error
class_of (unknown_table table suggestion message) = unknown_table_error

unfoldable pub message_of : DomainError → String
message_of (raised c message) = message
message_of (sql_validation error_type message identifier) = message
message_of (unknown_table table suggestion message) = message

unfoldable pub is_instance : DomainError → ErrorClass → Bool
unfolding is_subclass class_of
is_instance e c = is_subclass (class_of e) c
