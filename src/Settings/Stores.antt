-- ===== src/Settings/Stores.antt =====
-- core/settings.py: the settings of the database, of retrieval, of the agent loop and of the
-- benchmark loader, and all of them composed.
pub mod Loading
use mcp_text_to_sql_agent.Prelude.{
  ℕ, String, Bool, true, false, ◌&&◌, Option, none, some, List, ltb, leb, if◌then◌else◌, ◌==◌,
}
use mcp_text_to_sql_agent.Settings.{ExecutionSettings, ProfilingSettings, check_ceilings}
use mcp_text_to_sql_agent.Settings.Endpoint.{
  Network, Checked, accepted, configuration_error, field_error, and_then,
}
use mcp_text_to_sql_agent.Settings.Llm
use mcp_text_to_sql_agent.Settings.Llm.{LlmSettings, check_provider_requirements}
use mcp_text_to_sql_agent.Settings.Service
use mcp_text_to_sql_agent.Settings.Service.{ApiSettings, check_api}

pub record DatabaseSettings : Type 0 where
  pub database_url : Option String
  pub database_ro_url : Option String
  pub db_pool_min_size : ℕ
  pub db_pool_max_size : ℕ
  pub db_connect_timeout_ms : ℕ
  pub db_target_schema : String
  pub db_readonly_role : String

unfoldable pub database_in_range : DatabaseSettings → Bool
database_in_range s =
    leb 1 s.db_pool_min_size
    && leb s.db_pool_min_size 100
    && leb 1 s.db_pool_max_size
    && leb s.db_pool_max_size 100
    && leb 100 s.db_connect_timeout_ms
    && leb s.db_connect_timeout_ms 60000

-- `owner is not None and readonly is not None and owner == readonly`
unfoldable pub same_secret : Option String → Option String → Bool
same_secret (some owner) (some readonly) = owner == readonly
same_secret none readonly = false
same_secret (some owner) none = false

unfoldable pub check_pool_and_roles : DatabaseSettings → Checked
unfolding same_secret
check_pool_and_roles s =
    if ltb s.db_pool_max_size s.db_pool_min_size
    then configuration_error "DB_POOL_MAX_SIZE must be >= DB_POOL_MIN_SIZE"
    else if same_secret s.database_url s.database_ro_url
    then configuration_error
        "DATABASE_RO_URL must differ from DATABASE_URL -- the read-only role is the outermost containment boundary and cannot be the same role that owns the schema"
    else accepted

pub data EmbedderProvider : Type 0 where
  sentence_transformer hashing : EmbedderProvider

pub record RetrievalSettings : Type 0 where
  pub dataset : String
  pub embedder_provider : EmbedderProvider
  pub retriever_model : String
  pub retriever_local_files_only : Bool
  pub schema_sample_values : Bool
  pub schema_sample_count : ℕ
  pub schema_sample_max_chars : ℕ
  pub schema_sample_scan_limit : ℕ
  pub schema_extra_sensitive_columns : List String
  pub retrieval_top_k : ℕ
  pub hnsw_ef_search : ℕ

unfoldable pub retrieval_in_range : RetrievalSettings → Bool
retrieval_in_range s =
    leb s.schema_sample_count 10
    && leb 1 s.schema_sample_max_chars
    && leb s.schema_sample_max_chars 200
    && leb 1 s.schema_sample_scan_limit
    && leb s.schema_sample_scan_limit 100000
    && leb 1 s.retrieval_top_k
    && leb s.retrieval_top_k 50
    && leb 1 s.hnsw_ef_search
    && leb s.hnsw_ef_search 1000

pub record AgentSettings : Type 0 where
  pub max_tool_calls_per_request : ℕ
  pub max_sql_retries : ℕ
  pub max_decomposition_steps : ℕ
  pub agent_timeout_ms : ℕ

unfoldable pub agent_in_range : AgentSettings → Bool
agent_in_range s =
    leb 1 s.max_tool_calls_per_request
    && leb s.max_tool_calls_per_request 200
    && leb s.max_sql_retries 20
    && leb 1 s.max_decomposition_steps
    && leb s.max_decomposition_steps 20
    && leb 1000 s.agent_timeout_ms

pub record BenchmarkSettings : Type 0 where
  pub benchmark_data_dir : String
  pub benchmark_max_archive_bytes : ℕ
  pub benchmark_max_archive_members : ℕ
  pub benchmark_max_member_bytes : ℕ
  pub benchmark_copy_batch_rows : ℕ
  pub benchmark_verify_timeout_ms : ℕ

unfoldable pub benchmark_in_range : BenchmarkSettings → Bool
benchmark_in_range s =
    leb 1024 s.benchmark_max_archive_bytes
    && leb 1 s.benchmark_max_archive_members
    && leb 1024 s.benchmark_max_member_bytes
    && leb 1 s.benchmark_copy_batch_rows
    && leb s.benchmark_copy_batch_rows 1000000
    && leb 100 s.benchmark_verify_timeout_ms
    && leb s.benchmark_verify_timeout_ms 600000

unfoldable pub profiling_in_range : ProfilingSettings → Bool
profiling_in_range s =
    leb 1 s.profile_scan_limit
    && leb s.profile_scan_limit 1000000
    && leb 1 s.profile_max_columns
    && leb s.profile_max_columns 200
    && leb 1 s.profile_max_value_chars
    && leb s.profile_max_value_chars 200
    && leb s.profile_top_k 20
    && leb 2 s.profile_min_value_frequency
    && leb s.profile_min_value_frequency 100000
    && leb s.profile_sample_rows 20
    && leb 100 s.profile_timeout_ms
    && leb s.profile_timeout_ms 120000

unfoldable pub execution_in_range : {Float : Type 0} → ExecutionSettings Float → Bool
execution_in_range s =
    leb 1 s.max_rows_default
    && leb 1 s.max_rows_ceiling
    && leb 100 s.statement_timeout_ms
    && leb 100 s.statement_timeout_ceiling_ms

pub record Settings (Float : Type 0) : Type 0 where
  pub llm : LlmSettings Float
  pub database : DatabaseSettings
  pub execution : ExecutionSettings Float
  pub retrieval : RetrievalSettings
  pub profiling : ProfilingSettings
  pub agent : AgentSettings
  pub api : ApiSettings Float
  pub benchmark : BenchmarkSettings

-- pydantic checks the ranges of the fields, then runs the class's validators.
unfoldable pub construct : Bool → Checked → Checked
construct true validators = validators
construct false validators = field_error

unfoldable pub raised : Option String → Checked
raised none = accepted
raised (some message) = configuration_error message

-- `Settings.load`: the error that the construction of the classes from these values raises first.
unfoldable pub load : {Float : Type 0} → Network → Settings Float → Checked
unfolding and_then construct raised check_provider_requirements check_pool_and_roles check_ceilings
    check_api profiling_in_range execution_in_range database_in_range retrieval_in_range
    agent_in_range benchmark_in_range Llm.in_range Service.in_range
load net s = and_then (construct (Llm.in_range s.llm) (check_provider_requirements net s.llm)) (
    and_then (construct (database_in_range s.database) (check_pool_and_roles s.database)) (
      and_then (construct (execution_in_range s.execution) (raised (check_ceilings s.execution))) (
        and_then (construct (retrieval_in_range s.retrieval) accepted) (
          and_then (construct (profiling_in_range s.profiling) accepted) (
            and_then (construct (agent_in_range s.agent) accepted) (
              and_then (construct (Service.in_range s.api) (check_api net s.api))
                (construct (benchmark_in_range s.benchmark) accepted)))))))
