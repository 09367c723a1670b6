-- ===== src/Tests/Deployment.antt =====
-- core/settings.py: a deployment with a public endpoint, and one server's settings.
use mcp_text_to_sql_agent.Prelude.{
  strip, ◌==◌, ℕ, String, true, false, Option, some, List, [], ◌∷◌, ◌≡◌, ◌≢◌, ◌⊎◌, ◌↔◌, ◌≤◌, ◌<◌,
  refl, In, All, length, arith, eq_iff,
}
use mcp_text_to_sql_agent.Settings.Endpoint.{
  Network, Ip, accepted, assert_endpoint_is_safe, is_loopback_host,
}
use mcp_text_to_sql_agent.Settings.Endpoint.Safety.{IsSafeEndpoint, assert_endpoint_is_safe_iff}
use mcp_text_to_sql_agent.Settings.Llm.{
  LlmSettings, openai_compatible, check_provider_requirements, split_csv,
}
use mcp_text_to_sql_agent.Settings.Llm.Keys.{IsServable, check_provider_requirements-IsServable}
use mcp_text_to_sql_agent.Settings.Service.{ApiSettings, default_api_settings, check_api}
use mcp_text_to_sql_agent.Settings.Service.Exposure.{check_api_iff, Run-spare}
use mcp_text_to_sql_agent.Settings.Stores.{Settings, load, hashing}
use mcp_text_to_sql_agent.Settings.Stores.Loading.{IsLoaded, load-IsLoaded}
use mcp_text_to_sql_agent.Settings.Csv.{split_csv-join}
use mcp_text_to_sql_agent.Api.Admission.{start, step, arrives, acquire, new_admission, Run, Server}
use mcp_text_to_sql_agent.Api.Admission.Cap.{new_server}
use mcp_text_to_sql_agent.Tests.Sample

-- `127.0.0.1` is loopback, and every other text is a public address.
abbrev ip_address : String → Option Ip
ip_address text = some (record {
  is_loopback = text == "127.0.0.1";
  is_link_local = false;
  is_private = false;
  is_reserved = false;
  is_multicast = false;
})

abbrev net : Network
net = record {
  urlparse = λ url. record { scheme = "https"; hostname = some "llm.example" };
  getaddrinfo = λ host. some ("203.0.113.7" ∷ []);
  ip_address = ip_address;
  set_of = λ xs. xs;
  repr = λ s. s;
}

same_members : (xs : List String) (a : String) → In a (net.set_of xs) ↔ In a xs
same_members xs a = (λ i. i, λ i. i)

abbrev url : String
url = "https://llm.example/v1"

assert_endpoint_is_safe_iff_example :
    (assert_endpoint_is_safe net url ("llm.example" ∷ []) ≡ accepted)
    ↔ IsSafeEndpoint net "https" (some "llm.example") ("llm.example" ∷ [])
assert_endpoint_is_safe_iff_example =
    assert_endpoint_is_safe_iff net same_members url ("llm.example" ∷ [])

abbrev llm : LlmSettings ℕ
llm = record {
  llm_provider = openai_compatible;
  llm_base_url = some url;
  llm_model = "small";
  llm_api_key = some "key";
  llm_max_tokens = 16000;
  llm_temperature = 0;
  llm_timeout_ms = 60000;
  llm_allowed_hosts = [];
  llm_model_fallbacks = [];
}

llm-accepted : check_provider_requirements net llm ≡ accepted
unfolding check_provider_requirements
llm-accepted = refl

check_provider_requirements-IsServable_example : IsServable net llm openai_compatible
check_provider_requirements-IsServable_example =
    check_provider_requirements-IsServable net same_members llm llm-accepted

abbrev api : ApiSettings ℕ
api = default_api_settings 15

check_api_iff_example : (check_api net api ≡ accepted) ↔ (
    All (λ o. ¬ (o ≡ "*")) api.api_cors_origins
    × ((is_loopback_host net api.api_host ≡ true) ⊎ (api.api_allow_non_loopback ≡ true))
    × (api.api_max_concurrent_requests < api.api_pool_max_size)
    × (api.api_pool_min_size ≤ api.api_pool_max_size))
check_api_iff_example = check_api_iff net api

api-accepted : check_api net api ≡ accepted
unfolding check_api
api-accepted = refl

abbrev asked : Server
asked = record {
  admission = record { limit = 4; held = mcp_text_to_sql_agent.Prelude.pos 1 };
  in_flight = "r-1" ∷ [];
  dropped = 0;
}

asked-Run : Run (new_server 4) asked
unfolding acquire
asked-Run = step _ _ _ (start (new_server 4)) (arrives (new_admission 4) _ "r-1" [] 0 refl)

Run-spare_example : 1 < api.api_pool_max_size
Run-spare_example = Run-spare net api api-accepted asked asked-Run

abbrev deployment : Settings ℕ
deployment = record {
  llm = llm;
  database = record {
    database_url = some "postgresql://owner@db/app";
    database_ro_url = some "postgresql://reader@db/app";
    db_pool_min_size = 2;
    db_pool_max_size = 10;
    db_connect_timeout_ms = 5000;
    db_target_schema = "public";
    db_readonly_role = "sql_agent_ro";
  };
  execution = Sample.settings;
  retrieval = record {
    dataset = "default";
    embedder_provider = hashing;
    retriever_model = "hash";
    retriever_local_files_only = true;
    schema_sample_values = false;
    schema_sample_count = 3;
    schema_sample_max_chars = 40;
    schema_sample_scan_limit = 1000;
    schema_extra_sensitive_columns = [];
    retrieval_top_k = 10;
    hnsw_ef_search = 40;
  };
  profiling = record {
    profile_allow_value_sampling = false;
    profile_sample_rows = 5;
    profile_scan_limit = 5000;
    profile_top_k = 5;
    profile_min_value_frequency = 5;
    profile_max_columns = 30;
    profile_max_value_chars = 40;
    profile_timeout_ms = 10000;
  };
  agent = record {
    max_tool_calls_per_request = 20;
    max_sql_retries = 3;
    max_decomposition_steps = 5;
    agent_timeout_ms = 120000;
  };
  api = api;
  benchmark = record {
    benchmark_data_dir = "data";
    benchmark_max_archive_bytes = 8589934592;
    benchmark_max_archive_members = 200000;
    benchmark_max_member_bytes = 4294967296;
    benchmark_copy_batch_rows = 5000;
    benchmark_verify_timeout_ms = 30000;
  };
}

deployment-loads : load net deployment ≡ accepted
unfolding load
deployment-loads = refl

load-IsLoaded_example : IsLoaded net deployment
load-IsLoaded_example = load-IsLoaded net deployment deployment-loads

model_a-plain : ◌≢◌ {A = String} "a" ""
model_a-plain h = ground (arith, eq_iff "a" "")

model_b-plain : ◌≢◌ {A = String} "b c" ""
model_b-plain h = ground (arith, eq_iff "b c" "")

strip_model_a : strip "a" ≡ "a"
unfolding strip
strip_model_a = refl

strip_model_b : strip "b c" ≡ "b c"
unfolding strip
strip_model_b = refl

split_csv-join_example : split_csv "a,b c" ≡ "a" ∷ "b c" ∷ []
split_csv-join_example = split_csv-join ("a" ∷ "b c" ∷ []) (
  (model_a-plain, (refl, tt), strip_model_a),
  ((model_b-plain, (refl, (refl, (refl, tt))), strip_model_b), tt),
)
