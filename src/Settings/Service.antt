-- ===== src/Settings/Service.antt =====
-- core/settings.py: `APISettings`, the HTTP surface and its validators.
pub mod Exposure
use mcp_text_to_sql_agent.Prelude.{
  ℕ, String, Bool, true, false, not, ◌&&◌, Option, none, some, List, any, ltb, leb, if◌then◌else◌,
  ◌⧺◌, ◌==◌, show,
}
use mcp_text_to_sql_agent.Settings.Endpoint.{
  Network, Checked, accepted, configuration_error, and_then, is_loopback_host,
}

pub record ApiSettings (Float : Type 0) : Type 0 where
  pub api_host : String
  pub api_port : ℕ
  pub api_allow_non_loopback : Bool
  pub api_docs_enabled : Bool
  pub api_cors_origins : List String
  pub api_static_dir : String
  pub api_max_body_bytes : ℕ
  pub api_max_question_chars : ℕ
  pub api_max_concurrent_requests : ℕ
  pub api_pool_min_size : ℕ
  pub api_pool_max_size : ℕ
  pub api_stream_keepalive_seconds : Float

unfoldable pub would_serve_beyond : Network → String → Checked
would_serve_beyond net host = configuration_error (
    "API_HOST="
    ⧺ net.repr host
    ⧺ " would serve this API beyond this machine, and it has no authentication yet -- any caller that can reach the port can run generated SQL against the target database and spend the LLM budget doing it. Bind 127.0.0.1, or set API_ALLOW_NON_LOOPBACK=true if this process runs in an isolated network namespace and something else decides what is published -- see docs/operations/DEPLOYMENT.md.")

module _ {Float : Type 0} where
  abbrev pub default_api_settings : Float → ApiSettings Float
  default_api_settings fifteen = record {
    api_host = "127.0.0.1";
    api_port = 8000;
    api_allow_non_loopback = false;
    api_docs_enabled = false;
    api_cors_origins = mathlib.Core.List.[];
    api_static_dir = "";
    api_max_body_bytes = 65536;
    api_max_question_chars = 2000;
    api_max_concurrent_requests = 4;
    api_pool_min_size = 1;
    api_pool_max_size = 8;
    api_stream_keepalive_seconds = fifteen;
  }

  -- The ranges of the whole-number fields.
  unfoldable pub in_range : ApiSettings Float → Bool
  in_range s =
      leb 1 s.api_port
      && leb s.api_port 65535
      && leb 1024 s.api_max_body_bytes
      && leb s.api_max_body_bytes 10485760
      && leb 1 s.api_max_question_chars
      && leb s.api_max_question_chars 10000
      && leb 1 s.api_max_concurrent_requests
      && leb s.api_max_concurrent_requests 64
      && leb s.api_pool_min_size 64
      && leb 1 s.api_pool_max_size
      && leb s.api_pool_max_size 128

  unfoldable pub check_cors : ApiSettings Float → Checked
  check_cors s =
      if any (λ origin. origin == "*") s.api_cors_origins
      then configuration_error
          "API_CORS_ORIGINS must not contain '*'. A wildcard origin on an API that reaches a database is an open proxy for every browser that visits any page -- name the origins that need access."
      else accepted

  unfoldable pub refuse_to_publish_an_unauthenticated_service :
      Network → ApiSettings Float → Checked
  unfolding is_loopback_host would_serve_beyond
  refuse_to_publish_an_unauthenticated_service net s =
      if not (is_loopback_host net s.api_host) && not s.api_allow_non_loopback
      then would_serve_beyond net s.api_host
      else accepted

  unfoldable pub pool_must_outsize_the_request_cap : ApiSettings Float → Checked
  pool_must_outsize_the_request_cap s =
      if leb s.api_pool_max_size s.api_max_concurrent_requests
      then configuration_error (
          "API_POOL_MAX_SIZE="
          ⧺ show s.api_pool_max_size
          ⧺ " must exceed API_MAX_CONCURRENT_REQUESTS="
          ⧺ show s.api_max_concurrent_requests
          ⧺ ". Saturated traffic would hold every connection and leave none for the readiness probe, so /ready would fail under load and the replica would be pulled out of rotation for being busy.")
      else if ltb s.api_pool_max_size s.api_pool_min_size
      then configuration_error (
          "API_POOL_MIN_SIZE="
          ⧺ show s.api_pool_min_size
          ⧺ " exceeds API_POOL_MAX_SIZE="
          ⧺ show s.api_pool_max_size
          ⧺ ".")
      else accepted

  -- The validators of the class, in the order in which pydantic runs them.
  unfoldable pub check_api : Network → ApiSettings Float → Checked
  unfolding and_then check_cors refuse_to_publish_an_unauthenticated_service
      pool_must_outsize_the_request_cap
  check_api net s = and_then (check_cors s) (
      and_then (refuse_to_publish_an_unauthenticated_service net s)
        (pool_must_outsize_the_request_cap s))
