-- ===== src/Settings.antt =====
-- core/settings.py: the limits on a query and on a profile, and the clamps on what a caller asks.
-- A cost is a number of a type `Float` that the callers choose.
pub mod Bounds
pub mod Endpoint
pub mod Llm
pub mod Service
pub mod Stores
pub mod Csv
use mcp_text_to_sql_agent.Prelude.{
  ℕ, ◌≤◌, String, Bool, Option, none, some, ltb, if◌then◌else◌, ℤ, clamp,
}

pub record ExecutionSettings (Float : Type 0) : Type 0 where
  pub max_rows_default : ℕ
  pub max_rows_ceiling : ℕ
  pub statement_timeout_ms : ℕ
  pub statement_timeout_ceiling_ms : ℕ
  pub max_estimated_cost : Float

module _ {Float : Type 0} where
  -- The `ge` constraints of the fields.
  pub record InFieldRange (s : ExecutionSettings Float) : Type 0 where
    pub default_rows : 1 ≤ s.max_rows_default
    pub ceiling_rows : 1 ≤ s.max_rows_ceiling
    pub default_timeout : 100 ≤ s.statement_timeout_ms
    pub ceiling_timeout : 100 ≤ s.statement_timeout_ceiling_ms

  -- The message of the `ConfigurationError`, or none if the settings are accepted.
  unfoldable pub check_ceilings : ExecutionSettings Float → Option String
  check_ceilings s =
      if ltb s.max_rows_ceiling s.max_rows_default
      then some "MAX_ROWS_DEFAULT must be <= MAX_ROWS_CEILING"
      else if ltb s.statement_timeout_ceiling_ms s.statement_timeout_ms
      then some "STATEMENT_TIMEOUT_MS must be <= STATEMENT_TIMEOUT_CEILING_MS"
      else none

  unfoldable pub clamp_rows : ExecutionSettings Float → Option ℤ → ℕ
  unfolding clamp
  clamp_rows s none = s.max_rows_default
  clamp_rows s (some requested) = clamp 1 requested s.max_rows_ceiling

  unfoldable pub clamp_timeout_ms : ExecutionSettings Float → Option ℤ → ℕ
  unfolding clamp
  clamp_timeout_ms s none = s.statement_timeout_ms
  clamp_timeout_ms s (some requested) = clamp 100 requested s.statement_timeout_ceiling_ms

pub record ProfilingSettings : Type 0 where
  pub profile_allow_value_sampling : Bool
  pub profile_sample_rows : ℕ
  pub profile_scan_limit : ℕ
  pub profile_top_k : ℕ
  pub profile_min_value_frequency : ℕ
  pub profile_max_columns : ℕ
  pub profile_max_value_chars : ℕ
  pub profile_timeout_ms : ℕ

-- Zero unless sampling is allowed.
unfoldable pub clamp_sample_rows : ProfilingSettings → Option ℤ → ℕ
unfolding clamp
clamp_sample_rows s none = if s.profile_allow_value_sampling then s.profile_sample_rows else 0
clamp_sample_rows s (some requested) =
    if s.profile_allow_value_sampling then clamp 0 requested s.profile_sample_rows else 0

unfoldable pub clamp_columns : ProfilingSettings → Option ℤ → ℕ
unfolding clamp
clamp_columns s none = s.profile_max_columns
clamp_columns s (some requested) = clamp 1 requested s.profile_max_columns
