-- ===== src/Tests/Settings.antt =====
-- core/settings.py at concrete settings and requests.
use mcp_text_to_sql_agent.Prelude.{◌≡◌, refl, arith}
use mcp_text_to_sql_agent.Settings.{InFieldRange, check_ceilings}
use mcp_text_to_sql_agent.Tests.Sample.{settings}

pub settings-InFieldRange : InFieldRange settings
settings-InFieldRange = record {
  default_rows = omega arith;
  ceiling_rows = omega arith;
  default_timeout = omega arith;
  ceiling_timeout = omega arith;
}

pub settings-accepted : check_ceilings settings ≡ mathlib.Core.Option.none
unfolding check_ceilings
settings-accepted = refl
