-- ===== src/Settings/Bounds.antt =====
-- core/settings.py: what a clamp yields, whatever a caller asks.
use mcp_text_to_sql_agent.Prelude.{
  ℕ, ◌≤◌, ◌≡◌, Option, none, some, arith, ℤ, pos, negsuc, max, true, ◌⊎◌,
}
use mcp_text_to_sql_agent.Settings.{
  ExecutionSettings, InFieldRange, check_ceilings, clamp_rows, clamp_timeout_ms, ProfilingSettings,
  clamp_sample_rows,
}

-- No more than was asked for, but for the least value that there is.
abbrev pub AtMostAsked : ℕ → Option ℤ → ℕ → Type 0
AtMostAsked least none n = Unit
AtMostAsked least (some (pos asked)) n = n ≤ max least asked
AtMostAsked least (some (negsuc asked)) n = n ≤ least

module _ {Float : Type 0} (s : ExecutionSettings Float) where
  ceilings_hold :
      check_ceilings s ≡ none
      → (s.max_rows_default ≤ s.max_rows_ceiling)
        × (s.statement_timeout_ms ≤ s.statement_timeout_ceiling_ms)
  unfolding check_ceilings
  ceilings_hold h = ground arith

  -- Under accepted settings a row limit lies between 1 and the ceiling, and does not exceed what
  -- the caller asked for, one row being the least.
  pub clamp_rows_bounds :
      (requested : Option ℤ)
      → InFieldRange s
      → check_ceilings s ≡ none
      → (1 ≤ clamp_rows s requested)
        × (clamp_rows s requested ≤ s.max_rows_ceiling)
        × AtMostAsked 1 requested (clamp_rows s requested)
  unfolding clamp_rows
  clamp_rows_bounds none range accepted = (range.default_rows, (ceilings_hold accepted).0, tt)
  clamp_rows_bounds (some (pos m)) range accepted =
      (omega arith, omega (arith, range.ceiling_rows), omega arith)
  clamp_rows_bounds (some (negsuc m)) range accepted =
      (omega arith, range.ceiling_rows, omega arith)

  -- Under accepted settings a timeout lies between 100 ms and its ceiling, and does not exceed
  -- what the caller asked for, 100 ms being the least.
  pub clamp_timeout_ms_bounds :
      (requested : Option ℤ)
      → InFieldRange s
      → check_ceilings s ≡ none
      → (100 ≤ clamp_timeout_ms s requested)
        × (clamp_timeout_ms s requested ≤ s.statement_timeout_ceiling_ms)
        × AtMostAsked 100 requested (clamp_timeout_ms s requested)
  unfolding clamp_timeout_ms
  clamp_timeout_ms_bounds none range accepted =
      (range.default_timeout, (ceilings_hold accepted).1, tt)
  clamp_timeout_ms_bounds (some (pos m)) range accepted =
      (omega arith, omega (arith, range.ceiling_timeout), omega arith)
  clamp_timeout_ms_bounds (some (negsuc m)) range accepted =
      (omega arith, range.ceiling_timeout, omega arith)

-- No more rows are sampled than the settings allow, and none if they do not permit sampling.
pub clamp_sample_rows_bounds :
    (s : ProfilingSettings) (requested : Option ℤ)
    → (clamp_sample_rows s requested ≤ s.profile_sample_rows)
      × ((s.profile_allow_value_sampling ≡ true) ⊎ (clamp_sample_rows s requested ≡ 0))
unfolding clamp_sample_rows
clamp_sample_rows_bounds s none = ground arith
clamp_sample_rows_bounds s (some (pos n)) = ground arith
clamp_sample_rows_bounds s (some (negsuc n)) = ground arith
