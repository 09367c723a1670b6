-- ===== src/Settings/Stores/Loading.antt =====
-- core/settings.py: what the settings that `Settings.load` returns satisfy.
use mcp_text_to_sql_agent.Prelude.{
  String, Bool, true, false, Option, none, some, ◌≤◌, ◌≡◌, ◌≢◌, arith, eq_iff, refl,
}
use mcp_text_to_sql_agent.Settings.{
  ExecutionSettings, ProfilingSettings, InFieldRange, check_ceilings,
}
use mcp_text_to_sql_agent.Settings.Endpoint.{Network, Checked, accepted}
use mcp_text_to_sql_agent.Settings.Endpoint.Safety.{and_then_iff}
use mcp_text_to_sql_agent.Settings.Llm.{check_provider_requirements}
use mcp_text_to_sql_agent.Settings.Service.{check_api}
use mcp_text_to_sql_agent.Settings.Stores.{
  DatabaseSettings, check_pool_and_roles, same_secret, Settings, construct, raised, load,
  execution_in_range, profiling_in_range,
}

construct-accepted :
    (b : Bool) (c : Checked) → construct b c ≡ accepted → (b ≡ true) × (c ≡ accepted)
unfolding construct
construct-accepted true c h = (refl, h)
construct-accepted false c h = absurd (ground arith)

raised-accepted : (o : Option String) → raised o ≡ accepted → o ≡ none
unfolding raised
raised-accepted none h = refl
raised-accepted (some m) h = absurd (ground arith)

-- Two URLs that are given are not the same.
abbrev pub AreDifferent : Option String → Option String → Type 0
AreDifferent (some owner) (some readonly) = owner ≢ readonly
AreDifferent none readonly = Unit
AreDifferent (some owner) none = Unit

same_secret-differ : (a b : Option String) → same_secret a b ≡ false → AreDifferent a b
unfolding same_secret
same_secret-differ (some a) (some b) h = λ e. ground (arith, eq_iff a b)
same_secret-differ (some a) none h = tt
same_secret-differ none b h = tt

roles :
    (s : DatabaseSettings)
    → check_pool_and_roles s ≡ accepted
    → (s.db_pool_min_size ≤ s.db_pool_max_size) × AreDifferent s.database_url s.database_ro_url
unfolding check_pool_and_roles
roles s h = (ground arith, same_secret-differ s.database_url s.database_ro_url (ground arith))

execution_in_range-InFieldRange :
    {Float : Type 0} (s : ExecutionSettings Float) → execution_in_range s ≡ true → InFieldRange s
unfolding execution_in_range
execution_in_range-InFieldRange s h = record {
  default_rows = ground arith;
  ceiling_rows = ground arith;
  default_timeout = ground arith;
  ceiling_timeout = ground arith;
}

frequency :
    (s : ProfilingSettings) → profiling_in_range s ≡ true → 2 ≤ s.profile_min_value_frequency
unfolding profiling_in_range
frequency s h = ground arith

module _ {Float : Type 0} (net : Network) where
  -- What the parts of loaded settings may rely on.
  pub record IsLoaded (s : Settings Float) : Type 0 where
    pub provider : check_provider_requirements net s.llm ≡ accepted
    pub pool : s.database.db_pool_min_size ≤ s.database.db_pool_max_size
    pub two_roles : AreDifferent s.database.database_url s.database.database_ro_url
    pub limits_in_range : InFieldRange s.execution
    pub limits_ordered : check_ceilings s.execution ≡ none
    pub small_cells : 2 ≤ s.profiling.profile_min_value_frequency
    pub service : check_api net s.api ≡ accepted

  -- Settings that load have the two roles on different URLs when both are given, an ordered pool,
  -- limits in their ranges and under their ceilings, a small-cell threshold of at least two, and
  -- a provider and an API that their own checks accept.
  pub load-IsLoaded : (s : Settings Float) → load net s ≡ accepted → IsLoaded s
  unfolding load
  load-IsLoaded s h =
      let (llm, h1) = (and_then_iff _ _).0 h in
      let (database, h2) = (and_then_iff _ _).0 h1 in
      let (execution, h3) = (and_then_iff _ _).0 h2 in
      let (retrieval, h4) = (and_then_iff _ _).0 h3 in
      let (profiling, h5) = (and_then_iff _ _).0 h4 in
      let (agent, h6) = (and_then_iff _ _).0 h5 in
      let (api, benchmark) = (and_then_iff _ _).0 h6 in
      let limits = construct-accepted _ _ execution in
      let db = roles s.database (construct-accepted _ _ database).1 in
      record {
        provider = (construct-accepted _ _ llm).1;
        pool = db.0;
        two_roles = db.1;
        limits_in_range = execution_in_range-InFieldRange s.execution limits.0;
        limits_ordered = raised-accepted _ limits.1;
        small_cells = frequency s.profiling (construct-accepted _ _ profiling).0;
        service = (construct-accepted _ _ api).1;
      }
