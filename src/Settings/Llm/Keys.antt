-- ===== src/Settings/Llm/Keys.antt =====
-- core/settings.py: where accepted LLM settings send the prompts and the key.
use mcp_text_to_sql_agent.Prelude.{
  String, List, Option, none, some, ◌≡◌, ◌≢◌, ◌⊎◌, ◌↔◌, In, Bool-cases, inl, inr, true, refl, arith,
  eq_iff, ◌==◌,
}
use mcp_text_to_sql_agent.Settings.Endpoint.{
  Network, accepted, assert_endpoint_is_safe, is_loopback_url,
}
use mcp_text_to_sql_agent.Settings.Endpoint.Safety.{
  and_then_iff, IsSafeEndpoint, assert_endpoint_is_safe_iff,
}
use mcp_text_to_sql_agent.Settings.Llm.{
  LlmSettings, LlmProvider, openai_compatible, anthropic, fake, check_provider_requirements,
  check_provider_as, check_model, check_base_url, check_key, key_error,
}

key_error-has :
    (m : String) (key : Option String) → key_error m key ≡ accepted → (k : String) × (key ≡ some k)
unfolding key_error
key_error-has m none h = absurd (ground arith)
key_error-has m (some k) h = (k, refl)

module _ {Float : Type 0} where
  check_model-named : (s : LlmSettings Float) → check_model s ≡ accepted → s.llm_model ≢ ""
  unfolding check_model
  check_model-named s h e = ground (arith, eq_iff s.llm_model "")

module _ {Float : Type 0} (net : Network) where
  -- What an accepted provider has: a fake one needs nothing, the others a model; a compatible
  -- endpoint is safe and has a key unless it is local.
  abbrev pub IsServable : LlmSettings Float → LlmProvider → Type 0
  IsServable s fake = Unit
  IsServable s anthropic = (s.llm_model ≢ "") × ((key : String) × (s.llm_api_key ≡ some key))
  IsServable s openai_compatible =
      (s.llm_model ≢ "")
      × ((url : String) × (s.llm_base_url ≡ some url)
          × IsSafeEndpoint net (net.urlparse url).scheme (net.urlparse url).hostname
              s.llm_allowed_hosts
          × ((is_loopback_url net url ≡ true) ⊎ ((key : String) × (s.llm_api_key ≡ some key))))

  check_key-keyed :
      (s : LlmSettings Float) (url : String)
      → check_key net s url ≡ accepted
      → (is_loopback_url net url ≡ true) ⊎ ((k : String) × (s.llm_api_key ≡ some k))
  unfolding check_key
  check_key-keyed s url h = elim (Bool-cases (is_loopback_url net url)) [
    | inl e ↦ inl e
    | inr e ↦ inr (key_error-has _ s.llm_api_key (rw e at h))
  ]

  check_base_url-given :
      (s : LlmSettings Float) (given : Option String)
      → check_base_url net s given ≡ accepted
      → (url : String) × (given ≡ some url)
        × (assert_endpoint_is_safe net url s.llm_allowed_hosts ≡ accepted)
        × (check_key net s url ≡ accepted)
  unfolding check_base_url
  check_base_url-given s none h = absurd (ground arith)
  check_base_url-given s (some url) h = elim (Bool-cases (url == "")) [
    | inl e ↦ absurd (grind (arith, e))
    | inr e ↦
        let (safe, key) =
          (and_then_iff (assert_endpoint_is_safe net url s.llm_allowed_hosts)
              (check_key net s url)).0
            (rw e at h) in
        (url, refl, safe, key)
  ]

  module _ (same_members : (xs : List String) (a : String) → In a (net.set_of xs) ↔ In a xs) where
    check_provider_as-IsServable :
        (s : LlmSettings Float) (p : LlmProvider)
        → check_provider_as net s p ≡ accepted
        → IsServable s p
    unfolding check_provider_as
    check_provider_as-IsServable s fake h = tt
    check_provider_as-IsServable s anthropic h =
        let (model, key) = (and_then_iff (check_model s) _).0 h in
        (check_model-named s model, key_error-has _ s.llm_api_key key)
    check_provider_as-IsServable s openai_compatible h =
        let (model, base) =
          (and_then_iff (check_model s) (check_base_url net s s.llm_base_url)).0 h in
        let (url, given, safe, key) = check_base_url-given s s.llm_base_url base in
        (
          check_model-named s model,
          (
            url,
            given,
            (assert_endpoint_is_safe_iff net same_members url s.llm_allowed_hosts).0 safe,
            check_key-keyed s url key,
          ),
        )

    -- Given that a set has the members it is made of: settings that are accepted for a compatible
    -- provider name a model and a URL that is safe, as `assert_endpoint_is_safe_iff` describes it,
    -- and have an API key unless each address of the host is loopback; those for Anthropic name a
    -- model and have a key.
    pub check_provider_requirements-IsServable :
        (s : LlmSettings Float)
        → check_provider_requirements net s ≡ accepted
        → IsServable s s.llm_provider
    unfolding check_provider_requirements
    check_provider_requirements-IsServable s h = check_provider_as-IsServable s s.llm_provider h
