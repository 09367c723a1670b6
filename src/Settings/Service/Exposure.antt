-- ===== src/Settings/Service/Exposure.antt =====
-- core/settings.py: what accepted API settings expose, and the connections they leave to probes.
use mcp_text_to_sql_agent.Prelude.{
  ◌≤◌, ◌<◌, true, length, ◌≡◌, ◌⊎◌, ◌↔◌, All, inl, inr, arith, eq_iff, any-eq-false_iff, sym, ◌∙◌,
  false≢true, ◌==◌, any, Bool-cases, refl,
}
use mcp_text_to_sql_agent.Settings.Endpoint.{Network, accepted, is_loopback_host, and_then}
use mcp_text_to_sql_agent.Settings.Endpoint.Safety.{and_then_iff}
use mcp_text_to_sql_agent.Settings.Service.{
  ApiSettings, check_cors, refuse_to_publish_an_unauthenticated_service,
  pool_must_outsize_the_request_cap, check_api, would_serve_beyond,
}
use mcp_text_to_sql_agent.Api.Admission.{Run, Server}
use mcp_text_to_sql_agent.Api.Admission.Cap.{new_server, Run-cap}

module _ {Float : Type 0} where
  check_cors_iff :
      (s : ApiSettings Float)
      → (check_cors s ≡ accepted) ↔ All (λ o. ¬ (o ≡ "*")) s.api_cors_origins
  unfolding check_cors
  check_cors_iff s =
      let named =
        any-eq-false_iff (λ o. o == "*") (λ o. o ≡ "*") (λ o. eq_iff o "*") s.api_cors_origins in
      elim (Bool-cases (any (λ o. o == "*") s.api_cors_origins)) [
        | inl e ↦ (λ h. absurd (grind (arith, e)), λ h. absurd (false≢true (sym (named.1 h) ∙ e)))
        | inr e ↦ (λ h. named.0 e, λ h. rw e refl)
      ]

  pool_iff :
      (s : ApiSettings Float)
      → (pool_must_outsize_the_request_cap s ≡ accepted) ↔ (
          (s.api_max_concurrent_requests < s.api_pool_max_size)
          × (s.api_pool_min_size ≤ s.api_pool_max_size))
  unfolding pool_must_outsize_the_request_cap
  pool_iff s = (λ h. ground arith, λ h. ground arith)

module _ {Float : Type 0} (net : Network) where
  publish_iff :
      (s : ApiSettings Float)
      → (refuse_to_publish_an_unauthenticated_service net s ≡ accepted)
        ↔ ((is_loopback_host net s.api_host ≡ true) ⊎ (s.api_allow_non_loopback ≡ true))
  unfolding refuse_to_publish_an_unauthenticated_service would_serve_beyond
  publish_iff s = (
    λ h. elim (Bool-cases (is_loopback_host net s.api_host)) [
      | inl e ↦ inl e
      | inr e ↦ inr (ground (arith, rw e at h))
    ],
    λ h. elim h [ inl e ↦ rw e refl | inr e ↦ ground (arith, e) ],
  )

  -- The validators accept the settings of the API exactly when no CORS origin is the wildcard, the
  -- server binds a loopback host or the operator allowed another one, the connection pool exceeds
  -- the number of questions answered at once, and its least size is no more than its greatest.
  pub check_api_iff :
      (s : ApiSettings Float)
      → (check_api net s ≡ accepted) ↔ (
          All (λ o. ¬ (o ≡ "*")) s.api_cors_origins
          × ((is_loopback_host net s.api_host ≡ true) ⊎ (s.api_allow_non_loopback ≡ true))
          × (s.api_max_concurrent_requests < s.api_pool_max_size)
          × (s.api_pool_min_size ≤ s.api_pool_max_size))
  unfolding check_api
  check_api_iff s =
      let outer = and_then_iff (check_cors s) (
        and_then (refuse_to_publish_an_unauthenticated_service net s)
          (pool_must_outsize_the_request_cap s)) in
      let inner =
        and_then_iff (refuse_to_publish_an_unauthenticated_service net s)
          (pool_must_outsize_the_request_cap s) in
      (
        λ h.
            let (cors, rest) = outer.0 h in
            let (publish, pool) = inner.0 rest in
            (
              (check_cors_iff s).0 cors,
              (publish_iff s).0 publish,
              ((pool_iff s).0 pool).0,
              ((pool_iff s).0 pool).1,
            ),
        λ (cors, publish, less, least). outer.1 (
          (check_cors_iff s).1 cors,
          inner.1 ((publish_iff s).1 publish, (pool_iff s).1 (less, least)),
        ),
      )

  -- Under settings that the validators accept, in every run of a server with their cap on
  -- questions, however the requests arrive and end: those in flight leave at least one connection
  -- of the pool for a probe.
  pub Run-spare :
      (s : ApiSettings Float)
      → check_api net s ≡ accepted
      → (server : Server) → Run (new_server s.api_max_concurrent_requests) server
      → length server.in_flight < s.api_pool_max_size
  Run-spare s h server run =
      let (_, _, outsized, _) = (check_api_iff s).0 h in
      let ((_, _, fits), _) = Run-cap s.api_max_concurrent_requests server run in
      omega (arith, fits, outsized)
