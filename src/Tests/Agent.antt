-- ===== src/Tests/Agent.antt =====
-- agent/discovery.py: two servers, one of which does not start.
use mcp_text_to_sql_agent.Prelude.{ℕ, String, ◌==◌, none, some, [], ◌∷◌, ◌≡◌, if◌then◌else◌, refl}
use mcp_text_to_sql_agent.Agent.Registry.{
  Launched, not_started, listed, connect, call, new_registry,
}
use mcp_text_to_sql_agent.Agent.Registry.Degradation.{asked, last_listing, call-connect}

abbrev launch : String → Launched ℕ
launch m =
    if m == "broken"
    then not_started "OSError"
    else listed (record { name = "validate_sql"; description = none; input_schema = 0 } ∷ [])

abbrev ask : String → String
ask server = server

call-connect_example :
    call ask (connect launch ("validator" ∷ "broken" ∷ []) new_registry) "validate_sql"
    ≡ asked ask (last_listing launch "validate_sql" ("validator" ∷ "broken" ∷ []))
call-connect_example = call-connect ask launch ("validator" ∷ "broken" ∷ []) "validate_sql"

listed_by_validator :
    last_listing launch "validate_sql" ("validator" ∷ "broken" ∷ []) ≡ some "validator"
listed_by_validator = refl
