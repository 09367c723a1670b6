-- ===== src/Llm/Fallback.antt =====
-- adapters/llm/fallback.py: `FallbackLLMClient`, an ordered chain of models.
pub mod Attempts
pub mod Active
use mcp_text_to_sql_agent.Prelude.{
  ℕ, zero, suc, String, ◌==◌, Bool, true, false, not, Option, none, some, List, [], ◌∷◌, ◌++◌, map,
  all, drop, get_elem?, nat_eq, if◌then◌else◌, ◌⧺◌, join,
}
use mcp_text_to_sql_agent.Exceptions.{
  DomainError, raised, llm_quota_exceeded_error, llm_unavailable_error, is_instance,
}

-- A client behind the port, as far as the chain reads it.
pub record LlmClient : Type 0 where
  pub model : String
  pub supports_tool_calling : Bool

-- What a client's `complete` returns or raises.
pub data Completion (Response : Type 0) : Type 0 where
  answered : Response → Completion Response
  threw : DomainError → Completion Response

-- The chain: its clients, and the index of the last known-good one.
pub record FallbackLlmClient : Type 0 where
  pub clients : List LlmClient
  pub active : ℕ

-- The chain and the requests made so far, each by the index of its client.
pub record State : Type 0 where
  pub chain : FallbackLlmClient
  pub asked : List ℕ

-- `__init__`: None is the ValueError.
unfoldable pub new_chain : List LlmClient → Option FallbackLlmClient
new_chain [] = none
new_chain (c ∷ cs) = some (record { clients = c ∷ cs; active = 0 })

-- `model`, None where Python would raise an IndexError.
unfoldable pub model : FallbackLlmClient → Option String
model chain = elim (get_elem? chain.clients chain.active) [ none ↦ none | some c ↦ some c.model ]

unfoldable pub supports_tool_calling : FallbackLlmClient → Bool
supports_tool_calling chain = all (λ c. c.supports_tool_calling) chain.clients

unfoldable pub models : FallbackLlmClient → List String
models chain = map (λ c. c.model) chain.clients

-- `', '.join(exhausted) or 'none configured'`
abbrev pub or_none_configured : String → String
or_none_configured s = if s == "" then "none configured" else s

abbrev pub all_exhausted : List String → DomainError
all_exhausted exhausted = raised llm_unavailable_error (
    "every model in the fallback chain is rate limited or out of quota: "
    ⧺ or_none_configured (join ", " exhausted))

-- What the client of an index replies to a request, after the requests made before.
module _ {Request Response : Type 0} (reply : List ℕ → ℕ → Request → Completion Response) where
  -- `if index != self._active: self._active = index`
  abbrev pub activate : ℕ → FallbackLlmClient → FallbackLlmClient
  activate index chain =
      if not (nat_eq index chain.active) then record chain { active = index } else chain

  -- The `for` loop, over the clients from `index` on.
  unfoldable pub try_from :
      FallbackLlmClient
      → List String
      → ℕ
      → List LlmClient
      → Request
      → List ℕ
      → Completion Response × State
  try_from chain exhausted index [] request asked =
      (threw (all_exhausted exhausted), record { chain = chain; asked = asked })
  try_from chain exhausted index (client ∷ clients) request asked =
      elim (reply asked index request) [
        | answered response ↦ (
          answered response,
          record { chain = activate index chain; asked = asked ++ index ∷ [] },
        )
        | threw exc ↦ elim (is_instance exc llm_quota_exceeded_error) [
          | true ↦
              try_from chain (exhausted ++ client.model ∷ []) (suc index) clients request
                (asked ++ index ∷ [])
          | false ↦ (threw exc, record { chain = chain; asked = asked ++ index ∷ [] })
        ]
      ]

  -- `complete`
  unfoldable pub complete : Request → State → Completion Response × State
  unfolding try_from
  complete request s =
      try_from s.chain [] s.chain.active (drop s.chain.active s.chain.clients) request s.asked
