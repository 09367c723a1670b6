-- ===== src/Settings/Llm.antt =====
-- core/settings.py: `LLMSettings`, and the comma-separated lists of a `.env` file.
pub mod Keys
use Prim.Native.Char.{code}
use Prim.Native.String.{[], ◌∷◌}
use mcp_text_to_sql_agent.Prelude.{
  ℕ, String, Bool, true, false, Option, none, some, List, if◌then◌else◌, nat_eq, leb, ◌&&◌, not,
  strip, ◌==◌, ◌⧺◌, keep, map, arith,
}
use mcp_text_to_sql_agent.Settings.Endpoint.{
  Network, Checked, accepted, configuration_error, assert_endpoint_is_safe, is_loopback_url,
  and_then,
}

-- The pieces of `value.split(",")`: the one in front, and those after it.
pub record Pieces : Type 0 where
  pub head : String
  pub tail : List String

abbrev pub pieces : Pieces → List String
pieces p = mathlib.Core.List.◌∷◌ p.head p.tail

-- One character before the pieces of the rest.
unfoldable pub split_at : Bool → Prim.Native.Char.Char → Pieces → Pieces
split_at true c p = record { head = ""; tail = pieces p }
split_at false c p = record p { head = c ∷ p.head }

unfoldable pub split_pieces : String → Pieces
unfolding split_at
split_pieces [] = record { head = ""; tail = mathlib.Core.List.[] }
split_pieces (c ∷ s) = split_at (nat_eq (code c) 44) c (split_pieces s)

unfoldable pub is_filled : String → Bool
unfolding strip
is_filled part = not (strip part == "")

-- `_split_csv` of a text.
unfoldable pub split_csv : String → List String
unfolding split_pieces is_filled strip
split_csv value = map strip (keep is_filled (pieces (split_pieces value)))

pub data LlmProvider : Type 0 where
  openai_compatible anthropic fake : LlmProvider

-- An API key is a text; what `SecretStr` hides of it, is not modelled.
pub record LlmSettings (Float : Type 0) : Type 0 where
  pub llm_provider : LlmProvider
  pub llm_base_url : Option String
  pub llm_model : String
  pub llm_api_key : Option String
  pub llm_max_tokens : ℕ
  pub llm_temperature : Float
  pub llm_timeout_ms : ℕ
  pub llm_allowed_hosts : List String
  pub llm_model_fallbacks : List String

unfoldable pub key_error : String → Option String → Checked
key_error message none = configuration_error message
key_error message (some key) = accepted

module _ {Float : Type 0} where
  -- The ranges of the whole-number fields.
  unfoldable pub in_range : LlmSettings Float → Bool
  in_range s =
      leb 1 s.llm_max_tokens
      && leb s.llm_max_tokens 200000
      && leb 1000 s.llm_timeout_ms
      && leb s.llm_timeout_ms 600000

  unfoldable pub check_key : Network → LlmSettings Float → String → Checked
  unfolding is_loopback_url key_error
  check_key net s url =
      if is_loopback_url net url
      then accepted
      else key_error "LLM_API_KEY is required for non-local endpoints" s.llm_api_key

  unfoldable pub check_base_url : Network → LlmSettings Float → Option String → Checked
  unfolding assert_endpoint_is_safe check_key and_then
  check_base_url net s none =
      configuration_error "LLM_BASE_URL is required when LLM_PROVIDER=openai_compatible"
  check_base_url net s (some url) =
      if url == ""
      then configuration_error "LLM_BASE_URL is required when LLM_PROVIDER=openai_compatible"
      else and_then (assert_endpoint_is_safe net url s.llm_allowed_hosts) (check_key net s url)

  unfoldable pub check_model : LlmSettings Float → Checked
  check_model s =
      if s.llm_model == ""
      then configuration_error "LLM_MODEL is required unless LLM_PROVIDER=fake"
      else accepted

  unfoldable pub check_provider_as : Network → LlmSettings Float → LlmProvider → Checked
  unfolding check_base_url key_error check_model and_then
  check_provider_as net s fake = accepted
  check_provider_as net s openai_compatible =
      and_then (check_model s) (check_base_url net s s.llm_base_url)
  check_provider_as net s anthropic =
      and_then (check_model s)
        (key_error "LLM_API_KEY is required when LLM_PROVIDER=anthropic" s.llm_api_key)

  -- `_check_provider_requirements`
  unfoldable pub check_provider_requirements : Network → LlmSettings Float → Checked
  unfolding check_provider_as
  check_provider_requirements net s = check_provider_as net s s.llm_provider
