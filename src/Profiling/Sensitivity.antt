-- ===== src/Profiling/Sensitivity.antt =====
-- schema/sensitivity.py: the column names whose values are never read.
use Prim.Native.Char.{code}
use Prim.Native.String.{[], ◌∷◌}
use mathlib.Core.List.{[] as []ᴸ, ◌∷◌ as ◌∷ᴸ◌}
use mcp_text_to_sql_agent.Prelude.{
  String, Bool, true, false, ◌&&◌, ◌||◌, List, ◌≡◌, refl, any, nat_eq,
}
use mcp_text_to_sql_agent.Platform.{Platform}

abbrev pub default_sensitive_patterns : List String
default_sensitive_patterns =
    "password" ∷ᴸ "passwd" ∷ᴸ "secret" ∷ᴸ "token" ∷ᴸ "api_key" ∷ᴸ "apikey" ∷ᴸ "private_key"
    ∷ᴸ "credential" ∷ᴸ "session_id" ∷ᴸ "ssn" ∷ᴸ "social_security" ∷ᴸ "national_id" ∷ᴸ "tax_id"
    ∷ᴸ "passport" ∷ᴸ "license_no" ∷ᴸ "licence_no" ∷ᴸ "driver_license" ∷ᴸ "credit_card"
    ∷ᴸ "card_number" ∷ᴸ "cardno" ∷ᴸ "cvv" ∷ᴸ "iban" ∷ᴸ "swift" ∷ᴸ "account_number"
    ∷ᴸ "routing_number" ∷ᴸ "email" ∷ᴸ "phone" ∷ᴸ "mobile" ∷ᴸ "address" ∷ᴸ "postcode" ∷ᴸ "zipcode"
    ∷ᴸ "zip_code" ∷ᴸ "latitude" ∷ᴸ "longitude" ∷ᴸ "dob" ∷ᴸ "birth" ∷ᴸ "salary" ∷ᴸ "compensation"
    ∷ᴸ "income" ∷ᴸ "diagnosis" ∷ᴸ "medical" ∷ᴸ "biometric" ∷ᴸ []ᴸ

-- `s.startswith(prefix)`
unfoldable pub begins_with : String → String → Bool
begins_with [] s = true
begins_with (c ∷ prefix) [] = false
begins_with (c ∷ prefix) (d ∷ s) = nat_eq (code c) (code d) && begins_with prefix s

-- `pattern in s`
unfoldable pub stands_in : String → String → Bool
unfolding begins_with
stands_in pattern [] = begins_with pattern []
stands_in pattern (c ∷ s) = begins_with pattern (c ∷ s) || stands_in pattern s

unfoldable pub is_sensitive : Platform → String → List String → Bool
unfolding stands_in
is_sensitive P column_name patterns =
    any (λ pattern. stands_in pattern (P.casefold column_name)) patterns

email-stands_in : stands_in "email" "customeremailaddress" ≡ true
unfolding stands_in
email-stands_in = refl
