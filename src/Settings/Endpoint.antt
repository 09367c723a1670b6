-- ===== src/Settings/Endpoint.antt =====
-- core/settings.py: `_is_loopback_host`, `_is_loopback_url` and `_assert_endpoint_is_safe`, the check
-- on the endpoint that receives the prompts and the API key. The URL parser, the resolver and the
-- `ipaddress` module are the parameter `Network`.
pub mod Safety
use mcp_text_to_sql_agent.Prelude.{
  String, Bool, true, false, not, ◌&&◌, ◌||◌, Option, none, some, List, [], ◌∷◌, any, contains,
  if◌then◌else◌, ◌⧺◌, ◌==◌,
}

-- The properties of an `ip_address` that the code reads.
pub record Ip : Type 0 where
  pub is_loopback : Bool
  pub is_link_local : Bool
  pub is_private : Bool
  pub is_reserved : Bool
  pub is_multicast : Bool

pub record Url : Type 0 where
  pub scheme : String
  pub hostname : Option String

pub record Network : Type 0 where
  -- `urlparse(url)`
  pub urlparse : String → Url
  -- `[info[4][0] for info in socket.getaddrinfo(host, None)]`, none for a `gaierror`
  pub getaddrinfo : String → Option (List String)
  -- `ipaddress.ip_address(text)`, none for a `ValueError`
  pub ip_address : String → Option Ip
  -- The order in which a set with these elements is iterated.
  pub set_of : List String → List String
  -- `f"{text!r}"`
  pub repr : String → String

-- A check passes, raises a `ConfigurationError` with its message, or lets the `ValueError` of
-- `ip_address` through; or a field is out of its range, which pydantic reports.
pub data Checked : Type 0 where
  accepted : Checked
  configuration_error : String → Checked
  value_error : Checked
  field_error : Checked

-- `ipaddress.ip_address(text).is_loopback`, False for a text that is no address.
unfoldable pub loopback_address : Network → String → Bool
loopback_address net text = elim (net.ip_address text) [ none ↦ false | some ip ↦ ip.is_loopback ]

unfoldable pub is_loopback_host : Network → String → Bool
unfolding loopback_address
is_loopback_host net host = if host == "localhost" then true else loopback_address net host

unfoldable pub all_loopback : Network → List String → Bool
unfolding loopback_address
all_loopback net [] = true
all_loopback net (addr ∷ rest) = loopback_address net addr && all_loopback net rest

-- `_is_loopback_url` of a host, or of none.
unfoldable pub is_loopback_at : Network → Option String → Bool
unfolding all_loopback
is_loopback_at net none = false
is_loopback_at net (some host) = elim (net.getaddrinfo host) [
  | none ↦ false
  | some addresses ↦ all_loopback net addresses
]

unfoldable pub is_loopback_url : Network → String → Bool
unfolding is_loopback_at
is_loopback_url net url = is_loopback_at net (net.urlparse url).hostname

unfoldable pub blocked : String → String → Checked
blocked addr why =
    configuration_error ("LLM_BASE_URL resolves to a blocked address (" ⧺ addr ⧺ "): " ⧺ why)

unfoldable pub plaintext : Checked
plaintext =
    configuration_error
      "LLM_BASE_URL must use https for non-local endpoints (plaintext would expose LLM_API_KEY in transit)"

-- One round of the loop over the resolved addresses; `accepted` goes on with the next one.
unfoldable pub check_ip : String → String → Ip → Checked
unfolding blocked plaintext
check_ip scheme addr ip =
    if ip.is_loopback
    then accepted
    else if ip.is_link_local
    then blocked addr "link-local"
    else if ip.is_private
    then blocked addr "private range"
    else if ip.is_reserved || ip.is_multicast
    then blocked addr "reserved"
    else if not (scheme == "https")
    then plaintext
    else accepted

unfoldable pub check_address : Network → String → String → Checked
unfolding check_ip
check_address net scheme addr = elim (net.ip_address addr) [
  | none ↦ value_error
  | some ip ↦ check_ip scheme addr ip
]

-- What a check gives if the one before it passed.
unfoldable pub and_then : Checked → Checked → Checked
and_then accepted next = next
and_then (configuration_error m) next = configuration_error m
and_then value_error next = value_error
and_then field_error next = field_error

unfoldable pub check_addresses : Network → String → List String → Checked
unfolding check_address and_then
check_addresses net scheme [] = accepted
check_addresses net scheme (addr ∷ rest) =
    and_then (check_address net scheme addr) (check_addresses net scheme rest)

unfoldable pub check_resolved : Network → String → String → Option (List String) → Checked
unfolding check_addresses
check_resolved net scheme host none =
    configuration_error ("LLM_BASE_URL host " ⧺ net.repr host ⧺ " does not resolve")
check_resolved net scheme host (some addresses) = check_addresses net scheme (net.set_of addresses)

-- `if allowed_hosts and host not in allowed_hosts`
unfoldable pub is_allowed_host : List String → String → Bool
is_allowed_host [] host = true
is_allowed_host (x ∷ xs) host = contains host (x ∷ xs)

unfoldable pub check_host : Network → String → String → List String → Checked
unfolding is_allowed_host check_resolved
check_host net scheme host allowed_hosts =
    if is_allowed_host allowed_hosts host
    then check_resolved net scheme host (net.getaddrinfo host)
    else configuration_error ("LLM_BASE_URL host " ⧺ net.repr host ⧺ " is not in LLM_ALLOWED_HOSTS")

unfoldable pub is_http : String → Bool
is_http scheme = (scheme == "http") || (scheme == "https")

unfoldable pub not_http : Network → String → Checked
not_http net url = configuration_error ("LLM_BASE_URL must be an http(s) URL, got " ⧺ net.repr url)

-- `_assert_endpoint_is_safe` after `urlparse`; an empty host counts as no host.
unfoldable pub check_url : Network → String → String → Option String → List String → Checked
unfolding check_host is_http not_http
check_url net url scheme none allowed_hosts = not_http net url
check_url net url scheme (some host) allowed_hosts =
    if is_http scheme && not (host == "")
    then check_host net scheme host allowed_hosts
    else not_http net url

unfoldable pub assert_endpoint_is_safe : Network → String → List String → Checked
unfolding check_url
assert_endpoint_is_safe net url allowed_hosts =
    let parsed = net.urlparse url in check_url net url parsed.scheme parsed.hostname allowed_hosts
