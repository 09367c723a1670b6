-- ===== src/Settings/Endpoint/Safety.antt =====
-- core/settings.py: which endpoints `_assert_endpoint_is_safe` accepts.
use mcp_text_to_sql_agent.Prelude.{
  All→In, In→All, not, ◌==◌, ◌&&◌, false, String, Bool, true, Option, none, some, List, [], ◌∷◌,
  ◌≡◌, ◌⊎◌, ◌↔◌, All, In, refl, inl, inr, eq_iff, arith, Bool-cases, Option-cases, contains_iff,
  sym, ◌∙◌, false≢true, ◌≢◌, subst,
}
use mcp_text_to_sql_agent.Settings.Endpoint.{
  field_error, value_error, assert_endpoint_is_safe, check_url, check_host, is_http, not_http, Ip,
  Checked, accepted, check_ip, blocked, plaintext, is_allowed_host, Network, check_address,
  check_addresses, and_then, configuration_error, check_resolved,
}
use mathlib.Core.Option.{some-injective, some, Option}

-- An address on this machine, or one that is public and reached over TLS.
abbrev pub IsSafeIp : String → Ip → Type 0
IsSafeIp scheme ip =
    (ip.is_loopback ≡ true)
    ⊎ ((scheme ≡ "https")
        × (ip.is_link_local ≡ false)
        × (ip.is_private ≡ false)
        × (ip.is_reserved ≡ false)
        × (ip.is_multicast ≡ false))

abbrev IsAccepted : Checked → Type 0
IsAccepted accepted = Unit
IsAccepted _ = ⊥

check_ip_iff :
    (scheme addr : String) (ip : Ip) → (check_ip scheme addr ip ≡ accepted) ↔ IsSafeIp scheme ip
unfolding check_ip blocked plaintext
check_ip_iff scheme addr ip =
    (λ h. ground (arith, eq_iff scheme "https"), λ h. ground (arith, eq_iff scheme "https"))

pub and_then_iff : (c d : Checked) → (and_then c d ≡ accepted) ↔ ((c ≡ accepted) × (d ≡ accepted))
unfolding and_then
and_then_iff accepted d = (λ h. (refl, h), λ h. h.1)
and_then_iff (configuration_error m) d = (λ h. absurd (ground arith), λ h. h.0)
and_then_iff value_error d = (λ h. absurd (ground arith), λ h. h.0)
and_then_iff field_error d = (λ h. absurd (ground arith), λ h. h.0)

module _ (net : Network) (scheme : String) where
  -- A text that is the address of a safe endpoint.
  abbrev pub IsSafeAddress : String → Type 0
  IsSafeAddress addr = (ip : Ip) × (net.ip_address addr ≡ some ip) × IsSafeIp scheme ip

  check_address_iff :
      (addr : String) → (check_address net scheme addr ≡ accepted) ↔ IsSafeAddress addr
  unfolding check_address
  check_address_iff addr = elim (Option-cases (net.ip_address addr)) [
    | inl e ↦ (λ h. absurd (grind (arith, e)), λ h. absurd (grind (arith, e)))
    | inr (ip, e) ↦ (
      λ h. (ip, e, (check_ip_iff scheme addr ip).0 (rw (e, check_address) at h)),
      λ (ip2, e2, safe).
          rw (e, check_address)
            ((check_ip_iff scheme addr ip).1
              (subst (IsSafeIp scheme) (some-injective ip2 ip (sym e2 ∙ e)) safe)),
    )
  ]

  check_addresses_iff :
      (xs : List String) → (check_addresses net scheme xs ≡ accepted) ↔ All IsSafeAddress xs
  unfolding check_addresses
  check_addresses_iff [] = (λ _. tt, λ _. refl)
  check_addresses_iff (x ∷ xs) = (
    λ h.
        let (first, rest) =
          (and_then_iff (check_address net scheme x) (check_addresses net scheme xs)).0 h in
        ((check_address_iff x).0 first, (check_addresses_iff xs).0 rest),
    λ h.
        (and_then_iff (check_address net scheme x) (check_addresses net scheme xs)).1
          ((check_address_iff x).1 h.0, (check_addresses_iff xs).1 h.1),
  )

  -- The host resolves, and every address it resolves to is safe.
  abbrev pub ResolvesSafely : String → Type 0
  ResolvesSafely host =
      (addresses : List String) × (net.getaddrinfo host ≡ some addresses)
      × ((addr : String) → In addr addresses → IsSafeAddress addr)

-- Any host, if no hosts are listed.
abbrev pub IsListed : String → List String → Type 0
IsListed host [] = Unit
IsListed host (x ∷ xs) = In host (x ∷ xs)

is_allowed_host_iff :
    (xs : List String) (host : String) → (is_allowed_host xs host ≡ true) ↔ IsListed host xs
unfolding is_allowed_host
is_allowed_host_iff [] host = (λ _. tt, λ _. refl)
is_allowed_host_iff (x ∷ xs) host = contains_iff host (x ∷ xs)

is_http_iff : (s : String) → (is_http s ≡ true) ↔ ((s ≡ "http") ⊎ (s ≡ "https"))
unfolding is_http
is_http_iff s = (
  λ h. ground (arith, eq_iff s "http", eq_iff s "https"),
  λ h. ground (arith, eq_iff s "http", eq_iff s "https"),
)

-- An http(s) URL with a host that is listed, if hosts are listed, and that resolves safely.
abbrev pub IsSafeEndpoint : Network → String → Option String → List String → Type 0
IsSafeEndpoint net scheme none allowed_hosts = ⊥
IsSafeEndpoint net scheme (some host) allowed_hosts =
    ((scheme ≡ "http") ⊎ (scheme ≡ "https"))
    × (host ≢ "")
    × IsListed host allowed_hosts
    × ResolvesSafely net scheme host

module _ (net : Network)
    (same_members : (xs : List String) (a : String) → In a (net.set_of xs) ↔ In a xs) where
  check_resolved_iff :
      (scheme host : String)
      → (check_resolved net scheme host (net.getaddrinfo host) ≡ accepted)
        ↔ ResolvesSafely net scheme host
  unfolding check_resolved
  check_resolved_iff scheme host = elim (Option-cases (net.getaddrinfo host)) [
    | inl e ↦ (λ h. absurd (grind (arith, e)), λ h. absurd (grind (arith, e)))
    | inr (xs, e) ↦ (
      λ h. (
        xs,
        e,
        λ a i.
            All→In (IsSafeAddress net scheme) (net.set_of xs)
              ((check_addresses_iff net scheme (net.set_of xs)).0 (rw e at h)) a
              ((same_members xs a).1 i),
      ),
      λ (ys, f, safe). rw e (
          (check_addresses_iff net scheme (net.set_of xs)).1 (
            In→All (IsSafeAddress net scheme) (net.set_of xs) (λ a i.
              safe a (subst (In a) (some-injective xs ys (sym e ∙ f)) ((same_members xs a).0 i))))),
    )
  ]

  check_host_iff :
      (scheme host : String) (allowed : List String)
      → (check_host net scheme host allowed ≡ accepted)
        ↔ (IsListed host allowed × ResolvesSafely net scheme host)
  unfolding check_host
  check_host_iff scheme host allowed = elim (Bool-cases (is_allowed_host allowed host)) [
    | inl e ↦ (
      λ h. ((is_allowed_host_iff allowed host).0 e, (check_resolved_iff scheme host).0 (rw e at h)),
      λ h. rw e ((check_resolved_iff scheme host).1 h.1),
    )
    | inr e ↦ (
      λ h. absurd (grind (arith, e)),
      λ h. absurd (false≢true (sym e ∙ (is_allowed_host_iff allowed host).1 h.0)),
    )
  ]

  nonempty_iff : (s : String) → (not (s == "") ≡ true) ↔ (s ≢ "")
  nonempty_iff s = (
    λ h e. ground (arith, eq_iff s ""),
    λ h. elim (Bool-cases (s == "")) [ inl e ↦ absurd (h ((eq_iff s "").0 e)) | inr e ↦ rw e refl ],
  )

  and_iff : (a b : Bool) → (a && b ≡ true) ↔ ((a ≡ true) × (b ≡ true))
  and_iff a b = (λ h. ground arith, λ h. ground arith)

  check_url_iff :
      (url scheme : String) (host : Option String) (allowed : List String)
      → (check_url net url scheme host allowed ≡ accepted) ↔ IsSafeEndpoint net scheme host allowed
  unfolding check_url not_http
  check_url_iff url scheme none allowed = (λ h. absurd (ground arith), λ h. elim h [ ])
  check_url_iff url scheme (some host) allowed =
      elim (Bool-cases (is_http scheme && not (host == ""))) [
        | inl e ↦
            let (http, named) = (and_iff (is_http scheme) (not (host == ""))).0 e in
            (
              λ h. (
                (is_http_iff scheme).0 http,
                (nonempty_iff host).0 named,
                ((check_host_iff scheme host allowed).0 (rw e at h)).0,
                ((check_host_iff scheme host allowed).0 (rw e at h)).1,
              ),
              λ (_, _, l, h). rw e ((check_host_iff scheme host allowed).1 (l, h)),
            )
        | inr e ↦ (
          λ h. absurd (grind (arith, e)),
          λ (k, l, _, _). absurd (
              false≢true (
                sym e
                ∙ (and_iff (is_http scheme) (not (host == ""))).1
                    ((is_http_iff scheme).1 k, (nonempty_iff host).1 l))),
        )
      ]

  -- Given that a set has the members it is made of, an endpoint is accepted exactly when it is an
  -- http(s) URL with a host, the host is in the list of allowed hosts unless that is empty, it
  -- resolves, and each address it resolves to is loopback, or is reached over https and is not
  -- link-local, private, reserved or multicast.
  pub assert_endpoint_is_safe_iff :
      (url : String) (allowed : List String)
      → (assert_endpoint_is_safe net url allowed ≡ accepted)
        ↔ IsSafeEndpoint net (net.urlparse url).scheme (net.urlparse url).hostname allowed
  unfolding assert_endpoint_is_safe
  assert_endpoint_is_safe_iff url allowed =
      check_url_iff url (net.urlparse url).scheme (net.urlparse url).hostname allowed
