-- ===== src/Examples/Callers.antt =====
-- Instances for internal/authn: the registry of issuers, scopes and groups.
use complytime_core.Prelude.{
  ◌≡◌, refl, ◌≢◌, ◌↔◌, ◌⊎◌, ◌*◌, true, false, String, [], ◌∷◌, none, some, arith, Memᴰ, lookup,
  contains, to_lower, split_char, ◌==◌, eq_iff, if◌then◌else◌, cut_prefix, trim_right_slash, cut,
}
use complytime_core.Errors.{ok}
use complytime_core.Regex.{matches, lit}
use complytime_core.Json.{Members, str, arr, nil, cons, end, member, get, strings}
use complytime_core.Trust.{claim_jti}
use complytime_core.Nats.KeyValue.Memory.{write, create_if}
use complytime_core.Authn.Claims.{extract_groups, extract_claim_by_path, walk}
use complytime_core.Authn.Claims.Groups.{Stands, extract_groups_iff}
use complytime_core.Authn.Jwt.{second}
use complytime_core.Authn.Publisher.Issuers.{
  workload, kubernetes, validate_trust_entry, workload_validate_trust_entry,
  kubernetes_validate_trust_entry, kubernetes_sub_pattern,
}
use complytime_core.Authn.Publisher.StaticJwk.{
  check_token, check_claims, static_authenticate, claim_then, principal_of,
}
use complytime_core.Authn.Publisher.Replay.{trust_jti_store}
use complytime_core.Authn.Oidc.{OidcIssuer, Principal}
use complytime_core.Authn.Registry.{
  IssuerRegistry, JwkLookup, dispatch, authenticate_static, authenticate_request,
  extract_bearer_token, peek_issuer, registry_validate_trust_entry, validate_issuer_url,
}
use complytime_core.Authn.Registry.Dispatch.{IsHuman, IsWorkload, authenticate_request-cases}
use complytime_core.Authn.Registry.Scanners.{registered_key_unused}
use complytime_core.Authn.Registry.Urls.{IsNamed, registry_validate_trust_entry-IsNamed}
use complytime_core.Examples.Stores.{buckets, empty_store}
use complytime_core.Examples.Tokens.{jwx, at_time}

abbrev oidc : OidcIssuer
oidc = record {
  url = "https://idp";
  expected_issuer = "https://idp";
  jwks_url = "https://idp/keys";
  group_claim = "groups";
  known_groups = [];
  group_mode = "enforce";
}

-- The workload issuer `https://ci` is configured; keys of scanners are looked up.
abbrev pub registry : IssuerRegistry
registry = record {
  oidc = oidc;
  publishers =
      ("https://ci", workload (record { url = "https://ci"; jwks_url = "https://ci/keys" })) ∷ [];
  has_jwk_store = true;
  has_jti_store = true;
  audience = "aud";
}

abbrev scanner_keys : JwkLookup
scanner_keys iss = ok (some (record { jwk = "key"; not_after = 1000 * second }))

abbrev no_scanner_keys : JwkLookup
no_scanner_keys iss = if iss == "https://ci" then ok none else scanner_keys iss

abbrev scanner_caller : Principal
scanner_caller = record {
  issuer = "https://scanner";
  sub = "https://scanner";
  publisher = true;
  scopes = [];
  groups = [];
}

scanner_authenticated :
    (authenticate_request jwx
      (trust_jti_store buckets)
      (at_time (110 * second))
      scanner_keys
      registry
      empty_store
      "Bearer token").1
    ≡ ok scanner_caller
unfolding authenticate_request extract_bearer_token peek_issuer dispatch authenticate_static
    static_authenticate check_token check_claims claim_then claim_jti write create_if lookup
    principal_of cut_prefix trim_right_slash
scanner_authenticated = refl

authenticate_request-cases_example : IsHuman registry scanner_caller ⊎ IsWorkload scanner_caller
authenticate_request-cases_example =
    authenticate_request-cases jwx (trust_jti_store buckets) (at_time (110 * second)) scanner_keys
      registry empty_store "Bearer token" scanner_caller scanner_authenticated

ci_accepted : registry_validate_trust_entry registry "https://ci" "repo:a" ≡ ok tt
unfolding registry_validate_trust_entry validate_issuer_url lookup validate_trust_entry
    workload_validate_trust_entry cut to_lower
ci_accepted = refl

-- The issuer URL of a cluster, with capital letters in its path.
abbrev with_cluster : IssuerRegistry
with_cluster = record registry {
  publishers =
      (
        "https://eks/id/ABC",
        kubernetes (record { url = "https://eks/id/ABC"; jwks_url = "https://eks/id/ABC/keys" }),
      )
      ∷ registry.publishers;
}

builder_accepted :
    registry_validate_trust_entry with_cluster "https://eks/id/ABC"
      "system:serviceaccount:ci:builder"
    ≡ ok tt
unfolding registry_validate_trust_entry validate_issuer_url lookup validate_trust_entry
    kubernetes_validate_trust_entry kubernetes_sub_pattern matches lit cut to_lower
builder_accepted = refl

registry_validate_trust_entry-IsNamed_example :
    IsNamed with_cluster "https://eks/id/ABC" "system:serviceaccount:ci:builder"
registry_validate_trust_entry-IsNamed_example =
    registry_validate_trust_entry-IsNamed with_cluster "https://eks/id/ABC"
      "system:serviceaccount:ci:builder" builder_accepted

same_elsewhere :
    (other : String) → other ≢ "https://ci" → scanner_keys other ≡ no_scanner_keys other
same_elsewhere other n =
    let differs : (other == "https://ci") ≡ false = ground (arith, eq_iff other "https://ci", n) in
    rw differs refl

registered_key_unused_example :
    dispatch jwx
      (trust_jti_store buckets)
      (at_time 5)
      scanner_keys
      registry
      empty_store
      "https://ci"
      "token"
    ≡ dispatch jwx
        (trust_jti_store buckets)
        (at_time 5)
        no_scanner_keys
        registry
        empty_store
        "https://ci"
        "token"
registered_key_unused_example =
    registered_key_unused registry "https://ci" "repo:a" jwx (trust_jti_store buckets) (at_time 5)
      scanner_keys no_scanner_keys empty_store "https://ci" "token" ci_accepted same_elsewhere

-- The claims `{"scope": "email", "groups": ["Admins", "Staff"]}`.
abbrev some_claims : Members
some_claims =
    member "scope" (str "email")
      (member "groups" (arr (cons (str "Admins") (cons (str "Staff") nil))) end)

admins_claimed : Memᴰ "Admins" (extract_claim_by_path some_claims "groups")
unfolding extract_claim_by_path walk split_char get strings
admins_claimed = Memᴰ.head refl

extract_groups_iff_example :
    Memᴰ "admins" (extract_groups some_claims "groups" ("auditors" ∷ "admins" ∷ [])) ↔ (
      Stands (extract_claim_by_path some_claims "groups") "admins"
      × (contains ("auditors" ∷ "admins" ∷ []) "admins" ≡ true))
extract_groups_iff_example =
    extract_groups_iff some_claims "groups" ("auditors" ∷ "admins" ∷ []) "admins"

admins_extracted : Memᴰ "admins" (extract_groups some_claims "groups" ("auditors" ∷ "admins" ∷ []))
unfolding to_lower contains
admins_extracted =
    extract_groups_iff_example.1
      (record { name = "Admins"; listed = admins_claimed; lowered = refl }, refl)
