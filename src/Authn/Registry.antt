-- ===== src/Authn/Registry.antt =====
-- internal/authn/registry.go and the middleware of internal/authn/authn.go: the issuer of a token is
-- chosen by its iss claim.
pub mod Dispatch
pub mod Scanners
pub mod Urls
use complytime_core.Prelude.{
  ℕ, Bool, true, false, ◌||◌, not, String, List, [], ◌∷◌, Option, none, some, ◌==◌, if◌then◌else◌,
  concat, cut, cut_prefix, lookup, insert, to_lower, trim_right_slash,
}
use complytime_core.Errors.{Error, plain, Result, ok, err, ◌>>=◌, ◌>>◌, context, guard}
use complytime_core.Authn.Jwt.{Token, Jwx, Env}
use complytime_core.Authn.Publisher
use complytime_core.Authn.Publisher.{require_text}
use complytime_core.Authn.Publisher.Issuers.{
  PublisherIssuer, issuer_of, authenticate, validate_trust_entry,
}
use complytime_core.Authn.Publisher.StaticJwk.{JtiStore, StaticJwkIssuer, static_authenticate}
use complytime_core.Authn.Oidc.{
  Principal, OidcIssuer, oidc_url, oidc_authenticate, oidc_validate_trust_entry,
}
use complytime_core.Authz.Context.{
  Context, set_publisher_context, set_publisher_flag_context, set_scopes_context,
  set_groups_context,
}

-- publisher.StoredJWK, the answer of a JWKLookup.
pub record StoredJwk : Type 0 where
  pub jwk : String
  pub not_after : ℕ

abbrev pub JwkLookup : Type 0
JwkLookup = String → Result (Option StoredJwk)

-- The stores are there or not; the claimed IDs are state that the caller passes along.
pub record IssuerRegistry : Type 0 where
  pub oidc : OidcIssuer
  pub publishers : List (String × PublisherIssuer)
  pub has_jwk_store : Bool
  pub has_jti_store : Bool
  pub audience : String

-- `for _, p := range publishers { m[p.URL()] = p }`.
unfoldable pub by_url :
    List (String × PublisherIssuer) → List PublisherIssuer → List (String × PublisherIssuer)
by_url m [] = m
by_url m (p ∷ rest) = by_url (insert (issuer_of p).url p m) rest

unfoldable pub new_issuer_registry :
    Option OidcIssuer → List PublisherIssuer → Bool → Bool → String → Result IssuerRegistry
unfolding by_url
new_issuer_registry none publishers jwk_store jti_store audience =
    err (plain "oidc issuer is required")
new_issuer_registry (some oidc) publishers jwk_store true audience = ok (record {
  oidc = oidc;
  publishers = by_url [] publishers;
  has_jwk_store = jwk_store;
  has_jti_store = true;
  audience = audience;
})
new_issuer_registry (some oidc) publishers true false audience =
    err
      (plain "jtiStore is required when jwkStore is set: JTI replay prevention cannot be disabled")
new_issuer_registry (some oidc) publishers false false audience = ok (record {
  oidc = oidc;
  publishers = by_url [] publishers;
  has_jwk_store = false;
  has_jti_store = false;
  audience = audience;
})

-- The Authorization header, empty if it is not there.
unfoldable pub extract_bearer_token : String → Result String
unfolding cut_prefix
extract_bearer_token auth = elim (cut_prefix auth "Bearer ") [
  | none ↦ err (plain "missing or invalid Authorization header")
  | some token ↦
      if token == "" then err (plain "missing or invalid Authorization header") else ok token
]

unfoldable pub peek_issuer : Jwx → String → Result String
peek_issuer x token_string = do
  tok ← context "parsing token" (x.parse_insecure token_string)
  iss ← require_text tok.issuer "missing iss claim"
  ok (trim_right_slash iss)

-- A publisher's identity, as the registry passes it on.
abbrev pub as_publisher : Publisher.Principal → Principal
as_publisher p = record {
  issuer = p.issuer;
  sub = p.sub;
  publisher = true;
  scopes = [];
  groups = [];
}

abbrev unknown_issuer : String → Error
unknown_issuer iss = plain (concat "issuer " (concat iss " is not a configured trusted publisher"))

module _ (x : Jwx) (j : JtiStore) (env : Env x) (lookup_jwk : JwkLookup) (r : IssuerRegistry) where
  -- The last resort: a key that was registered for the issuer.
  unfoldable pub authenticate_static : j.State → String → String → j.State × Result Principal
  unfolding static_authenticate
  authenticate_static state iss token_string =
      if not r.has_jwk_store then (state, err (unknown_issuer iss)) else elim (lookup_jwk iss) [
        | err e ↦ (state, context (concat "JWK lookup for " iss) (err e))
        | ok none ↦ (state, err (unknown_issuer iss))
        | ok (some stored) ↦
            let sji : StaticJwkIssuer = record {
              url = iss;
              jwk = stored.jwk;
              not_after = stored.not_after;
              claims_ids = r.has_jti_store;
            } in
            let (state', result) = static_authenticate j x env sji state token_string r.audience in
            (state', result >>= λ pp. ok (as_publisher pp))
      ]

  -- The choice by issuer: OIDC, then the configured publishers, then the registered keys.
  unfoldable pub dispatch : j.State → String → String → j.State × Result Principal
  unfolding authenticate_static
  dispatch state iss token_string =
      if iss == oidc_url r.oidc
      then (state, oidc_authenticate x env r.oidc token_string r.audience)
      else elim (lookup iss r.publishers) [
        | some pub' ↦
            (state, authenticate x env pub' token_string r.audience >>= λ pp. ok (as_publisher pp))
        | none ↦ authenticate_static state iss token_string
      ]

  -- Authenticate.
  unfoldable pub authenticate_request : j.State → String → j.State × Result Principal
  unfolding dispatch extract_bearer_token peek_issuer
  authenticate_request state auth =
      let peeked : Result (String × String) = (do
        token_string ← extract_bearer_token auth
        iss ← context "cannot read issuer claim" (peek_issuer x token_string)
        ok (token_string, iss)) in
      elim peeked [
        | err e ↦ (state, err e)
        | ok (token_string, iss) ↦ dispatch state iss token_string
      ]

  -- AuthMiddleware: the context of the next handler, or the refusal with 401.
  unfoldable pub auth_middleware : j.State → String → Context → j.State × Option Context
  unfolding authenticate_request set_publisher_context set_publisher_flag_context set_scopes_context
      set_groups_context
  auth_middleware state auth ctx =
      let (state', result) = authenticate_request state auth in
      (
        state',
        elim result [
          | err e ↦ none
          | ok p ↦ some (
              set_groups_context
                (set_scopes_context
                  (set_publisher_flag_context (set_publisher_context ctx p.issuer p.sub)
                    p.publisher)
                  p.scopes)
                p.groups)
        ],
      )

-- ValidateIssuerURL: the scheme and the host, which end before the first `/` after `://`.
unfoldable pub validate_issuer_url : String → Result (Unit {0})
unfolding cut to_lower
validate_issuer_url issuer = elim (cut issuer "://") [
  | none ↦ err (plain "missing scheme")
  | some (scheme, rest) ↦
      let scheme_and_host = elim (cut rest "/") as (λ _. String) [
        | none ↦ issuer
        | some (host, path) ↦ concat scheme (concat "://" host)
      ] in
      if not (scheme_and_host == to_lower scheme_and_host)
      then err (plain "scheme and host must be lowercase")
      else ok tt
]

-- ValidateTrustEntry.
unfoldable pub registry_validate_trust_entry : IssuerRegistry → String → String → Result (Unit {0})
unfolding validate_issuer_url
registry_validate_trust_entry r issuer_url sub =
    let checked : Result (Unit {0}) =
      if issuer_url == oidc_url r.oidc
      then oidc_validate_trust_entry r.oidc sub
      else elim (lookup issuer_url r.publishers) [
        | some pub' ↦ validate_trust_entry pub' sub
        | none ↦ err (
            plain
              (concat "issuer " (concat issuer_url " is not configured as a trusted publisher")))
      ] in
    validate_issuer_url issuer_url >> checked
