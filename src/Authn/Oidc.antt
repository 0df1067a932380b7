-- ===== src/Authn/Oidc.antt =====
-- internal/authn/oidc_issuer.go: the identity provider of the human users.
use complytime_core.Prelude.{
  Bool, false, ◌||◌, String, List, [], ◌∷◌, ◌==◌, if◌then◌else◌, trim_right_slash, trim_space,
}
use complytime_core.Errors.{plain, Result, ok, err, ◌>>=◌, ◌>>◌, context, guard}
use complytime_core.Json.{Members}
use complytime_core.Authn.Claims.{extract_scopes, extract_groups_with_dropped}
use complytime_core.Authn.Jwt.{Jwx, Env, Network, acceptable_skew}
use complytime_core.Authn.Publisher.{has_issuer, require_text, discover_jwks_uri, fill_cache}

-- authn.Principal.
pub record Principal : Type 0 where
  pub issuer : String
  pub sub : String
  pub publisher : Bool
  pub scopes : List String
  pub groups : List String

pub record OidcIssuerConfig : Type 0 where
  pub url : String
  pub expected_issuer : String
  pub group_claim : String
  pub admin_group : String
  pub auditor_group : String
  pub group_mode : String

pub record OidcIssuer : Type 0 where
  pub url : String
  pub expected_issuer : String
  pub jwks_url : String
  pub group_claim : String
  pub known_groups : List String
  pub group_mode : String

abbrev or_default : String → String → String
or_default s d = if s == "" then d else s

-- `switch groupMode`.
abbrev check_mode : String → Result String
check_mode mode =
    if mode == "enforce" || mode == "audit"
    then ok mode
    else if mode == ""
    then ok "enforce"
    else err (plain "invalid OIDC_GROUP_MODE")

unfoldable pub new_oidc_issuer : Network → OidcIssuerConfig → Result OidcIssuer
unfolding discover_jwks_uri fill_cache
new_oidc_issuer net cfg = if cfg.url == "" then err (plain "OIDC_ISSUER is required") else do
  let issuer_url = trim_right_slash (trim_space cfg.url)
  let expected_issuer =
      if cfg.expected_issuer == ""
      then issuer_url
      else trim_right_slash (trim_space cfg.expected_issuer)
  jwks_url ← context "OIDC discovery" (discover_jwks_uri net issuer_url)
  fill_cache net "OIDC" jwks_url
  let admin_group = or_default cfg.admin_group "complytime-admin"
  let auditor_group = or_default cfg.auditor_group "complytime-auditor"
  group_mode ← check_mode cfg.group_mode
  ok (record {
    url = issuer_url;
    expected_issuer = expected_issuer;
    jwks_url = jwks_url;
    group_claim = cfg.group_claim;
    known_groups = admin_group ∷ auditor_group ∷ [];
    group_mode = group_mode;
  })

-- URL().
abbrev pub oidc_url : OidcIssuer → String
oidc_url o = o.expected_issuer

-- The scopes and groups of the token's claims; claims that cannot be read give none.
unfoldable pub with_claims : OidcIssuer → Principal → Result Members → Principal
unfolding extract_scopes extract_groups_with_dropped
with_claims o principal (err e) = principal
with_claims o principal (ok claims) = record principal {
  scopes = extract_scopes claims;
  groups =
      if o.group_claim == ""
      then principal.groups
      else (extract_groups_with_dropped claims o.group_claim o.known_groups).0;
}

unfoldable pub oidc_authenticate :
    (x : Jwx) → Env x → OidcIssuer → String → String → Result Principal
unfolding with_claims
oidc_authenticate x env o token_string audience = do
  set ← context "fetching OIDC JWKS" (env.jwks o.jwks_url)
  tok ←
      context "OIDC issuer validation failed"
        (x.parse set o.expected_issuer audience acceptable_skew env.now token_string)
  guard (has_issuer tok o.expected_issuer) (plain "issuer mismatch")
  sub ← require_text tok.subject "missing sub claim"
  ok (
      with_claims o
        (record {
          issuer = o.expected_issuer;
          sub = sub;
          publisher = false;
          scopes = [];
          groups = [];
        })
        tok.claims)

-- A human identity is no trusted publisher.
unfoldable pub oidc_validate_trust_entry : OidcIssuer → String → Result (Unit {0})
oidc_validate_trust_entry o sub = err (plain "OIDC issuer cannot be used as a trusted publisher")
