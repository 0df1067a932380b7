-- ===== src/Authn/Publisher.antt =====
-- internal/authn/publisher: the issuers whose tokens speak for workloads. A PublisherIssuer is one of
-- six kinds, each with its URL and the URL of its keys.
pub mod Issuers
pub mod StaticJwk
pub mod Replay
pub mod Subs
pub mod Window
use complytime_core.Prelude.{
  ℕ, ◌||◌, Bool, not, String, Option, none, some, ◌==◌, concat, if◌then◌else◌, nat_eq,
}
use complytime_core.Errors.{Error, plain, Result, ok, err, ◌>>=◌, ◌>>◌, context, guard}
use complytime_core.Authn.Jwt.{Token, Jwx, Env, Network, acceptable_skew}

-- publisher.Principal.
pub record Principal : Type 0 where
  pub issuer : String
  pub sub : String

-- DiscoverJWKSURI.
unfoldable pub discover_jwks_uri : Network → String → Result String
discover_jwks_uri net issuer_url = do
  let discovery_url = concat issuer_url "/.well-known/openid-configuration"
  resp ← context "fetching" (net.http_get discovery_url)
  guard (nat_eq resp.0 200) (plain "discovery endpoint returned another status")
  body ← context "reading discovery response" resp.1
  jwks_uri ← context "parsing discovery document" (net.decode_discovery body)
  guard (not (jwks_uri == "")) (plain "discovery document missing jwks_uri")
  ok jwks_uri

-- The JWKS cache of an issuer, filled at start-up; the provider is named in the errors.
unfoldable pub fill_cache : Network → String → String → Result (Unit {0})
fill_cache net provider jwks_url = do
  context (concat "creating JWKS cache for " provider) net.new_cache
  context (concat "registering " (concat provider (concat " JWKS " jwks_url)))
      (net.register_jwks jwks_url)
  context (concat "fetching " (concat provider (concat " JWKS from " jwks_url)))
      (net.refresh_jwks jwks_url)

abbrev pub has_issuer : Token → String → Bool
has_issuer t url = elim t.issuer [ none ↦ Bool.false | some iss ↦ iss == url ]

-- `sub, ok := tok.Subject(); if !ok || sub == ""`.
abbrev pub require_text : Option String → String → Result String
require_text none message = err (plain message)
require_text (some s) message = if s == "" then err (plain message) else ok s

-- The steps that the six issuers share: the keys, the library's checks, and the issuer and sub.
unfoldable pub validate_token :
    (x : Jwx) → Env x → String → String → String → String → String → Result Principal
validate_token x env provider url jwks_url token_string audience = do
  set ← context (concat "fetching " (concat provider " JWKS")) (env.jwks jwks_url)
  tok ←
      context (concat provider " token validation failed")
        (x.parse set url audience acceptable_skew env.now token_string)
  guard (has_issuer tok url) (plain "issuer mismatch")
  sub ← require_text tok.subject "missing sub claim"
  ok (record { issuer = url; sub = sub })
