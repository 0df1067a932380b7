-- ===== src/Authn/Publisher/StaticJwk.antt =====
-- internal/authn/publisher/staticjwk.go: tokens of scanners, whose key was registered beforehand.
use complytime_core.Prelude.{
  ℕ, ◌-◌, ◌*◌, Bool, not, String, Option, none, some, ◌==◌, if◌then◌else◌, ltb, leb,
}
use complytime_core.Errors.{plain, Result, ok, err, ◌>>=◌, ◌>>◌, context, guard}
use complytime_core.Authn.Jwt.{Token, Jwx, Env, acceptable_skew, second, minute}
use complytime_core.Authn.Publisher.{Principal, has_issuer, require_text}

-- The interface JTIStore: a claim at a time, with the new state.
pub record JtiStore : Type 1 where
  pub State : Type 0
  pub claim_jti : State → ℕ → String → ℕ → State × Result (Unit {0})

pub record StaticJwkIssuer : Type 0 where
  pub url : String
  pub jwk : String
  pub not_after : ℕ
  -- `jtiStore != nil`.
  pub claims_ids : Bool

abbrev pub require_time : Option ℕ → String → Result ℕ
require_time none message = err (plain message)
require_time (some t) message = ok t

-- The checks of the claims of a token that the library accepts: its expiry and its ID.
unfoldable pub check_claims : StaticJwkIssuer → Token → Result (ℕ × String)
check_claims s tok = do
  guard (has_issuer tok s.url) (plain "static JWK issuer mismatch")
  iat ← require_time tok.issued_at "static JWK token missing iat claim"
  expiry ← require_time tok.expiration "static JWK token missing exp claim"
  guard (not (ltb (10 * minute) (expiry - iat)))
      (plain "static JWK token lifetime exceeds 10-minute maximum")
  jti ← require_text tok.jwt_id "static JWK token missing jti claim"
  ok (expiry, jti)

-- The checks before the ID is claimed: the token and its ID.
unfoldable pub check_token :
    (x : Jwx) → Env x → StaticJwkIssuer → String → String → Result (Token × (ℕ × String))
unfolding check_claims
check_token x env s token_string audience = do
  guard (not (ltb s.not_after env.now)) (plain "JWK for issuer has expired")
  set ← context "parsing static JWK for issuer" (x.parse_key_set s.jwk)
  tok ←
      context "static JWK validation failed"
        (x.parse set s.url audience acceptable_skew env.now token_string)
  checked ← check_claims s tok
  ok (tok, checked)

-- `time.Until(expiry)`, at least a second.
unfoldable pub remaining : ℕ → ℕ → ℕ
remaining now expiry = if leb expiry now then second else expiry - now

-- The check after it.
unfoldable pub principal_of : StaticJwkIssuer → Token → Result Principal
principal_of s tok = do
  sub ← require_text tok.subject "static JWK token missing sub claim"
  ok (record { issuer = s.url; sub = sub })

module _ (j : JtiStore) where
  unfoldable pub claim_then :
      j.State → ℕ → String → ℕ → Result Principal → j.State × Result Principal
  claim_then state now jti ttl result =
      let (state', claimed) = j.claim_jti state now jti ttl in
      (state', context "jti replay check failed" claimed >>= λ _. result)

  -- Authenticate.
  unfoldable pub static_authenticate :
      (x : Jwx) → Env x → StaticJwkIssuer → j.State → String → String → j.State × Result Principal
  unfolding claim_then check_token remaining principal_of
  static_authenticate x env s state token_string audience =
      elim (check_token x env s token_string audience) [
        | err e ↦ (state, err e)
        | ok (tok, (expiry, jti)) ↦
            if s.claims_ids
            then claim_then state env.now jti (remaining env.now expiry) (principal_of s tok)
            else (state, principal_of s tok)
      ]

-- The sub of a scanner is its issuer.
unfoldable pub static_validate_trust_entry : StaticJwkIssuer → String → Result (Unit {0})
static_validate_trust_entry s sub =
    if sub == ""
    then err (plain "sub is required")
    else if not (sub == s.url)
    then err (plain "static JWK issuer trust entries must have issuer == sub")
    else ok tt
