-- ===== src/Authn/Registry/Dispatch.antt =====
-- The sorts of callers that internal/authn/registry.go authenticates.
use complytime_core.Prelude.{
  ◌≡◌, refl, ◌⊎◌, inl, inr, true, false, String, [], arith, ◌==◌, lookup, Option-cases, Bool-cases,
  sym,
}
use complytime_core.Errors.{Result, ok, err, ◌>>=◌, Result-cases, >>=-eq-ok}
use complytime_core.Json.{Members}
use complytime_core.Authn.Jwt.{Jwx, Env, acceptable_skew}
use complytime_core.Authn.Publisher
use complytime_core.Authn.Publisher.{require_text, has_issuer}
use complytime_core.Authn.Publisher.StaticJwk.{JtiStore}
use complytime_core.Authn.Oidc.{Principal, OidcIssuer, oidc_url, oidc_authenticate, with_claims}
use complytime_core.Authn.Registry.{
  IssuerRegistry, JwkLookup, dispatch, authenticate_static, authenticate_request, as_publisher,
  extract_bearer_token, peek_issuer,
}

-- The two sorts of callers.
pub record IsHuman (r : IssuerRegistry) (p : Principal) : Type 0 where
  pub from_provider : p.issuer ≡ oidc_url r.oidc
  pub no_publisher : p.publisher ≡ false

pub record IsWorkload (p : Principal) : Type 0 where
  pub publisher : p.publisher ≡ true
  pub no_scopes : p.scopes ≡ []
  pub no_groups : p.groups ≡ []

as_publisher-IsWorkload :
    (m : Result Publisher.Principal) (p : Principal)
    → (m >>= λ pp. ok (as_publisher pp)) ≡ ok p
    → IsWorkload p
as_publisher-IsWorkload m p h =
    let (pp, _, e) = >>=-eq-ok m (λ pp. ok (as_publisher pp)) h in
    let same : as_publisher pp ≡ p = cc in
    record {
      publisher = rw (sym same) refl;
      no_scopes = rw (sym same) refl;
      no_groups = rw (sym same) refl;
    }

with_claims-keeps :
    (o : OidcIssuer) (q : Principal) (m : Result Members)
    → ((with_claims o q m).issuer ≡ q.issuer) × ((with_claims o q m).publisher ≡ q.publisher)
unfolding with_claims
with_claims-keeps o q (ok c) = (refl, refl)
with_claims-keeps o q (err e) = (refl, refl)

-- A token that the provider's issuer accepts is of a human.
oidc-IsHuman :
    (x : Jwx) (env : Env x) (r : IssuerRegistry) (text aud : String) (p : Principal)
    → oidc_authenticate x env r.oidc text aud ≡ ok p
    → IsHuman r p
unfolding oidc_authenticate
oidc-IsHuman x env r text aud p h = elim (Result-cases (env.jwks r.oidc.jwks_url)) [
  | inr (e, f) ↦ absurd (ground (arith, f))
  | inl (set, f) ↦
      elim (Result-cases (x.parse set r.oidc.expected_issuer aud acceptable_skew env.now text)) [
        | inr (e, g) ↦ absurd (ground (arith, f, g))
        | inl (tok, g) ↦ elim (Bool-cases (has_issuer tok r.oidc.expected_issuer)) [
          | inr e ↦ absurd (ground (arith, f, g, e))
          | inl e ↦ elim (Result-cases (require_text tok.subject "missing sub claim")) [
            | inr (z, k) ↦ absurd (ground (arith, f, g, e, k))
            | inl (sub, k) ↦
                let q : Principal = record {
                  issuer = r.oidc.expected_issuer;
                  sub = sub;
                  publisher = false;
                  scopes = [];
                  groups = [];
                } in
                let made : ok (with_claims r.oidc q tok.claims) ≡ ok p = rw (f, g, e, k) at h in
                let same : with_claims r.oidc q tok.claims ≡ p = cc made in
                let (i, b) = with_claims-keeps r.oidc q tok.claims in
                record { from_provider = rw (sym same) i; no_publisher = rw (sym same) b }
          ]
        ]
      ]
]

static-IsWorkload :
    (x : Jwx) (j : JtiStore) (env : Env x) (lookup_jwk : JwkLookup) (r : IssuerRegistry)
    (state : j.State) (iss text : String) (p : Principal)
    → (authenticate_static x j env lookup_jwk r state iss text).1 ≡ ok p
    → IsWorkload p
unfolding authenticate_static
static-IsWorkload x j env lookup_jwk r state iss text p h = elim (Bool-cases r.has_jwk_store) [
  | inl on ↦ elim (Result-cases (lookup_jwk iss)) [
    | inr (e, f) ↦ absurd (ground (arith, on, f))
    | inl (found, f) ↦ elim (Option-cases found) [
      | inl n ↦ absurd (ground (arith, on, f, n))
      | inr (stored, n) ↦ as_publisher-IsWorkload _ p (rw (on, f, n) at h)
    ]
  ]
  | inr off ↦ absurd (ground (arith, off))
]

module _ (x : Jwx) (j : JtiStore) (env : Env x) (lookup_jwk : JwkLookup) (r : IssuerRegistry)
    (state : j.State) where
  dispatch-cases :
      (iss text : String) (p : Principal)
      → (dispatch x j env lookup_jwk r state iss text).1 ≡ ok p
      → IsHuman r p ⊎ IsWorkload p
  unfolding dispatch
  dispatch-cases iss text p h = elim (Bool-cases (iss == oidc_url r.oidc)) [
    | inl e ↦ inl (oidc-IsHuman x env r text r.audience p (rw e at h))
    | inr e ↦ elim (Option-cases (lookup iss r.publishers)) [
      | inl n ↦ inr (static-IsWorkload x j env lookup_jwk r state iss text p (rw (e, n) at h))
      | inr (pub', n) ↦ inr (as_publisher-IsWorkload _ p (rw (e, n) at h))
    ]
  ]

  -- Who is authenticated is a human of the OIDC provider, who is no publisher, or a publisher, who has
  -- no scopes and no groups.
  pub authenticate_request-cases :
      (auth : String) (p : Principal)
      → (authenticate_request x j env lookup_jwk r state auth).1 ≡ ok p
      → IsHuman r p ⊎ IsWorkload p
  unfolding authenticate_request
  authenticate_request-cases auth p h = elim (Result-cases (extract_bearer_token auth)) [
    | inr (e, f) ↦ absurd (ground (arith, f))
    | inl (text, f) ↦ elim (Result-cases (peek_issuer x text)) [
      | inr (e, g) ↦ absurd (ground (arith, f, g))
      | inl (iss, g) ↦ dispatch-cases iss text p (rw (f, g, authenticate_request) at h)
    ]
  ]
