-- ===== src/Authn/Publisher/Window.antt =====
-- How long a scanner's token is taken, against how long its ID is remembered.
use complytime_core.Prelude.{
  ℕ, ◌+◌, ◌-◌, ◌*◌, ◌<◌, ◌≤◌, ◌≡◌, String, Option, none, some, arith, ltb, Bool-cases, Option-cases,
  inl, inr, sym,
}
use complytime_core.Errors.{Result, ok, Result-cases, ok-parts}
use complytime_core.Authn.Jwt.{Token, Jwx, Env, acceptable_skew, minute}
use complytime_core.Authn.Publisher.{has_issuer, require_text}
use complytime_core.Authn.Publisher.StaticJwk.{StaticJwkIssuer, check_token, check_claims}

-- What the checks of the claims tell about a token.
record IsShort (tok : Token) (expiry : ℕ) (jti : String) : Type 0 where
  pub issued : ℕ
  pub issued_at : tok.issued_at ≡ some issued
  pub expiration : tok.expiration ≡ some expiry
  pub id : tok.jwt_id ≡ some jti
  pub short : expiry ≤ issued + 10 * minute

require_text-eq-ok : (o : Option String) (m s : String) → require_text o m ≡ ok s → o ≡ some s
require_text-eq-ok none m s h = cc
require_text-eq-ok (some t) m s h = ground (arith, h)

check_claims-IsShort :
    (s : StaticJwkIssuer) (t : Token) (expiry : ℕ) (jti : String)
    → check_claims s t ≡ ok (expiry, jti)
    → IsShort t expiry jti
unfolding check_claims
check_claims-IsShort s t expiry jti h = elim (Bool-cases (has_issuer t s.url)) [
  | inr e ↦ absurd (ground (arith, e))
  | inl e ↦ elim (Option-cases t.issued_at) [
    | inl n ↦ absurd (ground (arith, e, n))
    | inr (iat, n) ↦ elim (Option-cases t.expiration) [
      | inl m ↦ absurd (ground (arith, e, n, m))
      | inr (exp, m) ↦ elim (Bool-cases (ltb (10 * minute) (exp - iat))) [
        | inl l ↦ absurd (ground (arith, e, n, m, l))
        | inr l ↦ elim (Result-cases (require_text t.jwt_id "static JWK token missing jti claim")) [
          | inr (z, k) ↦ absurd (ground (arith, e, n, m, l, k))
          | inl (id, k) ↦
              let small : exp ≤ iat + 10 * minute = ground (arith, l) in
              let made : Result.ok (exp, id) ≡ ok (expiry, jti) = rw (e, n, m, l, k) at h in
              let (b, c) : (exp ≡ expiry) × (id ≡ jti) = ok-parts (exp, id) (expiry, jti) made in
              record {
                issued = iat;
                issued_at = n;
                expiration = rw (sym b) m;
                id =
                    rw (sym c)
                      (require_text-eq-ok t.jwt_id "static JWK token missing jti claim" id k);
                short = rw (sym b) small;
              }
        ]
      ]
    ]
  ]
]

-- What the checks of a token tell about it.
pub record IsChecked (x : Jwx) (now : ℕ) (text : String) (tok : Token) (expiry : ℕ) (jti : String)
    : Type 0 where
  pub read : x.parse_insecure text ≡ ok tok
  pub expiration : tok.expiration ≡ some expiry
  pub id : tok.jwt_id ≡ some jti
  pub not_over : now < expiry + acceptable_skew
  pub short : expiry ≤ now + acceptable_skew + 10 * minute

module _ (x : Jwx) (env : Env x) (s : StaticJwkIssuer) (text aud : String) where
  check_token-IsChecked :
      (tok : Token) (expiry : ℕ) (jti : String)
      → check_token x env s text aud ≡ ok (tok, (expiry, jti))
      → IsChecked x env.now text tok expiry jti
  unfolding check_token
  check_token-IsChecked tok expiry jti h = elim (Bool-cases (ltb s.not_after env.now)) [
    | inl e ↦ absurd (ground (arith, e))
    | inr e ↦ elim (Result-cases (x.parse_key_set s.jwk)) [
      | inr (z, f) ↦ absurd (ground (arith, e, f))
      | inl (set, f) ↦ elim (Result-cases (x.parse set s.url aud acceptable_skew env.now text)) [
        | inr (z, g) ↦ absurd (ground (arith, e, f, g))
        | inl (t, g) ↦ elim (Result-cases (check_claims s t)) [
          | inr (z, k) ↦ absurd (ground (arith, e, f, g, k))
          | inl (v, k) ↦
              let made : Result.ok (t, v) ≡ ok (tok, (expiry, jti)) = rw (e, f, g, k) at h in
              let (a, b) = ok-parts (t, v) (tok, (expiry, jti)) made in
              let short = check_claims-IsShort s tok expiry jti (rw (a, b) at k) in
              let accepted : x.parse set s.url aud acceptable_skew env.now text ≡ ok tok =
                rw a at g in
              let begun =
                x.parse_issued_at set s.url aud acceptable_skew env.now text tok short.issued
                  accepted short.issued_at in
              record {
                read = x.parse_insecure_eq set s.url aud acceptable_skew env.now text tok accepted;
                expiration = short.expiration;
                id = short.id;
                not_over =
                    x.parse_expiration set s.url aud acceptable_skew env.now text tok expiry
                      accepted short.expiration;
                short = omega (arith, begun, short.short);
              }
        ]
      ]
    ]
  ]

-- A token that is accepted at two times has the same ID at both, and the second is less than eleven
-- minutes after the first, with whatever keys and for whatever audiences.
pub check_token_window :
    (x : Jwx) (env env' : Env x) (s s' : StaticJwkIssuer) (text aud aud' : String)
    (tok tok' : Token) (expiry expiry' : ℕ) (jti jti' : String)
    → check_token x env s text aud ≡ ok (tok, (expiry, jti))
    → check_token x env' s' text aud' ≡ ok (tok', (expiry', jti'))
    → (jti' ≡ jti) × (env'.now < env.now + 11 * minute)
check_token_window x env env' s s' text aud aud' tok tok' expiry expiry' jti jti' h h' =
    let c = check_token-IsChecked x env s text aud tok expiry jti h in
    let c' = check_token-IsChecked x env' s' text aud' tok' expiry' jti' h' in
    let same : tok' ≡ tok = cc (c.read, c'.read) in
    let expires : tok.expiration ≡ some expiry' = rw same at c'.expiration in
    let names : tok.jwt_id ≡ some jti' = rw same at c'.id in
    let end : expiry' ≡ expiry = cc (expires, c.expiration) in
    (cc (names, c.id), omega (arith, end, c.short, c'.not_over))
