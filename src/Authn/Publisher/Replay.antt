-- ===== src/Authn/Publisher/Replay.antt =====
-- The tokens of scanners against the trust store that remembers their IDs.
use complytime_core.Prelude.{ℕ, ◌≤◌, ◌≡◌, refl, ◌≢◌, true, String, List, some, arith, All, inl, inr}
use complytime_core.Errors.{ok, Result-cases}
use complytime_core.Nats.{jti_replay_ttl}
use complytime_core.Trust.{Buckets, TrustStore, claim_jti}
use complytime_core.Trust.Replay.{claims, claim_once}
use complytime_core.Authn.Jwt.{Token, Jwx, Env}
use complytime_core.Authn.Publisher.{Principal}
use complytime_core.Authn.Publisher.StaticJwk.{
  JtiStore, StaticJwkIssuer, check_token, claim_then, static_authenticate,
}
use complytime_core.Authn.Publisher.Window.{check_token_window}

-- The trust store as the JTIStore: it takes the time to live that the issuer asks for, and leaves it to
-- that of the bucket.
abbrev pub trust_jti_store : Buckets → JtiStore
trust_jti_store b = record {
  State = TrustStore b;
  claim_jti = λ s now jti ttl. claim_jti s now jti;
}

module _ {b : Buckets} (x : Jwx) (env : Env x) (s : StaticJwkIssuer) (state : TrustStore b)
    (text aud : String) (p : Principal) (on : s.claims_ids ≡ true) where
  -- What a successful authentication did.
  record IsClaimed : Type 0 where
    pub tok : Token
    pub expiry : ℕ
    pub jti : String
    pub checked : check_token x env s text aud ≡ ok (tok, (expiry, jti))
    pub claimed : (claim_jti state env.now jti).1 ≡ ok tt
    pub next :
        (static_authenticate (trust_jti_store b) x env s state text aud).0
        ≡ (claim_jti state env.now jti).0

  authenticate-IsClaimed :
      (static_authenticate (trust_jti_store b) x env s state text aud).1 ≡ ok p → IsClaimed
  unfolding static_authenticate claim_then
  authenticate-IsClaimed h = elim (Result-cases (check_token x env s text aud)) [
    | inr (e, f) ↦ absurd (ground (arith, f))
    | inl ((tok, (expiry, jti)), f) ↦ elim (Result-cases (claim_jti state env.now jti).1) [
      | inr (e, g) ↦ absurd (ground (arith, f, g, on))
      | inl (u, g) ↦ record {
        tok = tok;
        expiry = expiry;
        jti = jti;
        checked = f;
        claimed = g;
        next = rw (f, on, static_authenticate) refl;
      }
    ]
  ]

-- A scanner's token that was accepted once, its ID being claimed, is not accepted again where the ID is
-- checked, with whatever key and for whatever audience, after any claims of IDs that were made up to
-- the time of the second attempt: the bucket of claimed IDs, with its TTL of 15
-- minutes, remembers the token's ID longer than the token is valid. All clocks are one.
pub no_replay :
    {b : Buckets} (x : Jwx) (env env' : Env x) (s s' : StaticJwkIssuer) (state : TrustStore b)
    (text aud aud' : String) (p p' : Principal) (between : List (ℕ × String))
    (limited : b.jti.ttl ≡ some jti_replay_ttl)
    → s.claims_ids ≡ true
    → s'.claims_ids ≡ true
    → (static_authenticate (trust_jti_store b) x env s state text aud).1 ≡ ok p
    → All (λ c. c.0 ≤ env'.now) between
    → (static_authenticate
        (trust_jti_store b)
        x
        env'
        s'
        (claims jti_replay_ttl limited
          (static_authenticate (trust_jti_store b) x env s state text aud).0
          between)
        text
        aud').1
      ≢ ok p'
no_replay {b} x env env' s s' state text aud aud' p p' between limited on on' first early h =
    let c = authenticate-IsClaimed x env s state text aud p on first in
    let after = claims jti_replay_ttl limited (claim_jti state env.now c.jti).0 between in
    let c' = authenticate-IsClaimed x env' s' after text aud' p' on' (rw c.next at h) in
    let (same, soon) =
      check_token_window x env env' s s' text aud aud' c.tok c'.tok c.expiry c'.expiry c.jti c'.jti
        c.checked c'.checked in
    claim_once jti_replay_ttl limited state env.now env'.now c.jti between c.claimed
      (omega (arith, soon)) early (rw same at c'.claimed)
