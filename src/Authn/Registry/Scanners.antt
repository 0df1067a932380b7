-- ===== src/Authn/Registry/Scanners.antt =====
-- The issuers that a trust entry may name, and what becomes of a scanner's registered key.
use complytime_core.Prelude.{
  ◌≡◌, refl, ◌≢◌, inl, inr, ◌↔◌, false, String, some, arith, ◌==◌, eq_iff, lookup, Option-cases,
  Bool-cases,
}
use complytime_core.Errors.{ok, Result-cases}
use complytime_core.Authn.Jwt.{Jwx, Env}
use complytime_core.Authn.Publisher.Issuers.{PublisherIssuer, validate_trust_entry}
use complytime_core.Authn.Publisher.StaticJwk.{JtiStore}
use complytime_core.Authn.Oidc.{oidc_url, oidc_validate_trust_entry}
use complytime_core.Authn.Registry.{
  IssuerRegistry, JwkLookup, dispatch, authenticate_static, validate_issuer_url,
  registry_validate_trust_entry,
}

-- The configured publisher that a trust entry names.
pub record IsConfigured (r : IssuerRegistry) (u sub : String) : Type 0 where
  pub publisher : PublisherIssuer
  pub found : lookup u r.publishers ≡ some publisher
  pub takes : validate_trust_entry publisher sub ≡ ok tt
  pub not_oidc : (u == oidc_url r.oidc) ≡ false
  pub well_formed : validate_issuer_url u ≡ ok tt

-- The key store is asked only for the issuer at hand, and never for a configured one.
module _ (x : Jwx) (j : JtiStore) (env : Env x) (before after : JwkLookup) (r : IssuerRegistry)
    (state : j.State) (text : String) where
  static-agree :
      (iss : String)
      → before iss ≡ after iss
      → authenticate_static x j env before r state iss text
        ≡ authenticate_static x j env after r state iss text
  unfolding authenticate_static
  static-agree iss same = rw (same, authenticate_static) refl

  dispatch-agree :
      (iss : String)
      → before iss ≡ after iss
      → dispatch x j env before r state iss text ≡ dispatch x j env after r state iss text
  unfolding dispatch
  dispatch-agree iss same = elim (Bool-cases (iss == oidc_url r.oidc)) [
    | inl e ↦ rw e refl
    | inr e ↦ elim (Option-cases (lookup iss r.publishers)) [
      | inl n ↦ rw (e, n) (static-agree iss same)
      | inr (pub', n) ↦ rw (e, n) refl
    ]
  ]

  dispatch-configured :
      (u sub : String)
      → IsConfigured r u sub
      → dispatch x j env before r state u text ≡ dispatch x j env after r state u text
  unfolding dispatch
  dispatch-configured u sub c = rw (c.not_oidc, c.found) refl

module _ (r : IssuerRegistry) (u sub : String) where
  entry-IsConfigured : registry_validate_trust_entry r u sub ≡ ok tt → IsConfigured r u sub
  unfolding registry_validate_trust_entry oidc_validate_trust_entry
  entry-IsConfigured h = elim (Result-cases (validate_issuer_url u)) [
    | inr (e, f) ↦ absurd (ground (arith, f))
    | inl (tt, f) ↦ elim (Bool-cases (u == oidc_url r.oidc)) [
      | inl same ↦ absurd (ground (arith, f, same))
      | inr other ↦ elim (Option-cases (lookup u r.publishers)) [
        | inl n ↦ absurd (ground (arith, f, other, n))
        | inr (publisher, n) ↦ record {
          publisher = publisher;
          found = n;
          takes = ground (arith, f, other, n);
          not_oidc = other;
          well_formed = f;
        }
      ]
    ]
  ]

  -- The checks that a trust entry passes.
  pub registry_validate_trust_entry_iff :
      (registry_validate_trust_entry r u sub ≡ ok tt) ↔ IsConfigured r u sub
  unfolding registry_validate_trust_entry
  registry_validate_trust_entry_iff =
      (entry-IsConfigured, λ c. rw (c.well_formed, c.not_oidc, c.found) c.takes)

  -- If the registry accepts trust entries of an issuer, then a key that is registered for this issuer
  -- is never used: two answers of the key store that differ for this issuer only give the same
  -- authentication of every token, of every issuer.
  pub registered_key_unused :
      (x : Jwx) (j : JtiStore) (env : Env x) (before after : JwkLookup) (state : j.State)
      (iss text : String)
      → registry_validate_trust_entry r u sub ≡ ok tt
      → ((other : String) → other ≢ u → before other ≡ after other)
      → dispatch x j env before r state iss text ≡ dispatch x j env after r state iss text
  registered_key_unused x j env before after state iss text accepted agree =
      elim (Bool-cases (iss == u)) [
        | inl e ↦ rw ((eq_iff iss u).0 e) (
            dispatch-configured x j env before after r state text u sub
              (entry-IsConfigured accepted))
        | inr e ↦
            dispatch-agree x j env before after r state text iss
              (agree iss (λ p. ground (arith, e, eq_iff iss u)))
      ]
