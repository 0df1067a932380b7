-- ===== src/Gateway/Server/Admins.antt =====
-- Who reaches the handlers of the administration routes.
use complytime_core.Prelude.{
  contains, ap, subst, ℕ, ◌≡◌, ◌≢◌, ◌⊎◌, inl, inr, refl, sym, true, false, String, some, arith,
  Option-cases,
}
use complytime_core.Errors.{ok}
use complytime_core.Trust.{Buckets, TrustStore}
use complytime_core.Authz.Actions.{
  Action, publish_artifact, request_registration, request_trust_modification, read_evidence,
  query_evidence, action_for_route,
}
use complytime_core.Authz.Context.{Context, get_scopes, get_groups}
use complytime_core.Authz.Policies.{Cedar, PolicySet}
use complytime_core.Authz.Middleware
use complytime_core.Authz.Middleware.{
  TrustLookup, MiddlewareConfig, Verdict, middleware, resolve, decide,
}
use complytime_core.Authz.Middleware.Publish.{base_set}
use complytime_core.Authz.Middleware.Admin.{role, role_iff}
use complytime_core.Authn.Jwt.{Jwx, Env}
use complytime_core.Authn.Oidc.{Principal}
use complytime_core.Authn.Registry.{IssuerRegistry}
use complytime_core.Authn.Registry.Dispatch.{IsHuman, IsWorkload, authenticate_request-cases}
use complytime_core.Authn.Publisher.Replay.{trust_jti_store}
use complytime_core.Gateway.Server.{Server, jwk_lookup, trust_lookup, authenticated, admin_route}
use complytime_core.Gateway.Server.Chain.{
  context_of, claimed, token_result, authenticated_lem, Verdict-cases,
}

refused-status : (a b : ℕ) (m n : String) → Middleware.refused a m ≡ Middleware.refused b n → a ≡ b
refused-status a b m n h = cc h

abbrev pub IsRefusal : ℕ → Type 0
IsRefusal status = (status ≡ 401) ⊎ (status ≡ 403)

module _ (cedar : Cedar) (ps : PolicySet) (lookup : TrustLookup) (cfg : MiddlewareConfig) where
  decide-IsRefusal :
      (ctx : Context) (a : Action) (i s t : String) (status : ℕ) (message : String)
      → decide cedar ps (some lookup) cfg ctx a i s t ≡ Middleware.refused status message
      → IsRefusal status
  unfolding decide
  decide-IsRefusal ctx a i s t status message h = ground arith

  -- The middleware refuses with 401 or 403 only.
  middleware-IsRefusal :
      (method path : String) (ctx : Context) (status : ℕ) (message : String)
      → middleware cedar ps (some lookup) cfg method path ctx ≡ Middleware.refused status message
      → IsRefusal status
  unfolding middleware
  middleware-IsRefusal method path ctx status message h = ground (arith)

no_role :
    (cfg : MiddlewareConfig) (p : Principal) (a : Action)
    → IsWorkload p
    → role cfg (context_of p) a ≡ false
unfolding get_scopes get_groups contains
no_role cfg p publish_artifact w = refl
no_role cfg p request_registration w = rw (w.no_scopes, w.no_groups) refl
no_role cfg p request_trust_modification w = rw (w.no_scopes, w.no_groups) refl
no_role cfg p read_evidence w = rw (w.no_scopes, w.no_groups) refl
no_role cfg p query_evidence w = rw (w.no_scopes, w.no_groups) refl

IsHuman-role :
    (registry : IssuerRegistry) (cfg : MiddlewareConfig) (p : Principal) (a : Action)
    → IsHuman registry p ⊎ IsWorkload p
    → role cfg (context_of p) a ≡ true
    → IsHuman registry p
IsHuman-role registry cfg p a (inl human) has = human
IsHuman-role registry cfg p a (inr workload) has = absurd (cc (no_role cfg p a workload, has))

role_of :
    (cedar : Cedar) (lookup : TrustLookup) (cfg : MiddlewareConfig) (ctx : Context)
    (method path : String) (a : Action)
    → action_for_route method path ≡ some a
    → a ≢ publish_artifact
    → (ps : PolicySet) → ps ≡ base_set
    → middleware cedar ps (some lookup) cfg method path ctx ≡ Middleware.passed
    → role cfg ctx a ≡ true
role_of cedar lookup cfg ctx method path a routed other ps embedded h =
    ((role_iff cedar cfg (some lookup) ctx method path a routed other).0 (rw embedded at h)).2

module _ {b : Buckets} {x : Jwx} {cedar : Cedar} (server : Server x cedar) (env : Env x)
    (s : TrustStore b) (auth : String) {R : Type 0}
    (handler : TrustStore b → Context → TrustStore b × R × ℕ) (method path : String) (r : R)
    (a : Action) where
  -- The handler ran, for a human of the OIDC provider with the role of the action.
  pub record IsAdmitted : Type 0 where
    pub caller : Principal
    pub token_accepted : token_result server env s auth ≡ ok caller
    pub human : IsHuman server.registry caller
    pub has_role : role server.authz_config (context_of caller) a ≡ true
    pub handled :
        admin_route server env handler method path r s auth
        ≡ handler (claimed server env s auth) (context_of caller)

  -- Under the embedded policies, a route of the administration either refuses with 401 or 403, and then
  -- neither the locker nor the trust store changed but for the ID of the token, or it ran its handler
  -- for a caller whom the OIDC provider's issuer accepted and who has the role of an administrator. A
  -- workload never reaches it, also if it is a trusted publisher.
  pub admin_route-cases :
      action_for_route method path ≡ some a
      → a ≢ publish_artifact
      → server.policies ≡ base_set
      → ((status : ℕ) × IsRefusal status
          × (admin_route server env handler method path r s auth
              ≡ (claimed server env s auth, r, status)))
        ⊎ IsAdmitted
  unfolding admin_route
  admin_route-cases routed other embedded =
      elim (Option-cases (authenticated server env s auth).1) [
        | inl n ↦ inl (401, inl refl, rw (n, admin_route) refl)
        | inr (ctx, c) ↦
            let (p, t, same) = authenticated_lem server env s auth ctx c in
            let lookup = trust_lookup (claimed server env s auth) env.now in
            elim (Verdict-cases (
              middleware cedar server.policies (some lookup) server.authz_config method path ctx)) [
                | inr (status, message, v) ↦ inl (
                  status,
                  middleware-IsRefusal cedar server.policies lookup server.authz_config method path
                      ctx status message v,
                  rw (c, v, admin_route) refl,
                )
                | inl v ↦
                    let has =
                      subst (λ k. role server.authz_config k a ≡ true) (sym same)
                        (role_of cedar lookup server.authz_config ctx method path a routed other
                          server.policies embedded v) in
                    inr (record {
                      caller = p;
                      token_accepted = t;
                      human =
                          IsHuman-role server.registry server.authz_config p a
                            (authenticate_request-cases x (trust_jti_store b) env
                              (jwk_lookup s env.now) server.registry s auth p t)
                            has;
                      has_role = has;
                      handled =
                          rw (c, v, admin_route)
                            (ap (λ k. handler (claimed server env s auth) k) (sym same));
                    })
              ]
      ]
