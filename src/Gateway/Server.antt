-- ===== src/Gateway/Server.antt =====
-- The routes of cmd/gateway/main.go: authentication, the subject's header, authorization and the
-- handler, one after the other, over one trust store.
pub mod Chain
pub mod Admins
use complytime_core.Prelude.{ℕ, String, List, Option, none, some}
use complytime_core.Errors.{Result, ok, err}
use complytime_core.Trust.{Buckets, TrustStore, TrustEntry, is_publisher_trusted, get_jwk}
use complytime_core.Authz.Context.{Context, empty}
use complytime_core.Authz.Policies.{Cedar, PolicySet}
use complytime_core.Authz.Middleware
use complytime_core.Authz.Middleware.{MiddlewareConfig, TrustLookup, middleware}
use complytime_core.Authn.Jwt.{Jwx, Env}
use complytime_core.Authn.Registry.{IssuerRegistry, JwkLookup, auth_middleware}
use complytime_core.Authn.Publisher.Replay.{trust_jti_store}
use complytime_core.Gateway.Schemas.{SchemaRegistry}
use complytime_core.Gateway.Ingest.{Outside, Request, Answer, refused, ingest_artifact}
use complytime_core.Gateway.Admin.{RegisterBody, Remote, register_subject_handler, modify_trust}
use complytime_core.Gateway.{Next, subject_id_extractor}

-- What start-up puts together.
pub record Server (x : Jwx) (cedar : Cedar) : Type 0 where
  pub registry : IssuerRegistry
  pub policies : PolicySet
  pub authz_config : MiddlewareConfig
  pub schemas : SchemaRegistry

module _ {b : Buckets} where
  -- jwkLookup: the keys of scanners are those of the trust store.
  unfoldable pub jwk_lookup : TrustStore b → ℕ → JwkLookup
  unfolding get_jwk
  jwk_lookup s now issuer_id = elim (get_jwk s now issuer_id) [
    | err e ↦ err e
    | ok none ↦ ok none
    | ok (some stored) ↦ ok (some (record { jwk = stored.jwk; not_after = stored.not_after }))
  ]

  -- `trustStore.IsPublisherTrusted`, at a time.
  abbrev pub trust_lookup : TrustStore b → ℕ → TrustLookup
  trust_lookup s now subject_id issuer sub = is_publisher_trusted s now subject_id issuer sub

module _ {b : Buckets} {x : Jwx} {cedar : Cedar} (server : Server x cedar) (env : Env x) where
  -- `authn.AuthMiddleware(registry)`, which may claim a token's ID in the trust store.
  unfoldable pub authenticated : TrustStore b → String → TrustStore b × Option Context
  unfolding auth_middleware
  authenticated s auth =
      auth_middleware x (trust_jti_store b) env (jwk_lookup s env.now) server.registry s auth empty

  -- POST /api/ingest behind the authentication.
  unfoldable pub ingest_for : Outside → TrustStore b → Request → Context → Answer
  ingest_for o s r ctx = elim (subject_id_extractor r.subject_id ctx) [
    | Next.refused status message ↦ refused status message
    | Next.next ctx' ↦
        elim (middleware cedar server.policies (some (trust_lookup s env.now)) server.authz_config
          "POST" "/api/ingest" ctx') [
            | Middleware.refused status message ↦ refused status message
            | Middleware.passed ↦ ingest_artifact o server.schemas ctx' r
          ]
  ]

  -- POST /api/ingest.
  unfoldable pub post_ingest : Outside → TrustStore b → String → Request → TrustStore b × Answer
  unfolding authenticated ingest_for
  post_ingest o s auth r =
      let (s', caller) = authenticated s auth in
      (
        s',
        elim caller as (λ _. Answer) [
          | none ↦ refused 401 "Unauthorized"
          | some ctx ↦ ingest_for o s' r ctx
        ],
      )

  -- A route of the administration: the handler behind the two middlewares.
  unfoldable pub admin_route :
      {R : Type 0}
      → (TrustStore b → Context → TrustStore b × R × ℕ)
      → String
      → String
      → R
      → TrustStore b
      → String
      → TrustStore b × R × ℕ
  unfolding authenticated
  admin_route {R = R} handler method path r s auth =
      let (s', caller) = authenticated s auth in
      elim caller as (λ _. TrustStore b × R × ℕ) [
        | none ↦ (s', r, 401)
        | some ctx ↦
            elim (middleware cedar server.policies (some (trust_lookup s' env.now))
                server.authz_config method path ctx)
              as (λ _. TrustStore b × R × ℕ) [
                | Middleware.refused status message ↦ (s', r, status)
                | Middleware.passed ↦ handler s' ctx
              ]
      ]

  -- POST /admin/subjects.
  unfoldable pub post_subjects :
      (remote : Remote)
      → TrustStore b
      → remote.State
      → String
      → Result RegisterBody
      → TrustStore b × remote.State × ℕ
  unfolding admin_route
  post_subjects remote s locker auth body =
      admin_route
        (λ s' ctx.
          register_subject_handler remote (some server.registry) ctx s' locker env.now body)
        "POST" "/admin/subjects" locker s auth

  -- PUT /admin/subjects/{subjectId}/trust.
  unfoldable pub put_trust :
      (remote : Remote)
      → TrustStore b
      → remote.State
      → String
      → String
      → String
      → Result (List TrustEntry)
      → TrustStore b × remote.State × ℕ
  unfolding admin_route
  put_trust remote s locker auth path subject_id body =
      admin_route
        (λ s' ctx. modify_trust remote (some server.registry) ctx s' locker env.now subject_id body)
        "PUT" path locker s auth
