-- ===== src/Gateway/Server/Chain.antt =====
-- What the gateway's routes require of a caller, from the token to the handler.
use complytime_core.Prelude.{
  ℕ, ◌≡◌, refl, ◌≢◌, ◌⊎◌, inl, inr, sym, true, String, none, some, arith, ◌==◌, eq_iff, Bool-cases,
  Option-cases,
}
use complytime_core.Errors.{Result, ok, Result-cases}
use complytime_core.Subjects.{validate_subject_id}
use complytime_core.Trust.{Buckets, TrustStore, is_publisher_trusted}
use complytime_core.Authz.Context.{
  Context, get_publisher, get_publisher_flag, get_subject_id, set_publisher_context,
  set_publisher_flag_context, set_scopes_context, set_groups_context, set_subject_id_context,
}
use complytime_core.Authz.Policies.{Cedar}
use complytime_core.Authz.Middleware
use complytime_core.Authz.Middleware.{Verdict, passed, middleware}
use complytime_core.Authz.Middleware.Publish.{base_set, publish_iff}
use complytime_core.Authn.Jwt.{Jwx, Env}
use complytime_core.Authn.Oidc.{Principal}
use complytime_core.Authn.Registry.{IssuerRegistry, auth_middleware, authenticate_request}
use complytime_core.Authn.Registry.Dispatch.{IsHuman, IsWorkload, authenticate_request-cases}
use complytime_core.Authn.Publisher.Replay.{trust_jti_store}
use complytime_core.Locker.Worker.{IngestRef}
use complytime_core.Gateway.Ingest.{Outside, Request, refused, accepted, ingest_artifact}
use complytime_core.Gateway.Ingest.Published.{IsIngested, ingest_artifact-IsIngested}
use complytime_core.Gateway.{Next, next, subject_id_extractor}
use complytime_core.Gateway.Server.{
  Server, jwk_lookup, trust_lookup, authenticated, ingest_for, post_ingest,
}

-- The context of an authenticated caller.
abbrev pub context_of : Principal → Context
context_of p = record {
  publisher_issuer = some p.issuer;
  publisher_sub = some p.sub;
  publisher_flag = some p.publisher;
  scopes = some p.scopes;
  groups = some p.groups;
  subject_id = none;
}

refused≢accepted :
    (status : ℕ) (message : String) (ref : IngestRef) → refused status message ≢ accepted ref
refused≢accepted status message ref h = cc h

pub Verdict-cases :
    (v : Verdict)
    → (v ≡ passed) ⊎ ((status : ℕ) × (message : String) × (v ≡ Middleware.refused status message))
Verdict-cases Middleware.passed = inl refl
Verdict-cases (Middleware.refused status message) = inr (status, message, refl)

some-injective : (a b : Context) → some a ≡ some b → a ≡ b
some-injective a b h = cc h

module _ {b : Buckets} {x : Jwx} {cedar : Cedar} (server : Server x cedar) (env : Env x)
    (s : TrustStore b) (auth : String) where
  -- What the registry says of the token.
  abbrev pub token_result : Result Principal
  token_result =
      (authenticate_request x (trust_jti_store b) env (jwk_lookup s env.now) server.registry s
        auth).1

  -- The trust store after the authentication: the ID of a scanner's token is claimed in it.
  abbrev pub claimed : TrustStore b
  claimed = (authenticated server env s auth).0

  pub authenticated_lem :
      (ctx : Context)
      → (authenticated server env s auth).1 ≡ some ctx
      → (p : Principal) × (token_result ≡ ok p) × (context_of p ≡ ctx)
  unfolding authenticated auth_middleware set_publisher_context set_publisher_flag_context
      set_scopes_context set_groups_context
  authenticated_lem ctx h = elim (Result-cases token_result) [
    | inr (e, f) ↦ absurd (ground (arith, f))
    | inl (p, f) ↦
        (p, f, some-injective (context_of p) ctx (rw (f, authenticated, auth_middleware) at h))
  ]

  -- An artifact that the route takes, with the caller that it was taken from.
  pub record IsPublished (o : Outside) (r : Request) (ref : IngestRef) : Type 0 where
    pub caller : Principal
    pub token_accepted : token_result ≡ ok caller
    pub workload : IsWorkload caller
    pub trusted :
        is_publisher_trusted claimed env.now r.subject_id caller.issuer caller.sub ≡ ok true
    pub subject_valid : validate_subject_id r.subject_id ≡ ok tt
    pub ingested :
        IsIngested o server.schemas (set_subject_id_context (context_of caller) r.subject_id) r ref

next-injective : (a b : Context) → next a ≡ next b → a ≡ b
next-injective a b h = cc h

extracted :
    (header : String) (ctx ctx' : Context)
    → subject_id_extractor header ctx ≡ next ctx'
    → ((header ≡ "") × (ctx ≡ ctx'))
      ⊎ ((validate_subject_id header ≡ ok tt) × (set_subject_id_context ctx header ≡ ctx'))
unfolding subject_id_extractor
extracted header ctx ctx' h = elim (Bool-cases (header == "")) [
  | inl e ↦ inl ((eq_iff header "").0 e, next-injective ctx ctx' (rw e at h))
  | inr e ↦ elim (Result-cases (validate_subject_id header)) [
    | inr (x, v) ↦ absurd (ground (arith, e, v))
    | inl (u, v) ↦ inr (v, next-injective (set_subject_id_context ctx header) ctx' (rw (e, v) at h))
  ]
]

Next-cases :
    (n : Next)
    → ((ctx : Context) × (n ≡ next ctx))
      ⊎ ((status : ℕ) × (message : String) × (n ≡ Next.refused status message))
Next-cases (next ctx) = inl (ctx, refl)
Next-cases (Next.refused status message) = inr (status, message, refl)

no_subject : (p : Principal) (ctx : Context) → context_of p ≡ ctx → ¬ (get_subject_id ctx ≢ "")
unfolding get_subject_id
no_subject p ctx same named = named (rw (sym same) refl)

-- What the middleware decided of the context, told of the caller.
passed_facts :
    {b : Buckets} {x : Jwx} {cedar : Cedar} (server : Server x cedar) (env : Env x)
    (s : TrustStore b) (o : Outside) (r : Request) (p : Principal) (ref : IngestRef) (ctx : Context)
    → set_subject_id_context (context_of p) r.subject_id ≡ ctx
    → validate_subject_id r.subject_id ≡ ok tt
    → get_publisher_flag ctx ≡ true
    → trust_lookup s env.now (get_subject_id ctx) (get_publisher ctx).0 (get_publisher ctx).1
      ≡ ok true
    → ingest_artifact o server.schemas ctx r ≡ accepted ref
    → (p.publisher ≡ true)
      × (is_publisher_trusted s env.now r.subject_id p.issuer p.sub ≡ ok true)
      × (validate_subject_id r.subject_id ≡ ok tt)
      × IsIngested o server.schemas (set_subject_id_context (context_of p) r.subject_id) r ref
unfolding get_publisher_flag get_subject_id get_publisher set_subject_id_context
passed_facts server env s o r p ref ctx same valid flag trusted taken =
    let made = set_subject_id_context (context_of p) r.subject_id in
    (
      rw (sym same) at flag,
      rw (sym same) at trusted,
      valid,
      ingest_artifact-IsIngested o server.schemas made r ref (rw (sym same) at taken),
    )

-- A publisher that the registry authenticated is a workload.
publisher-IsWorkload :
    (registry : IssuerRegistry) (p : Principal)
    → IsHuman registry p ⊎ IsWorkload p
    → p.publisher ≡ true
    → IsWorkload p
publisher-IsWorkload registry p (inl human) publishes = absurd (cc (human.no_publisher, publishes))
publisher-IsWorkload registry p (inr workload) publishes = workload

module _ {b : Buckets} {x : Jwx} {cedar : Cedar} (server : Server x cedar) (env : Env x)
    (s : TrustStore b) (o : Outside) (r : Request) (p : Principal) (ref : IngestRef)
    (embedded : server.policies ≡ base_set) where
  -- Behind the authentication: the caller is a publisher that is trusted for the header's subject.
  ingest_for_lem :
      ingest_for server env o s r (context_of p) ≡ accepted ref
      → (p.publisher ≡ true)
        × (is_publisher_trusted s env.now r.subject_id p.issuer p.sub ≡ ok true)
        × (validate_subject_id r.subject_id ≡ ok tt)
        × IsIngested o server.schemas (set_subject_id_context (context_of p) r.subject_id) r ref
  unfolding ingest_for
  ingest_for_lem h = elim (Next-cases (subject_id_extractor r.subject_id (context_of p))) [
    | inr (status, message, n) ↦
        absurd (refused≢accepted status message ref (rw (n, ingest_for) at h))
    | inl (ctx, n) ↦
        elim (Verdict-cases (
          middleware cedar server.policies (some (trust_lookup s env.now)) server.authz_config
            "POST" "/api/ingest" ctx)) [
              | inr (status, message, v) ↦
                  absurd (refused≢accepted status message ref (rw (n, v, ingest_for) at h))
              | inl v ↦
                  let facts =
                    (publish_iff cedar server.authz_config (trust_lookup s env.now) ctx).0
                      (rw embedded at v) in
                  let taken : ingest_artifact o server.schemas ctx r ≡ accepted ref =
                    rw (n, v, ingest_for) at h in
                  elim (extracted r.subject_id (context_of p) ctx n) [
                    | inl (e, same) ↦ absurd (no_subject p ctx same facts.2)
                    | inr (valid, same) ↦
                        passed_facts server env s o r p ref ctx same valid facts.3 facts.4 taken
                  ]
            ]
  ]

module _ {b : Buckets} {x : Jwx} {cedar : Cedar} (server : Server x cedar) (env : Env x)
    (s : TrustStore b) (auth : String) (o : Outside) (r : Request) where
  -- Under the embedded policies, POST /api/ingest takes an artifact only from a caller whose token one
  -- of the issuers accepted, who is a workload and no human, and whom the trust store, as it is after
  -- the authentication, lists for the subject that the header names; that header is a valid subject
  -- ID. What is published then is for this subject and under this caller's issuer and sub.
  pub post_ingest-IsPublished :
      (ref : IngestRef)
      → server.policies ≡ base_set
      → (post_ingest server env o s auth r).1 ≡ accepted ref
      → IsPublished server env s auth o r ref
  unfolding post_ingest
  post_ingest-IsPublished ref embedded h = elim (Option-cases (authenticated server env s auth).1) [
    | inl n ↦ absurd (refused≢accepted 401 "Unauthorized" ref (rw (n, post_ingest) at h))
    | inr (ctx, c) ↦
        let (p, t, same) = authenticated_lem server env s auth ctx c in
        let (q, l, v, i) =
          ingest_for_lem server env (claimed server env s auth) o r p ref embedded
            (rw same (rw (c, post_ingest) at h)) in
        record {
          caller = p;
          token_accepted = t;
          workload =
              publisher-IsWorkload server.registry p
                (authenticate_request-cases x (trust_jti_store b) env (jwk_lookup s env.now)
                  server.registry s auth p t)
                q;
          trusted = l;
          subject_valid = v;
          ingested = i;
        }
  ]
