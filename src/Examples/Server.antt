-- ===== src/Examples/Server.antt =====
-- Instances for the routes of cmd/gateway/main.go.
use complytime_core.Prelude.{
  ℕ, ◌<◌, ◌≤◌, ◌≡◌, ◌+◌, refl, ◌⊎◌, Bool, ◌&&◌, String, [], ◌∷◌, none, some, arith, ◌==◌, eq_iff,
  lookup, insert, any, cut_prefix, trim_right_slash, if◌then◌else◌,
}
use complytime_core.Errors.{plain, Result, ok, err}
use complytime_core.Json.{end, get}
use complytime_core.Subjects.{validate_subject_id}
use complytime_core.Trust.{
  TrustStore, set_publisher_trust, trust_plan, trust_write, is_publisher_trusted, listed,
  subject_key,
}
use complytime_core.Nats.KeyValue.Memory.{write, create_if}
use complytime_core.Authz.Actions.{request_registration, action_for_route}
use complytime_core.Authz.Context.{
  Context, set_publisher_context, set_publisher_flag_context, set_scopes_context,
  set_groups_context, set_subject_id_context, get_publisher, get_publisher_flag, get_scopes,
  get_groups, get_subject_id,
}
use complytime_core.Authz.Middleware.Publish.{base_set}
use complytime_core.Authn.Jwt.{Token, Jwx, Env}
use complytime_core.Gateway.Ingest.{
  accepted, ingest_artifact, ingest_read, read_limited, check_json, submit, body_subject_id,
  artifact_type_of,
}
use complytime_core.Gateway.Schemas.{validate, metadata_type, validate_top_level}
use complytime_core.Gateway.{subject_id_extractor}
use complytime_core.Authn.Registry.{
  auth_middleware, authenticate_request, extract_bearer_token, peek_issuer, dispatch,
}
use complytime_core.Authn.Publisher.{validate_token}
use complytime_core.Authn.Publisher.Issuers.{authenticate, workload_authenticate}
use complytime_core.Authz.Middleware.{
  middleware, resolve, decide, trust_status, subject_optional, cedar_request,
}
use complytime_core.Authz.Policies.{permitted, forbidden, numbered, base_policies}
use complytime_core.Gateway.Server.{
  Server, post_ingest, ingest_for, authenticated, jwk_lookup, admin_route,
}
use complytime_core.Gateway.Server.Chain.{IsPublished, post_ingest-IsPublished, claimed}
use complytime_core.Gateway.Server.Admins.{IsRefusal, IsAdmitted, admin_route-cases}
use complytime_core.Examples.Access.{cedar, cfg}
use complytime_core.Examples.Stores.{buckets, empty_store, ci}
use complytime_core.Examples.Callers.{registry}
use complytime_core.Examples.Gate.{outside, scan, scan_ref}

-- The token of the workload `repo:a` of `https://ci`.
abbrev ci_token : Token
ci_token = record {
  issuer = some "https://ci";
  subject = some "repo:a";
  issued_at = none;
  expiration = none;
  jwt_id = none;
  claims = ok end;
}

abbrev read_ci : String → Result Token
read_ci text = if text == "token" then ok ci_token else err (plain "malformed")

abbrev parse_ci : Unit {0} → String → String → ℕ → ℕ → String → Result Token
parse_ci set iss aud skew now text =
    if iss == "https://ci" && text == "token" then ok ci_token else err (plain "refused")

ci_accepted :
    (set : Unit {0}) (iss aud : String) (skew now : ℕ) (text : String) (t : Token)
    → parse_ci set iss aud skew now text ≡ ok t
    → (t ≡ ci_token) × (iss ≡ "https://ci") × ((text == "token") ≡ Bool.true)
ci_accepted set iss aud skew now text t h =
    (ground (arith, h), ground (arith, h, eq_iff iss "https://ci"), ground (arith, h))

ci_read :
    (set : Unit {0}) (iss aud : String) (skew now : ℕ) (text : String) (t : Token)
    → parse_ci set iss aud skew now text ≡ ok t
    → read_ci text ≡ ok t
ci_read set iss aud skew now text t h =
    let (same, _, e) = ci_accepted set iss aud skew now text t h in rw (same, e) refl

ci_issuer :
    (set : Unit {0}) (iss aud : String) (skew now : ℕ) (text : String) (t : Token)
    → parse_ci set iss aud skew now text ≡ ok t
    → t.issuer ≡ some iss
ci_issuer set iss aud skew now text t h =
    let (same, named, _) = ci_accepted set iss aud skew now text t h in rw (same, named) refl

ci_expiration :
    (set : Unit {0}) (iss aud : String) (skew now : ℕ) (text : String) (t : Token) (exp : ℕ)
    → parse_ci set iss aud skew now text ≡ ok t
    → t.expiration ≡ some exp
    → now < exp + skew
ci_expiration set iss aud skew now text t exp h e =
    let (same, _, _) = ci_accepted set iss aud skew now text t h in
    let never : ci_token.expiration ≡ some exp = rw same at e in cc never

ci_issued_at :
    (set : Unit {0}) (iss aud : String) (skew now : ℕ) (text : String) (t : Token) (iat : ℕ)
    → parse_ci set iss aud skew now text ≡ ok t
    → t.issued_at ≡ some iat
    → iat ≤ now + skew
ci_issued_at set iss aud skew now text t iat h e =
    let (same, _, _) = ci_accepted set iss aud skew now text t h in
    let never : ci_token.issued_at ≡ some iat = rw same at e in cc never

abbrev ci_jwx : Jwx
ci_jwx = record {
  KeySet = Unit;
  parse_key_set = λ text. ok tt;
  parse_insecure = read_ci;
  parse = parse_ci;
  parse_insecure_eq = ci_read;
  parse_issuer = ci_issuer;
  parse_expiration = ci_expiration;
  parse_issued_at = ci_issued_at;
}

abbrev at_noon : Env ci_jwx
at_noon = record { now = 7; jwks = λ url. ok tt }

abbrev server : Server ci_jwx cedar
server = record { registry = registry; policies = base_set; authz_config = cfg; schemas = [] }

-- A store in which `widget` trusts that workload.
abbrev trusting_store : TrustStore buckets
trusting_store = (set_publisher_trust empty_store 5 "widget" (ci ∷ [])).0

ingest_accepted :
    (post_ingest server at_noon outside trusting_store "Bearer token" scan).1 ≡ accepted scan_ref
unfolding post_ingest ingest_for authenticated jwk_lookup auth_middleware authenticate_request
    extract_bearer_token peek_issuer dispatch authenticate workload_authenticate validate_token
    set_publisher_context set_publisher_flag_context set_scopes_context set_groups_context
    subject_id_extractor validate_subject_id set_subject_id_context middleware resolve decide
    trust_status subject_optional cedar_request action_for_route get_publisher get_publisher_flag
    get_scopes get_groups get_subject_id permitted forbidden any numbered base_policies
    is_publisher_trusted set_publisher_trust trust_plan trust_write subject_key listed write
    create_if lookup insert ingest_artifact ingest_read read_limited check_json submit
    body_subject_id artifact_type_of validate metadata_type validate_top_level get cut_prefix
    trim_right_slash
ingest_accepted = refl

post_ingest-IsPublished_example :
    IsPublished server at_noon trusting_store "Bearer token" outside scan scan_ref
post_ingest-IsPublished_example =
    post_ingest-IsPublished server at_noon trusting_store "Bearer token" outside scan scan_ref refl
      ingest_accepted

abbrev registering : TrustStore buckets → Context → TrustStore buckets × ℕ × ℕ
registering s ctx = (s, 1, 201)

registration_routed : action_for_route "POST" "/admin/subjects" ≡ some request_registration
unfolding action_for_route
registration_routed = refl

admin_route-cases_example :
    ((status : ℕ) × IsRefusal status
      × (admin_route server at_noon registering "POST" "/admin/subjects" 0 trusting_store
            "Bearer token"
          ≡ (claimed server at_noon trusting_store "Bearer token", 0, status)))
    ⊎ IsAdmitted server at_noon trusting_store "Bearer token" registering "POST" "/admin/subjects" 0
        request_registration
admin_route-cases_example =
    admin_route-cases server at_noon trusting_store "Bearer token" registering "POST"
      "/admin/subjects" 0 request_registration registration_routed (λ e. cc e) refl
