-- ===== src/Authz/Middleware/Admin.antt =====
-- Who may administer and who may read: the routes other than ingest, and what no policy can grant.
use complytime_core.Prelude.{
  ◌≡◌, ◌≢◌, ◌↔◌, Bool, true, false, ◌||◌, String, Option, none, some, arith, any, eq_iff, ◌∙◌,
  contains, inl, inr,
}
use complytime_core.Errors.{ok, Result-cases}
use complytime_core.Authz.Actions.{
  Action, publish_artifact, action_for_route, request_registration, request_trust_modification,
  query_evidence, read_evidence,
}
use complytime_core.Authz.Context.{Context, get_publisher, get_subject_id, get_scopes, get_groups}
use complytime_core.Authz.Policies.{Cedar, PolicySet, base_policies, numbered, permitted, forbidden}
use complytime_core.Authz.Middleware.{
  TrustLookup, MiddlewareConfig, passed, middleware, cedar_request, admin_group, auditor_group,
}
use complytime_core.Authz.Middleware.Publish.{base_set}

-- The scope or the group of an administrator, and those of an auditor.
abbrev pub has_admin : MiddlewareConfig → Context → Bool
has_admin cfg ctx =
    contains (get_scopes ctx) "complytime:admin" || contains (get_groups ctx) (admin_group cfg)

abbrev pub has_audit : MiddlewareConfig → Context → Bool
has_audit cfg ctx =
    contains (get_scopes ctx) "complytime:audit" || contains (get_groups ctx) (auditor_group cfg)

-- What the embedded policies ask of a caller for each action but publishing.
abbrev pub role : MiddlewareConfig → Context → Action → Bool
role cfg ctx publish_artifact = false
role cfg ctx request_registration = has_admin cfg ctx
role cfg ctx request_trust_modification = has_admin cfg ctx
role cfg ctx read_evidence = has_audit cfg ctx || has_admin cfg ctx
role cfg ctx query_evidence = has_audit cfg ctx || has_admin cfg ctx

base-role :
    (cedar : Cedar) (cfg : MiddlewareConfig) (ctx : Context) (a : Action) (i s t : String)
    → a ≢ publish_artifact
    → cedar.authorize base_set (cedar_request cfg ctx a i s t false) ≡ role cfg ctx a
unfolding numbered base_policies permitted forbidden any cedar_request
base-role cedar cfg ctx a i s t n =
    cedar.authorize_lem base_set (cedar_request cfg ctx a i s t false) ∙ ground arith

module _ (cedar : Cedar) (cfg : MiddlewareConfig) (trust_lookup : Option TrustLookup)
    (ctx : Context) (method path : String) (a : Action)
    (routed : action_for_route method path ≡ some a) (other : a ≢ publish_artifact) where
  -- A route of any action but publishing reaches its handler exactly if the token gave an issuer and
  -- a sub and the caller has the role of the action: administrator for the two admin actions, auditor
  -- or administrator for reading and querying. The trust list and the subject play no part.
  pub role_iff :
      (middleware cedar base_set trust_lookup cfg method path ctx ≡ passed)
      ↔ (((get_publisher ctx).0 ≢ "") × ((get_publisher ctx).1 ≢ "") × (role cfg ctx a ≡ true))
  unfolding middleware
  role_iff =
      let issuer = (get_publisher ctx).0 in
      let sub = (get_publisher ctx).1 in
      let subject_id = get_subject_id ctx in
      (
        ground (
          arith,
          eq_iff issuer "",
          eq_iff sub "",
          base-role cedar cfg ctx a issuer sub subject_id other,
          base-role cedar cfg ctx a issuer sub "*" other,
        ),
        ground (
          arith,
          eq_iff issuer "",
          eq_iff sub "",
          base-role cedar cfg ctx a issuer sub subject_id other,
          base-role cedar cfg ctx a issuer sub "*" other,
        ),
      )

module _ (cedar : Cedar) (ps : PolicySet) (cfg : MiddlewareConfig) (trust_lookup : TrustLookup)
    (ctx : Context) where
  -- Whatever the policies are, a request that passes has an issuer and a sub, and its route an action.
  middleware_floor :
      (method path : String)
      → middleware cedar ps (some trust_lookup) cfg method path ctx ≡ passed
      → ((get_publisher ctx).0 ≢ "")
        × ((get_publisher ctx).1 ≢ "")
        × (action_for_route method path ≢ none)
  unfolding middleware
  middleware_floor method path h = (
    ground (arith, eq_iff (get_publisher ctx).0 ""),
    ground (arith, eq_iff (get_publisher ctx).1 ""),
    ground arith,
  )

  -- Whatever the policies are, a request to publish that passes names a subject, and the trust store
  -- answered for it: a lookup that fails refuses.
  pub publish_floor :
      middleware cedar ps (some trust_lookup) cfg "POST" "/api/ingest" ctx ≡ passed
      → (get_subject_id ctx ≢ "")
        × ((trusted : Bool) × (trust_lookup
                (get_subject_id ctx)
                (get_publisher ctx).0
                (get_publisher ctx).1
              ≡ ok trusted))
  unfolding middleware action_for_route
  publish_floor h =
      let answer = trust_lookup (get_subject_id ctx) (get_publisher ctx).0 (get_publisher ctx).1 in
      (
        ground (arith, eq_iff (get_subject_id ctx) ""),
        elim (Result-cases answer) [
          | inl found ↦ found
          | inr (e, failed) ↦ absurd (ground (arith, failed))
        ],
      )
