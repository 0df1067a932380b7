-- ===== src/Authz/Middleware/Publish.antt =====
-- Who may publish evidence: POST /api/ingest behind the middleware and the embedded policies.
use complytime_core.Prelude.{
  ◌≡◌, refl, ◌≢◌, ◌↔◌, Bool, true, false, ◌&&◌, some, arith, any, eq_iff, ◌∙◌,
}
use complytime_core.Errors.{ok}
use complytime_core.Authz.Actions.{publish_artifact, action_for_route}
use complytime_core.Authz.Context.{Context, get_publisher, get_publisher_flag, get_subject_id}
use complytime_core.Authz.Policies.{
  Cedar, CedarRequest, PolicySet, base_policies, numbered, permitted, forbidden,
}
use complytime_core.Authz.Middleware.{
  TrustLookup, MiddlewareConfig, passed, middleware, cedar_request,
}

abbrev pub base_set : PolicySet
base_set = numbered 0 base_policies

-- The embedded policies' decision on a request to publish.
pub base-publish :
    (cedar : Cedar) (r : CedarRequest)
    → r.action ≡ publish_artifact
    → cedar.authorize base_set r ≡ (r.publisher && r.publisher_trusted)
unfolding numbered base_policies permitted forbidden any
base-publish cedar r a = cedar.authorize_lem base_set r ∙ ground arith

module _ (cedar : Cedar) (cfg : MiddlewareConfig) (trust_lookup : TrustLookup) (ctx : Context) where
  -- POST /api/ingest reaches the handler exactly if the token gave an issuer and a sub, the request
  -- named a subject, the principal is a publisher, and the trust store answers that this publisher is
  -- trusted for this subject. An error of the trust store refuses.
  pub publish_iff :
      (middleware cedar base_set (some trust_lookup) cfg "POST" "/api/ingest" ctx ≡ passed) ↔ (
        ((get_publisher ctx).0 ≢ "")
        × ((get_publisher ctx).1 ≢ "")
        × (get_subject_id ctx ≢ "")
        × (get_publisher_flag ctx ≡ true)
        × (trust_lookup (get_subject_id ctx) (get_publisher ctx).0 (get_publisher ctx).1 ≡ ok true))
  unfolding middleware action_for_route
  publish_iff =
      let issuer = (get_publisher ctx).0 in
      let sub = (get_publisher ctx).1 in
      let subject_id = get_subject_id ctx in
      let facts = λ (t : Bool).
        base-publish cedar (cedar_request cfg ctx publish_artifact issuer sub subject_id t) refl in
      (
        ground
            (arith, eq_iff issuer "", eq_iff sub "", eq_iff subject_id "", facts true, facts false),
        ground
            (arith, eq_iff issuer "", eq_iff sub "", eq_iff subject_id "", facts true, facts false),
      )
