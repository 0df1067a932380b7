-- ===== src/Authz/Middleware.antt =====
-- The authorization middleware of internal/authz/middleware.go. The verdict is a refusal with its
-- status and message, or the call of the next handler.
pub mod Publish
pub mod Admin
use complytime_core.Prelude.{
  ℕ, Bool, true, false, ◌||◌, not, String, Option, none, some, ◌==◌, if◌then◌else◌,
}
use complytime_core.Errors.{Result, ok, err}
use complytime_core.Authz.Actions.{
  Action, request_registration, request_trust_modification, read_evidence, query_evidence,
  action_for_route, principal_from_jwt,
}
use complytime_core.Authz.Context.{
  Context, get_publisher, get_publisher_flag, get_scopes, get_groups, get_subject_id,
}
use complytime_core.Authz.Policies.{Cedar, CedarRequest, PolicySet, is_action}

-- Empty fields fall back to the defaults.
pub record MiddlewareConfig : Type 0 where
  pub admin_group : String
  pub auditor_group : String

abbrev pub default_admin_group : String
default_admin_group = "complytime-admin"

abbrev pub default_auditor_group : String
default_auditor_group = "complytime-auditor"

unfoldable pub admin_group : MiddlewareConfig → String
admin_group c = if c.admin_group == "" then default_admin_group else c.admin_group

unfoldable pub auditor_group : MiddlewareConfig → String
auditor_group c = if c.auditor_group == "" then default_auditor_group else c.auditor_group

-- Subject, issuer and sub; an error is a lookup that failed.
abbrev pub TrustLookup : Type 0
TrustLookup = String → String → String → Result Bool

pub data Verdict : Type 0 where
  refused : ℕ → String → Verdict
  passed : Verdict

-- The actions that go on without a subject ID, and without a look at the trust list.
unfoldable pub subject_optional : Action → Bool
subject_optional action =
    is_action action request_registration
    || (is_action action request_trust_modification
        || (is_action action read_evidence || is_action action query_evidence))

unfoldable pub trust_status : Option TrustLookup → Action → String → String → String → Result Bool
trust_status trust_lookup action subject_id issuer sub =
    if not (subject_optional action)
    then elim trust_lookup [ none ↦ ok false | some f ↦ f subject_id issuer sub ]
    else ok false

unfoldable pub cedar_request :
    MiddlewareConfig → Context → Action → String → String → String → Bool → CedarRequest
unfolding get_publisher_flag get_scopes get_groups admin_group auditor_group
cedar_request cfg ctx action issuer sub subject_id trusted = record {
  principal = principal_from_jwt issuer sub;
  publisher = get_publisher_flag ctx;
  scopes = get_scopes ctx;
  groups = get_groups ctx;
  issuer = issuer;
  sub = sub;
  action = action;
  resource = subject_id;
  publisher_trusted = trusted;
  admin_group = admin_group cfg;
  auditor_group = auditor_group cfg;
}

module _ (cedar : Cedar) (ps : PolicySet) (trust_lookup : Option TrustLookup)
    (cfg : MiddlewareConfig) where
  -- From the trust lookup to the decision.
  unfoldable pub decide : Context → Action → String → String → String → Verdict
  unfolding trust_status cedar_request subject_optional
  decide ctx action issuer sub subject_id =
      elim (trust_status trust_lookup action subject_id issuer sub) [
        | err e ↦ refused 403 "Forbidden: trust lookup failed"
        | ok trusted ↦
            if cedar.authorize ps (cedar_request cfg ctx action issuer sub subject_id trusted)
            then passed
            else refused 403 "Forbidden"
      ]

  -- The subject ID, or `*` where the action does without.
  unfoldable pub resolve : Context → Action → String → String → Verdict
  unfolding decide get_subject_id subject_optional
  resolve ctx action issuer sub =
      if get_subject_id ctx == ""
      then if subject_optional action
        then decide ctx action issuer sub "*"
        else refused 403 "Forbidden: missing subject ID"
      else decide ctx action issuer sub (get_subject_id ctx)

  unfoldable pub middleware : String → String → Context → Verdict
  unfolding resolve get_publisher
  middleware method path ctx =
      let (issuer, sub) = get_publisher ctx in
      if issuer == "" || sub == ""
      then refused 401 "Unauthorized"
      else elim (action_for_route method path) [
        | none ↦ refused 403 "Forbidden: unmapped route"
        | some action ↦ resolve ctx action issuer sub
      ]
