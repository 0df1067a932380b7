-- ===== src/Examples/Access.antt =====
-- Instances for internal/authz and internal/subjects.
use complytime_core.Prelude.{
  ◌≡◌, refl, ◌≢◌, ◌↔◌, inl, ◌<◌, ◌≤◌, Bool, true, false, ◌&&◌, not, String, List, [], ◌∷◌, none,
  some, arith, All, length, codes, lookup, has_suffix,
}
use complytime_core.Errors.{plain, Result, ok, err}
use complytime_core.Subjects.{validate_subject_id}
use complytime_core.Subjects.Slug.{
  IsSlug, IsHarmless, validate_subject_id_iff, validate_subject_id-IsHarmless,
}
use complytime_core.Authz.Actions.{publish_artifact, request_registration, action_for_route}
use complytime_core.Authz.Actions.Routes.{Permits, action_for_route-Permits}
use complytime_core.Authz.Context.{Context, get_publisher, get_publisher_flag, get_subject_id}
use complytime_core.Authz.Policies.{
  Cedar, CedarRequest, PolicySet, Policy, policies, DirEntry, permit, numbered, permitted,
  forbidden, load_embedded_policies, add_all, base_policies, merge_entries,
}
use complytime_core.Authz.Policies.Merge.{load_drops_floor}
use complytime_core.Authz.Middleware.{TrustLookup, MiddlewareConfig, passed, middleware}
use complytime_core.Authz.Middleware.Publish.{base_set, publish_iff}
use complytime_core.Authz.Middleware.Admin.{role, role_iff, publish_floor}

-- The engine that does what Cedar documents.
abbrev pub cedar : Cedar
cedar = record {
  authorize = λ ps r. permitted ps r && not (forbidden ps r);
  authorize_lem = λ ps r. refl;
  new_policy_set_from_bytes =
      λ name d. elim d [ policies l ↦ ok (numbered 0 l) | _ ↦ err (plain "parse error") ];
  new_policy_set_from_bytes_lem = λ name l. refl;
}

abbrev pub cfg : MiddlewareConfig
cfg = record { admin_group = ""; auditor_group = "" }

abbrev publisher_context : Context
publisher_context = record {
  publisher_issuer = some "https://ci";
  publisher_sub = some "repo:a";
  publisher_flag = some true;
  scopes = some [];
  groups = some [];
  subject_id = some "widget";
}

abbrev admin_context : Context
admin_context = record {
  publisher_issuer = some "https://idp";
  publisher_sub = some "alice";
  publisher_flag = some false;
  scopes = some ("complytime:admin" ∷ []);
  groups = some [];
  subject_id = none;
}

abbrev trusting : TrustLookup
trusting subject_id issuer sub = ok true

publish_iff_example :
    (middleware cedar base_set (some trusting) cfg "POST" "/api/ingest" publisher_context ≡ passed)
    ↔ (((get_publisher publisher_context).0 ≢ "")
        × ((get_publisher publisher_context).1 ≢ "")
        × (get_subject_id publisher_context ≢ "")
        × (get_publisher_flag publisher_context ≡ true)
        × (trusting
              (get_subject_id publisher_context)
              (get_publisher publisher_context).0
              (get_publisher publisher_context).1
            ≡ ok true))
publish_iff_example = publish_iff cedar cfg trusting publisher_context

registration_routed : action_for_route "POST" "/admin/subjects" ≡ some request_registration
unfolding action_for_route
registration_routed = refl

role_iff_example :
    (middleware cedar base_set none cfg "POST" "/admin/subjects" admin_context ≡ passed) ↔ (
      ((get_publisher admin_context).0 ≢ "")
      × ((get_publisher admin_context).1 ≢ "")
      × (role cfg admin_context request_registration ≡ true))
role_iff_example =
    role_iff cedar cfg none admin_context "POST" "/admin/subjects" request_registration
      registration_routed (λ e. cc e)

publisher_passes :
    middleware cedar base_set (some trusting) cfg "POST" "/api/ingest" publisher_context ≡ passed
unfolding get_publisher get_publisher_flag get_subject_id
publisher_passes =
    (publish_iff cedar cfg trusting publisher_context).1
      ((λ e. cc e), (λ e. cc e), (λ e. cc e), refl, refl)

publish_floor_example :
    (get_subject_id publisher_context ≢ "")
    × ((trusted : Bool) × (trusting
            (get_subject_id publisher_context)
            (get_publisher publisher_context).0
            (get_publisher publisher_context).1
          ≡ ok trusted))
publish_floor_example = publish_floor cedar base_set cfg trusting publisher_context publisher_passes

widget_accepted : validate_subject_id "widget-1" ≡ ok tt
widget_accepted = (validate_subject_id_iff "widget-1").1 (ground arith)

validate_subject_id_iff_example :
    (validate_subject_id "widget-1" ≡ ok tt) ↔ IsSlug (codes "widget-1")
validate_subject_id_iff_example = validate_subject_id_iff "widget-1"

validate_subject_id-IsHarmless_example :
    (0 < length (codes "widget-1"))
    × (length (codes "widget-1") ≤ 254)
    × All IsHarmless (codes "widget-1")
validate_subject_id-IsHarmless_example = validate_subject_id-IsHarmless "widget-1" widget_accepted

action_for_route-Permits_example : Permits request_registration "POST" "/admin/subjects"
action_for_route-Permits_example =
    action_for_route-Permits "POST" "/admin/subjects" request_registration registration_routed

extra_suffix : has_suffix "extra.cedar" ".cedar" ≡ true
unfolding has_suffix
extra_suffix = refl

-- A file of an operator that allows everyone to publish, and a second policy after it.
abbrev everyone : Policy
everyone = record { effect = permit; condition = λ r. true }

abbrev nobody : Policy
nobody = record { effect = permit; condition = λ r. false }

abbrev extra_file : DirEntry
extra_file = record {
  name = "extra.cedar";
  is_dir = false;
  content = ok (policies (everyone ∷ nobody ∷ []));
}

abbrev read_extra : String → Result (List DirEntry)
read_extra dir = ok (extra_file ∷ [])

abbrev replaced : PolicySet
replaced = add_all (numbered 0 base_policies) (numbered 0 (everyone ∷ nobody ∷ []))

extra_loaded : load_embedded_policies cedar read_extra "/etc/policies" ≡ ok replaced
unfolding load_embedded_policies merge_entries has_suffix
extra_loaded = refl

abbrev untrusted_request : CedarRequest
untrusted_request = record {
  principal = "https://ci";
  publisher = true;
  scopes = [];
  groups = [];
  issuer = "https://ci";
  sub = "repo:b";
  action = publish_artifact;
  resource = "widget";
  publisher_trusted = false;
  admin_group = "";
  auditor_group = "";
}

load_drops_floor_example :
    (lookup "policy0" replaced ≡ some everyone)
    × (lookup "policy1" replaced ≡ some nobody)
    × (cedar.authorize replaced untrusted_request ≡ true)
load_drops_floor_example =
    load_drops_floor cedar read_extra "/etc/policies" extra_file everyone nobody (λ e. cc e) refl
      refl extra_suffix refl replaced extra_loaded untrusted_request refl refl refl (inl refl)
