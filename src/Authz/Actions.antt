-- ===== src/Authz/Actions.antt =====
-- internal/authz/actions.go: the Cedar actions, and the action of each route.
pub mod Routes
use complytime_core.Prelude.{
  Bool, true, false, String, List, [], ◌∷◌, Option, none, some, ◌==◌, starts_with, concat, not,
  has_suffix, if◌then◌else◌,
}

-- The entity UIDs Action::"publish:artifact", Action::"admin:request-registration",
-- Action::"admin:request-trust-modification", Action::"read:evidence", Action::"query:evidence".
pub data Action : Type 0 where
  publish_artifact request_registration request_trust_modification read_evidence query_evidence :
      Action

pub record RouteMapping : Type 0 where
  pub method : String
  pub path : String
  pub action : Action

abbrev route : String → String → Action → RouteMapping
route m p a = record { method = m; path = p; action = a }

unfoldable pub route_mappings : List RouteMapping
route_mappings =
    route "POST" "/api/ingest" publish_artifact
    ∷ route "GET" "/api/evidence" read_evidence
    ∷ route "POST" "/admin/subjects" request_registration
    ∷ route "PUT" "/admin/subjects/" request_trust_modification
    ∷ route "GET" "/api/subjects" query_evidence
    ∷ route "GET" "/api/subjects/" query_evidence
    ∷ route "GET" "/ledgers" read_evidence
    ∷ route "GET" "/ledgers/" read_evidence
    ∷ []

-- One pass of the loop: does the mapping take this request?
unfoldable pub takes : RouteMapping → String → String → Bool
unfolding has_suffix
takes mapping method path =
    if not (mapping.method == method)
    then false
    else if has_suffix mapping.path "/"
    then starts_with path mapping.path
    else mapping.path == path

unfoldable pub first_action : List RouteMapping → String → String → Option Action
unfolding takes
first_action [] method path = none
first_action (mapping ∷ rest) method path =
    if takes mapping method path then some mapping.action else first_action rest method path

unfoldable pub action_for_route : String → String → Option Action
unfolding first_action route_mappings
action_for_route method path = first_action route_mappings method path

-- The text of Publisher::"issuer::sub".
unfoldable pub principal_from_jwt : String → String → String
principal_from_jwt issuer sub = concat issuer (concat "::" sub)
