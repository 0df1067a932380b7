-- ===== src/Authz/Actions/Routes.antt =====
-- The route table of internal/authz/actions.go, read as a relation between requests and actions.
use complytime_core.Prelude.{
  ◌≡◌, ◌⊎◌, inl, inr, true, String, some, arith, starts_with, eq_iff, List, [], ◌∷◌, All,
  Bool-cases, subst,
}
use complytime_core.Authz.Actions.{
  Action, publish_artifact, request_registration, request_trust_modification, read_evidence,
  query_evidence, action_for_route, RouteMapping, route_mappings, takes, first_action,
}

-- The requests that each action is for.
abbrev pub Permits : Action → String → String → Type 0
Permits publish_artifact m p = (m ≡ "POST") × (p ≡ "/api/ingest")
Permits request_registration m p = (m ≡ "POST") × (p ≡ "/admin/subjects")
Permits request_trust_modification m p = (m ≡ "PUT") × (starts_with p "/admin/subjects/" ≡ true)
Permits read_evidence m p =
    (m ≡ "GET") × ((p ≡ "/api/evidence") ⊎ (p ≡ "/ledgers") ⊎ (starts_with p "/ledgers/" ≡ true))
Permits query_evidence m p =
    (m ≡ "GET") × ((p ≡ "/api/subjects") ⊎ (starts_with p "/api/subjects/" ≡ true))

IsSound : RouteMapping → Type 0
IsSound r = (m p : String) → takes r m p ≡ true → Permits r.action m p

first_action_sound :
    (l : List RouteMapping) (m p : String) (a : Action)
    → All IsSound l
    → first_action l m p ≡ some a
    → Permits a m p
unfolding first_action IsSound
first_action_sound [] m p a s h = cc
first_action_sound (r ∷ l) m p a s h = elim (Bool-cases (takes r m p)) [
  | inl e ↦ let same : r.action ≡ a = ground arith in subst (λ b. Permits b m p) same (s.0 m p e)
  | inr e ↦ first_action_sound l m p a s.1 (rw e at h)
]

route_mappings-IsSound : All IsSound route_mappings
unfolding route_mappings IsSound takes
route_mappings-IsSound = (
  λ m p h. ground (arith, eq_iff "POST" m, eq_iff "/api/ingest" p),
  (
    λ m p h. ground (arith, eq_iff "GET" m, eq_iff "/api/evidence" p),
    (
      λ m p h. ground (arith, eq_iff "POST" m, eq_iff "/admin/subjects" p),
      (
        λ m p h. ground (arith, eq_iff "PUT" m),
        (
          λ m p h. ground (arith, eq_iff "GET" m, eq_iff "/api/subjects" p),
          (
            λ m p h. ground (arith, eq_iff "GET" m),
            (
              λ m p h. ground (arith, eq_iff "GET" m, eq_iff "/ledgers" p),
              (λ m p h. ground (arith, eq_iff "GET" m), tt),
            ),
          ),
        ),
      ),
    ),
  ),
)

-- A request gets an action only if its method and path are those of the action.
pub action_for_route-Permits :
    (m p : String) (a : Action) → action_for_route m p ≡ some a → Permits a m p
unfolding action_for_route
action_for_route-Permits m p a = first_action_sound route_mappings m p a route_mappings-IsSound
