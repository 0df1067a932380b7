-- ===== src/Authn/Claims.antt =====
-- internal/authn/claims.go, and ExtractScopes and ExtractGroups of internal/authn/oidc_issuer.go.
pub mod Groups
use complytime_core.Prelude.{
  Bool, String, List, [], ◌∷◌, Option, none, some, ◌==◌, if◌then◌else◌, contains, split_char,
  fields, to_lower,
}
use complytime_core.Json.{Json, obj, arr, Members, get, as_object, as_string, strings}

-- The walk along the segments: a segment that is missing, or asked of no object, ends it.
unfoldable pub walk : Json → List String → Option Json
unfolding get
walk current [] = some current
walk (obj m) (seg ∷ rest) = elim (get seg m) [ none ↦ none | some v ↦ walk v rest ]
walk _ (seg ∷ rest) = none

abbrev leaf_strings : Option Json → List String
leaf_strings (some (arr items)) = strings items
leaf_strings _ = []

unfoldable pub extract_claim_by_path : Members → String → List String
unfolding walk strings
extract_claim_by_path claims dot_path =
    if dot_path == "" then [] else leaf_strings (walk (obj claims) (split_char b'.' dot_path))

-- knownScopes.
unfoldable pub known_scopes : List String
known_scopes = "complytime:admin" ∷ "complytime:audit" ∷ "complytime:read" ∷ []

-- The texts of `l` that are in `known`, in order.
unfoldable pub keep_known : List String → List String → List String
unfolding contains
keep_known known [] = []
keep_known known (s ∷ l) =
    let rest = keep_known known l in if contains known s then s ∷ rest else rest

abbrev scopes_of : Option String → List String
scopes_of none = []
scopes_of (some scope) = if scope == "" then [] else keep_known known_scopes (fields scope)

unfoldable pub extract_scopes : Members → List String
unfolding keep_known known_scopes get
extract_scopes claims = scopes_of (as_string (get "scope" claims))

-- One pass of the loop: a name is normalized, and kept or dropped.
unfoldable pub sort_groups : List String → List String → List String × List String
unfolding contains to_lower
sort_groups known [] = ([], [])
sort_groups known (g ∷ raw) =
    let (recognized, dropped) = sort_groups known raw in
    let normalized = to_lower g in
    if contains known normalized
    then (normalized ∷ recognized, dropped)
    else (recognized, normalized ∷ dropped)

unfoldable pub extract_groups_with_dropped :
    Members → String → List String → List String × List String
unfolding extract_claim_by_path sort_groups
extract_groups_with_dropped claims group_claim known =
    sort_groups known (extract_claim_by_path claims group_claim)

unfoldable pub extract_groups : Members → String → List String → List String
unfolding extract_groups_with_dropped
extract_groups claims group_claim known = (extract_groups_with_dropped claims group_claim known).0
