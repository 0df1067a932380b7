-- ===== src/Authn/Claims/Groups.antt =====
-- What the extraction of scopes and groups lets through.
use mathlib.Core.List.Memᴰ
use complytime_core.Prelude.{
  ◌≡◌, refl, ◌↔◌, sym, true, String, List, [], ◌∷◌, All, Memᴰ, contains, to_lower, Bool-cases, inl,
  inr, ◌==◌, Option, none, some, fields,
}
use complytime_core.Json.{Members, get, as_string}
use complytime_core.Authn.Claims.{
  known_scopes, keep_known, extract_scopes, sort_groups, extract_groups,
  extract_groups_with_dropped, extract_claim_by_path, scopes_of,
}

keep_known-known : (known l : List String) → All (λ s. contains known s ≡ true) (keep_known known l)
unfolding keep_known
keep_known-known known [] = tt
keep_known-known known (s ∷ l) = elim (Bool-cases (contains known s)) [
  | inl e ↦ rw e (e, keep_known-known known l)
  | inr e ↦ rw e (keep_known-known known l)
]

scopes_of-known : (o : Option String) → All (λ s. contains known_scopes s ≡ true) (scopes_of o)
scopes_of-known none = tt
scopes_of-known (some scope) = elim (Bool-cases (scope == "")) [
  | inl e ↦ rw e tt
  | inr e ↦ rw e (keep_known-known known_scopes (fields scope))
]

-- Every scope that is extracted is one that the application knows, whatever the token says.
extract_scopes-known :
    (claims : Members) → All (λ s. contains known_scopes s ≡ true) (extract_scopes claims)
unfolding extract_scopes
extract_scopes-known claims = scopes_of-known (as_string (get "scope" claims))

-- A name of the token that stands for a group: the group is its lower case.
pub record Stands (raw : List String) (group : String) : Type 0 where
  pub name : String
  pub listed : Memᴰ name raw
  pub lowered : to_lower name ≡ group

module _ (known : List String) (group : String) where
  sorted-Stands :
      (raw : List String)
      → Memᴰ group (sort_groups known raw).0
      → Stands raw group × (contains known group ≡ true)
  unfolding sort_groups
  sorted-Stands [] m = elim m [ ]
  sorted-Stands (name ∷ raw) m =
      let later : Memᴰ group (sort_groups known raw).0
          → Stands (name ∷ raw) group × (contains known group ≡ true) =
        λ n.
          let (w, c) = sorted-Stands raw n in
          (record { name = w.name; listed = Memᴰ.tail w.listed; lowered = w.lowered }, c) in
      elim (Bool-cases (contains known (to_lower name))) [
        | inl e ↦ elim (Memᴰ.cases_cons (rw e at m)) [
          | inl same ↦
              (record { name = name; listed = Memᴰ.head refl; lowered = sym same }, rw same e)
          | inr n ↦ later n
        ]
        | inr e ↦ later (rw e at m)
      ]

  Stands-sorted :
      (raw : List String) (name : String)
      → Memᴰ name raw
      → to_lower name ≡ group
      → contains known group ≡ true
      → Memᴰ group (sort_groups known raw).0
  unfolding sort_groups
  Stands-sorted [] name m lowered c = elim m [ ]
  Stands-sorted (first ∷ raw) name (Memᴰ.head e) lowered c =
      let same : to_lower first ≡ group = rw (sym e) lowered in
      let kept : contains known (to_lower first) ≡ true = rw same c in
      rw kept (Memᴰ.head (sym same))
  Stands-sorted (first ∷ raw) name (Memᴰ.tail m) lowered c =
      let later = Stands-sorted raw name m lowered c in
      elim (Bool-cases (contains known (to_lower first))) [
        | inl e ↦ rw e (Memᴰ.tail later)
        | inr e ↦ rw e later
      ]

-- The groups that are extracted from a token are exactly the configured ones that are the lower case of
-- a name in its groups claim: no other group is recognized, and none of these is dropped.
pub extract_groups_iff :
    (claims : Members) (group_claim : String) (known : List String) (group : String)
    → Memᴰ group (extract_groups claims group_claim known)
      ↔ (Stands (extract_claim_by_path claims group_claim) group × (contains known group ≡ true))
unfolding extract_groups extract_groups_with_dropped
extract_groups_iff claims group_claim known group =
    let raw = extract_claim_by_path claims group_claim in
    (
      sorted-Stands known group raw,
      λ (w, c). Stands-sorted known group raw w.name w.listed w.lowered c,
    )
