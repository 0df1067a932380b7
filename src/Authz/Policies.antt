-- ===== src/Authz/Policies.antt =====
-- The Cedar policies: internal/authz/policies/base.cedar, and how LoadEmbeddedPolicies of
-- internal/authz/middleware.go joins an operator's files to them. The Cedar library itself is a
-- parameter, the record `Cedar` with what its documentation promises.
pub mod Merge
use complytime_core.Prelude.{
  ℕ, ◌+◌, ◌≡◌, ◌↔◌, Bool, true, false, ◌&&◌, ◌||◌, not, String, List, [], ◌∷◌, any, contains,
  concat, itoa, insert, has_suffix, ◌==◌, if◌then◌else◌, codes,
}
use complytime_core.Errors.{Result, ok, err, ◌>>=◌, ◌>>◌, context}
use complytime_core.Authz.Actions.{
  Action, publish_artifact, request_registration, request_trust_modification, read_evidence,
  query_evidence,
}

-- What the middleware hands to Cedar: the principal and the resource with their attributes, the
-- action, and the two group names of the request's context.
pub record CedarRequest : Type 0 where
  pub principal : String
  pub publisher : Bool
  pub scopes : List String
  pub groups : List String
  pub issuer : String
  pub sub : String
  pub action : Action
  pub resource : String
  pub publisher_trusted : Bool
  pub admin_group : String
  pub auditor_group : String

pub data Effect : Type 0 where
  permit forbid : Effect

-- A policy with its scope and its `when` and `unless` clauses as one condition.
pub record Policy : Type 0 where
  pub effect : Effect
  pub condition : CedarRequest → Bool

abbrev pub PolicySet : Type 0
PolicySet = List (String × Policy)

abbrev pub is_action : Action → Action → Bool
is_action publish_artifact publish_artifact = true
is_action request_registration request_registration = true
is_action request_trust_modification request_trust_modification = true
is_action read_evidence read_evidence = true
is_action query_evidence query_evidence = true
is_action _ _ = false

abbrev is_admin : CedarRequest → Bool
is_admin r = contains r.scopes "complytime:admin" || contains r.groups r.admin_group

abbrev is_auditor : CedarRequest → Bool
is_auditor r =
    contains r.scopes "complytime:audit"
    || (contains r.scopes "complytime:admin"
        || (contains r.groups r.auditor_group || contains r.groups r.admin_group))

pub publish_permit : Policy
publish_permit = record {
  effect = permit;
  condition = λ r. is_action r.action publish_artifact && (r.publisher && r.publisher_trusted);
}

pub safety_floor : Policy
safety_floor = record {
  effect = forbid;
  condition = λ r. is_action r.action publish_artifact && not r.publisher_trusted;
}

pub registration_permit : Policy
registration_permit = record {
  effect = permit;
  condition = λ r. is_action r.action request_registration && is_admin r;
}

pub trust_modification_permit : Policy
trust_modification_permit = record {
  effect = permit;
  condition = λ r. is_action r.action request_trust_modification && is_admin r;
}

pub query_permit : Policy
query_permit = record {
  effect = permit;
  condition = λ r. is_action r.action query_evidence && is_auditor r;
}

pub read_permit : Policy
read_permit = record {
  effect = permit;
  condition = λ r. is_action r.action read_evidence && is_auditor r;
}

-- policies/base.cedar, in its order.
unfoldable pub base_policies : List Policy
unfolding publish_permit safety_floor registration_permit trust_modification_permit query_permit
    read_permit
base_policies =
    publish_permit ∷ safety_floor ∷ registration_permit ∷ trust_modification_permit ∷ query_permit
    ∷ read_permit ∷ []

abbrev is_permit : Effect → Bool
is_permit permit = true
is_permit forbid = false

-- Some policy of the effect applies to the request.
unfoldable pub permitted : PolicySet → CedarRequest → Bool
permitted ps r = any (λ e. is_permit e.1.effect && e.1.condition r) ps

unfoldable pub forbidden : PolicySet → CedarRequest → Bool
forbidden ps r = any (λ e. not (is_permit e.1.effect) && e.1.condition r) ps

-- The text of a policy file, parsed or not.
pub data Document : Type 0 where
  malformed : Document
  policies : List Policy → Document

-- The IDs that a parsed file's policies get: `policy0`, `policy1`, and so on, in each file.
unfoldable pub numbered : ℕ → List Policy → PolicySet
numbered n [] = []
numbered n (p ∷ ps) = (concat "policy" (itoa n), p) ∷ numbered (n + 1) ps

-- The library cedar-go: `cedar.Authorize` allows exactly if some permit and no forbid applies, and
-- `cedar.NewPolicySetFromBytes` gives the policies of a file the IDs `policy0`, `policy1`, ….
pub record Cedar : Type 0 where
  pub authorize : PolicySet → CedarRequest → Bool
  pub authorize_lem :
      (ps : PolicySet) (r : CedarRequest)
      → authorize ps r ≡ (permitted ps r && not (forbidden ps r))
  pub new_policy_set_from_bytes : String → Document → Result PolicySet
  pub new_policy_set_from_bytes_lem :
      (name : String) (l : List Policy)
      → new_policy_set_from_bytes name (policies l) ≡ ok (numbered 0 l)

-- An entry of CEDAR_POLICY_DIR, with what reading it gives.
pub record DirEntry : Type 0 where
  pub name : String
  pub is_dir : Bool
  pub content : Result Document

-- `for id, policy := range extra { ps.Add(id, policy) }`: `Add` replaces a policy with the same ID.
unfoldable pub add_all : PolicySet → PolicySet → PolicySet
add_all ps [] = ps
add_all ps ((id, policy) ∷ extra) = add_all (insert id policy ps) extra

unfoldable pub merge_entries : Cedar → PolicySet → List DirEntry → Result PolicySet
unfolding add_all
merge_entries c ps [] = ok ps
merge_entries c ps (entry ∷ rest) =
    let skip = merge_entries c ps rest in
    let join = (do
      document ← context (concat "reading " entry.name) entry.content
      extra ←
          context (concat "parsing " entry.name) (c.new_policy_set_from_bytes entry.name document)
      merge_entries c (add_all ps extra) rest) in
    if entry.is_dir || not (has_suffix entry.name ".cedar") then skip else join

-- LoadEmbeddedPolicies: `read_dir` is `os.ReadDir`.
unfoldable pub load_embedded_policies :
    Cedar → (String → Result (List DirEntry)) → String → Result PolicySet
unfolding merge_entries base_policies
load_embedded_policies c read_dir policy_dir = do
  ps ←
      context "parsing base.cedar"
        (c.new_policy_set_from_bytes "base.cedar" (policies base_policies))
  if policy_dir == "" then ok ps else do
    entries ← context (concat "reading CEDAR_POLICY_DIR " policy_dir) (read_dir policy_dir)
    merge_entries c ps entries
