-- ===== src/Authz/Policies/Merge.antt =====
-- What the joining of policy files does to the base policies.
use complytime_core.Prelude.{
  ◌≡◌, refl, ◌≢◌, true, false, ◌&&◌, not, String, List, [], ◌∷◌, any, some, lookup, insert,
  has_suffix, arith, eq_iff, ◌==◌, ◌⊎◌, ◌∙◌, itoa,
}
use complytime_core.Errors.{Result, ok}
use complytime_core.Authz.Actions.{publish_artifact}
use complytime_core.Authz.Policies.{
  Policy, PolicySet, CedarRequest, Cedar, DirEntry, policies, permit, base_policies, numbered,
  add_all, load_embedded_policies, permitted, forbidden,
}

-- With no policy directory the base policies are loaded, whatever the file system holds.
load_base :
    (c : Cedar) (read_dir : String → Result (List DirEntry))
    → load_embedded_policies c read_dir "" ≡ ok (numbered 0 base_policies)
unfolding load_embedded_policies
load_base c read_dir = rw (c.new_policy_set_from_bytes_lem "base.cedar" base_policies)

module _ (c : Cedar) (read_dir : String → Result (List DirEntry)) (dir : String) (entry : DirEntry)
    (p q : Policy) (dir_given : dir ≢ "") (listing : read_dir dir ≡ ok (entry ∷ []))
    (plain_file : entry.is_dir ≡ false) (suffix : has_suffix entry.name ".cedar" ≡ true)
    (two : entry.content ≡ ok (policies (p ∷ q ∷ []))) where
  merged : PolicySet
  merged = add_all (numbered 0 base_policies) (numbered 0 (p ∷ q ∷ []))

  load_merged : load_embedded_policies c read_dir dir ≡ ok merged
  unfolding load_embedded_policies merged
  load_merged =
      let given : (dir == "") ≡ false = ground (arith, eq_iff dir "") in
      rw (
        c.new_policy_set_from_bytes_lem "base.cedar" base_policies,
        given,
        listing,
        plain_file,
        suffix,
        two,
        c.new_policy_set_from_bytes_lem entry.name (p ∷ q ∷ []),
      )

  merged_publish :
      (r : CedarRequest)
      → r.action ≡ publish_artifact
      → p.effect ≡ permit
      → p.condition r ≡ true
      → (q.effect ≡ permit) ⊎ (q.condition r ≡ false)
      → (permitted merged r && not (forbidden merged r)) ≡ true
  unfolding merged base_policies numbered add_all insert permitted forbidden any itoa
  merged_publish r a e f g = ground arith

  -- A file with two policies takes the IDs `policy0` and `policy1`, which are those of the publish
  -- permit and of the safety floor: neither is in the set that is loaded. What the file permits to
  -- publish is then allowed for every resource, trusted or not, unless its second policy forbids it.
  pub load_drops_floor :
      (ps : PolicySet)
      → load_embedded_policies c read_dir dir ≡ ok ps
      → (r : CedarRequest) → r.action ≡ publish_artifact
      → p.effect ≡ permit
      → p.condition r ≡ true
      → (q.effect ≡ permit) ⊎ (q.condition r ≡ false)
      → (lookup "policy0" ps ≡ some p) × (lookup "policy1" ps ≡ some q) × (c.authorize ps r ≡ true)
  unfolding load_embedded_policies merged base_policies numbered add_all insert lookup itoa
  load_drops_floor ps h r a e f g =
      let same : ps ≡ merged = cc load_merged in
      rw same (refl, refl, c.authorize_lem merged r ∙ merged_publish r a e f g)
