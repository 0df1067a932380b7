-- ===== src/Authn/Registry/Urls.antt =====
-- The trust entries that ValidateTrustEntry of internal/authn/registry.go takes, and the issuer URLs that
-- ValidateIssuerURL takes, read as text.
use Prim.Native.String.{char_at}
use text.Mathlib.TextLemmas.{append-nil}
use complytime_core.Prelude.{
  ◌≡◌, refl, ◌≢◌, ◌⊎◌, inl, inr, sym, String, List, [], ◌∷◌, none, some, Memᴰ, lookup, arith,
  concat, ◌==◌, eq_iff, cut, cut_lem, cut-before, to_lower, Option-cases, Bool-cases,
}
use complytime_core.Errors.{ok}
use complytime_core.Authn.Oidc.{oidc_url}
use complytime_core.Authn.Publisher.Issuers.{
  PublisherIssuer, JwksIssuer, git_hub_actions, git_lab_ci, gcp_workload, kubernetes, spiffe,
  workload, validate_trust_entry, git_hub_actions_validate_trust_entry,
  git_lab_ci_validate_trust_entry, gcp_workload_validate_trust_entry,
  kubernetes_validate_trust_entry, spiffe_validate_trust_entry, workload_validate_trust_entry,
}
use complytime_core.Authn.Publisher.Subs.{IsServiceAccount, kubernetes_validate_trust_entry_iff}
use complytime_core.Authn.Registry.{
  IssuerRegistry, validate_issuer_url, registry_validate_trust_entry,
}
use complytime_core.Authn.Registry.Scanners.{registry_validate_trust_entry_iff}

-- A scheme, `://`, a host without a slash, and nothing more or a path from its slash on; scheme and host
-- are their own lower case.
pub record IsLowerUrl (u : String) : Type 0 where
  pub scheme : String
  pub host : String
  pub tail : String
  pub whole : u ≡ concat scheme (concat "://" (concat host tail))
  pub ends : (tail ≡ "") ⊎ ((path : String) × (tail ≡ concat "/" path))
  pub no_slash : cut host "/" ≡ none
  pub lower : to_lower (concat scheme (concat "://" host)) ≡ concat scheme (concat "://" host)

pub validate_issuer_url-IsLowerUrl : (u : String) → validate_issuer_url u ≡ ok tt → IsLowerUrl u
unfolding validate_issuer_url
validate_issuer_url-IsLowerUrl u h = elim (Option-cases (cut u "://")) [
  | inl n ↦ absurd (ground (arith, n))
  | inr ((scheme, rest), n) ↦ elim (Option-cases (cut rest "/")) [
    | inl m ↦
        let whole : u ≡ concat scheme (concat "://" rest) = cut_lem u "://" scheme rest n in
        elim (Bool-cases (u == to_lower u)) [
          | inr e ↦ absurd (ground (arith, n, m, e))
          | inl e ↦ record {
            scheme = scheme;
            host = rest;
            tail = "";
            whole = rw (append-nil rest) whole;
            ends = inl refl;
            no_slash = m;
            lower = rw (sym whole) (sym ((eq_iff u (to_lower u)).0 e));
          }
        ]
    | inr ((host, path), m) ↦
        let front = concat scheme (concat "://" host) in
        elim (Bool-cases (front == to_lower front)) [
          | inr e ↦ absurd (ground (arith, n, m, e))
          | inl e ↦ record {
            scheme = scheme;
            host = host;
            tail = concat "/" path;
            whole = rw (sym (cut_lem rest "/" host path m)) (cut_lem u "://" scheme rest n);
            ends = inr (path, refl);
            no_slash = cut-before (char_at "/" 0) rest host path m;
            lower = sym ((eq_iff front (to_lower front)).0 e);
          }
        ]
  ]
]

lookup-Memᴰ :
    {V : Type 0} (k : String) (v : V) (m : List (String × V)) → lookup k m ≡ some v → Memᴰ (k, v) m
unfolding lookup
lookup-Memᴰ k v [] h = absurd (cc h)
lookup-Memᴰ k v ((name, old) ∷ m) h = elim (Bool-cases (name == k)) [
  | inl e ↦
      let held : some old ≡ some v = rw e at h in
      let same : v ≡ old = cc held in Memᴰ.head (rw ((eq_iff name k).0 e, same) refl)
  | inr e ↦ Memᴰ.tail (lookup-Memᴰ k v m (rw e at h))
]

takes-full : (p : PublisherIssuer) (sub : String) → validate_trust_entry p sub ≡ ok tt → sub ≢ ""
unfolding validate_trust_entry git_hub_actions_validate_trust_entry git_lab_ci_validate_trust_entry
    gcp_workload_validate_trust_entry kubernetes_validate_trust_entry spiffe_validate_trust_entry
    workload_validate_trust_entry
takes-full (git_hub_actions i) sub h e = ground (arith, (eq_iff sub "").1 e)
takes-full (git_lab_ci i) sub h e = ground (arith, (eq_iff sub "").1 e)
takes-full (gcp_workload i) sub h e = ground (arith, (eq_iff sub "").1 e)
takes-full (kubernetes i) sub h e = ground (arith, (eq_iff sub "").1 e)
takes-full (spiffe i) sub h e = ground (arith, (eq_iff sub "").1 e)
takes-full (workload i) sub h e = ground (arith, (eq_iff sub "").1 e)

-- What a trust entry names: a workload that a publisher among the configured ones vouches for.
pub record IsNamed (r : IssuerRegistry) (u sub : String) : Type 0 where
  pub publisher : PublisherIssuer
  pub listed : Memᴰ (u, publisher) r.publishers
  pub not_oidc : u ≢ oidc_url r.oidc
  pub lower_url : IsLowerUrl u
  pub full : sub ≢ ""
  pub service_account : (i : JwksIssuer) → publisher ≡ kubernetes i → IsServiceAccount sub

-- Every trust entry that is accepted has an issuer URL of a scheme, `://`, a host and perhaps a path, with
-- scheme and host in lower case, which is not the OIDC provider's and is listed with a configured
-- publisher, and a sub that is not empty and, if the publisher is a Kubernetes cluster, is
-- `system:serviceaccount:`, a namespace, a colon and a name.
pub registry_validate_trust_entry-IsNamed :
    (r : IssuerRegistry) (u sub : String)
    → registry_validate_trust_entry r u sub ≡ ok tt
    → IsNamed r u sub
unfolding validate_trust_entry
registry_validate_trust_entry-IsNamed r u sub h =
    let c = (registry_validate_trust_entry_iff r u sub).0 h in
    record {
      publisher = c.publisher;
      listed = lookup-Memᴰ u c.publisher r.publishers c.found;
      not_oidc = λ e. ground (arith, c.not_oidc, (eq_iff u (oidc_url r.oidc)).1 e);
      lower_url = validate_issuer_url-IsLowerUrl u c.well_formed;
      full = takes-full c.publisher sub c.takes;
      service_account = λ i e.
          let taken : kubernetes_validate_trust_entry sub ≡ ok tt = rw e at c.takes in
          (kubernetes_validate_trust_entry_iff sub).0 taken;
    }
