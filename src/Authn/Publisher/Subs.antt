-- ===== src/Authn/Publisher/Subs.antt =====
-- The subs that the Kubernetes issuer takes, read as text.
use complytime_core.Prelude.{
  ℕ, ◌≡◌, refl, ◌≢◌, ◌↔◌, ◌∙◌, true, String, List, [], ◌++◌, All, arith, eq_iff, codes,
}
use complytime_core.Errors.{ok}
use complytime_core.Regex.{Denotes, plus, other_than}
use complytime_core.Regex.Laws.{matches_iff, lit_iff, plus_iff}
use complytime_core.Authn.Publisher.Issuers.{
  kubernetes_sub_pattern, kubernetes_validate_trust_entry,
}

-- A part of a service account's name: some characters, and no colon.
pub record IsPart (w : List ℕ) : Type 0 where
  pub nonempty : w ≢ []
  pub no_colon : All (λ c. other_than b':' c ≡ true) w

-- `system:serviceaccount:NAMESPACE:NAME`.
pub record IsServiceAccount (sub : String) : Type 0 where
  pub namespace : List ℕ
  pub name : List ℕ
  pub shape : codes sub ≡ codes "system:serviceaccount:" ++ (namespace ++ (codes ":" ++ name))
  pub namespace_part : IsPart namespace
  pub name_part : IsPart name

part : (w : List ℕ) → Denotes (plus (other_than b':')) w ↔ IsPart w
part w = (
  λ d. let (a, b) = (plus_iff (other_than b':') w).0 d in record { nonempty = a; no_colon = b },
  λ p. (plus_iff (other_than b':') w).1 (p.nonempty, p.no_colon),
)

kubernetes-Denotes :
    (sub : String) → Denotes kubernetes_sub_pattern (codes sub) ↔ IsServiceAccount sub
unfolding kubernetes_sub_pattern
kubernetes-Denotes sub = (
  λ (a, b, e, da, (ns, d, e', dns, (col, name, e'', dcol, dname))). record {
    namespace = ns;
    name = name;
    shape =
        let first = (lit_iff "system:serviceaccount:" a).0 da in
        let colon = (lit_iff ":" col).0 dcol in e ∙ rw (first, e', e'', colon) refl;
    namespace_part = (part ns).0 dns;
    name_part = (part name).0 dname;
  },
  λ s. (
    codes "system:serviceaccount:",
    s.namespace ++ (codes ":" ++ s.name),
    s.shape,
    (lit_iff "system:serviceaccount:" (codes "system:serviceaccount:")).1 refl,
    (
      s.namespace,
      codes ":" ++ s.name,
      refl,
      (part s.namespace).1 s.namespace_part,
      (codes ":", s.name, refl, (lit_iff ":" (codes ":")).1 refl, (part s.name).1 s.name_part),
    ),
  ),
)

-- A Kubernetes trust entry is accepted exactly if its sub is `system:serviceaccount:`, a namespace, a
-- colon and a name, both of them nonempty and without a colon.
pub kubernetes_validate_trust_entry_iff :
    (sub : String) → (kubernetes_validate_trust_entry sub ≡ ok tt) ↔ IsServiceAccount sub
unfolding kubernetes_validate_trust_entry
kubernetes_validate_trust_entry_iff sub = (
  λ h. (kubernetes-Denotes sub).0 ((matches_iff kubernetes_sub_pattern sub).0 (ground arith)),
  λ s.
      let m = (matches_iff kubernetes_sub_pattern sub).1 ((kubernetes-Denotes sub).1 s) in
      let full : sub ≢ "" = λ e. let empty : codes sub ≡ [] = rw e refl in cc (empty, s.shape) in
      ground (arith, m, eq_iff sub ""),
)
