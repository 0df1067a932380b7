-- ===== src/Authn/Publisher/Issuers.antt =====
-- The six issuers of internal/authn/publisher: how each is made, authenticates, and checks the sub
-- of a trust entry against the pattern of its provider.
use complytime_core.Prelude.{
  ℕ, Bool, String, ◌==◌, concat, if◌then◌else◌, trim_right_slash, trim_space, not,
}
use complytime_core.Errors.{plain, Result, ok, err, ◌>>=◌, ◌>>◌, context}
use complytime_core.Regex.{Regex, seq, alt, lit, run, plus, other_than, dot, matches}
use complytime_core.Authn.Jwt.{Jwx, Env, Network}
use complytime_core.Authn.Publisher.{Principal, discover_jwks_uri, fill_cache, validate_token}

-- The fields that each issuer has; the cache is the `jwks` of the environment.
pub record JwksIssuer : Type 0 where
  pub url : String
  pub jwks_url : String

-- `strings.TrimRight(strings.TrimSpace(issuerURL), "/")`.
unfoldable pub clean_url : String → String
clean_url issuer_url = trim_right_slash (trim_space issuer_url)

abbrev pub at_well_known : String → String
at_well_known url = concat url "/.well-known/jwks.json"

make_issuer : Network → String → String → String → Result JwksIssuer
unfolding fill_cache
make_issuer net provider url jwks_url = do
  fill_cache net provider jwks_url
  ok (record { url = url; jwks_url = jwks_url })

-- `^repo:[^/]+/[^/]+:(ref|environment|pull_request|tag|branch):.*$`.
pub git_hub_sub_pattern : Regex
git_hub_sub_pattern = seq (lit "repo:") (
    seq (plus (other_than b'/')) (
      seq (lit "/") (
        seq (plus (other_than b'/')) (
          seq (lit ":") (
            seq
              (alt (lit "ref") (
                alt (lit "environment")
                  (alt (lit "pull_request") (alt (lit "tag") (lit "branch")))))
              (seq (lit ":") (run dot)))))))

-- `^project_path:[^:]+/[^:]+:ref_type:(branch|tag):ref:.+$`.
pub git_lab_sub_pattern : Regex
git_lab_sub_pattern = seq (lit "project_path:") (
    seq (plus (other_than b':')) (
      seq (lit "/") (
        seq (plus (other_than b':')) (
          seq (lit ":ref_type:")
            (seq (alt (lit "branch") (lit "tag")) (seq (lit ":ref:") (plus dot)))))))

abbrev any_char : ℕ → Bool
any_char c = Bool.true

-- `^(https://iam\.googleapis\.com/|[^@]+@[^@]+\.iam\.gserviceaccount\.com$)`: the first alternative
-- is open at the end.
pub gcp_sub_pattern : Regex
gcp_sub_pattern = alt (seq (lit "https://iam.googleapis.com/") (run any_char)) (
    seq (plus (other_than b'@'))
      (seq (lit "@") (seq (plus (other_than b'@')) (lit ".iam.gserviceaccount.com"))))

-- `^system:serviceaccount:[^:]+:[^:]+$`.
unfoldable pub kubernetes_sub_pattern : Regex
kubernetes_sub_pattern =
    seq (lit "system:serviceaccount:")
      (seq (plus (other_than b':')) (seq (lit ":") (plus (other_than b':'))))

-- `^spiffe://[^/]+/.+$`.
pub spiffe_sub_pattern : Regex
spiffe_sub_pattern = seq (lit "spiffe://") (seq (plus (other_than b'/')) (seq (lit "/") (plus dot)))

-- A sub is required, and must match.
abbrev check_sub : Regex → String → String → Result (Unit {0})
check_sub pattern' message sub =
    if sub == ""
    then err (plain "sub is required")
    else if matches pattern' sub
    then ok tt
    else err (plain message)

abbrev pub git_hub_actions_issuer_url : String
git_hub_actions_issuer_url = "https://token.actions.githubusercontent.com"

unfoldable pub new_git_hub_actions_issuer : Network → String → Result JwksIssuer
unfolding make_issuer clean_url
new_git_hub_actions_issuer net issuer_url =
    let url = clean_url (if issuer_url == "" then git_hub_actions_issuer_url else issuer_url) in
    make_issuer net "GitHub Actions" url (at_well_known url)

unfoldable pub git_hub_actions_authenticate :
    (x : Jwx) → Env x → JwksIssuer → String → String → Result Principal
git_hub_actions_authenticate x env g token_string audience =
    validate_token x env "GitHub Actions" g.url g.jwks_url token_string audience

unfoldable pub git_hub_actions_validate_trust_entry : String → Result (Unit {0})
git_hub_actions_validate_trust_entry = check_sub git_hub_sub_pattern "invalid GitHub Actions sub"

abbrev pub git_lab_ci_issuer_url : String
git_lab_ci_issuer_url = "https://gitlab.com"

unfoldable pub new_git_lab_ci_issuer : Network → String → Result JwksIssuer
unfolding make_issuer clean_url
new_git_lab_ci_issuer net issuer_url =
    let url = clean_url (if issuer_url == "" then git_lab_ci_issuer_url else issuer_url) in
    make_issuer net "GitLab CI" url (at_well_known url)

unfoldable pub git_lab_ci_authenticate :
    (x : Jwx) → Env x → JwksIssuer → String → String → Result Principal
git_lab_ci_authenticate x env g token_string audience =
    validate_token x env "GitLab CI" g.url g.jwks_url token_string audience

unfoldable pub git_lab_ci_validate_trust_entry : String → Result (Unit {0})
git_lab_ci_validate_trust_entry = check_sub git_lab_sub_pattern "invalid GitLab CI sub"

abbrev pub gcp_workload_issuer_url : String
gcp_workload_issuer_url = "https://accounts.google.com"

abbrev pub gcp_default_jwks_url : String
gcp_default_jwks_url = "https://www.googleapis.com/oauth2/v3/certs"

unfoldable pub new_gcp_workload_issuer : Network → String → Result JwksIssuer
unfolding make_issuer clean_url
new_gcp_workload_issuer net issuer_url =
    let url = clean_url (if issuer_url == "" then gcp_workload_issuer_url else issuer_url) in
    make_issuer net "GCP Workload Identity" url
      (if not (url == gcp_workload_issuer_url) then at_well_known url else gcp_default_jwks_url)

unfoldable pub gcp_workload_authenticate :
    (x : Jwx) → Env x → JwksIssuer → String → String → Result Principal
gcp_workload_authenticate x env g token_string audience =
    validate_token x env "GCP Workload Identity" g.url g.jwks_url token_string audience

unfoldable pub gcp_workload_validate_trust_entry : String → Result (Unit {0})
gcp_workload_validate_trust_entry = check_sub gcp_sub_pattern "invalid GCP Workload Identity sub"

unfoldable pub new_kubernetes_issuer : Network → String → Result JwksIssuer
unfolding make_issuer clean_url discover_jwks_uri
new_kubernetes_issuer net issuer_url =
    if issuer_url == ""
    then err (plain "issuerURL is required for Kubernetes (use the cluster OIDC provider URL)")
    else do
      jwks_url ←
          context "OIDC discovery for Kubernetes issuer"
            (discover_jwks_uri net (clean_url issuer_url))
      make_issuer net "Kubernetes" (clean_url issuer_url) jwks_url

unfoldable pub kubernetes_authenticate :
    (x : Jwx) → Env x → JwksIssuer → String → String → Result Principal
kubernetes_authenticate x env k token_string audience =
    validate_token x env "Kubernetes" k.url k.jwks_url token_string audience

unfoldable pub kubernetes_validate_trust_entry : String → Result (Unit {0})
kubernetes_validate_trust_entry = check_sub kubernetes_sub_pattern "invalid Kubernetes sub"

unfoldable pub new_spiffe_issuer : Network → String → Result JwksIssuer
unfolding make_issuer clean_url
new_spiffe_issuer net issuer_url =
    if issuer_url == ""
    then err (plain "issuerURL is required for SPIFFE (no default trust domain)")
    else make_issuer net "SPIFFE" (clean_url issuer_url) (at_well_known (clean_url issuer_url))

unfoldable pub spiffe_authenticate :
    (x : Jwx) → Env x → JwksIssuer → String → String → Result Principal
spiffe_authenticate x env s token_string audience =
    validate_token x env "SPIFFE" s.url s.jwks_url token_string audience

unfoldable pub spiffe_validate_trust_entry : String → Result (Unit {0})
spiffe_validate_trust_entry = check_sub spiffe_sub_pattern "invalid SPIFFE ID"

unfoldable pub new_workload_issuer : Network → String → Result JwksIssuer
unfolding make_issuer clean_url
new_workload_issuer net issuer_url =
    if issuer_url == ""
    then err (plain "issuerURL is required for workload issuer")
    else make_issuer net "workload" (clean_url issuer_url) (at_well_known (clean_url issuer_url))

unfoldable pub workload_authenticate :
    (x : Jwx) → Env x → JwksIssuer → String → String → Result Principal
workload_authenticate x env w token_string audience =
    validate_token x env "workload" w.url w.jwks_url token_string audience

unfoldable pub workload_validate_trust_entry : String → Result (Unit {0})
workload_validate_trust_entry sub = if sub == "" then err (plain "sub is required") else ok tt

-- The interface PublisherIssuer, by its implementations.
pub data PublisherIssuer : Type 0 where
  git_hub_actions git_lab_ci gcp_workload kubernetes spiffe workload : JwksIssuer → PublisherIssuer

abbrev pub issuer_of : PublisherIssuer → JwksIssuer
issuer_of (git_hub_actions i) = i
issuer_of (git_lab_ci i) = i
issuer_of (gcp_workload i) = i
issuer_of (kubernetes i) = i
issuer_of (spiffe i) = i
issuer_of (workload i) = i

unfoldable pub authenticate :
    (x : Jwx) → Env x → PublisherIssuer → String → String → Result Principal
unfolding git_hub_actions_authenticate git_lab_ci_authenticate gcp_workload_authenticate
    kubernetes_authenticate spiffe_authenticate workload_authenticate validate_token
authenticate x env (git_hub_actions i) = git_hub_actions_authenticate x env i
authenticate x env (git_lab_ci i) = git_lab_ci_authenticate x env i
authenticate x env (gcp_workload i) = gcp_workload_authenticate x env i
authenticate x env (kubernetes i) = kubernetes_authenticate x env i
authenticate x env (spiffe i) = spiffe_authenticate x env i
authenticate x env (workload i) = workload_authenticate x env i

unfoldable pub validate_trust_entry : PublisherIssuer → String → Result (Unit {0})
unfolding git_hub_actions_validate_trust_entry git_lab_ci_validate_trust_entry
    gcp_workload_validate_trust_entry kubernetes_validate_trust_entry spiffe_validate_trust_entry
    workload_validate_trust_entry
validate_trust_entry (git_hub_actions i) = git_hub_actions_validate_trust_entry
validate_trust_entry (git_lab_ci i) = git_lab_ci_validate_trust_entry
validate_trust_entry (gcp_workload i) = gcp_workload_validate_trust_entry
validate_trust_entry (kubernetes i) = kubernetes_validate_trust_entry
validate_trust_entry (spiffe i) = spiffe_validate_trust_entry
validate_trust_entry (workload i) = workload_validate_trust_entry
