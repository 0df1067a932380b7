-- ===== src/Examples/Tokens.antt =====
-- Instances for the tokens of internal/authn/publisher, on a JWT library that knows one token.
use complytime_core.Prelude.{
  ℕ, ◌≡◌, refl, ◌≢◌, ◌<◌, ◌≤◌, ◌+◌, ◌*◌, Bool, true, ◌&&◌, not, String, [], ◌∷◌, some, arith,
  lookup, ◌==◌, eq_iff, if◌then◌else◌, ltb,
}
use complytime_core.Errors.{plain, Result, ok, err}
use complytime_core.Json.{end}
use complytime_core.Nats.{jti_replay_ttl}
use complytime_core.Trust.{claim_jti}
use complytime_core.Trust.Replay.{claims}
use complytime_core.Nats.KeyValue.Memory.{write, create_if}
use complytime_core.Authn.Jwt.{Token, Jwx, Env, second, minute}
use complytime_core.Authn.Publisher
use complytime_core.Authn.Publisher.StaticJwk.{
  StaticJwkIssuer, check_token, check_claims, static_authenticate, claim_then, principal_of,
}
use complytime_core.Authn.Publisher.Window.{check_token_window}
use complytime_core.Authn.Publisher.Replay.{trust_jti_store, no_replay}
use complytime_core.Examples.Stores.{buckets, empty_store}

-- The one token that the library accepts: issued at second 100, for five minutes.
abbrev pub token : Token
token = record {
  issuer = some "https://scanner";
  subject = some "https://scanner";
  issued_at = some (100 * second);
  expiration = some (400 * second);
  jwt_id = some "id-1";
  claims = ok end;
}

abbrev pub in_time : String → ℕ → ℕ → Bool
in_time iss skew now =
    iss == "https://scanner"
    && ltb now (400 * second + skew)
    && not (ltb (now + skew) (100 * second))

abbrev pub parse_token : Unit {0} → String → String → ℕ → ℕ → String → Result Token
parse_token set iss aud skew now text =
    if in_time iss skew now && text == "token" then ok token else err (plain "refused")

abbrev pub read_token : String → Result Token
read_token text = if text == "token" then ok token else err (plain "malformed")

pub accepted_token :
    (set : Unit {0}) (iss aud : String) (skew now : ℕ) (text : String) (t : Token)
    → parse_token set iss aud skew now text ≡ ok t
    → (t ≡ token) × (in_time iss skew now ≡ true) × ((text == "token") ≡ true)
accepted_token set iss aud skew now text t h =
    (ground (arith, h), ground (arith, h), ground (arith, h))

pub read_accepted :
    (set : Unit {0}) (iss aud : String) (skew now : ℕ) (text : String) (t : Token)
    → parse_token set iss aud skew now text ≡ ok t
    → read_token text ≡ ok t
read_accepted set iss aud skew now text t h =
    let (same, _, e) = accepted_token set iss aud skew now text t h in rw (same, e) refl

pub issuer_accepted :
    (set : Unit {0}) (iss aud : String) (skew now : ℕ) (text : String) (t : Token)
    → parse_token set iss aud skew now text ≡ ok t
    → t.issuer ≡ some iss
issuer_accepted set iss aud skew now text t h =
    let (same, e, _) = accepted_token set iss aud skew now text t h in
    let named : iss ≡ "https://scanner" = ground (arith, e, eq_iff iss "https://scanner") in
    rw (same, named) refl

pub unexpired :
    (set : Unit {0}) (iss aud : String) (skew now : ℕ) (text : String) (t : Token) (exp : ℕ)
    → parse_token set iss aud skew now text ≡ ok t
    → t.expiration ≡ some exp
    → now < exp + skew
unexpired set iss aud skew now text t exp h e =
    let (same, live, _) = accepted_token set iss aud skew now text t h in
    let expiry : token.expiration ≡ some exp = rw same at e in ground (arith, live, expiry)

pub begun :
    (set : Unit {0}) (iss aud : String) (skew now : ℕ) (text : String) (t : Token) (iat : ℕ)
    → parse_token set iss aud skew now text ≡ ok t
    → t.issued_at ≡ some iat
    → iat ≤ now + skew
begun set iss aud skew now text t iat h e =
    let (same, live, _) = accepted_token set iss aud skew now text t h in
    let issued : token.issued_at ≡ some iat = rw same at e in ground (arith, live, issued)

abbrev pub jwx : Jwx
jwx = record {
  KeySet = Unit {0};
  parse_key_set = λ s. ok tt;
  parse_insecure = read_token;
  parse = parse_token;
  parse_insecure_eq = read_accepted;
  parse_issuer = issuer_accepted;
  parse_expiration = unexpired;
  parse_issued_at = begun;
}

abbrev pub at_time : ℕ → Env jwx
at_time now = record { now = now; jwks = λ url. ok tt }

abbrev scanner : StaticJwkIssuer
scanner = record {
  url = "https://scanner";
  jwk = "key";
  not_after = 1000 * second;
  claims_ids = true;
}

abbrev scanner_principal : Publisher.Principal
scanner_principal = record { issuer = "https://scanner"; sub = "https://scanner" }

token_checked :
    check_token jwx (at_time (110 * second)) scanner "token" "aud"
    ≡ ok (token, (400 * second, "id-1"))
unfolding check_token check_claims
token_checked = refl

token_checked_later :
    check_token jwx (at_time (200 * second)) scanner "token" "aud"
    ≡ ok (token, (400 * second, "id-1"))
unfolding check_token check_claims
token_checked_later = refl

abbrev first_id : String
first_id = "id-1"

check_token_window_example : (first_id ≡ first_id) × (200 * second < 110 * second + 11 * minute)
check_token_window_example =
    check_token_window jwx (at_time (110 * second)) (at_time (200 * second)) scanner scanner "token"
      "aud" "aud" token token (400 * second) (400 * second) "id-1" "id-1" token_checked
      token_checked_later

token_accepted :
    (static_authenticate
      (trust_jti_store buckets)
      jwx
      (at_time (110 * second))
      scanner
      empty_store
      "token"
      "aud").1
    ≡ ok scanner_principal
unfolding static_authenticate check_token check_claims claim_then claim_jti write create_if lookup
    principal_of
token_accepted = refl

no_replay_example :
    (static_authenticate
      (trust_jti_store buckets)
      jwx
      (at_time (200 * second))
      scanner
      (claims {b = buckets} jti_replay_ttl refl
        (static_authenticate
          (trust_jti_store buckets)
          jwx
          (at_time (110 * second))
          scanner
          empty_store
          "token"
          "aud").0
        ((150 * second, "id-2") ∷ []))
      "token"
      "aud").1
    ≢ ok scanner_principal
no_replay_example =
    no_replay {b = buckets} jwx (at_time (110 * second)) (at_time (200 * second)) scanner scanner
      empty_store "token" "aud" "aud" scanner_principal scanner_principal
      ((150 * second, "id-2") ∷ []) refl refl refl token_accepted (omega arith, tt)
