-- ===== src/Authn/Jwt.antt =====
-- The JWT library, a parameter of the model, with what its documentation promises of a token that it
-- accepts, and the network as the issuers use it. Times are numbers of nanoseconds.
use complytime_core.Prelude.{ℕ, ◌+◌, ◌*◌, ◌≤◌, ◌<◌, ◌≡◌, String, Option, some}
use complytime_core.Errors.{Result, ok}
use complytime_core.Json.{Members}

abbrev pub second : ℕ
second = 1_000_000_000

abbrev pub minute : ℕ
minute = 60 * second

-- jwt.WithAcceptableSkew(30*time.Second).
abbrev pub acceptable_skew : ℕ
acceptable_skew = 30 * second

-- A parsed token: its registered claims, and all claims as `json.Marshal` and `json.Unmarshal` give
-- them in a `map[string]any`.
pub record Token : Type 0 where
  pub issuer : Option String
  pub subject : Option String
  pub issued_at : Option ℕ
  pub expiration : Option ℕ
  pub jwt_id : Option String
  pub claims : Result Members

pub record Jwx : Type 1 where
  pub KeySet : Type 0
  -- `jwk.ParseString`.
  pub parse_key_set : String → Result KeySet
  -- `jwt.ParseInsecure`: no check but that of the form.
  pub parse_insecure : String → Result Token
  -- `jwt.Parse` with a key set, WithIssuer, WithAudience and WithAcceptableSkew, at a time.
  pub parse : KeySet → String → String → ℕ → ℕ → String → Result Token
  -- An accepted token is the one that its text says, of the required issuer, and within its times, give
  -- or take the skew.
  pub parse_insecure_eq :
      (set : KeySet) (iss aud : String) (skew now : ℕ) (text : String) (t : Token)
      → parse set iss aud skew now text ≡ ok t
      → parse_insecure text ≡ ok t
  pub parse_issuer :
      (set : KeySet) (iss aud : String) (skew now : ℕ) (text : String) (t : Token)
      → parse set iss aud skew now text ≡ ok t
      → t.issuer ≡ some iss
  pub parse_expiration :
      (set : KeySet) (iss aud : String) (skew now : ℕ) (text : String) (t : Token) (exp : ℕ)
      → parse set iss aud skew now text ≡ ok t
      → t.expiration ≡ some exp
      → now < exp + skew
  pub parse_issued_at :
      (set : KeySet) (iss aud : String) (skew now : ℕ) (text : String) (t : Token) (iat : ℕ)
      → parse set iss aud skew now text ≡ ok t
      → t.issued_at ≡ some iat
      → iat ≤ now + skew

-- What a request finds outside: the time, and the cached key set of a JWKS URL.
pub record Env (x : Jwx) : Type 0 where
  pub now : ℕ
  pub jwks : String → Result x.KeySet

-- What start-up finds outside: an HTTP GET with its status and the reading of its body, the
-- `jwks_uri` that a discovery document holds, and the cache's registration and first fetch of a URL.
pub record Network : Type 0 where
  pub http_get : String → Result (ℕ × Result String)
  pub decode_discovery : String → Result String
  pub new_cache : Result (Unit {0})
  pub register_jwks : String → Result (Unit {0})
  pub refresh_jwks : String → Result (Unit {0})
