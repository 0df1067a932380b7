-- ===== src/Examples/Stores.antt =====
-- Instances for internal/trust, on buckets in memory.
use complytime_core.Prelude.{
  ◌≡◌, refl, ◌≢◌, true, false, ◌&&◌, String, List, [], ◌∷◌, none, some, arith, ◌==◌, eq_iff,
  if◌then◌else◌, any, lookup, insert,
}
use complytime_core.Errors.{Error, plain, Result, ok, err}
use complytime_core.Nats.{jti_replay_ttl}
use complytime_core.Nats.KeyValue.{Bytes, Codec}
use complytime_core.Nats.KeyValue.Memory.{memory, write, create_if}
use complytime_core.Trust.{
  Buckets, TrustStore, TrustEntry, JwkRecord, create_new, trust_plan, trust_write,
  set_publisher_trust, is_publisher_trusted, listed, claim_jti, subject_key,
}
use complytime_core.Trust.Lists.{
  is_publisher_trusted-set_publisher_trust, is_publisher_trusted-set_publisher_trust_ne,
}
use complytime_core.Trust.Writers.{second_writer_fails}
use complytime_core.Trust.Replay.{claims, claim_once}

abbrev pub ci : TrustEntry
ci = record { issuer = "https://ci"; sub = "repo:a" }

-- An encoding that knows one list.
abbrev pub encode_list : List TrustEntry → Result Bytes
encode_list [] = err (plain "unknown")
encode_list (tp ∷ []) =
    if tp.issuer == "https://ci" && tp.sub == "repo:a" then ok (1 ∷ []) else err (plain "unknown")
encode_list (tp ∷ tq ∷ l) = err (plain "unknown")

pub encode_list_round_trip :
    (l : List TrustEntry) (b : Bytes) → encode_list l ≡ ok b → ok (ci ∷ []) ≡ ok l
encode_list_round_trip [] b h = cc h
encode_list_round_trip (tp ∷ []) b h =
    let i : "https://ci" ≡ tp.issuer = ground (arith, h, eq_iff tp.issuer "https://ci") in
    let s : "repo:a" ≡ tp.sub = ground (arith, h, eq_iff tp.sub "repo:a") in rw (i, s) refl
encode_list_round_trip (tp ∷ tq ∷ l) b h = cc h

abbrev pub one_list : Codec (List TrustEntry)
one_list = record {
  marshal = encode_list;
  unmarshal = λ b. ok (ci ∷ []);
  round_trip = encode_list_round_trip;
}

pub no_bytes : (e : Error) (b : Bytes) → err e ≡ ok b → ⊥
no_bytes e b h = cc h

abbrev pub no_keys : Codec JwkRecord
no_keys = record {
  marshal = λ r. err (plain "unknown");
  unmarshal = λ b. err (plain "unknown");
  round_trip = λ a b h. absurd (no_bytes (plain "unknown") b h);
}

abbrev pub buckets : Buckets
buckets = record {
  publisher = memory none;
  subject = memory none;
  jwk = memory none;
  jti = memory (some jti_replay_ttl);
  trust_list = one_list;
  jwk_record = no_keys;
  publisher_stays = refl;
  subject_stays = refl;
  jwk_stays = refl;
}

abbrev pub empty_store : TrustStore buckets
empty_store = record { publisher_kv = []; subject_kv = []; jwk_kv = []; jti_kv = [] }

list_set : (set_publisher_trust empty_store 5 "widget" (ci ∷ [])).1 ≡ ok tt
unfolding set_publisher_trust write create_if lookup
list_set = refl

list_trusted :
    is_publisher_trusted
      (set_publisher_trust empty_store 5 "widget" (ci ∷ [])).0
      7
      "widget"
      "https://ci"
      "repo:a"
    ≡ ok true
unfolding set_publisher_trust is_publisher_trusted write create_if lookup insert subject_key any
list_trusted = refl

is_publisher_trusted-set_publisher_trust_example : true ≡ listed (ci ∷ []) "https://ci" "repo:a"
is_publisher_trusted-set_publisher_trust_example =
    is_publisher_trusted-set_publisher_trust empty_store 5 7 "widget" "https://ci" "repo:a"
      (ci ∷ []) true list_set list_trusted

other_before : is_publisher_trusted empty_store 4 "gadget" "https://ci" "repo:a" ≡ ok false
unfolding is_publisher_trusted lookup
other_before = refl

other_after :
    is_publisher_trusted
      (set_publisher_trust empty_store 5 "widget" (ci ∷ [])).0
      7
      "gadget"
      "https://ci"
      "repo:a"
    ≡ ok false
unfolding set_publisher_trust is_publisher_trusted write create_if lookup insert subject_key
other_after = refl

other_subject : ◌≢◌ {A = String} "widget" "gadget"
other_subject e =
    let same : ("widget" == "gadget") ≡ true = (eq_iff "widget" "gadget").1 e in cc same

set_publisher_trust_ne_example : false ≡ false
set_publisher_trust_ne_example =
    is_publisher_trusted-set_publisher_trust_ne empty_store 5 4 7 "widget" "gadget" "https://ci"
      "repo:a" (ci ∷ []) false false other_subject list_set other_before other_after

plan_new : trust_plan empty_store 4 "widget" ≡ ok create_new
unfolding trust_plan lookup
plan_new = refl

first_write : (trust_write empty_store 5 "widget" (1 ∷ []) create_new).1 ≡ ok tt
unfolding trust_write write create_if lookup
first_write = refl

second_writer_fails_example :
    (trust_write
      (trust_write empty_store 5 "widget" (1 ∷ []) create_new).0
      6
      "widget"
      (2 ∷ [])
      create_new).1
    ≢ ok tt
second_writer_fails_example =
    second_writer_fails empty_store 4 4 5 6 "widget" (1 ∷ []) (2 ∷ []) create_new create_new
      plan_new plan_new first_write

first_claim : (claim_jti empty_store 10 "id-1").1 ≡ ok tt
unfolding claim_jti write create_if lookup
first_claim = refl

claim_once_example :
    (claim_jti
      (claims jti_replay_ttl refl (claim_jti empty_store 10 "id-1").0 ((20, "id-2") ∷ []))
      30
      "id-1").1
    ≢ ok tt
claim_once_example =
    claim_once jti_replay_ttl refl empty_store 10 30 "id-1" ((20, "id-2") ∷ []) first_claim
      (omega arith) (omega arith, tt)
