-- ===== src/Nats/KeyValue/Laws.antt =====
-- Reads of a bucket whose entries stay.
use complytime_core.Prelude.{ℕ, ◌≡◌, refl, String, Option, none, some, true, arith, ◌+◌, ◌<◌}
use complytime_core.Errors.{Error, ok, err, is_key_not_found}
use complytime_core.Nats.KeyValue.{Entry, KeyValue, live}

pub live_stays : (ttl : Option ℕ) (now : ℕ) (o : Option Entry) → ttl ≡ none → live ttl now o ≡ o
live_stays ttl now none h = refl
live_stays none now (some e) h = refl
live_stays (some t) now (some e) h = cc

-- An entry is alive while its time to live has not passed.
pub live_until :
    (limit : Option ℕ) (ttl now : ℕ) (e : Entry)
    → limit ≡ some ttl
    → now < e.created + ttl
    → live limit now (some e) ≡ some e
live_until none ttl now e h room = cc
live_until (some t) ttl now e h room = ground arith

module _ (kv : KeyValue) (stays : kv.ttl ≡ none) (s : kv.Store) (now : ℕ) (k : String) where
  pub get_found_stays : (e : Entry) → kv.get s now k ≡ ok e → kv.view s k ≡ some e
  get_found_stays e h = cc (kv.get_found s now k e h, live_stays kv.ttl now (kv.view s k) stays)

  pub get_missing_stays :
      (e : Error) → kv.get s now k ≡ err e → is_key_not_found e ≡ true → kv.view s k ≡ none
  get_missing_stays e h n =
      cc (kv.get_missing s now k e h n, live_stays kv.ttl now (kv.view s k) stays)
