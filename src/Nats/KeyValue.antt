-- ===== src/Nats/KeyValue.antt =====
-- A NATS key-value bucket, as far as the services rely on it: a parameter of the model. Each
-- operation takes the time of the call. A read or a write can fail for reasons of the network; a write
-- that fails may have been applied or not.
pub mod Laws
pub mod Memory
use complytime_core.Prelude.{
  ℕ, ◌+◌, ◌≤◌, ◌<◌, ◌≡◌, ◌≢◌, ◌⊎◌, Bool, true, String, List, Option, none, some, ◌==◌,
  if◌then◌else◌, ltb,
}
use complytime_core.Errors.{Error, Result, ok, err, is_key_not_found}

abbrev pub Bytes : Type 0
Bytes = List ℕ

pub record Entry : Type 0 where
  pub value : Bytes
  pub revision : ℕ
  pub created : ℕ

-- A bucket's entry is gone once its time to live has passed; `none` is no limit.
abbrev pub is_live : Option ℕ → ℕ → Entry → Bool
is_live none now e = true
is_live (some ttl) now e = ltb now (e.created + ttl)

abbrev pub live : Option ℕ → ℕ → Option Entry → Option Entry
live ttl now none = none
live ttl now (some e) = if is_live ttl now e then some e else none

abbrev pub View : Type 0
View = String → Option Entry

-- `after` is `before` with the entry `e` under `k`.
abbrev pub Wrote : View → View → String → Entry → Type 0
Wrote before after k e = (j : String) → after j ≡ (if k == j then some e else before j)

abbrev pub Unchanged : View → View → Type 0
Unchanged before after = (j : String) → after j ≡ before j

-- What a write of `v` under `k` at `now` may leave, with a revision that the old entry did not have.
pub record Applied (before after : View) (now : ℕ) (k : String) (v : Bytes) (r : ℕ) : Type 0 where
  pub wrote : Wrote before after k (record { value = v; revision = r; created = now })
  pub newer : (e : Entry) → before k ≡ some e → e.revision < r

pub record KeyValue : Type 1 where
  pub ttl : Option ℕ
  pub Store : Type 0
  pub view : Store → View
  pub get : Store → ℕ → String → Result Entry
  pub put : Store → ℕ → String → Bytes → Store × Result ℕ
  pub create : Store → ℕ → String → Bytes → Store × Result ℕ
  pub update : Store → ℕ → String → Bytes → ℕ → Store × Result ℕ
  -- Reads: what is there and alive, or ErrKeyNotFound where nothing is.
  pub get_found :
      (s : Store) (now : ℕ) (k : String) (e : Entry)
      → get s now k ≡ ok e
      → live ttl now (view s k) ≡ some e
  pub get_missing :
      (s : Store) (now : ℕ) (k : String) (e : Error)
      → get s now k ≡ err e
      → is_key_not_found e ≡ true
      → live ttl now (view s k) ≡ none
  -- Writes that succeed are applied; those that fail are applied or change nothing.
  pub put_applied :
      (s : Store) (now : ℕ) (k : String) (v : Bytes) (r : ℕ)
      → (put s now k v).1 ≡ ok r
      → Applied (view s) (view (put s now k v).0) now k v r
  pub put_failed :
      (s : Store) (now : ℕ) (k : String) (v : Bytes) (e : Error)
      → (put s now k v).1 ≡ err e
      → Unchanged (view s) (view (put s now k v).0)
        ⊎ ((r : ℕ) × Applied (view s) (view (put s now k v).0) now k v r)
  -- `Create` writes only where no live entry is.
  pub create_applied :
      (s : Store) (now : ℕ) (k : String) (v : Bytes) (r : ℕ)
      → (create s now k v).1 ≡ ok r
      → (live ttl now (view s k) ≡ none) × Applied (view s) (view (create s now k v).0) now k v r
  pub create_failed :
      (s : Store) (now : ℕ) (k : String) (v : Bytes) (e : Error)
      → (create s now k v).1 ≡ err e
      → Unchanged (view s) (view (create s now k v).0)
        ⊎ ((live ttl now (view s k) ≡ none)
            × ((r : ℕ) × Applied (view s) (view (create s now k v).0) now k v r))
  -- `Update` writes only over the given revision.
  pub update_applied :
      (s : Store) (now : ℕ) (k : String) (v : Bytes) (last r : ℕ)
      → (update s now k v last).1 ≡ ok r
      → ((e : Entry) × (view s k ≡ some e) × (e.revision ≡ last))
        × Applied (view s) (view (update s now k v last).0) now k v r

-- encoding/json at one type: what was marshalled unmarshals to the same value.
pub record Codec (A : Type 0) : Type 0 where
  pub marshal : A → Result Bytes
  pub unmarshal : Bytes → Result A
  pub round_trip : (a : A) (b : Bytes) → marshal a ≡ ok b → unmarshal b ≡ ok a
