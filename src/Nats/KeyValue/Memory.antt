-- ===== src/Nats/KeyValue/Memory.antt =====
-- A bucket in memory, on a network that never fails: it shows that the assumptions on a bucket can
-- be met, and is what the examples run on.
use complytime_core.Prelude.{
  ℕ, suc, ◌≡◌, refl, inl, inr, String, List, Option, none, some, if◌then◌else◌, lookup, insert,
  lookup-insert, arith, nat_eq, nat_eq_iff, Bool-cases, sym,
}
use complytime_core.Errors.{Error, Result, ok, err, key_not_found, key_exists, plain}
use complytime_core.Nats.KeyValue.{Bytes, Entry, KeyValue, View, Applied, Unchanged, live}

abbrev pub Store : Type 0
Store = List (String × Entry)

abbrev pub view : Store → View
view s k = lookup k s

abbrev pub next_revision : Option Entry → ℕ
next_revision none = 1
next_revision (some e) = suc e.revision

abbrev pub found : Option Entry → Result Entry
found none = err key_not_found
found (some e) = ok e

unfoldable pub write : Store → ℕ → String → Bytes → Store × Result ℕ
write s now k v =
    let r = next_revision (lookup k s) in
    (insert k (record { value = v; revision = r; created = now }) s, ok r)

unfoldable pub create_if : Option Entry → Store → ℕ → String → Bytes → Store × Result ℕ
unfolding write
create_if none s now k v = write s now k v
create_if (some e) s now k v = (s, err key_exists)

unfoldable pub update_if : Option Entry → Store → ℕ → String → Bytes → ℕ → Store × Result ℕ
unfolding write
update_if none s now k v last = (s, err key_not_found)
update_if (some e) s now k v last =
    if nat_eq e.revision last then write s now k v else (s, err (plain "wrong last sequence"))

pub write-Applied :
    (s : Store) (now : ℕ) (k : String) (v : Bytes) (r : ℕ)
    → (write s now k v).1 ≡ ok r
    → Applied (view s) (view (write s now k v).0) now k v r
unfolding write
write-Applied s now k v r h =
    let same : next_revision (lookup k s) ≡ r = ground arith in
    rw (← same) (record {
      wrote = λ j.
          lookup-insert k j
            (record { value = v; revision = next_revision (lookup k s); created = now }) s;
      newer = λ e p. rw p (omega arith);
    })

pub found_ok : (o : Option Entry) (e : Entry) → found o ≡ ok e → o ≡ some e
found_ok none e h = cc
found_ok (some d) e h = cc

pub found_err : (o : Option Entry) (e : Error) → found o ≡ err e → o ≡ none
found_err none e h = refl
found_err (some d) e h = cc

pub write-ne-err :
    (s : Store) (now : ℕ) (k : String) (v : Bytes) (e : Error) → (write s now k v).1 ≡ err e → ⊥
unfolding write
write-ne-err s now k v e h = cc

pub create_if-Applied :
    (o : Option Entry) (s : Store) (now : ℕ) (k : String) (v : Bytes) (r : ℕ)
    → (create_if o s now k v).1 ≡ ok r
    → (o ≡ none) × Applied (view s) (view (create_if o s now k v).0) now k v r
unfolding create_if
create_if-Applied none s now k v r h = (refl, write-Applied s now k v r h)
create_if-Applied (some d) s now k v r h = cc

pub create_if_failed :
    (o : Option Entry) (s : Store) (now : ℕ) (k : String) (v : Bytes) (e : Error)
    → (create_if o s now k v).1 ≡ err e
    → Unchanged (view s) (view (create_if o s now k v).0)
unfolding create_if
create_if_failed none s now k v e h = absurd (write-ne-err s now k v e h)
create_if_failed (some d) s now k v e h = λ j. refl

pub update_if-Applied :
    (o : Option Entry) (s : Store) (now : ℕ) (k : String) (v : Bytes) (last r : ℕ)
    → o ≡ lookup k s
    → (update_if o s now k v last).1 ≡ ok r
    → ((e : Entry) × (lookup k s ≡ some e) × (e.revision ≡ last))
      × Applied (view s) (view (update_if o s now k v last).0) now k v r
unfolding update_if
update_if-Applied none s now k v last r o h = cc
update_if-Applied (some d) s now k v last r o h = elim (Bool-cases (nat_eq d.revision last)) [
  | inl e ↦
      ((d, sym o, (nat_eq_iff d.revision last).0 e), rw e (write-Applied s now k v r (rw e at h)))
  | inr e ↦ let never : err (plain "wrong last sequence") ≡ ok r = rw e at h in cc
]

abbrev pub memory : Option ℕ → KeyValue
memory ttl = record {
  ttl = ttl;
  Store = Store;
  view = view;
  get = λ s now k. found (live ttl now (lookup k s));
  put = write;
  create = λ s now k v. create_if (live ttl now (lookup k s)) s now k v;
  update = λ s now k v last. update_if (lookup k s) s now k v last;
  get_found = λ s now k e. found_ok (live ttl now (lookup k s)) e;
  get_missing = λ s now k e h _. found_err (live ttl now (lookup k s)) e h;
  put_applied = write-Applied;
  put_failed = λ s now k v e h. absurd (write-ne-err s now k v e h);
  create_applied = λ s now k v r. create_if-Applied (live ttl now (lookup k s)) s now k v r;
  create_failed = λ s now k v e h. inl (create_if_failed (live ttl now (lookup k s)) s now k v e h);
  update_applied = λ s now k v last r. update_if-Applied (lookup k s) s now k v last r refl;
}
