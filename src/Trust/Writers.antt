-- ===== src/Trust/Writers.antt =====
-- Two administrators who change the trust list of one subject at once: SetPublisherTrust of
-- internal/trust/store.go reads, and then writes as its read decided.
use complytime_core.Prelude.{
  ℕ, ◌<◌, ◌≡◌, refl, ◌≢◌, ◌∙◌, inl, inr, String, none, some, arith, eq_refl, Bool-cases,
}
use complytime_core.Errors.{ok, Result-cases, is_key_not_found}
use complytime_core.Nats.KeyValue.{Bytes, Entry}
use complytime_core.Nats.KeyValue.Laws.{live_stays, get_found_stays, get_missing_stays}
use complytime_core.Trust.{
  Buckets, TrustStore, subject_key, Plan, create_new, over, trust_plan, trust_write,
}
use complytime_core.Trust.Lists.{trust_write-Applied}

module _ {b : Buckets} where
  -- What a plan knows of the entry that was read.
  abbrev Read : TrustStore b → String → Plan → Type 0
  Read s subject_id create_new = b.publisher.view s.publisher_kv (subject_key subject_id) ≡ none
  Read s subject_id (over revision) =
      (e : Entry) × (b.publisher.view s.publisher_kv (subject_key subject_id) ≡ some e)
      × (e.revision ≡ revision)

  trust_plan-Read :
      (s : TrustStore b) (now : ℕ) (subject_id : String) (plan : Plan)
      → trust_plan s now subject_id ≡ ok plan
      → Read s subject_id plan
  unfolding trust_plan
  trust_plan-Read s now subject_id plan h =
      let key = subject_key subject_id in
      elim (Result-cases (b.publisher.get s.publisher_kv now key)) [
        | inl (e, g) ↦
            from_entry e (get_found_stays b.publisher b.publisher_stays s.publisher_kv now key e g)
              plan (ground (arith, g))
        | inr (x, g) ↦ elim (Bool-cases (is_key_not_found x)) [
          | inl n ↦
              from_none
                (get_missing_stays b.publisher b.publisher_stays s.publisher_kv now key x g n) plan
                (ground (arith, g, n))
          | inr n ↦ absurd (ground (arith, g, n))
        ]
      ]
    where
      from_entry :
          (e : Entry)
          → b.publisher.view s.publisher_kv (subject_key subject_id) ≡ some e
          → (p : Plan) → over e.revision ≡ p
          → Read s subject_id p
      from_entry e v create_new q = cc
      from_entry e v (over r) q = (e, v, ground arith)

      from_none :
          b.publisher.view s.publisher_kv (subject_key subject_id) ≡ none
          → (p : Plan) → create_new ≡ p
          → Read s subject_id p
      from_none v create_new q = v
      from_none v (over r) q = cc

  -- A write over what has changed since it was read does not succeed.
  stale_write_fails :
      (s s' : TrustStore b) (now : ℕ) (subject_id : String) (data' : Bytes) (plan : Plan)
      (e : Entry)
      → Read s subject_id plan
      → b.publisher.view s'.publisher_kv (subject_key subject_id) ≡ some e
      → ((d : Entry)
          → b.publisher.view s.publisher_kv (subject_key subject_id) ≡ some d
          → d.revision < e.revision)
      → (trust_write s' now subject_id data' plan).1 ≢ ok tt
  unfolding trust_write
  stale_write_fails s s' now subject_id data' create_new e read v newer h =
      elim (Result-cases
        (b.publisher.create s'.publisher_kv now (subject_key subject_id) data').1) [
          | inr (x, f) ↦ ground (arith, f)
          | inl (r, f) ↦
              let (gone, a) =
                b.publisher.create_applied s'.publisher_kv now (subject_key subject_id) data' r f in
              cc (live_stays b.publisher.ttl now (some e) b.publisher_stays, gone, v)
        ]
  stale_write_fails s s' now subject_id data' (over revision) e (d, w, q) v newer h =
      elim (Result-cases
        (b.publisher.update s'.publisher_kv now (subject_key subject_id) data' revision).1) [
          | inr (x, f) ↦ ground (arith, f)
          | inl (r, f) ↦
              let ((e', v', q'), a) =
                b.publisher.update_applied s'.publisher_kv now (subject_key subject_id) data'
                  revision r f in
              let same : e' ≡ e = cc in
              let less : d.revision < e.revision = newer d w in ground (arith, less, same)
        ]

  -- No lost update: of two writers that both read the trust list of a subject before either wrote,
  -- the second does not succeed once the first has.
  pub second_writer_fails :
      (s : TrustStore b) (read₁ read₂ now₁ now₂ : ℕ) (subject_id : String) (data₁ data₂ : Bytes)
      (plan₁ plan₂ : Plan)
      → trust_plan s read₁ subject_id ≡ ok plan₁
      → trust_plan s read₂ subject_id ≡ ok plan₂
      → (trust_write s now₁ subject_id data₁ plan₁).1 ≡ ok tt
      → (trust_write (trust_write s now₁ subject_id data₁ plan₁).0 now₂ subject_id data₂ plan₂).1
        ≢ ok tt
  second_writer_fails s read₁ read₂ now₁ now₂ subject_id data₁ data₂ plan₁ plan₂ p₁ p₂ first =
      let (r, a) = trust_write-Applied s now₁ subject_id data₁ plan₁ first in
      stale_write_fails s (trust_write s now₁ subject_id data₁ plan₁).0 now₂ subject_id data₂ plan₂
        (record { value = data₁; revision = r; created = now₁ })
        (trust_plan-Read s read₂ subject_id plan₂ p₂)
        (a.wrote (subject_key subject_id) ∙ rw eq_refl refl) a.newer
