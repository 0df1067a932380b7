-- ===== src/Trust/Lists.antt =====
-- What a written trust list answers: SetPublisherTrust and IsPublisherTrusted of
-- internal/trust/store.go.
use complytime_core.Prelude.{
  ℕ, ◌≡◌, refl, ◌≢◌, ◌∙◌, inl, inr, Bool, false, String, List, some, ◌==◌, arith, eq_iff, eq_refl,
  Bool-cases,
}
use text.Mathlib.TextLemmas.{append_cancel_left}
use complytime_core.Errors.{ok, Result-cases, is_key_not_found}
use complytime_core.Nats.KeyValue.{Bytes, Entry, Applied}
use complytime_core.Nats.KeyValue.Laws.{get_found_stays, get_missing_stays}
use complytime_core.Trust.{
  TrustEntry, Buckets, TrustStore, subject_key, listed, Plan, create_new, over,
  is_publisher_trusted, trust_plan, trust_write, set_publisher_trust,
}

subject_key_injective : (i j : String) → subject_key i ≡ subject_key j → i ≡ j
unfolding subject_key
subject_key_injective i j h = append_cancel_left "subjects." i j h

-- The key of a subject is its own.
subject_key-ne : (i j : String) → i ≢ j → (subject_key i == subject_key j) ≡ false
subject_key-ne i j n = elim (Bool-cases (subject_key i == subject_key j)) [
  | inr e ↦ e
  | inl e ↦ absurd (n (subject_key_injective i j ((eq_iff (subject_key i) (subject_key j)).0 e)))
]

module _ {b : Buckets} where
  -- A write that returns no error has put the encoded list under the subject's key.
  pub trust_write-Applied :
      (s : TrustStore b) (now : ℕ) (subject_id : String) (data' : Bytes) (plan : Plan)
      → (trust_write s now subject_id data' plan).1 ≡ ok tt
      → (r : ℕ) × Applied
          (b.publisher.view s.publisher_kv)
          (b.publisher.view (trust_write s now subject_id data' plan).0.publisher_kv)
          now
          (subject_key subject_id)
          data'
          r
  unfolding trust_write
  trust_write-Applied s now subject_id data' create_new h =
      elim (Result-cases (b.publisher.create s.publisher_kv now (subject_key subject_id) data').1) [
        | inl (r, e) ↦ (
          r,
          (b.publisher.create_applied s.publisher_kv now (subject_key subject_id) data' r e).1,
        )
        | inr (x, e) ↦ absurd (ground (arith, e))
      ]
  trust_write-Applied s now subject_id data' (over revision) h =
      let (kv, r) = b.publisher.update s.publisher_kv now (subject_key subject_id) data' revision in
      elim (Result-cases r) [
        | inl (n, e) ↦ (
          n,
          (b.publisher.update_applied s.publisher_kv now (subject_key subject_id) data' revision n
              e).1,
        )
        | inr (x, e) ↦ absurd (ground (arith, e))
      ]

  -- A list set without an error was encoded, and stands under the subject's key.
  set-Applied :
      (s : TrustStore b) (now : ℕ) (subject_id : String) (l : List TrustEntry)
      → (set_publisher_trust s now subject_id l).1 ≡ ok tt
      → (data' : Bytes) × (r : ℕ) × (b.trust_list.marshal l ≡ ok data')
        × Applied
            (b.publisher.view s.publisher_kv)
            (b.publisher.view (set_publisher_trust s now subject_id l).0.publisher_kv)
            now
            (subject_key subject_id)
            data'
            r
  unfolding set_publisher_trust
  set-Applied s now subject_id l h = elim (Result-cases (b.trust_list.marshal l)) [
    | inr (x, e) ↦ absurd (ground (arith, e))
    | inl (data', e) ↦ elim (Result-cases (trust_plan s now subject_id)) [
      | inr (x, f) ↦ absurd (ground (arith, e, f))
      | inl (plan, f) ↦
          let (r, a) =
            trust_write-Applied s now subject_id data' plan (rw (e, f, set_publisher_trust) at h) in
          (data', r, e, rw (e, f, set_publisher_trust) a)
    ]
  ]

  -- The answer of a lookup that reads the entry `e`, whose value is the list `l`.
  trusted_of_view :
      (s : TrustStore b) (now : ℕ) (subject_id issuer sub : String) (e : Entry)
      (l : List TrustEntry) (t : Bool)
      → b.publisher.view s.publisher_kv (subject_key subject_id) ≡ some e
      → b.trust_list.unmarshal e.value ≡ ok l
      → is_publisher_trusted s now subject_id issuer sub ≡ ok t
      → t ≡ listed l issuer sub
  unfolding is_publisher_trusted
  trusted_of_view s now subject_id issuer sub e l t v u h =
      let key = subject_key subject_id in
      elim (Result-cases (b.publisher.get s.publisher_kv now key)) [
        | inl (d, g) ↦
            let same : d ≡ e =
              cc (get_found_stays b.publisher b.publisher_stays s.publisher_kv now key d g) in
            let decoded : b.trust_list.unmarshal d.value ≡ ok l = rw same u in
            ground (arith, g, decoded)
        | inr (x, g) ↦ elim (Bool-cases (is_key_not_found x)) [
          | inl n ↦
              cc (get_missing_stays b.publisher b.publisher_stays s.publisher_kv now key x g n)
          | inr n ↦ absurd (ground (arith, g, n))
        ]
      ]

  -- After a list was set without an error, a lookup for that subject that gives an answer says
  -- trusted exactly for the publishers of the list, at any later time.
  pub is_publisher_trusted-set_publisher_trust :
      (s : TrustStore b) (now later : ℕ) (subject_id issuer sub : String) (l : List TrustEntry)
      (t : Bool)
      → (set_publisher_trust s now subject_id l).1 ≡ ok tt
      → is_publisher_trusted (set_publisher_trust s now subject_id l).0 later subject_id issuer sub
        ≡ ok t
      → t ≡ listed l issuer sub
  is_publisher_trusted-set_publisher_trust s now later subject_id issuer sub l t done h =
      let key = subject_key subject_id in
      let (data', r, encoded, a) = set-Applied s now subject_id l done in
      let e : Entry = record { value = data'; revision = r; created = now } in
      let seen : b.publisher.view (set_publisher_trust s now subject_id l).0.publisher_kv key
          ≡ some e =
        a.wrote key ∙ rw eq_refl refl in
      trusted_of_view (set_publisher_trust s now subject_id l).0 later subject_id issuer sub e l t
        seen (b.trust_list.round_trip l data' encoded) h

  -- Two lookups that read the same entry, or both none, do not answer differently.
  trusted_of_same :
      (s s' : TrustStore b) (now later : ℕ) (subject_id issuer sub : String) (t t' : Bool)
      → b.publisher.view s'.publisher_kv (subject_key subject_id)
        ≡ b.publisher.view s.publisher_kv (subject_key subject_id)
      → is_publisher_trusted s now subject_id issuer sub ≡ ok t
      → is_publisher_trusted s' later subject_id issuer sub ≡ ok t'
      → t' ≡ t
  unfolding is_publisher_trusted
  trusted_of_same s s' now later subject_id issuer sub t t' same h h' =
      let key = subject_key subject_id in
      let kv = s.publisher_kv in
      let kv' = s'.publisher_kv in
      elim (Result-cases (b.publisher.get kv now key)) [
        | inl (d, g) ↦ elim (Result-cases (b.publisher.get kv' later key)) [
          | inl (d', g') ↦
              let equal : d' ≡ d = cc (
                get_found_stays b.publisher b.publisher_stays kv now key d g,
                get_found_stays b.publisher b.publisher_stays kv' later key d' g',
              ) in
              ground (arith, g, g', equal)
          | inr (x', g') ↦ elim (Bool-cases (is_key_not_found x')) [
            | inl n ↦ cc (
              get_found_stays b.publisher b.publisher_stays kv now key d g,
              get_missing_stays b.publisher b.publisher_stays kv' later key x' g' n,
            )
            | inr n ↦ absurd (ground (arith, g', n))
          ]
        ]
        | inr (x, g) ↦ elim (Bool-cases (is_key_not_found x)) [
          | inr n ↦ absurd (ground (arith, g, n))
          | inl n ↦ elim (Result-cases (b.publisher.get kv' later key)) [
            | inl (d', g') ↦ cc (
              get_found_stays b.publisher b.publisher_stays kv' later key d' g',
              get_missing_stays b.publisher b.publisher_stays kv now key x g n,
            )
            | inr (x', g') ↦ ground (arith, g, g', n)
          ]
        ]
      ]

  -- Setting the list of one subject without an error leaves another subject's answers as they
  -- were: a lookup before and one after never answer differently.
  pub is_publisher_trusted-set_publisher_trust_ne :
      (s : TrustStore b) (now before later : ℕ) (i j issuer sub : String) (l : List TrustEntry)
      (t t' : Bool)
      → i ≢ j
      → (set_publisher_trust s now i l).1 ≡ ok tt
      → is_publisher_trusted s before j issuer sub ≡ ok t
      → is_publisher_trusted (set_publisher_trust s now i l).0 later j issuer sub ≡ ok t'
      → t' ≡ t
  is_publisher_trusted-set_publisher_trust_ne s now before later i j issuer sub l t t' n done h h' =
      let (data', r, encoded, a) = set-Applied s now i l done in
      trusted_of_same s (set_publisher_trust s now i l).0 before later j issuer sub t t'
        (a.wrote (subject_key j) ∙ rw (subject_key-ne i j n) refl) h h'
