-- ===== src/Trust/Replay.antt =====
-- Claimed token IDs: ClaimJTI of internal/trust/store.go over the bucket JTIReplayKVConfig of
-- internal/nats/streams.go.
use complytime_core.Prelude.{
  ℕ, ◌+◌, ◌≤◌, ◌<◌, ◌≡◌, refl, ◌≢◌, ◌∙◌, inl, inr, String, List, [], ◌∷◌, none, some, arith,
  eq_refl, All, Bool-cases, ◌==◌, eq_iff,
}
use complytime_core.Errors.{ok, Result-cases}
use complytime_core.Nats.KeyValue.{Entry, Applied, live}
use complytime_core.Nats.KeyValue.Laws.{live_until}
use complytime_core.Trust.{Buckets, TrustStore, claim_jti}

module _ {b : Buckets} (ttl : ℕ) (limited : b.jti.ttl ≡ some ttl) where
  -- The ID is taken, and stays so up to the time `until`.
  record IsTaken (s : TrustStore b) (jti : String) (until : ℕ) : Type 0 where
    pub entry : Entry
    pub seen : b.jti.view s.jti_kv jti ≡ some entry
    pub stays : until < entry.created + ttl

  -- A claim that succeeds takes the ID for the time to live.
  claim-IsTaken :
      (s : TrustStore b) (now : ℕ) (jti : String) (until : ℕ)
      → (claim_jti s now jti).1 ≡ ok tt
      → until < now + ttl
      → IsTaken (claim_jti s now jti).0 jti until
  unfolding claim_jti
  claim-IsTaken s now jti until h room =
      elim (Result-cases (b.jti.create s.jti_kv now jti (b'1' ∷ [])).1) [
        | inr (x, f) ↦ absurd (ground (arith, f))
        | inl (r, f) ↦
            let (_, a) = b.jti.create_applied s.jti_kv now jti (b'1' ∷ []) r f in
            record {
              entry = record { value = b'1' ∷ []; revision = r; created = now };
              seen = a.wrote jti ∙ rw eq_refl refl;
              stays = room;
            }
      ]

  -- While an ID is taken no claim of it succeeds.
  taken_claim_fails :
      (s : TrustStore b) (now : ℕ) (jti : String) (until : ℕ)
      → IsTaken s jti until
      → now ≤ until
      → (claim_jti s now jti).1 ≢ ok tt
  unfolding claim_jti
  taken_claim_fails s now jti until taken early h =
      elim (Result-cases (b.jti.create s.jti_kv now jti (b'1' ∷ [])).1) [
        | inr (x, f) ↦ ground (arith, f)
        | inl (r, f) ↦
            let (gone, _) = b.jti.create_applied s.jti_kv now jti (b'1' ∷ []) r f in
            cc (
              live_until b.jti.ttl ttl now taken.entry limited (omega (arith, taken.stays)),
              gone,
              taken.seen,
            )
      ]

  -- A claim that is applied wrote under an ID that was not taken.
  untouched :
      (s : TrustStore b) (kv : b.jti.Store) (now : ℕ) (other jti : String) (until r : ℕ)
      (taken : IsTaken s jti until)
      → now ≤ until
      → live b.jti.ttl now (b.jti.view s.jti_kv other) ≡ none
      → Applied (b.jti.view s.jti_kv) (b.jti.view kv) now other (b'1' ∷ []) r
      → b.jti.view kv jti ≡ some taken.entry
  untouched s kv now other jti until r taken early gone a = elim (Bool-cases (other == jti)) [
    | inr e ↦ a.wrote jti ∙ rw e taken.seen
    | inl e ↦
        let same : other ≡ jti = (eq_iff other jti).0 e in
        let held : b.jti.view s.jti_kv other ≡ some taken.entry = rw same taken.seen in
        cc (
          live_until b.jti.ttl ttl now taken.entry limited (omega (arith, taken.stays)),
          gone,
          held,
        )
  ]

  -- A claim of any ID, whatever comes of it, leaves taken what is taken.
  claim-IsTaken_other :
      (s : TrustStore b) (now : ℕ) (other jti : String) (until : ℕ)
      → IsTaken s jti until
      → now ≤ until
      → IsTaken (claim_jti s now other).0 jti until
  unfolding claim_jti
  claim-IsTaken_other s now other jti until taken early = record {
    entry = taken.entry;
    seen = elim (Result-cases (b.jti.create s.jti_kv now other (b'1' ∷ [])).1) [
      | inl (r, f) ↦
          let (gone, a) = b.jti.create_applied s.jti_kv now other (b'1' ∷ []) r f in
          untouched s (b.jti.create s.jti_kv now other (b'1' ∷ [])).0 now other jti until r taken
            early gone a
      | inr (x, f) ↦ elim (b.jti.create_failed s.jti_kv now other (b'1' ∷ []) x f) [
        | inl same ↦ same jti ∙ taken.seen
        | inr (gone, (r, a)) ↦
            untouched s (b.jti.create s.jti_kv now other (b'1' ∷ [])).0 now other jti until r taken
              early gone a
      ]
    ];
    stays = taken.stays;
  }

  -- The store after claims of IDs, each at its time, whatever comes of them.
  abbrev pub claims : TrustStore b → List (ℕ × String) → TrustStore b
  claims s [] = s
  claims s ((now, jti) ∷ rest) = claims (claim_jti s now jti).0 rest

  claims-IsTaken :
      (s : TrustStore b) (l : List (ℕ × String)) (jti : String) (until : ℕ)
      → IsTaken s jti until
      → All (λ c. c.0 ≤ until) l
      → IsTaken (claims s l) jti until
  claims-IsTaken s [] jti until taken early = taken
  claims-IsTaken s ((now, other) ∷ rest) jti until taken early =
      claims-IsTaken (claim_jti s now other).0 rest jti until
        (claim-IsTaken_other s now other jti until taken early.0) early.1

  -- A token ID that was claimed at `now` cannot be claimed again at a time `later` before the time to
  -- live has passed, whatever other claims are made between, up to `later`.
  pub claim_once :
      (s : TrustStore b) (now later : ℕ) (jti : String) (between : List (ℕ × String))
      → (claim_jti s now jti).1 ≡ ok tt
      → later < now + ttl
      → All (λ c. c.0 ≤ later) between
      → (claim_jti (claims (claim_jti s now jti).0 between) later jti).1 ≢ ok tt
  claim_once s now later jti between first room early =
      taken_claim_fails (claims (claim_jti s now jti).0 between) later jti later
        (claims-IsTaken (claim_jti s now jti).0 between jti later
          (claim-IsTaken s now jti later first room) early)
        (omega arith)
