-- ===== src/Gateway/Admin/Registered.antt =====
-- The stores after a registration and after a refusal: RegisterSubject of internal/gateway/admin.go.
use complytime_core.Prelude.{
  ℕ, ◌≡◌, refl, ◌≢◌, ◌∙◌, sym, inl, inr, Bool, String, List, [], ◌∷◌, Option, some, arith,
  Option-cases, All,
}
use complytime_core.Errors.{Result, ok, err, Result-cases}
use complytime_core.Trust.{
  Buckets, TrustStore, TrustEntry, set_publisher_trust, register_subject, store_jwk,
  is_publisher_trusted, listed,
}
use complytime_core.Trust.Lists.{is_publisher_trusted-set_publisher_trust}
use complytime_core.Authz.Context.{Context, get_publisher}
use complytime_core.Authn.Registry.{IssuerRegistry, registry_validate_trust_entry}
use complytime_core.Authn.Registry.Scanners.{IsConfigured, registry_validate_trust_entry_iff}
use complytime_core.Locker.Admin.{RegisterRequest}
use complytime_core.Gateway.Admin.{
  RegisterBody, Remote, scanner_issuer_id, validate_entries, validate_publishers,
  check_registration, write_registration, register_subject_handler,
}

module _ {b : Buckets} where
  register-keeps_publishers :
      (s : TrustStore b) (now : ℕ) (subject_id : String)
      → (register_subject s now subject_id).0.publisher_kv ≡ s.publisher_kv
  unfolding register_subject
  register-keeps_publishers s now subject_id = refl

  store_jwk-keeps_publishers :
      (s : TrustStore b) (now : ℕ) (issuer_id jwk : String) (not_after : ℕ)
      → (store_jwk s now issuer_id jwk not_after).0.publisher_kv ≡ s.publisher_kv
  unfolding store_jwk
  store_jwk-keeps_publishers s now issuer_id jwk not_after =
      elim (Result-cases (b.jwk_record.marshal (record { jwk = jwk; not_after = not_after }))) [
        | inl (d, f) ↦ rw (f, store_jwk) refl
        | inr (e, f) ↦ rw (f, store_jwk) refl
      ]

  trusted-of_publishers :
      (s s' : TrustStore b) (later : ℕ) (subject_id issuer sub : String)
      → s'.publisher_kv ≡ s.publisher_kv
      → is_publisher_trusted s' later subject_id issuer sub
        ≡ is_publisher_trusted s later subject_id issuer sub
  unfolding is_publisher_trusted
  trusted-of_publishers s s' later subject_id issuer sub same = rw same refl

  -- A registration that was written: its list was set, and nothing after it touched the lists.
  written :
      (s : TrustStore b) (now : ℕ) (body : RegisterBody)
      → (write_registration s now body).1 ≡ 201
      → ((set_publisher_trust s now body.subject_id body.trusted_publishers).1 ≡ ok tt)
        × ((write_registration s now body).0.publisher_kv
            ≡ (set_publisher_trust s now body.subject_id body.trusted_publishers).0.publisher_kv)
  unfolding write_registration
  written s now body h =
      let s1 = (set_publisher_trust s now body.subject_id body.trusted_publishers).0 in
      elim (Result-cases (set_publisher_trust s now body.subject_id body.trusted_publishers).1) [
        | inr (e, f) ↦ absurd (ground (arith, f))
        | inl (u, f) ↦ elim (Result-cases (register_subject s1 now body.subject_id).1) [
          | inr (e, g) ↦ absurd (ground (arith, f, g))
          | inl (v, g) ↦
              let s2 = (register_subject s1 now body.subject_id).0 in
              elim (Option-cases body.scanner_jwk) [
                | inl n ↦ (
                  f,
                  rw (f, g, n, write_registration)
                      (register-keeps_publishers s1 now body.subject_id),
                )
                | inr (k, n) ↦
                    let i = scanner_issuer_id body.trusted_publishers in
                    let kept =
                      store_jwk-keeps_publishers s2 now i k.jwk k.not_after
                      ∙ register-keeps_publishers s1 now body.subject_id in
                    elim (Result-cases (store_jwk s2 now i k.jwk k.not_after).1) [
                      | inr (e, j) ↦ absurd (ground (arith, f, g, n, j))
                      | inl (w, j) ↦ (f, rw (f, g, n, j, write_registration) kept)
                    ]
              ]
        ]
      ]

  write-not_refused :
      (s : TrustStore b) (now : ℕ) (body : RegisterBody) → (write_registration s now body).1 ≢ 400
  unfolding write_registration
  write-not_refused s now body h =
      let s1 = (set_publisher_trust s now body.subject_id body.trusted_publishers).0 in
      elim (Result-cases (set_publisher_trust s now body.subject_id body.trusted_publishers).1) [
        | inr (e, f) ↦ absurd (ground (arith, f))
        | inl (u, f) ↦ elim (Result-cases (register_subject s1 now body.subject_id).1) [
          | inr (e, g) ↦ absurd (ground (arith, f, g))
          | inl (v, g) ↦
              let s2 = (register_subject s1 now body.subject_id).0 in
              elim (Option-cases body.scanner_jwk) [
                | inl n ↦ absurd (ground (arith, f, g, n))
                | inr (k, n) ↦
                    elim (Result-cases
                      (store_jwk s2 now (scanner_issuer_id body.trusted_publishers) k.jwk
                        k.not_after).1) [
                          | inr (e, j) ↦ absurd (ground (arith, f, g, n, j))
                          | inl (w, j) ↦ absurd (ground (arith, f, g, n, j))
                        ]
              ]
        ]
      ]

module _ {b : Buckets} (remote : Remote) (registry : Option IssuerRegistry) (ctx : Context)
    (s : TrustStore b) (locker : remote.State) (now : ℕ) where
  registered-written :
      (body : RegisterBody)
      → (register_subject_handler remote registry ctx s locker now (ok body)).2 ≡ 201
      → (check_registration remote.parse_key registry body ≡ ok tt)
        × ((write_registration s now body).1 ≡ 201)
        × ((register_subject_handler remote registry ctx s locker now (ok body)).0
            ≡ (write_registration s now body).0)
  unfolding register_subject_handler
  registered-written body h =
      let (issuer, sub) = get_publisher ctx in
      let req : RegisterRequest = record {
        subject_id = body.subject_id;
        registrant_issuer = issuer;
        registrant_sub = sub;
      } in
      elim (Result-cases (check_registration remote.parse_key registry body)) [
        | inr (e, f) ↦ absurd (ground (arith, f))
        | inl (u, f) ↦ elim (Result-cases (remote.register locker req).1) [
          | inr (e, g) ↦ absurd (ground (arith, f, g))
          | inl (err e, g) ↦ absurd (ground (arith, f, g))
          | inl (ok key, g) ↦ (
            f,
            rw (f, g, register_subject_handler) at h,
            rw (f, g, register_subject_handler) refl,
          )
        ]
      ]

  -- After a subject was registered, with status 201, a lookup that gives an answer says trusted exactly
  -- for the publishers of the request's list, at any later time.
  pub register_subject_handler-trusts :
      (body : RegisterBody) (later : ℕ) (issuer sub : String) (t : Bool)
      → (register_subject_handler remote registry ctx s locker now (ok body)).2 ≡ 201
      → is_publisher_trusted
          (register_subject_handler remote registry ctx s locker now (ok body)).0
          later
          body.subject_id
          issuer
          sub
        ≡ ok t
      → t ≡ listed body.trusted_publishers issuer sub
  register_subject_handler-trusts body later issuer sub t h answer =
      let (_, wrote, same) = registered-written body h in
      let (done, kept) = written s now body wrote in
      let after = (write_registration s now body).0 in
      let set = (set_publisher_trust s now body.subject_id body.trusted_publishers).0 in
      let asked : is_publisher_trusted after later body.subject_id issuer sub ≡ ok t =
        rw same at answer in
      is_publisher_trusted-set_publisher_trust s now later body.subject_id issuer sub
        body.trusted_publishers t done
        (sym (trusted-of_publishers set after later body.subject_id issuer sub kept) ∙ asked)

  -- A registration that is refused with status 400 changes neither the trust store nor the locker.
  pub register_subject_handler-refuses :
      (decoded : Result RegisterBody)
      → (register_subject_handler remote registry ctx s locker now decoded).2 ≡ 400
      → register_subject_handler remote registry ctx s locker now decoded ≡ (s, locker, 400)
  unfolding register_subject_handler
  register_subject_handler-refuses (err e) h = refl
  register_subject_handler-refuses (ok body) h =
      let (issuer, sub) = get_publisher ctx in
      let req : RegisterRequest = record {
        subject_id = body.subject_id;
        registrant_issuer = issuer;
        registrant_sub = sub;
      } in
      elim (Result-cases (check_registration remote.parse_key registry body)) [
        | inr (e, f) ↦ rw (f, register_subject_handler) refl
        | inl (u, f) ↦ elim (Result-cases (remote.register locker req).1) [
          | inr (e, g) ↦ absurd (ground (arith, f, g))
          | inl (err e, g) ↦ absurd (ground (arith, f, g))
          | inl (ok key, g) ↦
              absurd (write-not_refused s now body (rw (f, g, register_subject_handler) at h))
        ]
      ]

-- The publishers that the registry accepted.
validate_entries-All :
    (r : IssuerRegistry) (l : List TrustEntry)
    → validate_entries r l ≡ ok tt
    → All (λ tp. IsConfigured r tp.issuer tp.sub) l
unfolding validate_entries
validate_entries-All r [] h = tt
validate_entries-All r (tp ∷ rest) h =
    elim (Result-cases (registry_validate_trust_entry r tp.issuer tp.sub)) [
      | inr (e, f) ↦ absurd (ground (arith, f))
      | inl (u, f) ↦ (
        (registry_validate_trust_entry_iff r tp.issuer tp.sub).0 f,
        validate_entries-All r rest (ground (arith, f)),
      )
    ]

checked-entries :
    (parse_key : String → Result Bool) (registry : Option IssuerRegistry) (body : RegisterBody)
    → check_registration parse_key registry body ≡ ok tt
    → validate_publishers registry body.trusted_publishers ≡ ok tt
unfolding check_registration
checked-entries parse_key registry body h =
    elim (Result-cases (validate_publishers registry body.trusted_publishers)) [
      | inl (u, f) ↦ f
      | inr (e, f) ↦ absurd (ground (arith, f))
    ]

-- With a registry, a subject is registered, with status 201, only if every publisher of the request's
-- list is a configured one, with a sub that its issuer takes.
pub register_subject_handler-IsConfigured :
    {b : Buckets} (remote : Remote) (r : IssuerRegistry) (ctx : Context) (s : TrustStore b)
    (locker : remote.State) (now : ℕ) (body : RegisterBody)
    → (register_subject_handler remote (some r) ctx s locker now (ok body)).2 ≡ 201
    → All (λ tp. IsConfigured r tp.issuer tp.sub) body.trusted_publishers
register_subject_handler-IsConfigured remote r ctx s locker now body h =
    let (checked, _, _) = registered-written remote (some r) ctx s locker now body h in
    validate_entries-All r body.trusted_publishers
      (checked-entries remote.parse_key (some r) body checked)
