-- ===== src/Locker/Requests/Grown.antt =====
-- No operation of the locker takes a ledger away, or a digest out of a ledger's index.
use complytime_core.Prelude.{
  ℕ, ◌≡◌, refl, ◌∙◌, sym, subst, inl, inr, String, List, [], ◌∷◌, some, arith, Option-cases,
  Bool-cases, ◌==◌, eq_iff, eq_refl, lookup, insert, lookup-insert,
}
use complytime_core.Errors.{Result, ok, err, Result-cases}
use complytime_core.Subjects.{validate_subject_id}
use complytime_core.Locker.{Locker, get_ledger, create_ledger}
use complytime_core.Locker.Log.{Bytes, Tessera}
use complytime_core.Locker.Ledgers.{Ledger, Startup, new_ledger, sha256_hex, seal, verify_digest}
use complytime_core.Locker.Worker.{State, IngestRef, set_ledger, process_receipt, handle_message}
use complytime_core.Locker.Admin.{
  RegisterRequest, SealTrustRequest, Receipts, handle_register, handle_seal_trust,
}
use complytime_core.Locker.Requests.{Request, ingest, register, seal_trust, serve, serve_all}

-- What is in the table under the key that was inserted last.
pub inserted :
    {V : Type 0} (k : String) (v : V) (m : List (String × V)) → lookup k (insert k v m) ≡ some v
inserted k v m = lookup-insert k k v m ∙ rw eq_refl refl

module _ {t : Tessera} where
  -- Every digest that the first ledger finds is found by the second.
  abbrev pub Extends : Ledger t → Ledger t → Type 0
  Extends l m =
      (digest : String) (i : ℕ)
      → verify_digest l digest ≡ some i
      → (j : ℕ) × (verify_digest m digest ≡ some j)

  -- Every ledger of the first locker is in the second, extended.
  abbrev pub Grows : Locker t → Locker t → Type 0
  Grows lk lk' =
      (id : String) (l : Ledger t)
      → get_ledger lk id ≡ some l
      → (m : Ledger t) × (get_ledger lk' id ≡ some m) × Extends l m

  Grows-refl : (lk : Locker t) → Grows lk lk
  Grows-refl lk id l h = (l, h, λ digest i found. (i, found))

  Grows-trans : (a b c : Locker t) → Grows a b → Grows b c → Grows a c
  Grows-trans a b c f g id l h =
      let (m, kept, more) = f id l h in
      let (n, kept', more') = g id m kept in
      (n, kept', λ digest i found. let (j, found') = more digest i found in more' digest j found')

  seal-Extends : (l : Ledger t) (receipt : Bytes) → Extends l (seal l receipt).0
  unfolding seal verify_digest
  seal-Extends l receipt digest i found = elim (Result-cases (t.add l.log receipt).1) [
    | inr (e, f) ↦ (i, rw (f, seal) found)
    | inl (k, f) ↦
        let said = lookup-insert (sha256_hex t receipt) digest k l.digest_index in
        elim (Bool-cases (sha256_hex t receipt == digest)) [
          | inl e ↦ (k, rw (f, seal) (rw e at said))
          | inr e ↦ (i, rw (f, seal) ((rw e at said) ∙ found))
        ]
  ]

  set_ledger-Grows :
      (lk : Locker t) (id : String) (l m : Ledger t)
      → get_ledger lk id ≡ some l
      → Extends l m
      → Grows lk (set_ledger lk id m)
  unfolding get_ledger
  set_ledger-Grows lk id l m there more other n h =
      let said = lookup-insert id other m lk.ledgers in
      elim (Bool-cases (id == other)) [
        | inl e ↦
            let here : some l ≡ some n =
              sym there ∙ subst (λ k. get_ledger lk k ≡ some n) (sym ((eq_iff id other).0 e)) h in
            let same : l ≡ n = cc here in (m, rw e at said, rw (sym same) more)
        | inr e ↦ (n, (rw e at said) ∙ h, λ digest i found. (i, found))
      ]

  -- A ledger that was created is there, and its subject's ID is valid.
  pub create_ledger-there :
      (start : Startup t) (lk : Locker t) (id : String) (l : Ledger t)
      → (create_ledger start lk id).1 ≡ ok l
      → (get_ledger (create_ledger start lk id).0 id ≡ some l) × (validate_subject_id id ≡ ok tt)
  unfolding create_ledger get_ledger
  create_ledger-there start lk id l h = elim (Result-cases (validate_subject_id id)) [
    | inr (e, f) ↦ absurd (ground (arith, f))
    | inl (u, f) ↦ elim (Option-cases (lookup id lk.ledgers)) [
      | inr (m, n) ↦ absurd (ground (arith, f, n))
      | inl n ↦ elim (Result-cases (new_ledger start id)) [
        | inr (e, g) ↦ absurd (ground (arith, f, n, g))
        | inl (m, g) ↦
            let made : ok m ≡ ok l = rw (f, n, g, create_ledger) at h in
            let same : m ≡ l = cc made in
            (rw (f, n, g, create_ledger, inserted id m lk.ledgers, same) refl, f)
      ]
    ]
  ]

  create_ledger-Grows :
      (start : Startup t) (lk : Locker t) (id : String) → Grows lk (create_ledger start lk id).0
  unfolding create_ledger get_ledger
  create_ledger-Grows start lk id other l h = elim (Result-cases (validate_subject_id id)) [
    | inr (e, f) ↦ rw (f, create_ledger) (Grows-refl lk other l h)
    | inl (u, f) ↦ elim (Option-cases (lookup id lk.ledgers)) [
      | inr (m, n) ↦ rw (f, n, create_ledger) (Grows-refl lk other l h)
      | inl n ↦ elim (Result-cases (new_ledger start id)) [
        | inr (e, g) ↦ rw (f, n, g, create_ledger) (Grows-refl lk other l h)
        | inl (m, g) ↦
            let said = lookup-insert id other m lk.ledgers in
            elim (Bool-cases (id == other)) [
              | inl e ↦ absurd (ground (arith, n, h, (eq_iff id other).0 e))
              | inr e ↦
                  rw (f, n, g, create_ledger) (l, (rw e at said) ∙ h, λ digest i found. (i, found))
            ]
      ]
    ]
  ]

  process_receipt-Grows :
      (s : State t) (ref : IngestRef) → Grows s.locker (process_receipt s ref).0.locker
  unfolding process_receipt
  process_receipt-Grows s ref = elim (Option-cases (get_ledger s.locker ref.subject_id)) [
    | inl n ↦ rw (n, process_receipt) (Grows-refl s.locker)
    | inr (ledger, n) ↦
        let after : Grows s.locker
            (set_ledger s.locker ref.subject_id (seal ledger ref.receipt_bytes).0) =
          set_ledger-Grows s.locker ref.subject_id ledger (seal ledger ref.receipt_bytes).0 n
            (seal-Extends ledger ref.receipt_bytes) in
        elim (Option-cases (verify_digest ledger (sha256_hex t ref.receipt_bytes))) [
          | inr (i, v) ↦ rw (n, v, process_receipt) (Grows-refl s.locker)
          | inl v ↦ elim (Result-cases (seal ledger ref.receipt_bytes).1) [
            | inl (i, f) ↦ rw (n, v, f, process_receipt) after
            | inr (e, f) ↦ rw (n, v, f, process_receipt) after
          ]
        ]
  ]

  module _ (w : Receipts) where
    handle_register-Grows :
        (start : Startup t) (lk : Locker t) (req : Result RegisterRequest)
        → Grows lk (handle_register w start lk req).0
    unfolding handle_register
    handle_register-Grows start lk (err e) = Grows-refl lk
    handle_register-Grows start lk (ok req) =
        let id = req.subject_id in
        let made = create_ledger-Grows start lk id in
        elim (Result-cases (create_ledger start lk id).1) [
          | inr (e, h) ↦ rw (h, handle_register) made
          | inl (l, h) ↦
              elim (Result-cases (
                w.wrap (w.registration_data req) req.registrant_issuer req.registrant_sub id
                  "subject-registration")) [
                    | inr (e, f) ↦ rw (h, f, handle_register) made
                    | inl (bytes, f) ↦
                        let after : Grows lk
                            (set_ledger (create_ledger start lk id).0 id (seal l bytes).0) =
                          Grows-trans lk (create_ledger start lk id).0
                            (set_ledger (create_ledger start lk id).0 id (seal l bytes).0) made
                            (set_ledger-Grows (create_ledger start lk id).0 id l (seal l bytes).0
                              (create_ledger-there start lk id l h).0 (seal-Extends l bytes)) in
                        elim (Result-cases (seal l bytes).1) [
                          | inr (e, g) ↦ rw (h, f, g, handle_register) after
                          | inl (i, g) ↦ rw (h, f, g, handle_register) after
                        ]
                  ]
        ]

    handle_seal_trust-Grows :
        (lk : Locker t) (req : Result SealTrustRequest) → Grows lk (handle_seal_trust w lk req).0
    unfolding handle_seal_trust
    handle_seal_trust-Grows lk (err e) = Grows-refl lk
    handle_seal_trust-Grows lk (ok req) = elim (Option-cases (get_ledger lk req.subject_id)) [
      | inl n ↦ rw (n, handle_seal_trust) (Grows-refl lk)
      | inr (l, n) ↦
          elim (Result-cases (
            w.wrap (w.trust_data req) req.operator_issuer req.operator_sub req.subject_id
              "trust-modification")) [
                | inr (e, f) ↦ rw (n, f, handle_seal_trust) (Grows-refl lk)
                | inl (bytes, f) ↦
                    rw (n, f, handle_seal_trust)
                      (set_ledger-Grows lk req.subject_id l (seal l bytes).0 n
                        (seal-Extends l bytes))
              ]
    ]

    serve-Grows : (s : State t) (req : Request t) → Grows s.locker (serve w s req).locker
    unfolding serve handle_message
    serve-Grows s (ingest (err e)) = Grows-refl s.locker
    serve-Grows s (ingest (ok ref)) = process_receipt-Grows s ref
    serve-Grows s (register start req) = handle_register-Grows start s.locker req
    serve-Grows s (seal_trust req) = handle_seal_trust-Grows s.locker req

    -- Whatever comes to the locker, messages and requests of the gateway in any order, and however they
    -- end, there is still a ledger for every subject that had one, and it finds every digest that the
    -- one before found.
    pub serve_all-Grows :
        (s : State t) (reqs : List (Request t)) → Grows s.locker (serve_all w s reqs).locker
    unfolding serve_all
    serve_all-Grows s [] = Grows-refl s.locker
    serve_all-Grows s (req ∷ rest) =
        Grows-trans s.locker (serve w s req).locker (serve_all w (serve w s req) rest).locker
          (serve-Grows s req) (serve_all-Grows (serve w s req) rest)
