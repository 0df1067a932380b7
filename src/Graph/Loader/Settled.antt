-- ===== src/Graph/Loader/Settled.antt =====
-- How the loader settles messages.
use complytime_core.Prelude.{
  ℕ, ◌≡◌, ◌≢◌, refl, ◌↔◌, inl, inr, false, String, List, [], ◌∷◌, none, some, arith, subst, ap,
  Bool-cases, Option-cases, ◌==◌,
}
use complytime_core.Errors.{Error, wrapped, Result, ok, err, context, Result-cases}
use complytime_core.Errors.Steps.{
  Step, Fails, within, >>=-Fails, >>-Fails, return-Fails, within-Fails, context-Fails,
}
use complytime_core.Events.{
  Event, type_evidence_ingested, type_evidence_sealed, type_subject_registered,
}
use complytime_core.Locker.Log.{Bytes}
use complytime_core.Locker.Worker.{EvidenceSealedData}
use complytime_core.Graph.Writer.{Driver, EvidenceRecord, EntityRecord, EdgeRecord}
use complytime_core.Graph.Loader.{
  Outside, termed, is_permanent_error, artifact_url, upsert_entities, upsert_edges, handle_ingested,
  record_evidence, handle_receipt, handle_sealed, handle_subject_registered, process_event,
  handle_message,
}

-- An error that the loader tries again.
abbrev IsTransient : Error → Type 0
IsTransient e = is_permanent_error e ≡ false

wrapped-IsTransient : (message : String) (inner : Error) → IsTransient (wrapped message inner)
unfolding is_permanent_error
wrapped-IsTransient message inner = refl

context-IsTransient :
    {A : Type 0} (message : String) (r : Result A) (e : Error)
    → context message r ≡ err e
    → IsTransient e
context-IsTransient message r e h =
    let (inner, same) = context-Fails message r e h in
    subst IsTransient same (wrapped-IsTransient message inner)

within-IsTransient :
    {S A : Type 0} (message : String) (m : Step S A) → Fails IsTransient (within message m)
within-IsTransient message m = record {
  at = λ s e h.
      let (inner, same) = (within-Fails message m).at s e h in
      subst IsTransient same (wrapped-IsTransient message inner);
}

same-result : {S : Type 0} (p q : S × Result (Unit {0})) → some p ≡ some q → p.1 ≡ q.1
same-result p q h = let same : p ≡ q = cc h in ap (λ x. x.1) same

not-failed : (e : Error) (u : Unit {0}) → ok u ≢ err e
not-failed e u h = cc h

none≢some : {A : Type 0} (a : A) → none ≢ some a
none≢some a h = cc h

module _ (d : Driver) (o : Outside) where
  upsert_entities-IsTransient : (l : List EntityRecord) → Fails IsTransient (upsert_entities d o l)
  unfolding upsert_entities
  upsert_entities-IsTransient [] = return-Fails tt
  upsert_entities-IsTransient (r ∷ l) =
      >>-Fails (within-IsTransient _ _) (upsert_entities-IsTransient l)

  upsert_edges-IsTransient :
      (i : ℕ) (l : List EdgeRecord) → Fails IsTransient (upsert_edges d o i l)
  unfolding upsert_edges
  upsert_edges-IsTransient i [] = return-Fails tt
  upsert_edges-IsTransient i (r ∷ l) =
      >>-Fails
        (>>-Fails (>>-Fails (within-IsTransient _ _) (within-IsTransient _ _))
          (within-IsTransient _ _))
        (upsert_edges-IsTransient i l)

  handle_ingested-IsTransient : (event : Event) → Fails IsTransient (handle_ingested d o event)
  unfolding handle_ingested
  handle_ingested-IsTransient event = >>=-Fails (within-IsTransient _ _) (λ data'.
      >>-Fails (>>-Fails (within-IsTransient _ _) (within-IsTransient _ _))
        (within-IsTransient _ _))

  record_evidence-IsTransient :
      (ev : EvidenceRecord) (content : Bytes) → Fails IsTransient (record_evidence d o ev content)
  unfolding record_evidence
  record_evidence-IsTransient ev content =
      >>-Fails (>>-Fails (within-IsTransient _ _) (within-IsTransient _ _)) (within-IsTransient _ _)

  handle_receipt-IsTransient :
      (event : Event) (data' : EvidenceSealedData) (receipt_bytes : Bytes)
      → Fails IsTransient (handle_receipt d o event data' receipt_bytes)
  unfolding handle_receipt
  handle_receipt-IsTransient event data' receipt_bytes =
      >>=-Fails (within-IsTransient _ _) (λ unwrapped.
        >>-Fails (within-IsTransient _ _)
          (record { at = λ s. (record_evidence-IsTransient _ _).at s }))

  handle_sealed-IsTransient :
      (event : Event) (data' : EvidenceSealedData) (url : String)
      → Fails IsTransient (handle_sealed d o event data' url)
  unfolding handle_sealed
  handle_sealed-IsTransient event data' url =
      >>=-Fails (within-IsTransient _ _) (λ b. handle_receipt-IsTransient event data' b)

  handle_subject_registered-IsTransient :
      (event : Event) → Fails IsTransient (handle_subject_registered d o event)
  unfolding handle_subject_registered
  handle_subject_registered-IsTransient event =
      >>=-Fails (within-IsTransient _ _) (λ data'. (within-IsTransient _ _))

  process_event-IsTransient :
      (event : Event) (s s' : d.State) (e : Error)
      → process_event d o event s ≡ some (s', err e)
      → IsTransient e
  unfolding process_event
  process_event-IsTransient event s s' e h =
      elim (Bool-cases (event.kind == type_evidence_ingested)) [
        | inl i ↦ (handle_ingested-IsTransient event).at s e (same-result _ _ (rw i at h))
        | inr i ↦ elim (Bool-cases (event.kind == type_evidence_sealed)) [
          | inl k ↦ elim (Result-cases (o.sealed_data event)) [
            | inr (f, x) ↦
                context-IsTransient "extracting sealed data" (err f) e
                  (same-result _ _ (rw (i, k, x) at h))
            | inl (data', x) ↦ elim (Option-cases (artifact_url o.locker_url data'.storage_ref)) [
              | inl u ↦ absurd (none≢some _ (rw (i, k, x, u, process_event) at h))
              | inr (url, u) ↦
                  (handle_sealed-IsTransient event data' url).at s e
                    (same-result _ _ (rw (i, k, x, u, process_event) at h))
            ]
          ]
          | inr k ↦ elim (Bool-cases (event.kind == type_subject_registered)) [
            | inl r ↦
                (handle_subject_registered-IsTransient event).at s e
                  (same-result _ _ (rw (i, k, r) at h))
            | inr r ↦ absurd (not-failed e tt (same-result _ _ (rw (i, k, r) at h)))
          ]
        ]
      ]

  -- A message is terminated exactly if it is no CloudEvent. Whatever else goes wrong, a payload that
  -- does not decode, a malformed receipt or artifact, a cancelled context, is tried again.
  pub message_termed_iff :
      (msg : Bytes) (s : d.State)
      → ((handle_message d o msg s).1 ≡ termed) ↔ ((e : Error) × (o.decode_event msg ≡ err e))
  unfolding handle_message
  message_termed_iff msg s = (
    λ h. elim (Result-cases (o.decode_event msg)) [
      | inr (e, f) ↦ (e, f)
      | inl (event, f) ↦ absurd (elim (Option-cases (process_event d o event s)) [
        | inl n ↦ ground (arith, f, n)
        | inr ((s', ok u), n) ↦ ground (arith, f, n)
        | inr ((s', err e), n) ↦
            let again = process_event-IsTransient event s s' e n in ground (arith, f, n, again)
      ])
    ],
    λ (e, f). rw (f, handle_message) refl,
  )
