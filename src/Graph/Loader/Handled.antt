-- ===== src/Graph/Loader/Handled.antt =====
-- What every handler of the loader keeps of the graph, if the queries keep it.
use complytime_core.Prelude.{
  ◌≡◌, ◌≢◌, inl, inr, String, List, [], ◌∷◌, none, some, subst, Bool-cases, Option-cases, ◌==◌,
}
use complytime_core.Errors.{Result, Result-cases}
use complytime_core.Errors.Steps.{Keeps, >>-Keeps, within-Keeps, given-Keeps}
use complytime_core.Events.{
  Event, type_evidence_ingested, type_evidence_sealed, type_subject_registered,
}
use complytime_core.Receipts.{unwrap_content}
use complytime_core.Locker.Log.{Bytes}
use complytime_core.Locker.Worker.{EvidenceSealedData}
use complytime_core.Graph.Store.{Graph, Node, subject, publisher, merge_node}
use complytime_core.Graph.Writer.{
  Driver, EvidenceRecord, EntityRecord, EdgeRecord, upsert_subject, upsert_publisher,
  upsert_ingested_stub, upsert_evidence, ingested_stub_query, evidence_query,
}
use complytime_core.Graph.Loader.{
  Outside, acked, termed, nak_with_delay, panicked, Reply, fetch_artifact, artifact_url,
  record_evidence, handle_ingested, handle_receipt, handle_sealed, handle_subject_registered,
  process_event, handle_message, go_on, consume,
}
use complytime_core.Graph.Loader.Kept.{Kept, Seen, run-Keeps, process_artifact-Keeps}

none≢some : {A : Type 0} (a : A) → none ≢ some a
none≢some a h = cc h

-- A relation that every query of the writer keeps, and every artifact that is parsed.
pub record KeptByAll (o : Outside) (R : Graph → Graph → Type 0) (E : EntityRecord → Type 0)
    (F : EdgeRecord → Type 0) : Type 0 where
  pub kept : Kept o R E F
  pub node : (n : Node) (g : Graph) → R g (merge_node n g)
  pub stub :
      (digest subject_id issuer sub : String) (g : Graph)
      → R g (ingested_stub_query digest subject_id issuer sub g)
  pub evidence_ : (ev : EvidenceRecord) (g : Graph) → R g (evidence_query ev g)

module _ (d : Driver) (o : Outside) {R : Graph → Graph → Type 0} {E : EntityRecord → Type 0}
    {F : EdgeRecord → Type 0} (all : KeptByAll o R E F) where
  abbrev Related : d.State → d.State → Type 0
  Related = Seen d R

  same : (s : d.State) → Related s s
  same s = all.kept.same (d.view s)

  trans : (s t u : d.State) → Related s t → Related t u → Related s u
  trans s t u a b = all.kept.trans (d.view s) (d.view t) (d.view u) a b

  upsert_subject-Keeps : (id : String) → Keeps Related (upsert_subject d id)
  unfolding upsert_subject
  upsert_subject-Keeps id =
      run-Keeps d R all.kept.same (merge_node (subject id)) (all.node (subject id))

  upsert_publisher-Keeps : (i s : String) → Keeps Related (upsert_publisher d i s)
  unfolding upsert_publisher
  upsert_publisher-Keeps i s =
      run-Keeps d R all.kept.same (merge_node (publisher i s)) (all.node (publisher i s))

  upsert_ingested_stub-Keeps :
      (digest id i s : String) → Keeps Related (upsert_ingested_stub d digest id i s)
  unfolding upsert_ingested_stub
  upsert_ingested_stub-Keeps digest id i s =
      run-Keeps d R all.kept.same (ingested_stub_query digest id i s) (all.stub digest id i s)

  upsert_evidence-Keeps : (ev : EvidenceRecord) → Keeps Related (upsert_evidence d ev)
  unfolding upsert_evidence
  upsert_evidence-Keeps ev = run-Keeps d R all.kept.same (evidence_query ev) (all.evidence_ ev)

  -- The state of a pair that is returned.
  state_after :
      (s : d.State) (p q : d.State × Result (Unit {0}))
      → Related s p.0
      → some p ≡ some q
      → Related s q.0
  state_after s p q r h = let e : p ≡ q = cc h in subst (λ x. Related s x.0) e r

  handle_ingested-Keeps : (event : Event) → Keeps Related (handle_ingested d o event)
  unfolding handle_ingested
  handle_ingested-Keeps event =
      given-Keeps trans "extracting ingested data" (o.ingested_data event) same (λ data' e.
        >>-Keeps trans
          (>>-Keeps trans (within-Keeps _ (upsert_subject-Keeps _))
            (within-Keeps _ (upsert_publisher-Keeps _ _)))
          (within-Keeps _ (upsert_ingested_stub-Keeps _ _ _ _)))

  record_evidence-Keeps :
      (ev : EvidenceRecord) (content : Bytes) → Keeps Related (record_evidence d o ev content)
  unfolding record_evidence
  record_evidence-Keeps ev content =
      >>-Keeps trans
        (>>-Keeps trans (within-Keeps _ (upsert_publisher-Keeps _ _))
          (within-Keeps _ (upsert_evidence-Keeps ev)))
        (within-Keeps _ (process_artifact-Keeps d o all.kept ev.artifact_type content ev.log_index))

  pub handle_sealed-Keeps :
      (event : Event) (data' : EvidenceSealedData) (url : String)
      → Keeps Related (handle_sealed d o event data' url)
  unfolding handle_sealed handle_receipt
  handle_sealed-Keeps event data' url =
      given-Keeps trans "fetching artifact" (fetch_artifact o url) same (λ bytes e.
        given-Keeps trans "unwrapping receipt" (unwrap_content o.formats bytes) same (λ u f.
          >>-Keeps trans (within-Keeps _ (upsert_subject-Keeps _))
            (record { at = λ s. (record_evidence-Keeps _ _).at s })))

  handle_subject_registered-Keeps :
      (event : Event) → Keeps Related (handle_subject_registered d o event)
  unfolding handle_subject_registered
  handle_subject_registered-Keeps event =
      given-Keeps trans "extracting subject data" (o.registered_data event) same
        (λ data' e. within-Keeps _ (upsert_subject-Keeps _))

  process_event-Keeps :
      (event : Event) (s : d.State) (done : d.State × Result (Unit {0}))
      → process_event d o event s ≡ some done
      → Related s done.0
  unfolding process_event
  process_event-Keeps event s done h = elim (Bool-cases (event.kind == type_evidence_ingested)) [
    | inl i ↦ state_after s _ done ((handle_ingested-Keeps event).at s) (rw i at h)
    | inr i ↦ elim (Bool-cases (event.kind == type_evidence_sealed)) [
      | inl k ↦ elim (Result-cases (o.sealed_data event)) [
        | inr (f, x) ↦ state_after s _ done (same s) (rw (i, k, x) at h)
        | inl (data', x) ↦ elim (Option-cases (artifact_url o.locker_url data'.storage_ref)) [
          | inl u ↦ absurd (none≢some done (rw (i, k, x, u, process_event) at h))
          | inr (url, u) ↦
              state_after s _ done ((handle_sealed-Keeps event data' url).at s)
                (rw (i, k, x, u, process_event) at h)
        ]
      ]
      | inr k ↦ elim (Bool-cases (event.kind == type_subject_registered)) [
        | inl r ↦
            state_after s _ done ((handle_subject_registered-Keeps event).at s) (rw (i, k, r) at h)
        | inr r ↦ state_after s _ done (same s) (rw (i, k, r) at h)
      ]
    ]
  ]

  handle_message-Keeps : (msg : Bytes) (s : d.State) → Related s (handle_message d o msg s).0
  unfolding handle_message
  handle_message-Keeps msg s = elim (Result-cases (o.decode_event msg)) [
    | inr (e, f) ↦ rw (f, handle_message) (same s)
    | inl (event, f) ↦ elim (Option-cases (process_event d o event s)) [
      | inl n ↦ rw (f, n, handle_message) (same s)
      | inr (done, n) ↦ rw (f, n, handle_message) (process_event-Keeps event s done n)
    ]
  ]

  go_on-Keeps :
      (s t : d.State) (reply : Reply) (rest : d.State × List Reply)
      → Related s t
      → Related s rest.0
      → Related s (go_on d o reply t rest).0
  unfolding go_on
  go_on-Keeps s t panicked rest a b = a
  go_on-Keeps s t acked rest a b = b
  go_on-Keeps s t termed rest a b = b
  go_on-Keeps s t nak_with_delay rest a b = b

  pub consume-Keeps : (msgs : List Bytes) (s : d.State) → Related s (consume d o msgs s).0
  unfolding consume
  consume-Keeps [] s = same s
  consume-Keeps (msg ∷ others) s =
      let (t, reply) = handle_message d o msg s in
      let once : Related s t = handle_message-Keeps msg s in
      let more : Related s (consume d o others t).0 =
        trans s t (consume d o others t).0 once (consume-Keeps others t) in
      go_on-Keeps s t reply (consume d o others t) once more
