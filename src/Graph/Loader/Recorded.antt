-- ===== src/Graph/Loader/Recorded.antt =====
-- What a sealed event leaves in the graph.
use complytime_core.Prelude.{
  ◌↔◌, ◌≡◌, refl, ◌⊎◌, inl, inr, true, String, List, [], ◌∷◌, sym, ◌∙◌, subst, ap, Memᴰ, Bool-cases,
  ◌==◌, All, take,
}
use complytime_core.Errors.{ok, Result-cases}
use complytime_core.Errors.Steps.{Leads, >>-Leads, within-Leads, given-Leads}
use complytime_core.Events.{Event}
use complytime_core.Receipts.{UnwrapResult, unwrap_content}
use complytime_core.Locker.Log.{Bytes}
use complytime_core.Locker.Worker.{EvidenceSealedData}
use complytime_core.Graph.Store.{
  Graph, Node, subject, publisher, ingested_stub, has_node, merge_node, out_of,
}
use complytime_core.Graph.Store.Clauses.{merge_node-has, merge_node-Grows}
use complytime_core.Graph.Writer.{
  Driver, EvidenceRecord, upsert_subject, upsert_publisher, upsert_evidence, evidence_query,
  find_publisher_by_digest, publisher_query, publishers_in,
}
use complytime_core.Graph.Writer.Effects.{
  Extends, Extends-refl, Extends-trans, entity_query-Extends, edge_query-Extends, IsRecorded,
  evidence_query-IsRecorded, IsRecorded-Extends,
}
use complytime_core.Graph.Loader.{
  Outside, fetch_artifact, publisher_or_placeholder, evidence_record, record_evidence,
  handle_receipt, handle_sealed,
}
use complytime_core.Graph.Loader.Kept.{Kept, process_artifact-Keeps}

pub All-unit : {A : Type 0} (l : List A) → All (λ a. Unit {0}) l
All-unit [] = tt
All-unit (a ∷ l) = (tt, All-unit l)

pub kept-Extends : (o : Outside) → Kept o Extends (λ r. Unit {0}) (λ r. Unit {0})
kept-Extends o = record {
  same = Extends-refl;
  trans = Extends-trans;
  parsed = λ t c i p h. (All-unit p.entities, All-unit p.edges);
  stubs = λ r i h. (tt, tt);
  entity = λ r h g. entity_query-Extends r g;
  edge = λ r h g. edge_query-Extends r g;
}

-- A query that is done leads from a graph to the one that it makes.
pub run-Leads :
    (d : Driver) (q : Graph → Graph) (P Q : Graph → Type 0)
    → ((g : Graph) → P g → Q (q g))
    → Leads (λ s. P (d.view s)) (λ s. Q (d.view s)) (d.run q)
run-Leads d q P Q effect = record {
  at = λ s p e. subst Q (sym (d.run_ok q s e)) (effect (d.view s) p);
}

-- Two nodes that are to be there.
record HasBoth (m n : Node) (g : Graph) : Type 0 where
  pub first : has_node g m ≡ true
  pub second : has_node g n ≡ true

module _ (d : Driver) (o : Outside) where
  record_evidence-Leads :
      (ev : EvidenceRecord) (content : Bytes)
      → Leads
          (λ s. has_node (d.view s) (subject ev.subject_id) ≡ true)
          (λ s. IsRecorded ev (d.view s))
          (record_evidence d o ev content)
  unfolding record_evidence upsert_publisher upsert_evidence
  record_evidence-Leads ev content =
      let s = subject ev.subject_id in
      let p = publisher ev.publisher_issuer ev.publisher_sub in
      >>-Leads
        (>>-Leads
          (within-Leads "upserting publisher" (
            run-Leads d (merge_node p) (λ g. has_node g s ≡ true) (HasBoth s p)
              (λ g h. record {
                first = (merge_node-Grows p g).nodes s h;
                second = merge_node-has p g;
              })))
          (within-Leads "upserting evidence" (
            run-Leads d (evidence_query ev) (HasBoth s p) (IsRecorded ev)
              (λ g h. evidence_query-IsRecorded ev g h.first h.second))))
        (within-Leads "processing artifact" (record {
          at = λ t r e. IsRecorded-Extends ev (d.view t) _ r (
              (process_artifact-Keeps d o (kept-Extends o) ev.artifact_type content ev.log_index).at
                t);
        }))

-- The publisher that a sealed event is recorded under: a publisher of the ingested stub of the digest
-- and the subject, in the graph before, or the placeholder.
abbrev pub IsCorrelated : Graph → EvidenceSealedData → String × String → Type 0
IsCorrelated g data' p =
    (p ≡ ("locker-service", "locker"))
    ⊎ Memᴰ p (
        publishers_in
          (out_of g (ingested_stub data'.content_digest data'.subject_id) "PUBLISHED_BY"))

out_of-merge_node :
    (n m : Node) (kind : String) (g : Graph) → out_of (merge_node n g) m kind ≡ out_of g m kind
unfolding merge_node out_of
out_of-merge_node n m kind g = elim (Bool-cases (has_node g n)) [
  | inl e ↦ rw e refl
  | inr e ↦ rw e refl
]

-- What the event leaves: a record of it, of the content that its receipt wraps, under such a publisher.
pub record IsSealed (d : Driver) (o : Outside) (event : Event) (data' : EvidenceSealedData)
    (url : String) (before after : Graph) : Type 0 where
  pub receipt_bytes : Bytes
  pub fetched : fetch_artifact o url ≡ ok receipt_bytes
  pub unwrapped : UnwrapResult
  pub unwraps : unwrap_content o.formats receipt_bytes ≡ ok unwrapped
  pub publisher_ : String × String
  pub correlated : IsCorrelated before data' publisher_
  pub recorded :
      IsRecorded (evidence_record d o data' event.time unwrapped.content publisher_) after

same_stub :
    (g h : Graph) (data' : EvidenceSealedData) (p : String × String)
    → out_of h (ingested_stub data'.content_digest data'.subject_id) "PUBLISHED_BY"
      ≡ out_of g (ingested_stub data'.content_digest data'.subject_id) "PUBLISHED_BY"
    → IsCorrelated h data' p
    → IsCorrelated g data' p
same_stub g h data' p e (inl placeholder) = inl placeholder
same_stub g h data' p e (inr m) = inr (subst (λ l. Memᴰ p (publishers_in l)) e m)

first-Memᴰ :
    (q : List (String × String)) (p : String × String) (rest all : List (String × String))
    → (p ∷ rest) ≡ take 1 all
    → ((a : String × String) → Memᴰ a all ↔ Memᴰ a q)
    → Memᴰ p q
first-Memᴰ q p rest [] e m = cc e
first-Memᴰ q p rest (a ∷ all) e m = let same : p ≡ a = cc e in (m p).0 (Memᴰ.head same)

module _ (d : Driver) (o : Outside) where
  found-IsCorrelated :
      (s : d.State) (data' : EvidenceSealedData)
      → IsCorrelated (d.view s) data' (
          publisher_or_placeholder
            (find_publisher_by_digest d s data'.subject_id data'.content_digest))
  unfolding find_publisher_by_digest publisher_query publisher_or_placeholder
  found-IsCorrelated s data' =
      let q = publisher_query data'.subject_id data'.content_digest in
      elim (Result-cases (d.read q s)) [
        | inr (e, f) ↦ inl (rw (f, publisher_or_placeholder, find_publisher_by_digest) refl)
        | inl ([], f) ↦ inl (rw (f, publisher_or_placeholder, find_publisher_by_digest) refl)
        | inl ((p ∷ rest), f) ↦ elim (Bool-cases (p.0 == "")) [
          | inl e ↦ inl (rw (f, e, publisher_or_placeholder, find_publisher_by_digest) refl)
          | inr e ↦
              let answer = d.read_ok q s (p ∷ rest) f in
              inr (
                rw (f, e, publisher_or_placeholder, find_publisher_by_digest)
                  (first-Memᴰ _ p rest answer.all answer.cut answer.members))
        ]
      ]

  -- A sealed event that the loader processes leaves an evidence node at its log index with the event's
  -- digests, the type of the artifact in the receipt at the URL and the status sealed, with edges to its
  -- subject and to a publisher: one that the ingested stub of the same digest and subject was published
  -- by, or the placeholder of the locker.
  pub handle_sealed-IsSealed :
      (event : Event) (data' : EvidenceSealedData) (url : String) (s : d.State)
      → (handle_sealed d o event data' url s).1 ≡ ok tt
      → IsSealed d o event data' url (d.view s) (d.view (handle_sealed d o event data' url s).0)
  unfolding handle_sealed handle_receipt upsert_subject
  handle_sealed-IsSealed event data' url s h =
      let before = d.view s in
      let stub = ingested_stub data'.content_digest data'.subject_id in
      let leads : Leads (λ t. d.view t ≡ before)
          (λ t. IsSealed d o event data' url before (d.view t))
          (handle_sealed d o event data' url) =
        given-Leads "fetching artifact" (fetch_artifact o url) (λ bytes fetched.
          given-Leads "unwrapping receipt" (unwrap_content o.formats bytes) (λ unwrapped unwraps.
            >>-Leads
              (within-Leads "upserting subject" (
                run-Leads d (merge_node (subject data'.subject_id)) (λ g. g ≡ before)
                  (λ g. g ≡ merge_node (subject data'.subject_id) before)
                  (λ g e. ap (merge_node (subject data'.subject_id)) e)))
              (record {
                at = λ t e done.
                    let p =
                      publisher_or_placeholder
                        (find_publisher_by_digest d t data'.subject_id data'.content_digest) in
                    record {
                      receipt_bytes = bytes;
                      fetched = fetched;
                      unwrapped = unwrapped;
                      unwraps = unwraps;
                      publisher_ = p;
                      correlated =
                          same_stub before (d.view t) data' p
                            (ap (λ g. out_of g stub "PUBLISHED_BY") e
                              ∙ out_of-merge_node (subject data'.subject_id) stub "PUBLISHED_BY"
                                  before)
                            (found-IsCorrelated t data');
                      recorded =
                          (record_evidence-Leads d o
                              (evidence_record d o data' event.time unwrapped.content p)
                              unwrapped.content).at
                            t
                            (subst (λ g. has_node g (subject data'.subject_id) ≡ true) (sym e)
                              (merge_node-has (subject data'.subject_id) before))
                            done;
                    };
              }))) in
      leads.at s refl h
