-- ===== src/Graph/Loader/Grown.antt =====
-- The graph only grows, and what that means for evidence of two subjects.
use complytime_core.Prelude.{◌≡◌, true, String, List, ◌∙◌, ap}
use complytime_core.Errors.{ok}
use complytime_core.Events.{Event}
use complytime_core.Locker.Log.{Bytes}
use complytime_core.Locker.Worker.{EvidenceSealedData}
use complytime_core.Graph.Store.{evidence, has_edge}
use complytime_core.Graph.Store.Clauses.{Grows, Grows-refl, Grows-trans, merge_node-Grows}
use complytime_core.Graph.Writer.{Driver, targets}
use complytime_core.Graph.Writer.Effects.{
  ingested_stub_query-Grows, evidence_query-Grows, entity_query-Extends, edge_query-Extends,
}
use complytime_core.Graph.Loader.{Outside, evidence_record, handle_sealed, consume}
use complytime_core.Graph.Loader.Kept.{Kept}
use complytime_core.Graph.Loader.Handled.{KeptByAll, handle_sealed-Keeps, consume-Keeps}
use complytime_core.Graph.Loader.Recorded.{All-unit, handle_sealed-IsSealed}

kept-Grows : (o : Outside) → Kept o Grows (λ r. Unit {0}) (λ r. Unit {0})
kept-Grows o = record {
  same = Grows-refl;
  trans = λ f g h a b. Grows-trans a b;
  parsed = λ t c i p h. (All-unit p.entities, All-unit p.edges);
  stubs = λ r i h. (tt, tt);
  entity = λ r h g. (entity_query-Extends r g).grown;
  edge = λ r h g. (edge_query-Extends r g).grown;
}

kept_by_all-Grows : (o : Outside) → KeptByAll o Grows (λ r. Unit {0}) (λ r. Unit {0})
kept_by_all-Grows o = record {
  kept = kept-Grows o;
  node = merge_node-Grows;
  stub = ingested_stub_query-Grows;
  evidence_ = evidence_query-Grows;
}

module _ (d : Driver) (o : Outside) where
  -- Two sealed events with the same log index, which two subjects' logs both have: after both are
  -- processed, the evidence node of the index still belongs to the first event's subject, and holds
  -- the digest of the second event.
  pub evidence_collides :
      (first second : Event) (one two : EvidenceSealedData) (here there : String) (s : d.State)
      → (handle_sealed d o first one here s).1 ≡ ok tt
      → (handle_sealed d o second two there (handle_sealed d o first one here s).0).1 ≡ ok tt
      → one.log_index ≡ two.log_index
      → let g =
          d.view (handle_sealed d o second two there (handle_sealed d o first one here s).0).0 in
        (has_edge g (targets (evidence one.log_index) one.subject_id) ≡ true)
        × ((g.evidence_props one.log_index).digest ≡ two.content_digest)
  unfolding evidence_record
  evidence_collides first second one two here there s h k same_index =
      let t = (handle_sealed d o first one here s).0 in
      let a = handle_sealed-IsSealed d o first one here s h in
      let b = handle_sealed-IsSealed d o second two there t k in
      let g = d.view (handle_sealed d o second two there t).0 in
      (
        ((handle_sealed-Keeps d o (kept_by_all-Grows o) second two there).at t).edges
            (targets (evidence one.log_index) one.subject_id) a.recorded.of_subject,
        ap (λ i. (g.evidence_props i).digest) same_index ∙ ap (λ p. p.digest) b.recorded.props,
      )

  -- Whatever messages come, and however they end, no node and no edge is removed from the graph.
  pub consume-Grows :
      (msgs : List Bytes) (s : d.State) → Grows (d.view s) (d.view (consume d o msgs s).0)
  consume-Grows msgs s = consume-Keeps d o (kept_by_all-Grows o) msgs s
