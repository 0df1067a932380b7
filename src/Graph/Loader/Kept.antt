-- ===== src/Graph/Loader/Kept.antt =====
-- What the loader keeps of the graph, whether a message is processed, fails or panics.
use complytime_core.Prelude.{ℕ, ◌≡◌, inl, inr, String, List, [], ◌∷◌, sym, subst, All}
use complytime_core.Errors.{ok, Result-cases}
use complytime_core.Errors.Steps.{Keeps, >>-Keeps, within-Keeps, given-Keeps, return-Keeps}
use complytime_core.Locker.Log.{Bytes}
use complytime_core.Graph.Store.{Graph}
use complytime_core.Graph.Writer.{
  Driver, EntityRecord, EdgeRecord, entity_query, edge_query, upsert_entity, upsert_edge,
}
use complytime_core.Graph.Parser.{ParsedArtifact, parse_artifact}
use complytime_core.Graph.Loader.{
  Outside, stub_record, upsert_entities, upsert_edges, process_artifact,
}

-- A relation between the graphs that two states hold.
abbrev pub Seen : (d : Driver) → (Graph → Graph → Type 0) → d.State → d.State → Type 0
Seen d R s t = R (d.view s) (d.view t)

pub run-Keeps :
    (d : Driver) (R : Graph → Graph → Type 0)
    → ((g : Graph) → R g g)
    → (q : Graph → Graph) → ((g : Graph) → R g (q g))
    → Keeps (Seen d R) (d.run q)
run-Keeps d R same q effect = record {
  at = λ s. elim (Result-cases (d.run q s).1) [
    | inl (u, e) ↦ subst (R (d.view s)) (sym (d.run_ok q s e)) (effect (d.view s))
    | inr (x, e) ↦ elim (d.run_err q s x e) [
      | inl f ↦ subst (R (d.view s)) (sym f) (same (d.view s))
      | inr f ↦ subst (R (d.view s)) (sym f) (effect (d.view s))
    ]
  ];
}

-- Entities and edges of a sort, which what is parsed is of, and whose queries keep a relation.
pub record Kept (o : Outside) (R : Graph → Graph → Type 0) (E : EntityRecord → Type 0)
    (F : EdgeRecord → Type 0) : Type 0 where
  pub same : (g : Graph) → R g g
  pub trans : (f g h : Graph) → R f g → R g h → R f h
  pub parsed :
      (artifact_type : String) (content : Bytes) (i : ℕ) (p : ParsedArtifact)
      → parse_artifact o.gemara artifact_type content i ≡ ok p
      → All E p.entities × All F p.edges
  pub stubs :
      (r : EdgeRecord) (i : ℕ)
      → F r
      → E (stub_record r.from_id r.from_label i) × E (stub_record r.to_id r.to_label i)
  pub entity : (r : EntityRecord) → E r → (g : Graph) → R g (entity_query r g)
  pub edge : (r : EdgeRecord) → F r → (g : Graph) → R g (edge_query r g)

module _ (d : Driver) (o : Outside) {R : Graph → Graph → Type 0} {E : EntityRecord → Type 0}
    {F : EdgeRecord → Type 0} (k : Kept o R E F) where
  abbrev trans : (s t u : d.State) → Seen d R s t → Seen d R t u → Seen d R s u
  trans s t u = k.trans (d.view s) (d.view t) (d.view u)

  upsert_entity-Keeps : (r : EntityRecord) → E r → Keeps (Seen d R) (upsert_entity d r)
  unfolding upsert_entity
  upsert_entity-Keeps r e = run-Keeps d R k.same (entity_query r) (k.entity r e)

  upsert_edge-Keeps : (r : EdgeRecord) → F r → Keeps (Seen d R) (upsert_edge d r)
  unfolding upsert_edge
  upsert_edge-Keeps r e = run-Keeps d R k.same (edge_query r) (k.edge r e)

  upsert_entities-Keeps :
      (l : List EntityRecord) → All E l → Keeps (Seen d R) (upsert_entities d o l)
  unfolding upsert_entities
  upsert_entities-Keeps [] h = return-Keeps tt (λ s. k.same (d.view s))
  upsert_entities-Keeps (r ∷ l) h =
      >>-Keeps trans (within-Keeps _ (upsert_entity-Keeps r h.0)) (upsert_entities-Keeps l h.1)

  upsert_edges-Keeps :
      (i : ℕ) (l : List EdgeRecord) → All F l → Keeps (Seen d R) (upsert_edges d o i l)
  unfolding upsert_edges
  upsert_edges-Keeps i [] h = return-Keeps tt (λ s. k.same (d.view s))
  upsert_edges-Keeps i (r ∷ l) h =
      let (from, to) = k.stubs r i h.0 in
      >>-Keeps trans
        (>>-Keeps trans
          (>>-Keeps trans (within-Keeps _ (upsert_entity-Keeps _ from))
            (within-Keeps _ (upsert_entity-Keeps _ to)))
          (within-Keeps _ (upsert_edge-Keeps r h.0)))
        (upsert_edges-Keeps i l h.1)

  pub process_artifact-Keeps :
      (artifact_type : String) (content : Bytes) (i : ℕ)
      → Keeps (Seen d R) (process_artifact d o artifact_type content i)
  unfolding process_artifact
  process_artifact-Keeps artifact_type content i =
      given-Keeps trans "parsing artifact" (parse_artifact o.gemara artifact_type content i)
        (λ s. k.same (d.view s))
        (λ parsed e.
          let (entities, edges) = k.parsed artifact_type content i parsed e in
          >>-Keeps trans (upsert_entities-Keeps parsed.entities entities)
            (upsert_edges-Keeps i parsed.edges edges))
