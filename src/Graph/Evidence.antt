-- ===== src/Graph/Evidence.antt =====
-- The paged list of a subject's evidence: Evidence of internal/graph/writer.go, and GetEvidence of
-- internal/graph/handler.go.
pub mod Pages
pub mod Follow
use complytime_core.Prelude.{
  ℕ, zero, suc, ◌+◌, ◌-◌, Bool, true, false, ◌&&◌, String, List, [], ◌∷◌, ◌++◌, Option, none, some,
  ◌==◌, concat, codes, itoa, leb, ltb, length, take, get_elem?, keep, if◌then◌else◌,
}
use complytime_core.Errors.{Error, error_text, Result, ok, err}
use complytime_core.Events.{Time, PublisherIdentity}
use complytime_core.Base64.{encode_to_string, decode_string}
use complytime_core.Decimal.{ℤ, pos, negsuc, parse_int}
use complytime_core.Graph.Store.{
  Graph, Node, subject, publisher, ingested_stub, evidence, entity, LocalDateTime, EvidenceProps,
  out_of, into,
}
use complytime_core.Graph.Writer.{Driver, Query, publishers_in}

pub record EvidenceItem : Type 0 where
  pub log_index : ℕ
  pub digest : String
  pub artifact_type : String
  pub status : String
  -- The stored one: toTime converts it, by the driver's LocalDateTime.Time.
  pub sealed : LocalDateTime
  pub publisher_ : String × String

pub record EvidenceFilter : Type 0 where
  pub artifact_type : Option String
  pub since : Option Time
  pub before : Option Time
  pub cursor : Option String
  pub limit : Option ℤ

pub record EvidenceResult : Type 0 where
  pub subject_id : String
  pub evidence : List EvidenceItem
  pub next_cursor : Option String

-- One row for each publisher of an evidence node.
abbrev items_of : ℕ → EvidenceProps → List (String × String) → List EvidenceItem
items_of i p [] = []
items_of i p (who ∷ l) =
    let rest = items_of i p l in
    record {
      log_index = i;
      digest = p.digest;
      artifact_type = p.artifact_type;
      status = p.status;
      sealed = p.sealed;
      publisher_ = who;
    }
    ∷ rest

-- The rows of the nodes that point to a subject; ingested stubs are no evidence.
abbrev rows_of : Graph → List Node → List EvidenceItem
rows_of g [] = []
rows_of g (evidence i ∷ l) =
    items_of i (g.evidence_props i) (publishers_in (out_of g (evidence i) "PUBLISHED_BY"))
    ++ rows_of g l
rows_of g (subject i ∷ l) = rows_of g l
rows_of g (publisher i s ∷ l) = rows_of g l
rows_of g (ingested_stub e i ∷ l) = rows_of g l
rows_of g (entity k i ∷ l) = rows_of g l

-- The MATCH of the query.
unfoldable pub evidence_rows : Graph → String → List EvidenceItem
unfolding into out_of
evidence_rows g subject_id = rows_of g (into g (subject subject_id) "TARGETS")

-- The conditions on type and time, the latter as the database decides them.
unfoldable pub meets : Driver → EvidenceFilter → EvidenceItem → Bool
meets d f item =
    elim f.artifact_type as (λ _. Bool) [ none ↦ true | some t ↦ item.artifact_type == t ]
    && (elim f.since as (λ _. Bool) [ none ↦ true | some t ↦ d.at_or_after item.sealed t ]
        && elim f.before as (λ _. Bool) [ none ↦ true | some t ↦ d.earlier item.sealed t ])

-- The condition on the cursor, which is left out if the cursor is not base64.
unfoldable pub after : Option ℤ → ℕ → Bool
after none i = true
after (some (pos c)) i = ltb c i
after (some (negsuc c)) i = true

unfoldable pub cursor_index : Option String → Option ℤ
unfolding decode_string parse_int
cursor_index none = none
cursor_index (some s) = elim (decode_string s) [
  | none ↦ none
  | some decoded ↦ some (parse_int decoded)
]

unfoldable pub next_cursor_of : ℕ → String
unfolding encode_to_string
next_cursor_of log_index = encode_to_string (codes (itoa log_index))

-- `limit`: 50, unless the filter has a positive one.
unfoldable pub page_limit : Option ℤ → ℕ
page_limit none = 50
page_limit (some (pos zero)) = 50
page_limit (some (pos (suc n))) = suc n
page_limit (some (negsuc n)) = 50

-- The Cypher of Evidence: one row more than the limit.
unfoldable pub evidence_page_query : Driver → String → EvidenceFilter → Query EvidenceItem
unfolding evidence_rows meets after cursor_index page_limit
evidence_page_query d subject_id f =
    let cursor = cursor_index f.cursor in
    record {
      rows = λ g.
          keep (λ item. meets d f item && after cursor item.log_index) (evidence_rows g subject_id);
      order = λ item. item.log_index;
      limit = some (page_limit f.limit + 1);
    }

-- The page and its cursor, from the rows.
unfoldable pub page : String → ℕ → List EvidenceItem → EvidenceResult
unfolding next_cursor_of
page subject_id limit items =
    if ltb limit (length items)
    then record {
      subject_id = subject_id;
      evidence = take limit items;
      next_cursor = elim (get_elem? items (limit - 1)) as (λ _. Option String) [
        | none ↦ none
        | some last ↦ some (next_cursor_of last.log_index)
      ];
    }
    else record { subject_id = subject_id; evidence = items; next_cursor = none }

module _ (d : Driver) where
  -- Evidence.
  unfoldable pub evidence_of : d.State → String → EvidenceFilter → Result EvidenceResult
  unfolding evidence_page_query page page_limit
  evidence_of s subject_id f = elim (d.read (evidence_page_query d subject_id f) s) [
    | err e ↦ err e
    | ok items ↦ ok (page subject_id (page_limit f.limit) items)
  ]

-- The limit of GetEvidence: 50 if there is none, at most 200 and at least 1.
unfoldable pub request_limit : Option ℤ → ℕ
request_limit none = 50
request_limit (some (pos n)) = if ltb 200 n then 200 else if ltb n 1 then 1 else n
request_limit (some (negsuc n)) = 1

-- What the graph's API answers.
pub data Response (A : Type 0) : Type 0 where
  answered : A → Response A
  failed : ℕ → String → Response A

module _ (d : Driver) where
  -- GetEvidence, on the parameters of the request.
  unfoldable pub get_evidence : d.State → String → EvidenceFilter → Response EvidenceResult
  unfolding evidence_of request_limit
  get_evidence s id params =
      elim (evidence_of d s id
        (record params { limit = some (pos (request_limit params.limit)) })) [
          | err e ↦ failed 500 (error_text e)
          | ok result ↦ answered result
        ]

  -- A client that asks for page after page, as long as there is a cursor, up to some number of requests.
  unfoldable pub follow : ℕ → d.State → String → EvidenceFilter → Option (List EvidenceItem)
  unfolding get_evidence
  follow zero s id params = none
  follow (suc n) s id params = elim (get_evidence s id params) [
    | failed status message ↦ none
    | answered result ↦ elim result.next_cursor [
      | none ↦ some result.evidence
      | some cursor ↦ elim (follow n s id (record params { cursor = some cursor })) [
        | none ↦ none
        | some more ↦ some (result.evidence ++ more)
      ]
    ]
  ]
