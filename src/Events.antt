-- ===== src/Events.antt =====
-- events/events.go: what the services tell each other of evidence. The data of a sealed event is that
-- of Locker.Worker.
use complytime_core.Prelude.{ℕ, String, Option}
use complytime_core.Locker.Log.{Bytes}

abbrev pub type_evidence_ingested : String
type_evidence_ingested = "dev.complytime.evidence.ingested"

abbrev pub type_evidence_sealed : String
type_evidence_sealed = "dev.complytime.evidence.sealed"

abbrev pub type_subject_registered : String
type_subject_registered = "dev.complytime.subject.registered"

pub record PublisherIdentity : Type 0 where
  pub issuer : String
  pub sub : String

pub record EvidenceIngestedData : Type 0 where
  pub content_digest : String
  pub artifact_type : String
  pub subject_id : String
  pub publisher : PublisherIdentity

pub record SubjectRegisteredData : Type 0 where
  pub subject_id : String

-- A time.Time: the instant, and the name of the location that its clock is read in.
pub record Time : Type 0 where
  pub instant : ℕ
  pub location : String

-- A CloudEvent: its type, its time if it has one, and the bytes of its data.
pub record Event : Type 0 where
  pub kind : String
  pub time : Option Time
  pub data' : Bytes
