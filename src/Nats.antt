-- ===== src/Nats.antt =====
-- internal/nats/subjects.go: the subjects on which the services exchange messages.
pub mod KeyValue
use complytime_core.Prelude.{ℕ, String, concat}

abbrev pub subject_ingest : String
subject_ingest = "core.ingest"

abbrev pub subject_evidence_ingested_prefix : String
subject_evidence_ingested_prefix = "core.evidence.ingested"

abbrev pub subject_evidence_sealed_prefix : String
subject_evidence_sealed_prefix = "core.evidence.sealed"

abbrev pub subject_registration : String
subject_registration = "core.subject.registered"

abbrev pub subject_admin_register_subject : String
subject_admin_register_subject = "core.admin.subjects.register"

abbrev pub subject_admin_seal_trust : String
subject_admin_seal_trust = "core.admin.trust.seal"

unfoldable pub evidence_ingested_subject : String → String
evidence_ingested_subject subject_id =
    concat subject_evidence_ingested_prefix (concat "." subject_id)

unfoldable pub evidence_sealed_subject : String → String
evidence_sealed_subject subject_id = concat subject_evidence_sealed_prefix (concat "." subject_id)

-- The TTL of JTIReplayKVConfig of internal/nats/streams.go, in nanoseconds: 15 minutes.
abbrev pub jti_replay_ttl : ℕ
jti_replay_ttl = 900_000_000_000
