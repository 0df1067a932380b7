-- ===== src/Gateway.antt =====
-- internal/gateway: the service that takes artifacts in and administers subjects.
pub mod Schemas
pub mod Ingest
pub mod Admin
pub mod Server
use complytime_core.Prelude.{ℕ, String, ◌==◌, if◌then◌else◌}
use complytime_core.Errors.{ok, err}
use complytime_core.Subjects.{validate_subject_id}
use complytime_core.Authz.Context.{Context, set_subject_id_context}

-- What a middleware answers: a refusal with a status, or the next handler with a context.
pub data Next : Type 0 where
  refused : ℕ → String → Next
  next : Context → Next

-- SubjectIDExtractor: the X-Subject-ID header, empty if it is not there.
unfoldable pub subject_id_extractor : String → Context → Next
unfolding set_subject_id_context
subject_id_extractor header ctx =
    if header == "" then next ctx else elim (validate_subject_id header) [
      | err e ↦ refused 400 "Invalid X-Subject-ID"
      | ok u ↦ next (set_subject_id_context ctx header)
    ]
