-- ===== src/Subjects.antt =====
-- internal/subjects/validate.go: which subject IDs are accepted. An ID names a directory, a part of a
-- NATS subject and a key, so what it may contain matters to every service.
pub mod Slug
use complytime_core.Prelude.{ℕ, Bool, ◌||◌, String, ◌==◌, nat_eq, if◌then◌else◌}
use complytime_core.Errors.{Result, ok, err, plain}
use complytime_core.Regex.{Regex, cls, seq, upto, matches, alnum}

-- `[a-zA-Z0-9_-]`.
abbrev pub slug_char : ℕ → Bool
slug_char c = alnum c || (nat_eq c b'_' || nat_eq c b'-')

-- `^[a-zA-Z0-9][a-zA-Z0-9_-]{0,253}$`.
unfoldable pub subject_id_pattern : Regex
subject_id_pattern = seq (cls alnum) (upto 253 slug_char)

unfoldable pub validate_subject_id : String → Result (Unit {0})
unfolding subject_id_pattern matches
validate_subject_id subject_id =
    if subject_id == ""
    then err (plain "subjectID cannot be empty")
    else if matches subject_id_pattern subject_id
    then ok tt
    else err (
        plain
          "subjectID must start with alphanumeric and contain only alphanumeric, underscore, hyphen (max 254 chars)")
