-- ===== src/Authz/Context.antt =====
-- The request context of internal/authz/middleware.go: what the authentication and subject
-- middlewares put there, and what its readers get when nothing was put.
use complytime_core.Prelude.{Bool, false, String, List, [], Option, none, some}

pub record Context : Type 0 where
  pub publisher_issuer : Option String
  pub publisher_sub : Option String
  pub publisher_flag : Option Bool
  pub scopes : Option (List String)
  pub groups : Option (List String)
  pub subject_id : Option String

abbrev pub empty : Context
empty = record {
  publisher_issuer = none;
  publisher_sub = none;
  publisher_flag = none;
  scopes = none;
  groups = none;
  subject_id = none;
}

unfoldable pub set_publisher_context : Context → String → String → Context
set_publisher_context ctx issuer sub = record ctx {
  publisher_issuer = some issuer;
  publisher_sub = some sub;
}

unfoldable pub set_publisher_flag_context : Context → Bool → Context
set_publisher_flag_context ctx is_publisher = record ctx { publisher_flag = some is_publisher }

unfoldable pub set_scopes_context : Context → List String → Context
set_scopes_context ctx scopes = record ctx { scopes = some scopes }

unfoldable pub set_groups_context : Context → List String → Context
set_groups_context ctx groups = record ctx { groups = some groups }

unfoldable pub set_subject_id_context : Context → String → Context
set_subject_id_context ctx subject_id = record ctx { subject_id = some subject_id }

-- The zero value, where nothing was set.
abbrev pub or_zero {ℓ} : {A : Type ℓ} → A → Option A → A
or_zero z none = z
or_zero z (some a) = a

unfoldable pub get_publisher : Context → String × String
get_publisher ctx = (or_zero "" ctx.publisher_issuer, or_zero "" ctx.publisher_sub)

unfoldable pub get_publisher_flag : Context → Bool
get_publisher_flag ctx = or_zero false ctx.publisher_flag

unfoldable pub get_scopes : Context → List String
get_scopes ctx = or_zero [] ctx.scopes

unfoldable pub get_groups : Context → List String
get_groups ctx = or_zero [] ctx.groups

unfoldable pub get_subject_id : Context → String
get_subject_id ctx = or_zero "" ctx.subject_id
