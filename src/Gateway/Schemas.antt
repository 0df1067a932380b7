-- ===== src/Gateway/Schemas.antt =====
-- internal/gateway/validate.go: the check of an artifact against the JSON schema of its type.
use complytime_core.Prelude.{
  String, List, [], ◌∷◌, ◌++◌, Option, none, some, ◌==◌, concat, lookup, if◌then◌else◌,
}
use complytime_core.Errors.{Error, error_text, Result, ok, err}
use complytime_core.Json.{Members, get, as_string, as_object}

-- *jsonschema.ValidationError: where, what, and the causes.
mutual
  pub data SchemaError : Type 0 where
    node : List String → String → Causes → SchemaError

  pub data Causes : Type 0 where
    nil : Causes
    cons : SchemaError → Causes → Causes

-- What the schema library says of an artifact.
pub data Checked : Type 0 where
  valid : Checked
  invalid : SchemaError → Checked
  failed : Error → Checked

abbrev pub SchemaRegistry : Type 0
SchemaRegistry = List (String × (Members → Checked))

pub record ValidationError : Type 0 where
  pub artifact_type : String
  pub details : List String

-- `strings.Join(l, "/")`.
unfoldable pub join_slash : List String → String
join_slash [] = ""
join_slash (s ∷ []) = s
join_slash (s ∷ t ∷ l) = concat s (concat "/" (join_slash (t ∷ l)))

abbrev leaf : List String → String → String
leaf location kind =
    let path = join_slash location in concat (if path == "" then "/" else path) (concat ": " kind)

-- collectValidationErrors.
unfoldable mutual
  unfolding join_slash

  pub collect_validation_errors : SchemaError → List String
  collect_validation_errors (node location kind nil) = leaf location kind ∷ []
  collect_validation_errors (node location kind (cons e more)) =
      collect_validation_errors e ++ collect_causes more

  pub collect_causes : Causes → List String
  collect_causes nil = []
  collect_causes (cons e more) = collect_validation_errors e ++ collect_causes more

abbrev details_of : Checked → Option (List String)
details_of valid = none
details_of (invalid e) = some (collect_validation_errors e)
details_of (failed e) = some (error_text e ∷ [])

-- `schema.Validate(artifact)`, with the errors under the type's name.
unfoldable pub check_schema : (Members → Checked) → String → Members → Option ValidationError
unfolding collect_validation_errors
check_schema schema name artifact = elim (details_of (schema artifact)) [
  | none ↦ none
  | some details ↦ some (record { artifact_type = name; details = details })
]

-- `metadata.type`, empty if it is not a text of an object.
unfoldable pub metadata_type : Members → Option String
unfolding get
metadata_type artifact = elim (as_object (get "metadata" artifact)) [
  | none ↦ none
  | some metadata ↦ as_string (get "type" metadata)
]

abbrev text_or_empty : Option String → String
text_or_empty none = ""
text_or_empty (some s) = s

-- The artifact's `type` at the top, where it is a known one.
unfoldable pub validate_top_level : SchemaRegistry → Members → Option ValidationError
unfolding check_schema get
validate_top_level r artifact = elim (as_string (get "type" artifact)) [
  | none ↦ none
  | some name ↦ elim (lookup name r) [
    | none ↦ none
    | some schema ↦ check_schema schema name artifact
  ]
]

-- Validate, on what json.Unmarshal gives; the error that names an unsupported type goes on with the
-- sorted list of the supported ones, which is left out.
unfoldable pub validate : SchemaRegistry → Result Members → Option ValidationError
unfolding metadata_type check_schema validate_top_level
validate r (err e) =
    some
      (record { artifact_type = "unknown"; details = concat "invalid JSON: " (error_text e) ∷ [] })
validate r (ok artifact) =
    let name = text_or_empty (metadata_type artifact) in
    if name == "" then validate_top_level r artifact else elim (lookup name r) [
      | none ↦ some (record {
        artifact_type = name;
        details = concat "unsupported artifact type '" (concat name "'") ∷ [];
      })
      | some schema ↦ check_schema schema name artifact
    ]
