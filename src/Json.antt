-- ===== src/Json.antt =====
-- JSON values, as `json.Unmarshal` gives them in an `any`: null, booleans, numbers, strings, arrays
-- and objects (a `map[string]any`: at most one value for a name). Decoding is a parameter where the
-- source decodes.
use complytime_core.Prelude.{Bool, String, Option, none, some, List, [], ◌∷◌, ◌==◌, if◌then◌else◌}

mutual
  pub data Json : Type 0 where
    null : Json
    bool : Bool → Json
    num : String → Json
    str : String → Json
    arr : Items → Json
    obj : Members → Json

  pub data Items : Type 0 where
    nil : Items
    cons : Json → Items → Items

  pub data Members : Type 0 where
    end : Members
    member : String → Json → Members → Members

-- `m[name]` with its second result.
unfoldable pub get : String → Members → Option Json
get name end = none
get name (member n v m) = let rest = get name m in if n == name then some v else rest

-- `v.(string)`, `v.(map[string]any)` and `v.([]any)`.
abbrev pub as_string : Option Json → Option String
as_string (some (str s)) = some s
as_string _ = none

abbrev pub as_object : Option Json → Option Members
as_object (some (obj m)) = some m
as_object _ = none

-- The strings of an array, in order; other elements are left out.
unfoldable pub strings : Items → List String
strings nil = []
strings (cons (str s) l) = s ∷ strings l
strings (cons _ l) = strings l
