-- ===== src/Prelude/Strings.antt =====
-- The functions of Go's `strings` package that the source uses. A string is its list of characters.
use Prim.Native.Nat.{ℕ, zero, suc, ◌<◌}
use Prim.Native.Char.{Char, code}
use Prim.Native.String.{String, ◌++◌ as concat}
use mathlib.Core.Path.{◌≡◌, refl, sym, ap, ◌∙◌}
use mathlib.Core.Bool.{Bool, true, ◌&&◌, ◌||◌}
use mathlib.Core.List.{List, [], ◌∷◌}
use mathlib.Core.Option
use mathlib.Core.Option.{Option, none, some}
use mathlib.Core.Logic.{inl, inr}
use native.Mathlib.Omega.{arith}
use text.Mathlib.Text.{◌==◌}
use text.Mathlib.TextEquality.{Char-path}
use text.Mathlib.TextLemmas.{nil-append, cons-append}
use complytime_core.Prelude.Tests.{if◌then◌else◌, nat_eq, leb, Bool-cases, nat_eq_iff, Option-cases}

-- `strings.CutPrefix(s, t)`: what follows the prefix.
unfoldable pub cut_prefix : String → String → Option String
cut_prefix s String.[] = some s
cut_prefix String.[] (String.◌∷◌ d t) = none
cut_prefix (String.◌∷◌ c s) (String.◌∷◌ d t) =
    let rest = cut_prefix s t in if nat_eq (code c) (code d) then rest else none

pub cut_prefix_lem : (s t r : String) → cut_prefix s t ≡ some r → s ≡ concat t r
unfolding cut_prefix
cut_prefix_lem String.[] String.[] r h = cc (nil-append r)
cut_prefix_lem (String.◌∷◌ c s) String.[] r h = cc (nil-append r)
cut_prefix_lem String.[] (String.◌∷◌ d t) r h = cc
cut_prefix_lem (String.◌∷◌ c s) (String.◌∷◌ d t) r h =
    elim (Bool-cases (nat_eq (code c) (code d))) [
      | inl e ↦
          let same : c ≡ d = Char-path c d ((nat_eq_iff (code c) (code d)).0 e) in
          let tails : s ≡ concat t r = cut_prefix_lem s t r (rw e at h) in
          cc (same, tails, cons-append d t r)
      | inr e ↦ let never : none ≡ some r = rw e at h in cc
    ]

abbrev before_char {ℓ} : {A : Type ℓ} → Char → String × A → String × A
before_char c (a, b) = (String.◌∷◌ c a, b)

-- `strings.Cut(s, sep)`: what stands before and after the first `sep`, if there is one.
unfoldable pub cut : String → String → Option (String × String)
unfolding cut_prefix
cut String.[] sep = Option.map (λ r. (String.[], r)) (cut_prefix String.[] sep)
cut (String.◌∷◌ c s) sep =
    let later = cut s sep in
    elim (cut_prefix (String.◌∷◌ c s) sep) [
      | some r ↦ some (String.[], r)
      | none ↦ Option.map (before_char c) later
    ]

module _ (c : Char) (s sep : String) where
  cut-here :
      (r : String)
      → cut_prefix (String.◌∷◌ c s) sep ≡ some r
      → cut (String.◌∷◌ c s) sep ≡ some (String.[], r)
  unfolding cut
  cut-here r n = rw (n, cut) refl

  cut-later :
      cut_prefix (String.◌∷◌ c s) sep ≡ none
      → cut (String.◌∷◌ c s) sep ≡ Option.map (before_char c) (cut s sep)
  unfolding cut
  cut-later n = rw (n, cut) refl

-- A text that has the separator is what stands before it, the separator and what stands after it.
pub cut_lem : (s sep a b : String) → cut s sep ≡ some (a, b) → s ≡ concat a (concat sep b)
unfolding cut
cut_lem String.[] sep a b h = elim (Option-cases (cut_prefix String.[] sep)) [
  | inl n ↦ let never : none ≡ some (a, b) = rw n at h in cc
  | inr (r, n) ↦
      let found : some (String.[], r) ≡ some (a, b) = rw n at h in
      let whole : String.[] ≡ concat sep r = cut_prefix_lem String.[] sep r n in
      cc (found, whole, nil-append (concat sep b))
]
cut_lem (String.◌∷◌ c s) sep a b h = elim (Option-cases (cut_prefix (String.◌∷◌ c s) sep)) [
  | inr (r, n) ↦
      let found : some (String.[], r) ≡ some (a, b) = sym (cut-here c s sep r n) ∙ h in
      let whole : String.◌∷◌ c s ≡ concat sep r = cut_prefix_lem (String.◌∷◌ c s) sep r n in
      cc (found, whole, nil-append (concat sep b))
  | inl n ↦
      let moved : Option.map (before_char c) (cut s sep) ≡ some (a, b) =
        sym (cut-later c s sep n) ∙ h in
      elim (Option-cases (cut s sep)) [
        | inl m ↦ let never : none ≡ some (a, b) = rw m at moved in cc
        | inr ((before, after), m) ↦
            let found : some (String.◌∷◌ c before, after) ≡ some (a, b) = rw m at moved in
            let whole : s ≡ concat before (concat sep after) = cut_lem s sep before after m in
            cc (found, whole, cons-append c before (concat sep after))
      ]
]

not-prefix :
    (c d : Char) (s t : String)
    → cut_prefix (String.◌∷◌ c s) (String.◌∷◌ d String.[]) ≡ none
    → cut_prefix (String.◌∷◌ c t) (String.◌∷◌ d String.[]) ≡ none
unfolding cut_prefix
not-prefix c d s t n = elim (Bool-cases (nat_eq (code c) (code d))) [
  | inl e ↦ let never : some s ≡ none = rw e at n in cc
  | inr e ↦ rw e refl
]

-- What stands before the first separator of one character does not have it.
pub cut-before :
    (d : Char) (s a b : String)
    → cut s (String.◌∷◌ d String.[]) ≡ some (a, b)
    → cut a (String.◌∷◌ d String.[]) ≡ none
unfolding cut cut_prefix
cut-before d String.[] a b h = cc h
cut-before d (String.◌∷◌ c s) a b h =
    let sep = String.◌∷◌ d String.[] in
    elim (Option-cases (cut_prefix (String.◌∷◌ c s) sep)) [
      | inr (r, n) ↦
          let found : some (String.[], r) ≡ some (a, b) = sym (cut-here c s sep r n) ∙ h in
          let empty : String.[] ≡ a = cc found in rw (sym empty) refl
      | inl n ↦
          let moved : Option.map (before_char c) (cut s sep) ≡ some (a, b) =
            sym (cut-later c s sep n) ∙ h in
          elim (Option-cases (cut s sep)) [
            | inl m ↦ let never : none ≡ some (a, b) = rw m at moved in cc
            | inr ((before, after), m) ↦
                let found : some (String.◌∷◌ c before, after) ≡ some (a, b) = rw m at moved in
                let front : String.◌∷◌ c before ≡ a = cc found in
                let fails : cut_prefix (String.◌∷◌ c before) sep ≡ none =
                  not-prefix c d s before n in
                rw (sym front) (
                  cut-later c before sep fails
                  ∙ ap (Option.map (before_char c)) (cut-before d s before after m))
          ]
    ]

abbrev prepend : Char → List String → List String
prepend c [] = String.◌∷◌ c String.[] ∷ []
prepend c (s ∷ l) = String.◌∷◌ c s ∷ l

-- `strings.Split(s, sep)` at a separator of one character, given by its code.
unfoldable pub split_char : ℕ → String → List String
split_char sep String.[] = String.[] ∷ []
split_char sep (String.◌∷◌ c s) =
    let rest = split_char sep s in if nat_eq (code c) sep then String.[] ∷ rest else prepend c rest

-- `unicode.IsSpace`.
abbrev pub is_space : ℕ → Bool
is_space c =
    (leb 9 c && leb c 13)
    || (nat_eq c 32
        || (nat_eq c 0x85
            || (nat_eq c 0xa0
                || (nat_eq c 0x1680
                    || ((leb 0x2000 c && leb c 0x200a)
                        || (nat_eq c 0x2028
                            || (nat_eq c 0x2029
                                || (nat_eq c 0x202f || (nat_eq c 0x205f || nat_eq c 0x3000)))))))))

-- The words so far, with the word that is being read in front.
fields_from : String → List String
fields_from String.[] = String.[] ∷ []
fields_from (String.◌∷◌ c s) =
    let rest = fields_from s in if is_space (code c) then String.[] ∷ rest else prepend c rest

unfoldable pub drop_empty : List String → List String
drop_empty [] = []
drop_empty (s ∷ l) = let rest = drop_empty l in if s == "" then rest else s ∷ rest

-- `strings.Fields`.
unfoldable pub fields : String → List String
unfolding fields_from drop_empty
fields s = drop_empty (fields_from s)

-- `strings.TrimRight(s, "/")`.
unfoldable pub trim_right_slash : String → String
trim_right_slash String.[] = ""
trim_right_slash (String.◌∷◌ c s) =
    let rest = trim_right_slash s in
    if rest == "" && nat_eq (code c) b'/' then "" else String.◌∷◌ c rest

trim_left_space : String → String
trim_left_space String.[] = ""
trim_left_space (String.◌∷◌ c s) =
    let rest = trim_left_space s in if is_space (code c) then rest else String.◌∷◌ c s

trim_right_space : String → String
trim_right_space String.[] = ""
trim_right_space (String.◌∷◌ c s) =
    let rest = trim_right_space s in
    if rest == "" && is_space (code c) then "" else String.◌∷◌ c rest

-- `strings.TrimSpace`.
unfoldable pub trim_space : String → String
unfolding trim_left_space trim_right_space
trim_space s = trim_right_space (trim_left_space s)

-- A test holds for the numbers under a bound.
unfoldable pub passes_under : (ℕ → Bool) → ℕ → Bool
passes_under test zero = true
passes_under test (suc bound) = passes_under test bound && test bound

pub passes_under_lem :
    (test : ℕ → Bool) (bound i : ℕ) → i < bound → passes_under test bound ≡ true → test i ≡ true
unfolding passes_under
passes_under_lem test zero i under all = absurd (omega arith)
passes_under_lem test (suc bound) i under all = ground (arith, passes_under_lem test bound i)

strings_run :
    (split_char b'.' "realm_access.roles" ≡ "realm_access" ∷ "roles" ∷ [])
    × (fields "  a  bc " ≡ "a" ∷ "bc" ∷ [])
    × (trim_right_slash "https://x//" ≡ "https://x")
    × (trim_space " a b " ≡ "a b")
    × (cut "https://x/y" "://" ≡ some ("https", "x/y"))
unfolding split_char fields trim_right_slash trim_space cut
strings_run = (refl, refl, refl, refl, refl)
