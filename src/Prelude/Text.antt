-- ===== src/Prelude/Text.antt =====
-- Texts: the code points of a string, concatenation and lookup in a table keyed by strings.
use Prim.Native.Nat.{ℕ, zero, suc, ◌/◌, ◌%◌}
use Prim.Native.Char.{Char, code}
use Prim.Native.String.{String, char_at}
use mathlib.Core.Path.{◌≡◌, refl}
use mathlib.Core.Bool.{Bool, false, ◌||◌}
use mathlib.Core.List.{List, [], ◌∷◌}
use mathlib.Core.Option.{Option, none, some}
use native.Mathlib.Omega.{arith}
use text.Mathlib.Text.{◌==◌}
use text.Mathlib.TextEquality.{eq_iff}
use complytime_core.Prelude.Tests.{if◌then◌else◌, ltb}

-- The code points of a text.
abbrev pub codes : String → List ℕ
codes String.[] = []
codes (String.◌∷◌ c s) = code c ∷ codes s

-- `slices.Contains` of a list of texts, and membership in a set kept as a list.
unfoldable pub contains : List String → String → Bool
contains [] k = false
contains (x ∷ xs) k = x == k || contains xs k

-- A map with text keys, as a table of its entries: an entry that is written stays where the key is.
module _ {ℓ} {Value : Type ℓ} where
  unfoldable pub insert : String → Value → List (String × Value) → List (String × Value)
  insert key value [] = (key, value) ∷ []
  insert key value ((name, old) ∷ table) =
      let later = insert key value table in
      if name == key then (key, value) ∷ table else (name, old) ∷ later

  unfoldable pub lookup : String → List (String × Value) → Option Value
  lookup key [] = none
  lookup key ((name, value) ∷ table) =
      let later = lookup key table in if name == key then some value else later

  pub lookup-insert :
      (key other : String) (value : Value) (table : List (String × Value))
      → lookup other (insert key value table)
        ≡ (if key == other then some value else lookup other table)
  unfolding insert lookup
  lookup-insert key other value [] = refl
  lookup-insert key other value ((name, old) ∷ table) =
      let later = lookup-insert key other value table in
      ground (arith, later, eq_iff name other, eq_iff name key, eq_iff key other)

-- `strings.HasSuffix(s, t)`.
unfoldable pub has_suffix : String → String → Bool
has_suffix String.[] t = "" == t
has_suffix (String.◌∷◌ c s) t = let rest = has_suffix s t in String.◌∷◌ c s == t || rest

-- One decimal digit.
abbrev pub decimal_digit : ℕ → Char
decimal_digit n = char_at "0123456789" n

-- The decimal digits of `n` before `rest`; `n` rounds are enough, since each divides by ten.
unfoldable pub itoa_loop : ℕ → ℕ → String → String
itoa_loop zero n rest = rest
itoa_loop (suc fuel) n rest =
    let more = itoa_loop fuel (n / 10) (String.◌∷◌ (decimal_digit (n % 10)) rest) in
    if ltb n 10 then String.◌∷◌ (decimal_digit n) rest else more

-- `strconv.Itoa` of a number that is not negative, and `%d`.
unfoldable pub itoa : ℕ → String
unfolding itoa_loop
itoa n = itoa_loop (suc n) n ""

itoa_digits : (itoa 0 ≡ "0") × (itoa 2047 ≡ "2047")
unfolding itoa
itoa_digits = (refl, refl)
