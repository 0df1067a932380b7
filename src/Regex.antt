-- ===== src/Regex.antt =====
-- Go's `regexp`, as far as the source uses it: classes of characters, sequences, alternatives,
-- repetitions `[..]*` and `[..]{0,n}` of one class. `matches` is the anchored match `^...$`, by
-- derivatives; a text is the list of its code points.
pub mod Laws
use complytime_core.Prelude.{
  ℕ, zero, suc, ◌+◌, ◌≤◌, ◌≡◌, refl, Bool, true, false, ◌&&◌, ◌||◌, not, List, [], ◌∷◌, ◌++◌, ◌⊎◌,
  All, length, String, codes, if◌then◌else◌, nat_eq, leb,
}

pub data Regex : Type 0 where
  nothing blank : Regex
  cls : (ℕ → Bool) → Regex
  seq alt : Regex → Regex → Regex
  run : (ℕ → Bool) → Regex
  upto : ℕ → (ℕ → Bool) → Regex

-- What a pattern means: the texts that it describes.
abbrev pub Denotes : Regex → List ℕ → Type 0
Denotes nothing w = ⊥
Denotes blank w = w ≡ []
Denotes (cls p) w = (c : ℕ) × (w ≡ c ∷ []) × (p c ≡ true)
Denotes (seq r t) w = (x : List ℕ) × (y : List ℕ) × (w ≡ x ++ y) × Denotes r x × Denotes t y
Denotes (alt r t) w = Denotes r w ⊎ Denotes t w
Denotes (run p) w = All (λ c. p c ≡ true) w
Denotes (upto n p) w = All (λ c. p c ≡ true) w × (length w ≤ n)

unfoldable pub nullable : Regex → Bool
nullable nothing = false
nullable blank = true
nullable (cls p) = false
nullable (seq r t) = nullable r && nullable t
nullable (alt r t) = nullable r || nullable t
nullable (run p) = true
nullable (upto n p) = true

-- What is left to match after one character.
unfoldable pub deriv : ℕ → Regex → Regex
unfolding nullable
deriv c nothing = nothing
deriv c blank = nothing
deriv c (cls p) = if p c then blank else nothing
deriv c (seq r t) =
    let first = seq (deriv c r) t in
    let rest = deriv c t in if nullable r then alt first rest else first
deriv c (alt r t) = alt (deriv c r) (deriv c t)
deriv c (run p) = if p c then run p else nothing
deriv c (upto zero p) = nothing
deriv c (upto (suc n) p) = if p c then upto n p else nothing

unfoldable pub matches_codes : Regex → List ℕ → Bool
unfolding deriv nullable
matches_codes r [] = nullable r
matches_codes r (c ∷ w) = matches_codes (deriv c r) w

-- `pattern.MatchString(s)`.
unfoldable pub matches : Regex → String → Bool
unfolding matches_codes
matches r s = matches_codes r (codes s)

-- The text `s` itself.
pub lit_codes : List ℕ → Regex
lit_codes [] = blank
lit_codes (c ∷ w) = seq (cls (nat_eq c)) (lit_codes w)

unfoldable pub lit : String → Regex
unfolding lit_codes
lit s = lit_codes (codes s)

-- `[..]+`.
abbrev pub plus : (ℕ → Bool) → Regex
plus p = seq (cls p) (run p)

-- `[^x]`.
abbrev pub other_than : ℕ → ℕ → Bool
other_than x c = not (nat_eq c x)

-- `.`: any character but a line feed.
abbrev pub dot : ℕ → Bool
dot c = not (nat_eq c 10)

-- `[a-zA-Z0-9]`.
abbrev pub alnum : ℕ → Bool
alnum c = (leb b'a' c && leb c b'z') || (leb b'A' c && leb c b'Z') || (leb b'0' c && leb c b'9')
