-- ===== src/Subjects/Slug.antt =====
-- What internal/subjects/validate.go accepts, and why an accepted ID is safe in a path or a subject.
use complytime_core.Prelude.{
  ℕ, ◌≤◌, ◌≡◌, refl, ◌≢◌, ◌↔◌, true, String, List, [], ◌∷◌, All, length, codes, arith, ◌==◌, eq_iff,
  Bool-cases, sym, subst, inl, inr, ◌<◌,
}
use complytime_core.Errors.{ok}
use complytime_core.Regex.{Denotes, alnum, upto}
use complytime_core.Regex.Laws.{matches_iff, cls_first}
use complytime_core.Subjects.{slug_char, subject_id_pattern, validate_subject_id}

-- An alphanumeric character and at most 253 more of the slug's.
abbrev pub IsSlug : List ℕ → Type 0
IsSlug [] = ⊥
IsSlug (c ∷ w) = (alnum c ≡ true) × All (λ d. slug_char d ≡ true) w × (length w ≤ 253)

pattern_sound : (w : List ℕ) → Denotes subject_id_pattern w → IsSlug w
unfolding subject_id_pattern
pattern_sound w h =
    let (c, v, e, b, k) = cls_first alnum (upto 253 slug_char) w h in
    subst IsSlug (sym e) (b, k.0, k.1)

pattern_complete : (w : List ℕ) → IsSlug w → Denotes subject_id_pattern w
unfolding subject_id_pattern
pattern_complete [] h = absurd h
pattern_complete (c ∷ w) h = (c ∷ [], w, refl, (c, refl, h.0), (h.1, h.2))

-- An ID is accepted exactly if it is a slug: one alphanumeric character, then at most 253 characters
-- that are alphanumeric, `_` or `-`. Everything else gets an error.
pub validate_subject_id_iff : (s : String) → (validate_subject_id s ≡ ok tt) ↔ IsSlug (codes s)
unfolding validate_subject_id
validate_subject_id_iff s = (
  λ h. pattern_sound (codes s) ((matches_iff subject_id_pattern s).0 (ground arith)),
  λ h.
      let found = (matches_iff subject_id_pattern s).1 (pattern_complete (codes s) h) in
      elim (Bool-cases (s == "")) [
        | inl e ↦ absurd (subst (λ t. IsSlug (codes t)) ((eq_iff s "").0 e) h)
        | inr e ↦ rw (e, found)
      ],
)

-- Characters that would leave the directory of a subject or the token of a NATS subject: control
-- characters, blanks, `.`, `/`, `\`, `*` and `>`.
abbrev pub IsHarmless : ℕ → Type 0
IsHarmless c = (32 < c) × (c ≢ b'.') × (c ≢ b'/') × (c ≢ 92) × (c ≢ b'*') × (c ≢ b'>')

slug_char-IsHarmless : (c : ℕ) → slug_char c ≡ true → IsHarmless c
slug_char-IsHarmless c h = ground arith

All-IsHarmless : (w : List ℕ) → All (λ c. slug_char c ≡ true) w → All IsHarmless w
All-IsHarmless [] h = tt
All-IsHarmless (c ∷ w) h = (slug_char-IsHarmless c h.0, All-IsHarmless w h.1)

IsSlug-IsHarmless : (w : List ℕ) → IsSlug w → All IsHarmless w
IsSlug-IsHarmless [] h = tt
IsSlug-IsHarmless (c ∷ w) h = (slug_char-IsHarmless c (ground arith), All-IsHarmless w h.1)

-- An accepted ID is not empty, has at most 254 characters, and holds no character with a meaning in
-- a path or in a NATS subject.
pub validate_subject_id-IsHarmless :
    (s : String)
    → validate_subject_id s ≡ ok tt
    → (0 < length (codes s)) × (length (codes s) ≤ 254) × All IsHarmless (codes s)
validate_subject_id-IsHarmless s h = go (codes s) ((validate_subject_id_iff s).0 h)
  where
    go : (w : List ℕ) → IsSlug w → (0 < length w) × (length w ≤ 254) × All IsHarmless w
    go [] k = absurd k
    go (c ∷ w) k = (omega arith, omega arith, IsSlug-IsHarmless (c ∷ w) k)
