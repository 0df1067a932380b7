-- ===== src/Regex/Laws.antt =====
-- The matcher by derivatives decides what the patterns mean.
use complytime_core.Prelude.{
  ℕ, zero, suc, ◌≡◌, refl, sym, Bool, true, List, [], ◌∷◌, ◌++◌, ◌⊎◌, inl, inr, ◌↔◌, All, String,
  codes, arith, Bool-cases, ap, if◌then◌else◌, nat_eq_iff, ◌∙◌, ◌≢◌,
}
use complytime_core.Regex.{
  Regex, nothing, blank, cls, seq, alt, run, upto, Denotes, nullable, deriv, matches_codes, matches,
  lit_codes, lit, plus,
}

nullable_sound : (r : Regex) → nullable r ≡ true → Denotes r []
unfolding nullable
nullable_sound nothing h = cc
nullable_sound blank h = refl
nullable_sound (cls p) h = cc
nullable_sound (seq r t) h =
    ([], [], refl, nullable_sound r (ground arith), nullable_sound t (ground arith))
nullable_sound (alt r t) h = elim (Bool-cases (nullable r)) [
  | inl e ↦ inl (nullable_sound r e)
  | inr e ↦ inr (nullable_sound t (ground arith))
]
nullable_sound (run p) h = tt
nullable_sound (upto n p) h = (tt, omega arith)

append-eq-nil : (x y : List ℕ) → [] ≡ x ++ y → (x ≡ []) × (y ≡ [])
append-eq-nil [] y h = (refl, sym h)
append-eq-nil (a ∷ x) y h = cc

nullable_complete : (r : Regex) → Denotes r [] → nullable r ≡ true
unfolding nullable
nullable_complete nothing h = absurd h
nullable_complete blank h = refl
nullable_complete (cls p) (c, e, _) = cc
nullable_complete (seq r t) (x, y, e, hx, hy) =
    let (ex, ey) = append-eq-nil x y e in
    rw (nullable_complete r (rw ex at hx)) (nullable_complete t (rw ey at hy))
nullable_complete (alt r t) (inl h) = rw (nullable_complete r h) refl
nullable_complete (alt r t) (inr h) = ground (arith, nullable_complete t h)
nullable_complete (run p) h = refl
nullable_complete (upto n p) h = refl

-- A class that the first character passes or not, at a repetition.
RunAfter : (p : ℕ → Bool) (c : ℕ) (w : List ℕ) (r : Regex) → Type 0
RunAfter p c w r = Denotes (if p c then r else nothing) w ↔ ((p c ≡ true) × Denotes r w)

run_after_lem : (p : ℕ → Bool) (c : ℕ) (w : List ℕ) (r : Regex) → RunAfter p c w r
unfolding RunAfter
run_after_lem p c w r = elim (Bool-cases (p c)) [
  | inl e ↦ rw e (λ h. (refl, h), λ h. h.1)
  | inr e ↦ rw e (λ h. absurd h, λ h. cc)
]

deriv_sound : (c : ℕ) (r : Regex) (w : List ℕ) → Denotes (deriv c r) w → Denotes r (c ∷ w)
unfolding deriv RunAfter
deriv_sound c nothing w h = h
deriv_sound c blank w h = absurd h
deriv_sound c (cls p) w h =
    let (e, b) = (run_after_lem p c w blank).0 h in (c, ap (λ v. c ∷ v) b, e)
deriv_sound c (seq r t) w h = elim (Bool-cases (nullable r)) [
  | inl e ↦
      let k : Denotes (alt (seq (deriv c r) t) (deriv c t)) w = rw e at h in
      elim k [
        | inl (x, y, q, hx, hy) ↦ (c ∷ x, y, ap (λ v. c ∷ v) q, deriv_sound c r x hx, hy)
        | inr hy ↦ ([], c ∷ w, refl, nullable_sound r e, deriv_sound c t w hy)
      ]
  | inr e ↦
      let k : Denotes (seq (deriv c r) t) w = rw e at h in
      (c ∷ k.0, k.1, ap (λ v. c ∷ v) k.2, deriv_sound c r k.0 k.3, k.4)
]
deriv_sound c (alt r t) w (inl h) = inl (deriv_sound c r w h)
deriv_sound c (alt r t) w (inr h) = inr (deriv_sound c t w h)
deriv_sound c (run p) w h = (run_after_lem p c w (run p)).0 h
deriv_sound c (upto zero p) w h = absurd h
deriv_sound c (upto (suc n) p) w h =
    let (e, k) = (run_after_lem p c w (upto n p)).0 h in ((e, k.0), omega arith)

-- A word that two parts make begins in the first, or the first is empty.
split_cons :
    (c : ℕ) (w x y : List ℕ)
    → c ∷ w ≡ x ++ y
    → ((x ≡ []) × (y ≡ c ∷ w)) ⊎ ((v : List ℕ) × (x ≡ c ∷ v) × (w ≡ v ++ y))
split_cons c w [] y e = inl (refl, sym e)
split_cons c w (a ∷ x) y e = inr (x, cc, cc)

deriv_complete : (c : ℕ) (r : Regex) (w : List ℕ) → Denotes r (c ∷ w) → Denotes (deriv c r) w
unfolding deriv RunAfter
deriv_complete c nothing w h = h
deriv_complete c blank w h = cc
deriv_complete c (cls p) w (a, e, b) = (run_after_lem p c w blank).1 (cc, cc)
deriv_complete c (seq r t) w (x, y, e, hx, hy) = elim (split_cons c w x y e) [
  | inl (ex, ey) ↦
      let rest : Denotes (deriv c t) w = deriv_complete c t w (rw ey at hy) in
      rw (nullable_complete r (rw ex at hx)) (inr rest)
  | inr (v, ex, ew) ↦
      let part : Denotes (seq (deriv c r) t) w =
        (v, y, ew, deriv_complete c r v (rw ex at hx), hy) in
      elim (Bool-cases (nullable r)) [ inl n ↦ rw n (inl part) | inr n ↦ rw n part ]
]
deriv_complete c (alt r t) w (inl h) = inl (deriv_complete c r w h)
deriv_complete c (alt r t) w (inr h) = inr (deriv_complete c t w h)
deriv_complete c (run p) w h = (run_after_lem p c w (run p)).1 h
deriv_complete c (upto zero p) w h = omega arith
deriv_complete c (upto (suc n) p) w ((b, h), k) =
    (run_after_lem p c w (upto n p)).1 (b, (h, omega arith))

matches_codes_iff : (r : Regex) (w : List ℕ) → (matches_codes r w ≡ true) ↔ Denotes r w
unfolding matches_codes
matches_codes_iff r [] = (nullable_sound r, nullable_complete r)
matches_codes_iff r (c ∷ w) =
    let (to, from) = matches_codes_iff (deriv c r) w in
    (λ h. deriv_sound c r w (to h), λ h. from (deriv_complete c r w h))

-- `MatchString` answers true exactly on the texts that the pattern denotes.
pub matches_iff : (r : Regex) (s : String) → (matches r s ≡ true) ↔ Denotes r (codes s)
unfolding matches
matches_iff r s = matches_codes_iff r (codes s)

-- A literal denotes itself.
lit_codes_iff : (v w : List ℕ) → Denotes (lit_codes v) w ↔ (w ≡ v)
unfolding lit_codes
lit_codes_iff [] w = (λ h. h, λ h. h)
lit_codes_iff (c ∷ v) w = (
  λ (x, y, e, (d, ex, b), k).
      let eq : c ≡ d = (nat_eq_iff c d).0 b in
      let rest : y ≡ v = (lit_codes_iff v y).0 k in e ∙ ap (λ z. z ++ y) ex ∙ cc (eq, rest),
  λ h. (c ∷ [], v, h, (c, refl, (nat_eq_iff c c).1 refl), (lit_codes_iff v v).1 refl),
)

pub lit_iff : (s : String) (w : List ℕ) → Denotes (lit s) w ↔ (w ≡ codes s)
unfolding lit
lit_iff s w = lit_codes_iff (codes s) w

-- One or more characters of a class.
pub plus_iff :
    (p : ℕ → Bool) (w : List ℕ) → Denotes (plus p) w ↔ ((w ≢ []) × All (λ c. p c ≡ true) w)
plus_iff p [] = (λ (x, y, e, (c, ex, b), k). absurd (no_head x y c e ex), λ h. absurd (h.0 refl))
  where
    no_head : (x y : List ℕ) (c : ℕ) → [] ≡ x ++ y → x ≡ c ∷ [] → ⊥
    no_head [] y c e ex = cc
    no_head (a ∷ x) y c e ex = cc
plus_iff p (a ∷ w) = (
  λ (x, y, e, (c, ex, b), k).
      let whole : a ∷ w ≡ c ∷ y = e ∙ ap (λ z. z ++ y) ex in
      (λ n. cc, (rw (ap (λ z. get_or_zero z) whole) b, rw (ap tail whole) k)),
  λ h. (a ∷ [], w, refl, (a, refl, h.1.0), h.1.1),
)
  where
    get_or_zero : List ℕ → ℕ
    get_or_zero [] = 0
    get_or_zero (z ∷ zs) = z

    tail : List ℕ → List ℕ
    tail [] = []
    tail (z ∷ zs) = zs

-- A text that begins with one character of a class, and what follows it.
pub cls_first :
    (p : ℕ → Bool) (r : Regex) (w : List ℕ)
    → Denotes (seq (cls p) r) w
    → (c : ℕ) × (v : List ℕ) × (w ≡ c ∷ v) × (p c ≡ true) × Denotes r v
cls_first p r w (x, y, e, (c, ex, b), k) = (c, y, e ∙ ap (λ z. z ++ y) ex, b, k)

-- A text that begins with a literal, and what follows it.
pub lit_first :
    (s : String) (r : Regex) (w : List ℕ)
    → Denotes (seq (lit s) r) w
    → (v : List ℕ) × (w ≡ codes s ++ v) × Denotes r v
lit_first s r w (x, y, e, hx, hy) = (y, e ∙ ap (λ z. z ++ y) ((lit_iff s x).0 hx), hy)
