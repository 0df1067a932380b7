-- ===== src/Prelude/Parts.antt =====
-- Parts of lists: the elements that pass a test, and the start of a list that is sorted by a key.
use Prim.Native.Nat.{ℕ, zero, suc, ◌≤◌, ◌<◌}
use mathlib.Core.Path.{◌≡◌, refl, ap, subst, sym, ◌∙◌}
use mathlib.Core.Logic.{◌⊎◌, inl, inr}
use mathlib.Core.Bool.{Bool, true}
use mathlib.Core.List.Memᴰ
use mathlib.Core.List.{List, [], ◌∷◌, Memᴰ}
use mathlib.Core.Option.{some}
use native.Mathlib.Omega.{arith}
use complytime_core.Prelude.Tests.{if◌then◌else◌, Bool-cases}
use complytime_core.Prelude.Lists.{All, length, take, get_elem?}

-- The elements that pass.
unfoldable pub keep {ℓ} : {A : Type ℓ} → (A → Bool) → List A → List A
keep p [] = []
keep p (a ∷ l) = let rest = keep p l in if p a then a ∷ rest else rest

module _ {ℓ} {A : Type ℓ} where
  pub keep-passes :
      (p : A → Bool) (l : List A) (x : A) → Memᴰ x (keep p l) → Memᴰ x l × (p x ≡ true)
  unfolding keep
  keep-passes p [] x m = absurd (Memᴰ.not-nil m)
  keep-passes p (a ∷ l) x m = elim (Bool-cases (p a)) [
    | inl e ↦ elim (Memᴰ.cases_cons (rw e at m)) [
      | inl s ↦ (Memᴰ.head s, ap p s ∙ e)
      | inr r ↦ let (n, q) = keep-passes p l x r in (Memᴰ.tail n, q)
    ]
    | inr e ↦ let (n, q) = keep-passes p l x (rw e at m) in (Memᴰ.tail n, q)
  ]

  pub passes-keep : (p : A → Bool) (l : List A) (x : A) → Memᴰ x l → p x ≡ true → Memᴰ x (keep p l)
  unfolding keep
  passes-keep p [] x m h = absurd (Memᴰ.not-nil m)
  passes-keep p (a ∷ l) x m h = elim (Bool-cases (p a)) [
    | inl e ↦ elim (Memᴰ.cases_cons m) [
      | inl s ↦ rw e (Memᴰ.head s)
      | inr r ↦ rw e (Memᴰ.tail (passes-keep p l x r h))
    ]
    | inr e ↦ elim (Memᴰ.cases_cons m) [
      | inl s ↦ absurd (ground (arith, e, h, ap p s))
      | inr r ↦ rw e (passes-keep p l x r h)
    ]
  ]

  pub Memᴰ-take : (n : ℕ) (l : List A) (x : A) → Memᴰ x (take n l) → Memᴰ x l
  Memᴰ-take zero l x m = absurd (Memᴰ.not-nil m)
  Memᴰ-take (suc n) [] x m = absurd (Memᴰ.not-nil m)
  Memᴰ-take (suc n) (a ∷ l) x m = elim (Memᴰ.cases_cons m) [
    | inl s ↦ Memᴰ.head s
    | inr r ↦ Memᴰ.tail (Memᴰ-take n l x r)
  ]

  -- A start that is shorter than allowed is the whole list.
  pub take-whole : (n : ℕ) (l : List A) → length (take n l) < n → take n l ≡ l
  take-whole zero l h = absurd (omega arith)
  take-whole (suc n) [] h = refl
  take-whole (suc n) (a ∷ l) h = ap (λ k. a ∷ k) (take-whole n l (omega (arith, h)))

  pub take-take : (n : ℕ) (l : List A) → take n (take (suc n) l) ≡ take n l
  take-take zero l = refl
  take-take (suc n) [] = refl
  take-take (suc n) (a ∷ l) = ap (λ k. a ∷ k) (take-take n l)

  -- The last element of a full start.
  pub take-last :
      (n : ℕ) (l : List A)
      → n < length (take (suc (suc n)) l)
      → (last : A) × (get_elem? (take (suc (suc n)) l) n ≡ some last) × (get_elem? l n ≡ some last)
  take-last n [] h = absurd (omega (arith, h))
  take-last zero (a ∷ l) h = (a, refl, refl)
  take-last (suc n) (a ∷ l) h = take-last n l (omega (arith, h))

  pub get_elem?-Memᴰ :
      (l : List A) (n : ℕ) (a : A) → get_elem? l n ≡ some a → Memᴰ a (take (suc n) l)
  get_elem?-Memᴰ [] n a h = cc h
  get_elem?-Memᴰ (b ∷ l) zero a h = Memᴰ.head (cc h)
  get_elem?-Memᴰ (b ∷ l) (suc n) a h = Memᴰ.tail (get_elem?-Memᴰ l n a h)

  pub All-Memᴰ {κ} : (P : A → Type κ) (l : List A) (x : A) → All P l → Memᴰ x l → P x
  All-Memᴰ P [] x h m = absurd (Memᴰ.not-nil m)
  All-Memᴰ P (a ∷ l) x h m = elim (Memᴰ.cases_cons m) [
    | inl s ↦ subst P (sym s) h.0
    | inr r ↦ All-Memᴰ P l x h.1 r
  ]

-- The keys do not decrease.
abbrev pub Sorted : {A : Type 0} → (A → ℕ) → List A → Type 0
Sorted key [] = Unit
Sorted key (a ∷ l) = All (λ b. key a ≤ key b) l × Sorted key l

-- In a sorted list an element is in the start up to another, or not before that.
pub Sorted-split :
    {A : Type 0} (key : A → ℕ) (l : List A) (n : ℕ) (last x : A)
    → Sorted key l
    → get_elem? l n ≡ some last
    → Memᴰ x l
    → Memᴰ x (take (suc n) l) ⊎ (key last ≤ key x)
Sorted-split key [] n last x s h m = absurd (Memᴰ.not-nil m)
Sorted-split key (a ∷ l) zero last x s h m = elim (Memᴰ.cases_cons m) [
  | inl e ↦ inl (Memᴰ.head e)
  | inr r ↦
      let same : a ≡ last = cc h in
      inr (subst (λ k. key k ≤ key x) same (All-Memᴰ (λ b. key a ≤ key b) l x s.0 r))
]
Sorted-split key (a ∷ l) (suc n) last x s h m = elim (Memᴰ.cases_cons m) [
  | inl e ↦ inl (Memᴰ.head e)
  | inr r ↦ elim (Sorted-split key l n last x s.1 h r) [ inl k ↦ inl (Memᴰ.tail k) | inr k ↦ inr k ]
]
