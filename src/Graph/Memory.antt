-- ===== src/Graph/Memory.antt =====
-- A graph in memory that meets what the writer relies on: each query is done, and its rows are sorted.
use complytime_core.Prelude.{
  ℕ, ◌≤◌, ◌≡◌, refl, ◌⊎◌, inl, inr, List, [], ◌∷◌, arith, Memᴰ, Sorted, All, Bool-cases, leb, ltb,
  if◌then◌else◌,
}
use mathlib.Core.List.Memᴰ
use complytime_core.Errors.{Error, ok, err}
use complytime_core.Graph.Store.{LocalDateTime, local_date_time_of, Graph}
use complytime_core.Graph.Writer.{Query, IsAnswer, limited, Driver}

-- Insertion sort by a key.
unfoldable pub insert_by : {A : Type 0} → (A → ℕ) → A → List A → List A
insert_by key a [] = a ∷ []
insert_by key a (b ∷ l) =
    let later = insert_by key a l in if leb (key a) (key b) then a ∷ b ∷ l else b ∷ later

unfoldable pub sort_by : {A : Type 0} → (A → ℕ) → List A → List A
unfolding insert_by
sort_by key [] = []
sort_by key (a ∷ l) = insert_by key a (sort_by key l)

All-up :
    {A : Type 0} (key : A → ℕ) (l : List A) (m n : ℕ)
    → m ≤ n
    → All (λ c. n ≤ key c) l
    → All (λ c. m ≤ key c) l
All-up key [] m n h a = tt
All-up key (b ∷ l) m n h a = (omega (arith, h, a.0), All-up key l m n h a.1)

All-insert_by :
    {A : Type 0} (key : A → ℕ) (a : A) (l : List A) (m : ℕ)
    → m ≤ key a
    → All (λ c. m ≤ key c) l
    → All (λ c. m ≤ key c) (insert_by key a l)
unfolding insert_by
All-insert_by key a [] m h all = (h, tt)
All-insert_by key a (b ∷ l) m h all = elim (Bool-cases (leb (key a) (key b))) [
  | inl e ↦ rw e (h, all)
  | inr e ↦ rw e (all.0, All-insert_by key a l m h all.1)
]

Sorted-insert_by :
    {A : Type 0} (key : A → ℕ) (a : A) (l : List A) → Sorted key l → Sorted key (insert_by key a l)
unfolding insert_by
Sorted-insert_by key a [] s = (tt, tt)
Sorted-insert_by key a (b ∷ l) s = elim (Bool-cases (leb (key a) (key b))) [
  | inl e ↦
      let up : key a ≤ key b = ground arith in rw e ((up, All-up key l (key a) (key b) up s.0), s)
  | inr e ↦ rw e (All-insert_by key a l (key b) (ground arith) s.0, Sorted-insert_by key a l s.1)
]

Sorted-sort_by : {A : Type 0} (key : A → ℕ) (l : List A) → Sorted key (sort_by key l)
unfolding sort_by
Sorted-sort_by key [] = tt
Sorted-sort_by key (a ∷ l) = Sorted-insert_by key a (sort_by key l) (Sorted-sort_by key l)

from_insert_by :
    {A : Type 0} (key : A → ℕ) (a x : A) (l : List A)
    → Memᴰ x (insert_by key a l)
    → (x ≡ a) ⊎ Memᴰ x l
unfolding insert_by
from_insert_by key a x [] m = Memᴰ.cases_cons m
from_insert_by key a x (b ∷ l) m = elim (Bool-cases (leb (key a) (key b))) [
  | inl e ↦ Memᴰ.cases_cons (rw e at m)
  | inr e ↦ elim (Memᴰ.cases_cons (rw e at m)) [
    | inl s ↦ inr (Memᴰ.head s)
    | inr r ↦ elim (from_insert_by key a x l r) [ inl s ↦ inl s | inr t ↦ inr (Memᴰ.tail t) ]
  ]
]

to_insert_by :
    {A : Type 0} (key : A → ℕ) (a x : A) (l : List A)
    → (x ≡ a) ⊎ Memᴰ x l
    → Memᴰ x (insert_by key a l)
unfolding insert_by
to_insert_by key a x [] (inl s) = Memᴰ.head s
to_insert_by key a x [] (inr m) = absurd (Memᴰ.not-nil m)
to_insert_by key a x (b ∷ l) (inl s) = elim (Bool-cases (leb (key a) (key b))) [
  | inl e ↦ rw e (Memᴰ.head s)
  | inr e ↦ rw e (Memᴰ.tail (to_insert_by key a x l (inl s)))
]
to_insert_by key a x (b ∷ l) (inr m) = elim (Bool-cases (leb (key a) (key b))) [
  | inl e ↦ rw e (Memᴰ.tail m)
  | inr e ↦ elim (Memᴰ.cases_cons m) [
    | inl s ↦ rw e (Memᴰ.head s)
    | inr r ↦ rw e (Memᴰ.tail (to_insert_by key a x l (inr r)))
  ]
]

from_sort_by : {A : Type 0} (key : A → ℕ) (x : A) (l : List A) → Memᴰ x (sort_by key l) → Memᴰ x l
unfolding sort_by
from_sort_by key x [] m = m
from_sort_by key x (a ∷ l) m = elim (from_insert_by key a x (sort_by key l) m) [
  | inl s ↦ Memᴰ.head s
  | inr r ↦ Memᴰ.tail (from_sort_by key x l r)
]

to_sort_by : {A : Type 0} (key : A → ℕ) (x : A) (l : List A) → Memᴰ x l → Memᴰ x (sort_by key l)
unfolding sort_by
to_sort_by key x [] m = m
to_sort_by key x (a ∷ l) m =
    to_insert_by key a x (sort_by key l)
      (elim (Memᴰ.cases_cons m) [ inl s ↦ inl s | inr r ↦ inr (to_sort_by key x l r) ])

abbrev pub read_rows : {A : Type 0} → Query A → Graph → List A
read_rows q g = limited q.limit (sort_by q.order (q.rows g))

pub read_rows-IsAnswer :
    {A : Type 0} (q : Query A) (g : Graph) (answer : List A)
    → ok (read_rows q g) ≡ ok answer
    → IsAnswer q g answer
read_rows-IsAnswer q g answer h = record {
  all = sort_by q.order (q.rows g);
  members = λ a. (from_sort_by q.order a (q.rows g), to_sort_by q.order a (q.rows g));
  sorted = Sorted-sort_by q.order (q.rows g);
  cut = cc h;
}

pub never : {A : Type 0} (a : A) (e : Error) → ok a ≡ err e → ⊥
never a e h = cc h

abbrev instant_of : LocalDateTime → ℕ
instant_of (local_date_time_of t) = t.instant

-- Its times are all read in one location.
abbrev pub memory : Driver
memory = record {
  State = Graph;
  view = λ g. g;
  run = λ q g. (q g, ok tt);
  run_ok = λ q g h. refl;
  run_err = λ q g e h. absurd (never tt e h);
  read = λ q g. ok (read_rows q g);
  read_ok = λ q g answer h. read_rows-IsAnswer q g answer h;
  at_or_after = λ stored t. leb t.instant (instant_of stored);
  earlier = λ stored t. ltb (instant_of stored) t.instant;
}
