-- ===== src/Errors/Steps.antt =====
-- Operations that change a state and may fail: the state after them, and the value or the error. A
-- failure ends the operation and keeps what was done before it.
use complytime_core.Prelude.{◌≡◌, refl, String}
use complytime_core.Errors.{Error, wrapped, Result, ok, err, context, context-eq-ok}

abbrev pub Step {ℓ} : Type ℓ → Type 0 → Type ℓ
Step S A = S → S × Result A

abbrev pub and_then {ℓ} :
    {S : Type ℓ} {A : Type 0} {B : Type 0} → (A → Step S B) → S × Result A → S × Result B
and_then next (s, ok a) = next a s
and_then next (s, err e) = (s, err e)

infixl 5 ◌>>=◌ ◌>>◌
unfoldable pub ◌>>=◌ {ℓ} :
    {S : Type ℓ} {A : Type 0} {B : Type 0} → Step S A → (A → Step S B) → Step S B
(first >>= next) s = and_then next (first s)

unfoldable pub ◌>>◌ {ℓ} : {S : Type ℓ} {B : Type 0} → Step S (Unit {0}) → Step S B → Step S B
(first >> later) s = and_then (λ done. later) (first s)

unfoldable pub return {ℓ} : {S : Type ℓ} {A : Type 0} → A → Step S A
return a s = (s, ok a)

-- A result that changes nothing.
unfoldable pub lift {ℓ} : {S : Type ℓ} {A : Type 0} → Result A → Step S A
lift r s = (s, r)

-- `if err != nil { return fmt.Errorf("context: %w", err) }`.
unfoldable pub within {ℓ} : {S : Type ℓ} {A : Type 0} → String → Step S A → Step S A
within message m s = ((m s).0, context message (m s).1)

-- A relation between the states before and after, whether the operation fails or not.
pub record Keeps {ℓ} {S : Type ℓ} {A : Type 0} (R : S → S → Type 0) (m : Step S A) : Type ℓ where
  pub at : (s : S) → R s (m s).0

and_then-Keeps {ℓ} :
    {S : Type ℓ} {A : Type 0} {B : Type 0} (R : S → S → Type 0)
    → ((s t u : S) → R s t → R t u → R s u)
    → (next : A → Step S B) → ((a : A) → Keeps R (next a))
    → (s : S) (done : S × Result A) → R s done.0
    → R s (and_then next done).0
and_then-Keeps R trans next q s (t, ok a) r = trans s t (next a t).0 r ((q a).at t)
and_then-Keeps R trans next q s (t, err e) r = r

module _ {ℓ} {S : Type ℓ} {R : S → S → Type 0} (trans : (s t u : S) → R s t → R t u → R s u) where
  pub >>=-Keeps :
      {A : Type 0} {B : Type 0} {first : Step S A} {next : A → Step S B}
      → Keeps R first
      → ((a : A) → Keeps R (next a))
      → Keeps R (first >>= next)
  unfolding ◌>>=◌
  >>=-Keeps {first = first} {next = next} p q = record {
    at = λ s. and_then-Keeps R trans next q s (first s) (p.at s);
  }

  pub >>-Keeps :
      {B : Type 0} {first : Step S (Unit {0})} {later : Step S B}
      → Keeps R first
      → Keeps R later
      → Keeps R (first >> later)
  unfolding ◌>>◌
  >>-Keeps {first = first} {later = later} p q = record {
    at = λ s. and_then-Keeps R trans (λ done. later) (λ done. q) s (first s) (p.at s);
  }

  -- A result that is used, if it is there.
  pub given-Keeps :
      {A : Type 0} {B : Type 0} (message : String) (r : Result A) {next : A → Step S B}
      → ((s : S) → R s s)
      → ((a : A) → r ≡ ok a → Keeps R (next a))
      → Keeps R (within message (lift r) >>= next)
  unfolding ◌>>=◌ within lift
  given-Keeps message (err e) same q = record { at = same }
  given-Keeps message (ok a) same q = q a refl

module _ {ℓ} {S : Type ℓ} {R : S → S → Type 0} where
  pub within-Keeps :
      {A : Type 0} {m : Step S A} (message : String) → Keeps R m → Keeps R (within message m)
  unfolding within
  within-Keeps message p = record { at = p.at }

  pub lift-Keeps : {A : Type 0} (r : Result A) → ((s : S) → R s s) → Keeps R (lift r)
  unfolding lift
  lift-Keeps r same = record { at = same }

  pub return-Keeps : {A : Type 0} (a : A) → ((s : S) → R s s) → Keeps R (return a)
  unfolding return
  return-Keeps a same = record { at = same }

and_then-succeeds {ℓ} :
    {S : Type ℓ} {A : Type 0} {B : Type 0} (next : A → Step S B) (done : S × Result A) (b : B)
    → (and_then next done).1 ≡ ok b
    → (a : A) × (done.1 ≡ ok a) × (and_then next done ≡ next a done.0)
and_then-succeeds next (t, ok a) b h = (a, refl, refl)
and_then-succeeds next (t, err e) b h = cc h

-- A chain that succeeds: the first step's value, and the rest on it.
pub >>=-succeeds {ℓ} :
    {S : Type ℓ} {A : Type 0} {B : Type 0} (first : Step S A) (next : A → Step S B) (s : S) (b : B)
    → ((first >>= next) s).1 ≡ ok b
    → (a : A) × ((first s).1 ≡ ok a) × ((first >>= next) s ≡ next a (first s).0)
unfolding ◌>>=◌
>>=-succeeds first next s b h = and_then-succeeds next (first s) b h

pub >>-succeeds {ℓ} :
    {S : Type ℓ} {B : Type 0} (first : Step S (Unit {0})) (later : Step S B) (s : S) (b : B)
    → ((first >> later) s).1 ≡ ok b
    → ((first s).1 ≡ ok tt) × ((first >> later) s ≡ later (first s).0)
unfolding ◌>>◌
>>-succeeds first later s b h =
    let (u, p, q) = and_then-succeeds (λ done. later) (first s) b h in (p, q)

-- All errors of the operation are of a sort.
pub record Fails {ℓ} {S : Type ℓ} {A : Type 0} (P : Error → Type 0) (m : Step S A) : Type ℓ where
  pub at : (s : S) (e : Error) → (m s).1 ≡ err e → P e

and_then-Fails {ℓ} :
    {S : Type ℓ} {A : Type 0} {B : Type 0} (P : Error → Type 0) (next : A → Step S B)
    → ((a : A) → Fails P (next a))
    → (done : S × Result A) → ((e : Error) → done.1 ≡ err e → P e)
    → (e : Error) → (and_then next done).1 ≡ err e
    → P e
and_then-Fails P next q (t, ok a) p e h = (q a).at t e h
and_then-Fails P next q (t, err e') p e h = p e (cc h)

module _ {ℓ} {S : Type ℓ} {P : Error → Type 0} where
  pub >>=-Fails :
      {A : Type 0} {B : Type 0} {first : Step S A} {next : A → Step S B}
      → Fails P first
      → ((a : A) → Fails P (next a))
      → Fails P (first >>= next)
  unfolding ◌>>=◌
  >>=-Fails {first = first} {next = next} p q = record {
    at = λ s. and_then-Fails P next q (first s) (p.at s);
  }

  pub >>-Fails :
      {B : Type 0} {first : Step S (Unit {0})} {later : Step S B}
      → Fails P first
      → Fails P later
      → Fails P (first >> later)
  unfolding ◌>>◌
  >>-Fails {first = first} {later = later} p q = record {
    at = λ s. and_then-Fails P (λ done. later) (λ done. q) (first s) (p.at s);
  }

  pub return-Fails : {A : Type 0} (a : A) → Fails {S = S} P (return a)
  unfolding return
  return-Fails a = record { at = λ s e h. cc h }

-- A wrapped error has its message in front.
pub context-Fails {ℓ} :
    {A : Type ℓ} (message : String) (r : Result A) (e : Error)
    → context message r ≡ err e
    → (inner : Error) × (wrapped message inner ≡ e)
context-Fails message (ok a) e h = cc h
context-Fails message (err inner) e h = (inner, cc h)

pub within-Fails {ℓ} :
    {S : Type ℓ} {A : Type 0} (message : String) (m : Step S A)
    → Fails (λ e. (inner : Error) × (wrapped message inner ≡ e)) (within message m)
unfolding within
within-Fails message m = record { at = λ s. context-Fails message (m s).1 }

pub within-succeeds {ℓ} :
    {S : Type ℓ} {A : Type 0} (message : String) (m : Step S A) (s : S) (a : A)
    → (within message m s).1 ≡ ok a
    → (m s).1 ≡ ok a
unfolding within
within-succeeds message m s a h = context-eq-ok message (m s).1 h

-- From a state with one property a success leads to a state with another.
pub record Leads {ℓ} {S : Type ℓ} (P Q : S → Type 0) (m : Step S (Unit {0})) : Type ℓ where
  pub at : (s : S) → P s → (m s).1 ≡ ok tt → Q (m s).0

and_then-Leads {ℓ} :
    {S : Type ℓ} {A : Type 0} (Q : S → Type 0) (next : A → Step S (Unit {0})) (done : S × Result A)
    → ((a : A) → done.1 ≡ ok a → (next a done.0).1 ≡ ok tt → Q (next a done.0).0)
    → (and_then next done).1 ≡ ok tt
    → Q (and_then next done).0
and_then-Leads Q next (t, ok a) q h = q a refl h
and_then-Leads Q next (t, err e) q h = cc h

module _ {ℓ} {S : Type ℓ} {P Q : S → Type 0} where
  pub >>-Leads :
      {M : S → Type 0} {first later : Step S (Unit {0})}
      → Leads P M first
      → Leads M Q later
      → Leads P Q (first >> later)
  unfolding ◌>>◌
  >>-Leads {first = first} {later = later} p q = record {
    at = λ s h. and_then-Leads Q (λ u. later) (first s) (λ u e. q.at (first s).0 (p.at s h e));
  }

  pub within-Leads :
      {m : Step S (Unit {0})} (message : String) → Leads P Q m → Leads P Q (within message m)
  unfolding within
  within-Leads {m = m} message p = record {
    at = λ s h e. p.at s h (context-eq-ok message (m s).1 e);
  }

  pub given-Leads :
      {A : Type 0} (message : String) (r : Result A) {next : A → Step S (Unit {0})}
      → ((a : A) → r ≡ ok a → Leads P Q (next a))
      → Leads P Q (within message (lift r) >>= next)
  unfolding ◌>>=◌ within lift
  given-Leads message (err e) q = record { at = λ s h f. cc f }
  given-Leads message (ok a) q = q a refl
