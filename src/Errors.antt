-- ===== src/Errors.antt =====
-- Go's `error` values and the pair `(T, error)` as a sum. An error is a tree of `fmt.Errorf("...: %w")`
-- wrappings over sentinels, typed errors and plain messages, so that `errors.Is` (which walks the
-- wrappings) and a type assertion or `==` (which see the outermost value only) differ as in Go.
pub mod Steps
use complytime_core.Prelude.{◌≡◌, Bool, true, false, String, concat, refl, ◌⊎◌, inl, inr}

pub data Error : Type 0 where
  -- `errors.New` and `fmt.Errorf` with no `%w`.
  plain : String → Error
  -- `fmt.Errorf("context: %w", err)`.
  wrapped : String → Error → Error
  -- Sentinels: jetstream.ErrKeyNotFound, jetstream.ErrKeyExists, locker.ErrLedgerExists,
  -- locker.ErrIndexOutOfRange, context.Canceled, context.DeadlineExceeded.
  key_not_found key_exists ledger_exists index_out_of_range canceled deadline_exceeded : Error
  -- *json.SyntaxError and *json.UnmarshalTypeError.
  json_syntax json_unmarshal_type : Error
  -- *locker.LedgerNotFoundError, with its subject ID.
  ledger_not_found : String → Error

-- `err.Error()`.
pub error_text : Error → String
error_text (plain s) = s
error_text (wrapped s e) = concat s (concat ": " (error_text e))
error_text key_not_found = "nats: key not found"
error_text key_exists = "nats: key exists"
error_text ledger_exists = "ledger already exists"
error_text index_out_of_range = "index out of range"
error_text canceled = "context canceled"
error_text deadline_exceeded = "context deadline exceeded"
error_text json_syntax = "invalid JSON"
error_text json_unmarshal_type = "json: cannot unmarshal"
error_text (ledger_not_found subject_id) = concat "ledger not found for subject: " subject_id

-- `errors.Is(err, jetstream.ErrKeyNotFound)`.
abbrev pub is_key_not_found : Error → Bool
is_key_not_found key_not_found = true
is_key_not_found (wrapped _ e) = is_key_not_found e
is_key_not_found _ = false

-- `errors.Is(err, jetstream.ErrKeyExists)`.
abbrev pub is_key_exists : Error → Bool
is_key_exists key_exists = true
is_key_exists (wrapped _ e) = is_key_exists e
is_key_exists _ = false

-- `errors.Is(err, ErrIndexOutOfRange)`.
abbrev pub is_index_out_of_range : Error → Bool
is_index_out_of_range index_out_of_range = true
is_index_out_of_range (wrapped _ e) = is_index_out_of_range e
is_index_out_of_range _ = false

-- `(T, error)`: an error, or the value.
pub data Result {ℓ} (A : Type ℓ) : Type ℓ where
  err : Error → Result A
  ok : A → Result A

-- `if !cond { return err }`.
abbrev pub guard : Bool → Error → Result (Unit {0})
guard false failure = err failure
guard true failure = ok tt

-- One step after another, and a step after one that only can fail.
infixl 5 ◌>>=◌ ◌>>◌
abbrev pub ◌>>=◌ {ℓ κ} : {A : Type ℓ} {B : Type κ} → Result A → (A → Result B) → Result B
err failure >>= next = err failure
ok value >>= next = next value

abbrev pub ◌>>◌ {κ} : {B : Type κ} → Result (Unit {0}) → Result B → Result B
checked >> later = checked >>= λ done. later

-- `if err != nil { return fmt.Errorf("context: %w", err) }`.
abbrev pub context {ℓ} : {A : Type ℓ} → String → Result A → Result A
context s (ok a) = ok a
context s (err e) = err (wrapped s e)

pub Result-cases {ℓ} :
    {A : Type ℓ} (r : Result A) → ((a : A) × (r ≡ ok a)) ⊎ ((e : Error) × (r ≡ err e))
Result-cases (ok a) = inl (a, refl)
Result-cases (err e) = inr (e, refl)

-- A chain that succeeds: the first step's value, and the rest on it.
pub >>=-eq-ok {κ ℓ} :
    {B : Type κ} {A : Type ℓ} {result : B} (first : Result A) (next : A → Result B)
    → (first >>= next) ≡ ok result
    → (value : A) × (first ≡ ok value) × (next value ≡ ok result)
>>=-eq-ok (err failure) next done = cc
>>=-eq-ok (ok value) next done = (value, refl, done)

pub context-eq-ok {ℓ} :
    {A : Type ℓ} (s : String) (r : Result A) {a : A} → context s r ≡ ok a → r ≡ ok a
context-eq-ok s (ok a) h = h
context-eq-ok s (err e) h = cc

-- The parts of a pair that is returned.
pub ok-parts {ℓ κ} :
    {A : Type ℓ} {B : Type κ} (v w : A × B) → Result.ok v ≡ ok w → (v.0 ≡ w.0) × (v.1 ≡ w.1)
ok-parts v w h = let same : v ≡ w = cc in (rw same refl, rw same refl)
