-- ===== src/Locker.antt =====
-- internal/locker/locker.go: the ledgers, one per subject.
pub mod Log
pub mod Ledgers
pub mod Worker
pub mod Admin
pub mod Requests
pub mod Handler
pub mod Sound
use complytime_core.Prelude.{
  ℕ, Bool, true, false, String, List, [], ◌∷◌, Option, none, some, concat, lookup, insert, map,
}
use complytime_core.Errors.{
  Error, plain, wrapped, ledger_exists, Result, ok, err, ◌>>=◌, ◌>>◌, context,
}
use complytime_core.Subjects.{validate_subject_id}
use complytime_core.Locker.Log.{Tessera}
use complytime_core.Locker.Ledgers.{Ledger, Startup, new_ledger}

-- The base path stands in the `Startup`, which the ledgers are opened with.
pub record Locker (t : Tessera) : Type 0 where
  pub ledgers : List (String × Ledger t)

module _ {t : Tessera} where
  unfoldable pub new_locker : Result (Unit {0}) → Result (Locker t)
  new_locker made = do context "creating base path" made; ok (record { ledgers = [] })

  -- GetLedger.
  unfoldable pub get_ledger : Locker t → String → Option (Ledger t)
  get_ledger lk subject_id = lookup subject_id lk.ledgers

  -- CreateLedger: the locker after it, and the ledger. In the error `%w: %s` the subject stands before
  -- the sentinel here.
  unfoldable pub create_ledger : Startup t → Locker t → String → Locker t × Result (Ledger t)
  unfolding new_ledger
  create_ledger start lk subject_id = elim (validate_subject_id subject_id) [
    | err e ↦ (lk, err e)
    | ok u ↦ elim (lookup subject_id lk.ledgers) [
      | some existing ↦ (lk, err (wrapped (concat "ledger exists: " subject_id) ledger_exists))
      | none ↦ elim (new_ledger start subject_id) [
        | err e ↦ (lk, err e)
        | ok ledger ↦ (record { ledgers = insert subject_id ledger lk.ledgers }, ok ledger)
      ]
    ]
  ]

  -- The loop of OpenExistingLedgers over the directory's entries, a name with the answer of IsDir.
  unfoldable pub open_each : Startup t → Locker t → List (String × Bool) → Locker t
  unfolding new_ledger
  open_each start lk [] = lk
  open_each start lk ((name, false) ∷ rest) = open_each start lk rest
  open_each start lk ((subject_id, true) ∷ rest) =
      let next : Locker t = elim (lookup subject_id lk.ledgers) as (λ _. Locker t) [
        | some existing ↦ lk
        | none ↦ elim (new_ledger start subject_id) as (λ _. Locker t) [
          | err e ↦ lk
          | ok ledger ↦ record { ledgers = insert subject_id ledger lk.ledgers }
        ]
      ] in
      open_each start next rest

  -- OpenExistingLedgers, on what ReadDir gives.
  unfoldable pub open_existing_ledgers :
      Startup t → Locker t → Result (List (String × Bool)) → Result (Locker t)
  unfolding open_each
  open_existing_ledgers start lk entries = do
    l ← context "reading base path" entries
    ok (open_each start lk l)

  -- Subjects, in the order of the table; a Go map has none.
  unfoldable pub subjects : Locker t → List String
  subjects lk = map (λ e. e.0) lk.ledgers
