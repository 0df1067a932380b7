-- ===== src/Locker/Admin/Retry.antt =====
-- What is sealed for the gateway, and what becomes of a registration that is tried again.
use complytime_core.Prelude.{◌≡◌, refl, inl, inr, List, some, concat}
use complytime_core.Errors.{Error, wrapped, ledger_exists, ok, err, Result-cases}
use complytime_core.Locker.{Locker, get_ledger, create_ledger}
use complytime_core.Locker.Log.{Tessera}
use complytime_core.Locker.Ledgers.{Ledger, Startup, seal}
use complytime_core.Locker.Worker.{State}
use complytime_core.Locker.Sound.{create_ledger-taken}
use complytime_core.Locker.Admin.{RegisterRequest, Receipts, handle_register}
use complytime_core.Locker.Requests.{Request, register, serve, serve_all}
use complytime_core.Locker.Requests.Grown.{inserted, create_ledger-there, serve_all-Grows}

register-refused :
    {t : Tessera} (w : Receipts) (start : Startup t) (lk lk' : Locker t) (req : RegisterRequest)
    (e : Error)
    → create_ledger start lk req.subject_id ≡ (lk', err e)
    → (handle_register w start lk (ok req)).1 ≡ err (wrapped "creating ledger" e)
unfolding handle_register
register-refused w start lk lk' req e h = rw (h, handle_register) refl

-- Once the ledger is created a registration leaves a ledger for the subject, also if it fails later.
register-keeps :
    {t : Tessera} (w : Receipts) (start : Startup t) (lk : Locker t) (req : RegisterRequest)
    (l : Ledger t)
    → (create_ledger start lk req.subject_id).1 ≡ ok l
    → (m : Ledger t) × (get_ledger (handle_register w start lk (ok req)).0 req.subject_id ≡ some m)
unfolding handle_register get_ledger
register-keeps w start lk req l h =
    elim (Result-cases (
      w.wrap (w.registration_data req) req.registrant_issuer req.registrant_sub req.subject_id
        "subject-registration")) [
          | inr (e, f) ↦
              (l, rw (h, f, handle_register) (create_ledger-there start lk req.subject_id l h).0)
          | inl (bytes, f) ↦
              let there =
                inserted req.subject_id (seal l bytes).0
                  (create_ledger start lk req.subject_id).0.ledgers in
              elim (Result-cases (seal l bytes).1) [
                | inr (e, g) ↦ ((seal l bytes).0, rw (h, f, g, handle_register) there)
                | inl (i, g) ↦ ((seal l bytes).0, rw (h, f, g, handle_register) there)
              ]
        ]

-- A registration whose ledger was created can never be tried again: every later registration of the
-- subject, whatever came to the locker in between, is refused because the ledger exists, also if the
-- first one failed after the creation, when the receipt was wrapped or sealed.
pub register_again :
    {t : Tessera} (w : Receipts) (start again : Startup t) (s : State t)
    (req req' : RegisterRequest) (l : Ledger t) (between : List (Request t))
    → (create_ledger start s.locker req.subject_id).1 ≡ ok l
    → req'.subject_id ≡ req.subject_id
    → (handle_register w again
        (serve_all w (serve w s (register start (ok req))) between).locker
        (ok req')).1
      ≡ err (
          wrapped "creating ledger"
            (wrapped (concat "ledger exists: " req.subject_id) ledger_exists))
unfolding serve
register_again w start again s req req' l between h same =
    let first = record s { locker = (handle_register w start s.locker (ok req)).0 } in
    let later = (serve_all w first between).locker in
    let (n, left) = register-keeps w start s.locker req l h in
    let (m, kept, more) = serve_all-Grows w first between req.subject_id n left in
    let valid = (create_ledger-there start s.locker req.subject_id l h).1 in
    let error = wrapped (concat "ledger exists: " req.subject_id) ledger_exists in
    register-refused w again later later req' error
      (rw same (create_ledger-taken again later req.subject_id m tt valid kept))
