-- ===== src/Locker/Requests.antt =====
-- The locker at work: the worker of internal/locker/worker.go and the subscriber of
-- internal/locker/admin.go, which share the ledgers of internal/locker/locker.go. Their handlers run one
-- after the other here, in any order.
pub mod Grown
use complytime_core.Prelude.{List, [], ◌∷◌, String}
use complytime_core.Errors.{Result}
use complytime_core.Locker.{create_ledger}
use complytime_core.Locker.Log.{Tessera}
use complytime_core.Locker.Ledgers.{Startup}
use complytime_core.Locker.Worker.{State, IngestRef, handle_message}
use complytime_core.Locker.Admin.{
  RegisterRequest, SealTrustRequest, Receipts, handle_register, handle_seal_trust,
}

-- What may come to the locker: a message of the ingest stream, and the two requests of the gateway, each
-- with what json.Unmarshal gives.
pub data Request (t : Tessera) : Type 0 where
  ingest : Result IngestRef → Request t
  register : Startup t → Result RegisterRequest → Request t
  seal_trust : Result SealTrustRequest → Request t

module _ {t : Tessera} (w : Receipts) where
  unfoldable pub serve : State t → Request t → State t
  unfolding handle_message handle_register handle_seal_trust
  serve s (ingest msg) = (handle_message s msg).0
  serve s (register start req) = record s { locker = (handle_register w start s.locker req).0 }
  serve s (seal_trust req) = record s { locker = (handle_seal_trust w s.locker req).0 }

  unfoldable pub serve_all : State t → List (Request t) → State t
  unfolding serve
  serve_all s [] = s
  serve_all s (req ∷ rest) = serve_all (serve s req) rest
