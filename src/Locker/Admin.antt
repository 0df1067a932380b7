-- ===== src/Locker/Admin.antt =====
-- internal/locker/admin.go: the requests of the gateway to register a subject and to seal a change of
-- its trust.
pub mod Retry
use complytime_core.Prelude.{ℕ, Bool, String, List, [], ◌∷◌, Option, none, some, concat}
use complytime_core.Errors.{Error, plain, wrapped, error_text, Result, ok, err, ◌>>=◌, context}
use complytime_core.Trust.{TrustEntry}
use complytime_core.Locker.{Locker, get_ledger, create_ledger}
use complytime_core.Locker.Log.{Bytes, Tessera}
use complytime_core.Locker.Ledgers.{Ledger, Startup, seal}
use complytime_core.Locker.Worker.{set_ledger}

-- The types of internal/admin/types.go; an answer has an error or not.
pub record RegisterRequest : Type 0 where
  pub subject_id : String
  pub registrant_issuer : String
  pub registrant_sub : String

pub record SealTrustRequest : Type 0 where
  pub subject_id : String
  pub trusted_publishers : List TrustEntry
  pub operator_issuer : String
  pub operator_sub : String

-- What the handlers use of other code: the JSON texts of the two receipts' contents, and receipt.Wrap of
-- a content, a publisher's issuer and sub, a subject ID and an artifact type.
pub record Receipts : Type 0 where
  pub registration_data : RegisterRequest → Bytes
  pub trust_data : SealTrustRequest → Bytes
  pub wrap : Bytes → String → String → String → String → Result Bytes

module _ {t : Tessera} (w : Receipts) where
  -- handleRegister, on what json.Unmarshal gives: the locker, the answer (the verifier key), and whether
  -- the event of the registration is published.
  unfoldable pub handle_register :
      Startup t → Locker t → Result RegisterRequest → Locker t × Result String × List String
  unfolding create_ledger seal
  handle_register start lk (err e) = (lk, err (plain "invalid request payload"), [])
  handle_register start lk (ok req) =
      let (lk', created) = create_ledger start lk req.subject_id in
      elim created as (λ _. Locker t × Result String × List String) [
        | err e ↦ (lk', context "creating ledger" (err e), [])
        | ok ledger ↦
            elim (w.wrap (w.registration_data req) req.registrant_issuer req.registrant_sub
                req.subject_id "subject-registration")
              as (λ _. Locker t × Result String × List String) [
                | err e ↦ (lk', context "wrapping receipt" (err e), [])
                | ok receipt_bytes ↦
                    let (ledger', sealed) = seal ledger receipt_bytes in
                    elim sealed as (λ _. Locker t × Result String × List String) [
                      | err e ↦ (
                        set_ledger lk' req.subject_id ledger',
                        context "sealing receipt" (err e),
                        [],
                      )
                      | ok index ↦ (
                        set_ledger lk' req.subject_id ledger',
                        ok ledger'.verifier_key,
                        req.subject_id ∷ [],
                      )
                    ]
              ]
      ]

  -- handleSealTrust: the answer is the log index.
  unfoldable pub handle_seal_trust : Locker t → Result SealTrustRequest → Locker t × Result ℕ
  unfolding get_ledger seal
  handle_seal_trust lk (err e) = (lk, err (plain "invalid request payload"))
  handle_seal_trust lk (ok req) = elim (get_ledger lk req.subject_id) [
    | none ↦ (lk, err (plain (concat "ledger not found for " req.subject_id)))
    | some ledger ↦
        elim (w.wrap (w.trust_data req) req.operator_issuer req.operator_sub req.subject_id
            "trust-modification")
          as (λ _. Locker t × Result ℕ) [
            | err e ↦ (lk, context "wrapping receipt" (err e))
            | ok receipt_bytes ↦
                let (ledger', sealed) = seal ledger receipt_bytes in
                (set_ledger lk req.subject_id ledger', context "sealing receipt" sealed)
          ]
  ]
