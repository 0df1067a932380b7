-- ===== src/Locker/Handler.antt =====
-- internal/locker/handler.go and tileserver.go: the HTTP interface of the locker, which only reads.
pub mod Reads
use complytime_core.Prelude.{
  ℕ, zero, suc, Bool, true, false, ◌&&◌, ◌||◌, not, String, List, [], ◌∷◌, Option, none, some, ◌==◌,
  concat, nat_eq, leb, if◌then◌else◌, starts_with, map,
}
use complytime_core.Errors.{Error, error_text, is_index_out_of_range, Result, ok, err}
use complytime_core.Regex.{Regex, plus, alnum, matches}
use complytime_core.Subjects.{validate_subject_id}
use complytime_core.Locker.{Locker, get_ledger, subjects}
use complytime_core.Locker.Log.{Bytes, Tessera}
use complytime_core.Locker.Ledgers.{Ledger, Pass, fetch, verify_digest}

-- A response: its status with the message of an error, or its content with status 200.
pub data Response (A : Type 0) : Type 0 where
  refused : ℕ → String → Response A
  content : A → Response A

-- `index int64`.
pub data Int64 : Type 0 where
  nonnegative : ℕ → Int64
  negative : ℕ → Int64

pub record LedgerInfo : Type 0 where
  pub subject_id : String
  pub verifier_key : String

-- `^[a-zA-Z0-9.]+$`.
unfoldable pub tile_path_segment : Regex
tile_path_segment = plus (λ c. alnum c || nat_eq c b'.')

module _ {t : Tessera} where
  abbrev info : Ledger t → LedgerInfo
  info l = record { subject_id = l.subject_id; verifier_key = l.verifier_key }

  -- ListLedgers.
  unfoldable pub list_infos : Locker t → List String → List LedgerInfo
  unfolding get_ledger
  list_infos lk [] = []
  list_infos lk (subject_id ∷ rest) =
      let others = list_infos lk rest in
      elim (get_ledger lk subject_id) [ none ↦ others | some l ↦ info l ∷ others ]

  unfoldable pub list_ledgers : Locker t → Response (List LedgerInfo)
  unfolding list_infos subjects
  list_ledgers lk = content (list_infos lk (subjects lk))

  -- GetLedger.
  unfoldable pub get_ledger_info : Locker t → String → Response LedgerInfo
  unfolding get_ledger
  get_ledger_info lk subject_id = elim (get_ledger lk subject_id) [
    | none ↦ refused 404 "ledger not found"
    | some l ↦ content (info l)
  ]

  -- FetchReceipt.
  unfoldable pub fetch_receipt : Locker t → List Pass → String → Int64 → Response Bytes
  unfolding get_ledger fetch
  fetch_receipt lk passes subject_id index = elim (get_ledger lk subject_id) [
    | none ↦ refused 404 "ledger not found"
    | some l ↦ elim index [
      | negative n ↦ refused 400 "index must be non-negative"
      | nonnegative i ↦ elim (fetch t l.log passes i) [
        | ok receipt ↦ content receipt
        | err e ↦
            if is_index_out_of_range e
            then refused 404 "receipt not found"
            else refused 500 (error_text e)
      ]
    ]
  ]

  -- VerifyReceipt: the index that the digest is found under.
  unfoldable pub verify_receipt : Locker t → String → String → Response (Option ℕ)
  unfolding get_ledger verify_digest
  verify_receipt lk subject_id digest = elim (get_ledger lk subject_id) [
    | none ↦ refused 404 "ledger not found"
    | some l ↦
        if digest == "" then refused 400 "digest is required" else content (verify_digest l digest)
  ]

  -- The two tile routes, up to the file that serveTesseraFile is asked for, relative to the ledger.
  unfoldable pub checkpoint_route : Locker t → String → Response String
  unfolding get_ledger
  checkpoint_route lk subject_id = elim (validate_subject_id subject_id) [
    | err e ↦ refused 400 "invalid subject ID"
    | ok u ↦ elim (get_ledger lk subject_id) [
      | none ↦ refused 404 "ledger not found"
      | some l ↦ content "checkpoint"
    ]
  ]

  unfoldable pub tile_route : Locker t → String → String → String → String → Response String
  unfolding get_ledger
  tile_route lk subject_id level index width = elim (validate_subject_id subject_id) [
    | err e ↦ refused 400 "invalid subject ID"
    | ok u ↦
        if not (matches tile_path_segment level)
          || (not (matches tile_path_segment index) || not (matches tile_path_segment width))
        then refused 400 "invalid tile path"
        else elim (get_ledger lk subject_id) [
          | none ↦ refused 404 "ledger not found"
          | some l ↦
              content (concat "tile/" (concat level (concat "/" (concat index (concat "/" width)))))
        ]
  ]
