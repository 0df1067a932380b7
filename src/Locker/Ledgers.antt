-- ===== src/Locker/Ledgers.antt =====
-- internal/locker/ledger.go: a transparency log for one subject, with the index of its digests.
pub mod Keys
pub mod Indexed
use complytime_core.Prelude.{
  ℕ, zero, suc, ◌+◌, ◌/◌, ◌%◌, Bool, not, String, List, [], ◌∷◌, Option, none, some, concat, ltb,
  leb, length, get_elem?, lookup, insert, if◌then◌else◌,
}
use complytime_core.Errors.{
  Error, plain, wrapped, index_out_of_range, Result, ok, err, ◌>>=◌, ◌>>◌, context, guard,
}
use complytime_core.Locker.Log.{Bytes, Tessera}
use complytime_core.Locker.Ledgers.Keys.{KeyFiles, load_or_generate_key}

pub record Ledger (t : Tessera) : Type 0 where
  pub subject_id : String
  pub verifier_key : String
  pub log : t.Log
  pub digest_index : List (String × ℕ)

-- SHA256Hex.
abbrev pub sha256_hex : Tessera → Bytes → String
sha256_hex t bytes = t.sum256_hex bytes

-- What a pass of the polling loop of waitForIntegration meets: the size at a tick, the end of the
-- request's context.
pub data Pass : Type 0 where
  ticked : Result ℕ → Pass
  done : Error → Pass

-- waitForIntegration over the passes that there are before the timeout.
unfoldable pub wait_for_integration : ℕ → List Pass → Result (Unit {0})
wait_for_integration target_index [] = err (plain "timeout waiting for index to be integrated")
wait_for_integration target_index (done e ∷ rest) = err e
wait_for_integration target_index (ticked (err e) ∷ rest) =
    err (wrapped "checking integrated size" e)
wait_for_integration target_index (ticked (ok size) ∷ rest) =
    let later = wait_for_integration target_index rest in
    if ltb target_index size then ok tt else later

module _ (t : Tessera) where
  -- Fetch, after the passes of the wait.
  unfoldable pub fetch : t.Log → List Pass → ℕ → Result Bytes
  unfolding wait_for_integration
  fetch log passes index = do
    wait_for_integration index passes
    size ← context "getting integrated size" (t.integrated_size log)
    guard (not (leb size index)) (wrapped "index, size" index_out_of_range)
    let bundle_index = index / t.entry_bundle_width
    bundle_data ←
        context "reading entry bundle"
          (t.read_entry_bundle log bundle_index (t.partial_tile_size 0 bundle_index size))
    entries ← context "parsing entry bundle" (t.unmarshal_bundle bundle_data)
    elim (get_elem? entries (index % t.entry_bundle_width)) [
      | some entry ↦ ok entry
      | none ↦ err (wrapped "entry not in bundle" index_out_of_range)
    ]

  -- The loop of rebuildDigestIndex, `count` entries from `i` on; the passes are those of each wait.
  unfoldable pub rebuild_from :
      t.Log → (ℕ → List Pass) → ℕ → ℕ → List (String × ℕ) → List (String × ℕ) × Result (Unit {0})
  unfolding fetch
  rebuild_from log passes i zero m = (m, ok tt)
  rebuild_from log passes i (suc count) m = elim (fetch log (passes i) i) [
    | err e ↦ (m, err (wrapped "fetching index" e))
    | ok data' ↦ rebuild_from log passes (i + 1) count (insert (sha256_hex t data') i m)
  ]

module _ {t : Tessera} where
  -- Seal.
  unfoldable pub seal : Ledger t → Bytes → Ledger t × Result ℕ
  seal l receipt =
      let (log, added) = t.add l.log receipt in
      elim added as (λ _. Ledger t × Result ℕ) [
        | err e ↦ (record l { log = log }, err (wrapped "sealing receipt" e))
        | ok index ↦ (
          record l { log = log; digest_index = insert (sha256_hex t receipt) index l.digest_index },
          ok index,
        )
      ]

  -- VerifyDigest.
  unfoldable pub verify_digest : Ledger t → String → Option ℕ
  verify_digest l hex_digest = lookup hex_digest l.digest_index

  -- rebuildDigestIndex; the index is what there is when it stops.
  unfoldable pub rebuild_digest_index : Ledger t → (ℕ → List Pass) → Ledger t × Result (Unit {0})
  unfolding rebuild_from
  rebuild_digest_index l passes =
      elim (t.integrated_size l.log) as (λ _. Ledger t × Result (Unit {0})) [
        | err e ↦ (l, err e)
        | ok size ↦
            let (m, result) = rebuild_from t l.log passes 0 size l.digest_index in
            (record l { digest_index = m }, result)
      ]

-- What opening a ledger finds outside: the key files, the posix driver and the appender of a subject's
-- directory, and the passes of the waits.
pub record Startup (t : Tessera) : Type 0 where
  pub keys : KeyFiles
  pub new_driver : String → Result (Unit {0})
  pub new_appender : String → Result t.Log
  pub passes : ℕ → List Pass

-- ledgerOrigin.
abbrev pub ledger_origin : String → String
ledger_origin subject_id = concat "complytime/" subject_id

-- NewLedger: a rebuild that fails is only logged.
unfoldable pub new_ledger : {t : Tessera} → Startup t → String → Result (Ledger t)
unfolding load_or_generate_key rebuild_digest_index
new_ledger {t} start subject_id = do
  found ←
      context "signer key" (load_or_generate_key start.keys subject_id (ledger_origin subject_id))
  context "creating note signer" (start.keys.new_signer found.0)
  context "creating posix driver" (start.new_driver subject_id)
  log ← context "creating appender" (start.new_appender subject_id)
  let l : Ledger t = record {
    subject_id = subject_id;
    verifier_key = found.1;
    log = log;
    digest_index = [];
  }
  ok (rebuild_digest_index l start.passes).0
