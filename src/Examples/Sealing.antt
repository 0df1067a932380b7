-- ===== src/Examples/Sealing.antt =====
-- Instances for internal/locker, on logs in memory.
use complytime_core.Prelude.{
  ℕ, zero, suc, ◌≡◌, refl, ◌↔◌, ◌∙◌, sym, ◌<◌, ◌/◌, ◌%◌, true, false, String, List, [], ◌∷◌, ◌++◌,
  none, some, arith, length, get_elem?, concat, itoa, lookup, insert, Option-cases, inl, inr, subst,
  ◌==◌, if◌then◌else◌,
}
use complytime_core.Errors.{plain, wrapped, ledger_exists, Result, ok, err}
use complytime_core.Subjects.{validate_subject_id}
use complytime_core.Locker.{Locker, get_ledger, create_ledger, open_each}
use complytime_core.Locker.Log.{Bytes, Tessera}
use complytime_core.Locker.Ledgers.{
  Ledger, Startup, ticked, sha256_hex, seal, fetch, wait_for_integration, verify_digest, new_ledger,
  rebuild_digest_index, rebuild_from,
}
use complytime_core.Locker.Ledgers.Keys.{
  KeyFiles, not_there, load_or_generate_key, generate_and_persist,
}
use complytime_core.Locker.Worker.{
  State, IngestRef, acked, termed, process_receipt, handle_message, process_messages,
}
use complytime_core.Locker.Worker.Redelivery.{redelivery}
use complytime_core.Locker.Worker.Replies.{IsLost, handle_message-termed}
use complytime_core.Locker.Sound.{
  IsSound, IsSealed, process_messages-IsSound, open_each-IsSound, acked-IsSealed,
  create_ledger_once,
}
use complytime_core.Locker.Handler.{content, nonnegative, fetch_receipt, verify_receipt}
use complytime_core.Locker.Handler.Reads.{verify-fetch}
use complytime_core.Locker.Admin.{RegisterRequest, Receipts, handle_register}
use complytime_core.Locker.Admin.Retry.{register_again}
use complytime_core.Locker.Requests.Grown.{Grows, serve_all-Grows}
use complytime_core.Locker.Requests.{Request, ingest, register, seal_trust, serve, serve_all}

-- A log is the list of its entries, in bundles of one.
pub append_last : (l : List Bytes) (d : Bytes) → get_elem? (l ++ (d ∷ [])) (length l) ≡ some d
append_last [] d = refl
append_last (x ∷ l) d = append_last l d

pub append_keeps :
    (l : List Bytes) (d : Bytes) (i : ℕ) (e : Bytes)
    → get_elem? l i ≡ some e
    → get_elem? (l ++ (d ∷ [])) i ≡ some e
append_keeps [] d i e h = cc h
append_keeps (x ∷ l) d zero e h = h
append_keeps (x ∷ l) d (suc i) e h = append_keeps l d i e h

abbrev pub append : List Bytes → Bytes → List Bytes × Result ℕ
append l d = (l ++ (d ∷ []), ok (length l))

pub append_entry :
    (l : List Bytes) (d : Bytes) (i : ℕ)
    → (append l d).1 ≡ ok i
    → get_elem? (append l d).0 i ≡ some d
append_entry l d i h = let place : length l ≡ i = cc h in rw (sym place) (append_last l d)

abbrev pub bundle_at : List Bytes → ℕ → ℕ → Result Bytes
bundle_at l i p = elim (get_elem? l i) [ none ↦ err (plain "no bundle") | some e ↦ ok e ]

abbrev pub first_byte : Bytes → String
first_byte [] = ""
first_byte (c ∷ w) = itoa c

pub bundled :
    (l : List Bytes) (size index : ℕ) (raw : Bytes) (entries : List Bytes) (e : Bytes)
    → Result.ok (length l) ≡ ok size
    → index < size
    → bundle_at l (index / 1) 0 ≡ ok raw
    → Result.ok (raw ∷ []) ≡ ok entries
    → get_elem? entries (index % 1) ≡ some e
    → get_elem? l index ≡ some e
bundled l size index raw entries e s room read parsed at_ =
    let whole : index / 1 ≡ index = omega arith in
    let none_left : index % 1 ≡ 0 = omega arith in
    let one : raw ∷ [] ≡ entries = cc parsed in
    let here : get_elem? (raw ∷ []) 0 ≡ some e = rw (sym one, none_left) at at_ in
    let same : raw ≡ e = cc here in
    let there : bundle_at l index 0 ≡ ok raw = rw whole at read in
    elim (Option-cases (get_elem? l index)) [
      | inl n ↦ absurd (ground (arith, there, n))
      | inr (x, n) ↦ let held : x ≡ raw = ground (arith, there, n) in n ∙ rw (held, same) refl
    ]

abbrev pub tessera : Tessera
tessera = record {
  Log = List Bytes;
  entry = get_elem?;
  add = append;
  integrated_size = λ l. ok (length l);
  entry_bundle_width = 1;
  partial_tile_size = λ level index size. 0;
  read_entry_bundle = bundle_at;
  unmarshal_bundle = λ raw. ok (raw ∷ []);
  sum256_hex = first_byte;
  add_entry = append_entry;
  add_keeps = append_keeps;
  bundle_entry = bundled;
}

abbrev keys : KeyFiles
keys = record {
  read_file = λ p. not_there;
  new_signer = λ k. ok tt;
  new_verifier = λ k. ok tt;
  generate_key = λ origin. ok ("signer", "verifier");
  mkdir_all = ok tt;
  create_temp = ok tt;
  chmod = ok tt;
  write_temp = λ s. ok tt;
  close = ok tt;
  rename = λ p. ok tt;
}

-- A directory whose log has one entry already.
abbrev start : Startup tessera
start = record {
  keys = keys;
  new_driver = λ p. ok tt;
  new_appender = λ p. ok ((7 ∷ []) ∷ []);
  passes = λ i. ticked (ok 1) ∷ [];
}

abbrev nothing_yet : Locker tessera
nothing_yet = record { ledgers = [] }

abbrev widget_ledger : Ledger tessera
widget_ledger = record {
  subject_id = "widget";
  verifier_key = "verifier";
  log = (7 ∷ []) ∷ [];
  digest_index = ("7", 0) ∷ [];
}

abbrev one_ledger : Locker tessera
one_ledger = record { ledgers = ("widget", widget_ledger) ∷ [] }

widget_created : (create_ledger start nothing_yet "widget").1 ≡ ok widget_ledger
unfolding create_ledger validate_subject_id new_ledger load_or_generate_key generate_and_persist
    rebuild_digest_index rebuild_from fetch wait_for_integration lookup insert itoa
widget_created = refl

nothing_yet-IsSound : IsSound nothing_yet
unfolding get_ledger lookup
nothing_yet-IsSound subject_id l h = absurd (cc h)

open_each-IsSound_example :
    IsSound (open_each start nothing_yet (("lost+found", false) ∷ ("widget", true) ∷ []))
open_each-IsSound_example =
    open_each-IsSound start nothing_yet (("lost+found", false) ∷ ("widget", true) ∷ [])
      nothing_yet-IsSound

opened : open_each start nothing_yet (("widget", true) ∷ []) ≡ one_ledger
unfolding open_each new_ledger load_or_generate_key generate_and_persist rebuild_digest_index
    rebuild_from fetch wait_for_integration lookup insert itoa
opened = refl

one_ledger-IsSound : IsSound one_ledger
one_ledger-IsSound =
    subst IsSound opened
      (open_each-IsSound start nothing_yet (("widget", true) ∷ []) nothing_yet-IsSound)

abbrev state : State tessera
state = record { locker = one_ledger; published = [] }

abbrev ref : IngestRef
ref = record {
  job_id = "job";
  subject_id = "widget";
  content_digest = "d";
  artifact_type = "Policy";
  receipt_bytes = 9 ∷ [];
}

ref_processed : (process_receipt state ref).1 ≡ ok tt
unfolding process_receipt get_ledger verify_digest seal lookup itoa
ref_processed = refl

process_messages-IsSound_example :
    IsSound (process_messages state (ok ref ∷ err (plain "no JSON") ∷ ok ref ∷ [])).0.locker
process_messages-IsSound_example =
    process_messages-IsSound state (ok ref ∷ err (plain "no JSON") ∷ ok ref ∷ []) one_ledger-IsSound

ref_acked : (handle_message state (ok ref)).1 ≡ acked
unfolding handle_message process_receipt get_ledger verify_digest seal lookup itoa
ref_acked = refl

acked-IsSealed_example : IsSealed (handle_message state (ok ref)).0.locker ref
acked-IsSealed_example = acked-IsSealed state ref one_ledger-IsSound ref_acked

handle_message-termed_example : ((handle_message state (ok ref)).1 ≡ termed) ↔ IsLost state (ok ref)
handle_message-termed_example = handle_message-termed state (ok ref)

widget_verified : verify_receipt one_ledger "widget" "7" ≡ content (some 0)
unfolding verify_receipt get_ledger verify_digest lookup
widget_verified = refl

widget_fetched :
    fetch_receipt one_ledger (ticked (ok 1) ∷ []) "widget" (nonnegative 0) ≡ content (7 ∷ [])
unfolding fetch_receipt get_ledger fetch wait_for_integration lookup
widget_fetched = refl

verify-fetch_example : sha256_hex tessera (7 ∷ []) ≡ "7"
verify-fetch_example =
    verify-fetch one_ledger "widget" (ticked (ok 1) ∷ []) "7" 0 (7 ∷ []) one_ledger-IsSound
      widget_verified widget_fetched

-- The receipts of registrations cannot be wrapped.
abbrev receipts : Receipts
receipts = record {
  registration_data = λ r. [];
  trust_data = λ r. [];
  wrap = λ c i s u a.
      if a == "trust-modification" then ok (3 ∷ []) else err (plain "canonicalize content");
}

abbrev request : RegisterRequest
request = record {
  subject_id = "widget";
  registrant_issuer = "https://idp";
  registrant_sub = "alice";
}

-- Another receipt for `widget`, a change of its trust and a registration of another subject.
abbrev others : List (Request tessera)
others =
    ingest (ok (record ref { receipt_bytes = 5 ∷ [] }))
    ∷ seal_trust (
        ok (record {
          subject_id = "widget";
          trusted_publishers = [];
          operator_issuer = "https://idp";
          operator_sub = "alice";
        }))
    ∷ register start (ok (record request { subject_id = "gadget" }))
    ∷ register start (err (plain "no JSON"))
    ∷ ingest (ok ref)
    ∷ []

redelivery_example :
    handle_message (serve_all receipts (process_receipt state ref).0 others) (ok ref)
    ≡ (serve_all receipts (process_receipt state ref).0 others, acked)
redelivery_example = redelivery receipts state ref others ref_processed

abbrev empty : State tessera
empty = record { locker = nothing_yet; published = [] }

abbrev afterwards : Locker tessera
afterwards =
    (serve_all receipts (record empty { locker = (create_ledger start nothing_yet "widget").0 })
      others).locker

create_ledger_once_example :
    ((m : Ledger tessera) × (get_ledger afterwards "widget" ≡ some m))
    × (create_ledger start afterwards "widget"
        ≡ (afterwards, err (wrapped (concat "ledger exists: " "widget") ledger_exists)))
create_ledger_once_example =
    create_ledger_once receipts start start empty "widget" widget_ledger others widget_created

register_again_example :
    (handle_register receipts start
      (serve_all receipts (serve receipts empty (register start (ok request))) others).locker
      (ok request)).1
    ≡ err (wrapped "creating ledger" (wrapped (concat "ledger exists: " "widget") ledger_exists))
register_again_example =
    register_again receipts start start empty request request widget_ledger others widget_created
      refl

serve_all-Grows_example : Grows state.locker (serve_all receipts state others).locker
serve_all-Grows_example = serve_all-Grows receipts state others
