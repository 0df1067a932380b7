-- ===== src/Locker/Ledgers/Indexed.antt =====
-- The index of digests of internal/locker/ledger.go against the log.
use complytime_core.Prelude.{
  ℕ, zero, suc, ◌+◌, ◌/◌, ◌%◌, ◌≡◌, sym, false, String, List, some, arith, ◌==◌, eq_iff, lookup,
  insert, lookup-insert, Bool-cases, Option-cases, inl, inr, leb, get_elem?,
}
use complytime_core.Errors.{ok, Result-cases}
use complytime_core.Locker.Log.{Bytes, Tessera}
use complytime_core.Locker.Ledgers.{
  Ledger, Pass, wait_for_integration, sha256_hex, seal, fetch, rebuild_from, rebuild_digest_index,
}

-- An entry of the log with a digest.
pub record HasEntry (t : Tessera) (log : t.Log) (digest : String) (i : ℕ) : Type 0 where
  pub content : Bytes
  pub stands : t.entry log i ≡ some content
  pub digested : sha256_hex t content ≡ digest

-- Every digest of the index is that of the entry at its place.
abbrev pub Points : (t : Tessera) → t.Log → List (String × ℕ) → Type 0
Points t log m = (d : String) (i : ℕ) → lookup d m ≡ some i → HasEntry t log d i

abbrev pub IsIndexed : (t : Tessera) → Ledger t → Type 0
IsIndexed t l = Points t l.log l.digest_index

module _ (t : Tessera) where
  Points-insert :
      (log : t.Log) (m : List (String × ℕ)) (content : Bytes) (k : ℕ)
      → t.entry log k ≡ some content
      → Points t log m
      → Points t log (insert (sha256_hex t content) k m)
  Points-insert log m content k here p d i h =
      let said = lookup-insert (sha256_hex t content) d k m in
      elim (Bool-cases (sha256_hex t content == d)) [
        | inl e ↦
            let same : sha256_hex t content ≡ d = (eq_iff (sha256_hex t content) d).0 e in
            let place : k ≡ i = ground (arith, said, h, e) in
            record { content = content; stands = rw (sym place) here; digested = same }
        | inr e ↦ p d i (ground (arith, said, h, e))
      ]

  -- Sealing keeps the index true, whether Tessera's write succeeds or fails.
  pub seal-IsIndexed :
      (l : Ledger t) (receipt : Bytes) → IsIndexed t l → IsIndexed t (seal l receipt).0
  unfolding seal
  seal-IsIndexed l receipt p =
      let kept : Points t (t.add l.log receipt).0 l.digest_index = λ d i h.
        let e = p d i h in
        record {
          content = e.content;
          stands = t.add_keeps l.log receipt i e.content e.stands;
          digested = e.digested;
        } in
      elim (Result-cases (t.add l.log receipt).1) [
        | inr (e, f) ↦ rw (f, seal) kept
        | inl (k, f) ↦
            rw (f, seal)
              (Points-insert (t.add l.log receipt).0 l.digest_index receipt k
                (t.add_entry l.log receipt k f) kept)
      ]

  in_bundle :
      (log : t.Log) (passes : List Pass) (index size : ℕ) (raw content : Bytes)
      (entries : List Bytes) (u : Unit {0}) (w : wait_for_integration index passes ≡ ok u)
      (f : t.integrated_size log ≡ ok size) (o : leb size index ≡ false)
      (g : t.read_entry_bundle log
          (index / t.entry_bundle_width)
          (t.partial_tile_size 0 (index / t.entry_bundle_width) size)
        ≡ ok raw)
      (k : t.unmarshal_bundle raw ≡ ok entries)
      → fetch t log passes index ≡ ok content
      → get_elem? entries (index % t.entry_bundle_width) ≡ some content
  unfolding fetch
  in_bundle log passes index size raw content entries u w f o g k h =
      elim (Option-cases (get_elem? entries (index % t.entry_bundle_width))) [
        | inl n ↦ absurd (ground (arith, w, f, o, g, k, n))
        | inr (c, n) ↦ ground (arith, w, f, o, g, k, n)
      ]

  -- What is fetched for an index is the entry of the log at the index.
  pub fetch_lem :
      (log : t.Log) (passes : List Pass) (index : ℕ) (content : Bytes)
      → fetch t log passes index ≡ ok content
      → t.entry log index ≡ some content
  unfolding fetch
  fetch_lem log passes index content h = elim (Result-cases (wait_for_integration index passes)) [
    | inr (e, w) ↦ absurd (ground (arith, w))
    | inl (u, w) ↦ elim (Result-cases (t.integrated_size log)) [
      | inr (e, f) ↦ absurd (ground (arith, w, f))
      | inl (size, f) ↦ elim (Bool-cases (leb size index)) [
        | inl o ↦ absurd (ground (arith, w, f, o))
        | inr o ↦
            let bundle = index / t.entry_bundle_width in
            elim (Result-cases
              (t.read_entry_bundle log bundle (t.partial_tile_size 0 bundle size))) [
                | inr (e, g) ↦ absurd (ground (arith, w, f, o, g))
                | inl (raw, g) ↦ elim (Result-cases (t.unmarshal_bundle raw)) [
                  | inr (e, k) ↦ absurd (ground (arith, w, f, o, g, k))
                  | inl (entries, k) ↦
                      t.bundle_entry log size index raw entries content f (ground (arith, o)) g k
                        (in_bundle log passes index size raw content entries u w f o g k h)
                ]
              ]
      ]
    ]
  ]

  rebuild_from-Points :
      (log : t.Log) (passes : ℕ → List Pass) (i count : ℕ) (m : List (String × ℕ))
      → Points t log m
      → Points t log (rebuild_from t log passes i count m).0
  unfolding rebuild_from
  rebuild_from-Points log passes i zero m p = p
  rebuild_from-Points log passes i (suc count) m p =
      elim (Result-cases (fetch t log (passes i) i)) [
        | inr (e, f) ↦ rw (f, rebuild_from) p
        | inl (content, f) ↦
            rw (f, rebuild_from)
              (rebuild_from-Points log passes (i + 1) count (insert (sha256_hex t content) i m)
                (Points-insert log m content i (fetch_lem log (passes i) i content f) p))
      ]

  -- Rebuilding gives a true index, also when it stops at an entry that cannot be fetched.
  pub rebuild_digest_index-IsIndexed :
      (l : Ledger t) (passes : ℕ → List Pass)
      → IsIndexed t l
      → IsIndexed t (rebuild_digest_index l passes).0
  unfolding rebuild_digest_index
  rebuild_digest_index-IsIndexed l passes p = elim (Result-cases (t.integrated_size l.log)) [
    | inr (e, f) ↦ rw (f, rebuild_digest_index) p
    | inl (size, f) ↦
        rw (f, rebuild_digest_index) (rebuild_from-Points l.log passes 0 size l.digest_index p)
  ]
