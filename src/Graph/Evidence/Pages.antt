-- ===== src/Graph/Evidence/Pages.antt =====
-- Following the cursor through the pages of a subject's evidence.
use complytime_core.Prelude.{
  ℕ, suc, ◌-◌, ◌≤◌, ◌<◌, ◌≡◌, refl, ◌↔◌, ◌⊎◌, inl, inr, sym, ◌∙◌, ap, subst, true, ◌&&◌, String,
  List, Option, none, some, arith, Memᴰ, Sorted, Bool-cases, ltb, length, take, get_elem?, codes,
  itoa, keep-passes, passes-keep, Memᴰ-take, take-whole, take-take, take-last, get_elem?-Memᴰ,
  Sorted-split, and-eq-true,
}
use complytime_core.Base64.{encode_to_string, decode_string, decode_string-encode_to_string}
use complytime_core.Decimal.{ℤ, pos, negsuc, parse_int, max_int64, parse_int-itoa, itoa-bytes}
use complytime_core.Graph.Writer.{Driver}
use complytime_core.Graph.Evidence.{
  EvidenceItem, EvidenceFilter, evidence_rows, meets, after, cursor_index, next_cursor_of,
  evidence_page_query, page, request_limit,
}

cursor_index-decoded :
    (s : String) (b : List ℕ)
    → decode_string s ≡ some b
    → cursor_index (some s) ≡ some (parse_int b)
unfolding cursor_index
cursor_index-decoded s b h = rw (h, cursor_index) refl

-- A cursor that a page has is read as the index that it was made of.
pub cursor_index-next_cursor_of :
    (i : ℕ) → i ≤ max_int64 → cursor_index (some (next_cursor_of i)) ≡ some (pos i)
unfolding next_cursor_of
cursor_index-next_cursor_of i small =
    cursor_index-decoded (encode_to_string (codes (itoa i))) (codes (itoa i))
      (decode_string-encode_to_string (codes (itoa i)) (itoa-bytes i))
    ∙ ap some (parse_int-itoa i small)

abbrev pub index : EvidenceItem → ℕ
index x = x.log_index

-- What the answer of a page is to the elements that are asked for: all, or those up to a last one.
abbrev pub IsLast : String → ℕ → List EvidenceItem → (EvidenceItem → Type 0) → Type 0
IsLast id limit items Q =
    ((page id limit items).next_cursor ≡ none)
    × ((x : EvidenceItem) → Memᴰ x (page id limit items).evidence ↔ Q x)

pub record GoesOn (id : String) (limit : ℕ) (items : List EvidenceItem) (Q : EvidenceItem → Type 0)
    : Type 0 where
  pub last : EvidenceItem
  pub wanted : Q last
  pub cursor : (page id limit items).next_cursor ≡ some (next_cursor_of last.log_index)
  pub sound : (x : EvidenceItem) → Memᴰ x (page id limit items).evidence → Q x
  pub complete :
      (x : EvidenceItem)
      → Q x
      → Memᴰ x (page id limit items).evidence ⊎ (last.log_index < x.log_index)

module _ (id : String) (k : ℕ) (all : List EvidenceItem) (Q : EvidenceItem → Type 0)
    (sorted : Sorted index all) (members : (x : EvidenceItem) → Memᴰ x all ↔ Q x)
    (single : (x y : EvidenceItem) → Q x → Q y → x.log_index ≡ y.log_index → x ≡ y) where
  pub page-cases :
      (items : List EvidenceItem)
      → items ≡ take (suc (suc k)) all
      → IsLast id (suc k) items Q ⊎ GoesOn id (suc k) items Q
  unfolding page
  page-cases items cut = elim (Bool-cases (ltb (suc k) (length items))) [
    | inr e ↦
        let whole : items ≡ all =
          cut
          ∙ take-whole (suc (suc k)) all (subst (λ l. length l < suc (suc k)) cut (ground arith)) in
        inl (rw e refl, λ x. rw (e, whole) (members x))
    | inl e ↦
        let full : k < length (take (suc (suc k)) all) =
          subst (λ l. k < length l) cut (ground arith) in
        let (last, here, there) = take-last k all full in
        let found : get_elem? items k ≡ some last =
          subst (λ l. get_elem? l k ≡ some last) (sym cut) here in
        let start : take (suc k) items ≡ take (suc k) all =
          ap (take (suc k)) cut ∙ take-take (suc k) all in
        let pred : suc k - 1 ≡ k = omega arith in
        let q : Q last =
          (members last).0 (Memᴰ-take (suc k) all last (get_elem?-Memᴰ all k last there)) in
        inr (record {
          last = last;
          wanted = q;
          cursor = rw (e, pred, found) refl;
          sound = λ x m. (members x).0 (Memᴰ-take (suc k) all x (rw (e, start) at m));
          complete = λ x w. elim (Sorted-split index all k last x sorted there ((members x).1 w)) [
            | inl m ↦ inl (rw (e, start) m)
            | inr le ↦ elim (Bool-cases (ltb last.log_index x.log_index)) [
              | inl lt ↦ inr (ground arith)
              | inr ge ↦
                  let same : last ≡ x = single last x q w (ground arith) in
                  inl (
                    rw (e, start)
                      (subst (λ y. Memᴰ y (take (suc k) all)) same
                        (get_elem?-Memᴰ all k last there)))
            ]
          ];
        })
  ]

-- The least index that a cursor asks for.
abbrev pub low : Option ℤ → ℕ
low none = 0
low (some (pos c)) = suc c
low (some (negsuc c)) = 0

after-low : (c : Option ℤ) (i : ℕ) → (after c i ≡ true) ↔ (low c ≤ i)
unfolding after
after-low none i = (λ h. omega arith, λ h. refl)
after-low (some (pos c)) i = (λ h. ground arith, λ h. ground arith)
after-low (some (negsuc c)) i = (λ h. omega arith, λ h. refl)

module _ (d : Driver) (s : d.State) (id : String) (params : EvidenceFilter) where
  -- What a client that follows the cursor wants: the subject's evidence that meets the conditions, from
  -- an index on.
  pub record IsWanted (from : ℕ) (x : EvidenceItem) : Type 0 where
    pub listed : Memᴰ x (evidence_rows (d.view s) id)
    pub meeting : meets d params x ≡ true
    pub late : from ≤ x.log_index

  -- The filter of a request that is not the first.
  abbrev pub at_cursor : Option String → EvidenceFilter
  at_cursor cursor = record params {
    cursor = cursor;
    limit = some (pos (request_limit params.limit));
  }

  pub kept_iff :
      (cursor : Option String) (x : EvidenceItem)
      → Memᴰ x ((evidence_page_query d id (at_cursor cursor)).rows (d.view s))
        ↔ IsWanted (low (cursor_index cursor)) x
  unfolding evidence_page_query meets
  kept_iff cursor x =
      let c = cursor_index cursor in
      let rows = evidence_rows (d.view s) id in
      let test = λ (y : EvidenceItem). meets d (at_cursor cursor) y && after c y.log_index in
      (
        λ m.
            let (listed, passed) = keep-passes test rows x m in
            let (meeting, late) = and-eq-true (meets d params x) (after c x.log_index) passed in
            record { listed = listed; meeting = meeting; late = (after-low c x.log_index).0 late },
        λ w.
            let late = (after-low c x.log_index).1 w.late in
            let passed : (meets d params x && after c x.log_index) ≡ true =
              rw (w.meeting, late) refl in
            passes-keep test rows x w.listed passed,
      )
