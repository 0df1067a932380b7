-- ===== src/Graph/Evidence/Follow.antt =====
-- A client that follows the cursor gets all the evidence that it asks for.
use mathlib.Core.List.Memᴰ
use complytime_core.Prelude.{
  ℕ, zero, suc, ◌+◌, ◌-◌, ◌≤◌, ◌≡◌, refl, ◌↔◌, ◌⊎◌, inl, inr, sym, ◌∙◌, ap, subst, true, String,
  List, ◌++◌, Option, none, some, arith, Memᴰ, Bool-cases, ltb, take,
}
use complytime_core.Errors.{ok}
use complytime_core.Decimal.{ℤ, pos, negsuc, max_int64}
use complytime_core.Graph.Writer.{Driver}
use complytime_core.Graph.Evidence.{
  EvidenceItem, EvidenceFilter, EvidenceResult, answered, evidence_rows, meets, cursor_index,
  next_cursor_of, page_limit, evidence_page_query, page, evidence_of, request_limit, get_evidence,
  follow,
}
use complytime_core.Graph.Evidence.Pages.{
  cursor_index-next_cursor_of, IsLast, GoesOn, page-cases, low, IsWanted, at_cursor, kept_iff,
}

request_limit-IsPositive : (l : Option ℤ) → (k : ℕ) × (request_limit l ≡ suc k)
unfolding request_limit
request_limit-IsPositive none = (49, refl)
request_limit-IsPositive (some (negsuc n)) = (0, refl)
request_limit-IsPositive (some (pos n)) = elim (Bool-cases (ltb 200 n)) [
  | inl e ↦ (199, rw e refl)
  | inr e ↦ elim (Bool-cases (ltb n 1)) [
    | inl f ↦ (0, rw (e, f) refl)
    | inr f ↦ (n - 1, rw (e, f) (ground arith))
  ]
]

page_limit-positive : (n k : ℕ) → n ≡ suc k → page_limit (some (pos n)) ≡ suc k
unfolding page_limit
page_limit-positive n k e = rw e refl

evidence_of_lem :
    (d : Driver) (s : d.State) (id : String) (f : EvidenceFilter) (k : ℕ)
    (items : List EvidenceItem)
    → d.read (evidence_page_query d id f) s ≡ ok items
    → page_limit f.limit ≡ suc k
    → evidence_of d s id f ≡ ok (page id (suc k) items)
unfolding evidence_of
evidence_of_lem d s id f k items read limit = rw (read, limit, evidence_of) refl

get_evidence_lem :
    (d : Driver) (s : d.State) (id : String) (params : EvidenceFilter) (result : EvidenceResult)
    → evidence_of d s id (record params { limit = some (pos (request_limit params.limit)) })
      ≡ ok result
    → get_evidence d s id params ≡ answered result
unfolding get_evidence
get_evidence_lem d s id params result h = rw (h, get_evidence) refl

module _ (d : Driver) (s : d.State) (id : String) (params : EvidenceFilter) (most : ℕ)
    (reads : (cursor : Option String)
      → (items : List EvidenceItem) × (d.read
            (evidence_page_query d id (at_cursor d s id params cursor))
            s
          ≡ ok items))
    (bounded : (x : EvidenceItem) → Memᴰ x (evidence_rows (d.view s) id) → x.log_index ≤ most)
    (fits : most ≤ max_int64)
    (single : (x y : EvidenceItem)
      → Memᴰ x (evidence_rows (d.view s) id)
      → Memᴰ y (evidence_rows (d.view s) id)
      → x.log_index ≡ y.log_index
      → x ≡ y) where
  -- One request: its page is the last one or goes on.
  request-cases :
      (cursor : Option String)
      → (k : ℕ) × (items : List EvidenceItem) × (get_evidence d s id
            (record params { cursor = cursor })
          ≡ answered (page id (suc k) items))
        × (IsLast id (suc k) items (IsWanted d s id params (low (cursor_index cursor)))
            ⊎ GoesOn id (suc k) items (IsWanted d s id params (low (cursor_index cursor))))
  unfolding evidence_page_query
  request-cases cursor =
      let f = at_cursor d s id params cursor in
      let (k, e) = request_limit-IsPositive params.limit in
      let (items, read) = reads cursor in
      let answer = d.read_ok (evidence_page_query d id f) s items read in
      let limit : page_limit f.limit ≡ suc k = page_limit-positive _ k e in
      let more : page_limit f.limit + 1 ≡ suc (suc k) = omega (arith, limit) in
      (
        k,
        items,
        get_evidence_lem d s id (record params { cursor = cursor }) (page id (suc k) items)
            (evidence_of_lem d s id f k items read limit),
        page-cases id k answer.all (IsWanted d s id params (low (cursor_index cursor)))
            answer.sorted
            (λ x. (
              λ m. (kept_iff d s id params cursor x).0 ((answer.members x).0 m),
              λ w. (answer.members x).1 ((kept_iff d s id params cursor x).1 w),
            ))
            (λ x y w v. single x y w.listed v.listed) items
            (answer.cut ∙ ap (λ m. take m answer.all) more),
      )

  follow-step :
      (n : ℕ) (cursor : Option String)
      → low (cursor_index cursor) ≤ most + 1
      → most + 2 ≤ n + low (cursor_index cursor)
      → (l : List EvidenceItem) × (follow d n s id (record params { cursor = cursor }) ≡ some l)
        × ((x : EvidenceItem) → Memᴰ x l ↔ IsWanted d s id params (low (cursor_index cursor)) x)
  unfolding follow
  follow-step zero cursor early room = absurd (omega (arith, early, room))
  follow-step (suc n) cursor early room =
      let (k, items, asked, cases) = request-cases cursor in
      elim cases [
        | inl (over, exact) ↦
            ((page id (suc k) items).evidence, rw (asked, over, follow) refl, exact)
        | inr g ↦
            let i = g.last.log_index in
            let small : i ≤ most = bounded g.last g.wanted.listed in
            let c : cursor_index (some (next_cursor_of i)) ≡ some (pos i) =
              cursor_index-next_cursor_of i (omega (arith, small, fits)) in
            let up : low (cursor_index (some (next_cursor_of i))) ≡ suc i = ap low c in
            let (l, followed, exact) =
              follow-step n (some (next_cursor_of i)) (omega (arith, up, small))
                (omega (arith, up, g.wanted.late, room)) in
            (
              (page id (suc k) items).evidence ++ l,
              rw (asked, g.cursor, followed, follow) refl,
              λ x. (
                λ m. elim (Memᴰ.append_cases (page id (suc k) items).evidence m) [
                  | inl a ↦ g.sound x a
                  | inr b ↦
                      let w = (exact x).0 b in
                      record {
                        listed = w.listed;
                        meeting = w.meeting;
                        late = omega (arith, w.late, up, g.wanted.late);
                      }
                ],
                λ w. elim (g.complete x w) [
                  | inl a ↦ Memᴰ.append_left l a
                  | inr later ↦ Memᴰ.append_right (page id (suc k) items).evidence (
                      (exact x).1 (record {
                        listed = w.listed;
                        meeting = w.meeting;
                        late = omega (arith, later, up);
                      }))
                ],
              ),
            )
      ]

  -- A client that starts without a cursor and follows it from page to page gets, after at most as many
  -- requests as the largest log index and two more, exactly the evidence of the subject that meets its
  -- conditions on type and time, the latter as the database compares a stored local time with a
  -- parameter that has a zone, whatever limit it sends. Provided that the queries with these conditions
  -- succeed, that nothing is written in between, and that each evidence node of the subject has one
  -- publisher.
  pub follow-IsComplete :
      (n : ℕ)
      → most + 2 ≤ n
      → params.cursor ≡ none
      → (l : List EvidenceItem) × (follow d n s id params ≡ some l)
        × ((x : EvidenceItem)
            → Memᴰ x l ↔ (Memᴰ x (evidence_rows (d.view s) id) × (meets d params x ≡ true)))
  unfolding cursor_index
  follow-IsComplete n room first =
      let start : record params { cursor = none } ≡ params =
        ap (λ c. record params { cursor = c }) (sym first) in
      let (l, followed, exact) = follow-step n none (omega arith) (omega (arith, room)) in
      (
        l,
        subst (λ p. follow d n s id p ≡ some l) start followed,
        λ x. (
          λ m. let w = (exact x).0 m in (w.listed, w.meeting),
          λ (m, h). (exact x).1 (record { listed = m; meeting = h; late = omega arith }),
        ),
      )
