-- ===== src/Orchestrator/Select/Pages.antt =====
-- Paging leaves no trace: the selection is what one page with every candidate would select.
use backend_engineering_note.Prelude.{
  ℕ, zero, suc, ◌≤◌, ◌<◌, ◌≡◌, refl, sym, ap, ◌∙◌, String, Bool, true, false, Option, none, some,
  List, [], ◌∷◌, ◌++◌, arith, if◌then◌else◌, ltb, ◌==◌, length, length-take, length-append, take,
  Bool-cases, inl, inr,
}
use backend_engineering_note.Platform.Rows.{Investigation}
use backend_engineering_note.Orchestrator.Accept.{from_keys}
use backend_engineering_note.Orchestrator.Select.{
  CandidateCursor, Selection, selected, advances, validate_page, add_key, take_page, last_of,
  is_completed, select,
}
use backend_engineering_note.Orchestrator.Select.Split.{
  drop, take-drop, length-drop, drop-short, advances-append, append_one, split-last,
}
use backend_engineering_note.Orchestrator.Select.First.{open_ids, append_nil, take_page_first}

-- Two pages in a row: the second counts if there is room after the first.
take_page-append :
    (maximum : ℕ) (history : String → Bool) (xs ys : List CandidateCursor) (chosen : List String)
    → length chosen < maximum
    → take_page maximum history (xs ++ ys) chosen ≡ (
        if ltb (length (take_page maximum history xs chosen)) maximum
        then take_page maximum history ys (take_page maximum history xs chosen)
        else take_page maximum history xs chosen)
unfolding take_page
take_page-append maximum history [] ys chosen h =
    let room : ltb (length chosen) maximum ≡ true = ground (arith, h) in rw room refl
take_page-append maximum history (row ∷ xs) ys chosen h =
    by (if history row.external_id then chosen else add_key row.external_id chosen)
      (ground (arith, h, length-append chosen (row.external_id ∷ [])))
      (take_page-append maximum history xs ys)
  where
    by :
        (next : List String)
        → length next ≤ maximum
        → ((chosen : List String)
            → length chosen < maximum
            → take_page maximum history (xs ++ ys) chosen ≡ (
                if ltb (length (take_page maximum history xs chosen)) maximum
                then take_page maximum history ys (take_page maximum history xs chosen)
                else take_page maximum history xs chosen))
        → (if length next == maximum then next else take_page maximum history (xs ++ ys) next) ≡ (
            let first =
              if length next == maximum then next else take_page maximum history xs next in
            if ltb (length first) maximum then take_page maximum history ys first else first)
    by next short ih = elim (Bool-cases (length next == maximum)) [
      | inl full ↦
          let none_left : ltb (length next) maximum ≡ false = ground (arith, full) in
          rw (full, none_left) refl
      | inr room ↦ rw room (ih next (ground (arith, short, room)))
    ]

-- A source of candidates in ascending order, read by pages after a cursor.
pub record IsSource (page_size : ℕ)
    (read_page : ℕ → Option CandidateCursor → Option (List CandidateCursor))
    (all : List CandidateCursor) : Type 0 where
  pub ascending : advances none all ≡ true
  pub first : (n : ℕ) → read_page n none ≡ some (take page_size all)
  pub next :
      (n : ℕ) (xs ys : List CandidateCursor) (c : CandidateCursor)
      → all ≡ xs ++ (c ∷ ys)
      → read_page n (some c) ≡ some (take page_size ys)

-- What is still to be read after a cursor.
record IsRest (page_size : ℕ)
    (read_page : ℕ → Option CandidateCursor → Option (List CandidateCursor))
    (all : List CandidateCursor) (cursor : Option CandidateCursor) (rest : List CandidateCursor)
    : Type 0 where
  ordered : advances cursor rest ≡ true
  reads : (n : ℕ) → read_page n cursor ≡ some (take page_size rest)
  split : (xs : List CandidateCursor) × (all ≡ xs ++ rest)

module _ (page : ℕ) (read_page : ℕ → Option CandidateCursor → Option (List CandidateCursor))
    (table : List Investigation) (maximum : ℕ) (all : List CandidateCursor)
    (source : IsSource (suc page) read_page all) where
  abbrev history : String → Bool
  history = is_completed table

  abbrev go : ℕ → ℕ → Option CandidateCursor → List String → Selection
  go = select (suc page) read_page (λ n. table) maximum

  select_full :
      (fuel n : ℕ) (cursor : Option CandidateCursor) (chosen : List String)
      → ltb (length chosen) maximum ≡ false
      → go fuel n cursor chosen ≡ selected chosen
  unfolding select
  select_full zero n cursor chosen h = rw h refl
  select_full (suc fuel) n cursor chosen h = rw h refl

  last_of-IsRest :
      (cursor : Option CandidateCursor) (row : CandidateCursor) (rows : List CandidateCursor)
      → IsRest (suc page) read_page all cursor (row ∷ rows)
      → IsRest (suc page) read_page all (some (last_of row (take page rows))) (drop page rows)
  last_of-IsRest cursor row rows r =
      let whole = take-drop page rows in
      let ordered_all : advances cursor (row ∷ (take page rows ++ drop page rows)) ≡ true =
        ap (λ l. advances cursor (row ∷ l)) (sym whole) ∙ r.ordered in
      let (xs, e) = r.split in
      let (front, f) = split-last xs row (take page rows) (drop page rows) in
      let parts : all ≡ front ++ (last_of row (take page rows) ∷ drop page rows) =
        e ∙ (ap (λ l. xs ++ (row ∷ l)) whole ∙ f) in
      record {
        ordered = (advances-append cursor row (take page rows) (drop page rows) ordered_all).1;
        reads = λ n. source.next n front (drop page rows) (last_of row (take page rows)) parts;
        split = (
          front ++ (last_of row (take page rows) ∷ []),
          parts ∙ sym (append_one front (last_of row (take page rows)) (drop page rows)),
        );
      }

  take_page-whole :
      (row : CandidateCursor) (rows : List CandidateCursor) (chosen : List String)
      → length chosen < maximum
      → let next = take_page maximum history (row ∷ take page rows) chosen in
        take_page maximum history (row ∷ rows) chosen ≡ (
          if ltb (length next) maximum
          then take_page maximum history (drop page rows) next
          else next)
  take_page-whole row rows chosen h =
      ap (λ l. take_page maximum history (row ∷ l) chosen) (take-drop page rows)
      ∙ take_page-append maximum history (row ∷ take page rows) (drop page rows) chosen h

  -- What a page chooses is the answer, or the pages after it give the answer.
  after_page :
      (fuel n : ℕ) (row : CandidateCursor) (rows : List CandidateCursor) (chosen : List String)
      → length chosen < maximum
      → ((next : List String)
          → length next < maximum
          → go fuel n (some (last_of row (take page rows))) next
            ≡ selected (take_page maximum history (drop page rows) next))
      → (let next = take_page maximum history (row ∷ take page rows) chosen in
          if ltb (length (row ∷ take page rows)) (suc page)
          then selected next
          else go fuel n (some (last_of row (take page rows))) next)
        ≡ selected (take_page maximum history (row ∷ rows) chosen)
  after_page fuel n row rows chosen h ih =
      let next = take_page maximum history (row ∷ take page rows) chosen in
      let whole = take_page-whole row rows chosen h in
      elim (Bool-cases (ltb (length (row ∷ take page rows)) (suc page))) [
        | inl short ↦
            let end = drop-short page rows (ground (arith, short)) in
            let all_read : take page rows ≡ rows = sym (
              take-drop page rows
              ∙ (ap (λ l. take page rows ++ l) end ∙ append_nil (take page rows))) in
            rw short (ap (λ l. selected (take_page maximum history (row ∷ l) chosen)) all_read)
        | inr full ↦ elim (Bool-cases (ltb (length next) maximum)) [
          | inl room ↦
              rw full (ih next (ground (arith, room)) ∙ ap selected (sym (rw room at whole)))
          | inr none_left ↦ rw full (
              select_full fuel n (some (last_of row (take page rows))) next none_left
              ∙ ap selected (sym (rw none_left at whole)))
        ]
      ]

  take_page_nil : (chosen : List String) → take_page maximum history [] chosen ≡ chosen
  unfolding take_page
  take_page_nil chosen = refl

  page_valid :
      (cursor : Option CandidateCursor) (row : CandidateCursor) (rows : List CandidateCursor)
      → advances cursor (row ∷ rows) ≡ true
      → validate_page (suc page) cursor (row ∷ take page rows) ≡ true
  unfolding validate_page
  page_valid cursor row rows h =
      let ordered : advances cursor (row ∷ (take page rows ++ drop page rows)) ≡ true =
        ap (λ l. advances cursor (row ∷ l)) (sym (take-drop page rows)) ∙ h in
      ground (
        arith,
        length-take page rows,
        (advances-append cursor row (take page rows) (drop page rows) ordered).0,
      )

  select_rest :
      (fuel n : ℕ) (cursor : Option CandidateCursor) (rest : List CandidateCursor)
      (chosen : List String)
      → IsRest (suc page) read_page all cursor rest
      → length rest < fuel
      → length chosen < maximum
      → go fuel n cursor chosen ≡ selected (take_page maximum history rest chosen)
  unfolding select
  select_rest zero n cursor rest chosen r f h = absurd (omega (arith, f))
  select_rest (suc fuel) n cursor [] chosen r f h =
      let room : ltb (length chosen) maximum ≡ true = ground (arith, h) in
      rw (room, r.reads n, take_page_nil chosen) refl
  select_rest (suc fuel) n cursor (row ∷ rows) chosen r f h =
      let room : ltb (length chosen) maximum ≡ true = ground (arith, h) in
      rw (room, r.reads n, page_valid cursor row rows r.ordered)
        (after_page fuel (suc n) row rows chosen h λ next k.
          select_rest fuel (suc n) (some (last_of row (take page rows))) (drop page rows) next
            (last_of-IsRest cursor row rows r) (omega (arith, f, length-drop page rows)) k)

  -- With more fuel than candidates, a selection from a source that gives ascending candidates by
  -- pages after a cursor ends without an error, and selects the first distinct exceptions in the
  -- source's order that have no completed investigation, up to a positive maximum: the same for
  -- every page size from one on. The source and the investigations do not change meanwhile.
  pub select_first :
      (fuel : ℕ)
      → length all < fuel
      → 0 < maximum
      → select (suc page) read_page (λ n. table) maximum fuel 0 none []
        ≡ selected (take maximum (from_keys (open_ids (is_completed table) all)))
  select_first fuel f positive =
      select_rest fuel 0 none all []
        (record { ordered = source.ascending; reads = source.first; split = ([], refl) }) f positive
      ∙ ap selected (take_page_first maximum history all positive)
