-- ===== src/Orchestrator/Select.antt =====
-- The selection of exceptions by pages: `_normalize`, `_select` and `_validate_page` of
-- application/request_filtered_investigations.py. The candidate source of the CTC database is a
-- parameter, and so is what the platform database holds when a page is looked up in it.
pub mod First
pub mod Split
pub mod Pages
use backend_engineering_note.Prelude.{
  ℕ, zero, suc, String, Bool, true, false, not, ◌&&◌, ◌||◌, Option, none, some, List, [], ◌∷◌, ◌++◌,
  map, if◌then◌else◌, ltb, leb, ◌==◌, str_eq, str_lt, length,
}
use backend_engineering_note.Platform.Table.{count_where}
use backend_engineering_note.Platform.Rows.{Investigation, completed, status_eq}
use backend_engineering_note.Orchestrator.Requests.{FilteredSelection}

pub record CandidateCursor : Type 0 where
  pub created_at : ℕ
  pub external_id : String
  pub pk : String

pub data Selection : Type 0 where
  selected : List String → Selection
  candidate_source_unavailable : Selection
  -- the fuel of the model, not a behaviour of the code
  out_of_fuel : Selection

pub data Normalized : Type 0 where
  normalized : FilteredSelection → Normalized
  invalid_filtered_selection bulk_limit_exceeded : Normalized

-- `_normalize`: the time is UTC if it has a zone, and `none` stands for one that has not
unfoldable pub normalize : String → String → ℕ → Option (Option ℕ) → ℕ → Normalized
normalize schema exception_name limit created_at_gte maximum =
    if maximum == 0
    then invalid_filtered_selection
    else if ltb limit maximum
    then bulk_limit_exceeded
    else elim created_at_gte [
      | none ↦ invalid_filtered_selection
      | some since ↦ normalized (record {
        created_at_gte = since;
        max_exceptions = maximum;
        schema = schema;
        exception_name = exception_name;
      })
    ]

-- the order of the tuples (created_at, external_id, pk)
unfoldable pub key_lt : CandidateCursor → CandidateCursor → Bool
key_lt a b =
    ltb a.created_at b.created_at
    || (a.created_at == b.created_at
        && (str_lt a.external_id b.external_id
            || (str_eq a.external_id b.external_id && str_lt a.pk b.pk)))

-- the loop of `_validate_page`: the cursor advances
unfoldable pub advances : Option CandidateCursor → List CandidateCursor → Bool
advances previous [] = true
advances none (row ∷ rows) = advances (some row) rows
advances (some previous) (row ∷ rows) = key_lt previous row && advances (some row) rows

unfoldable pub validate_page : ℕ → Option CandidateCursor → List CandidateCursor → Bool
validate_page page_size cursor page = leb (length page) page_size && advances cursor page

-- `row.external_id in completed`: whether an exception has a completed investigation: a member of `completed_exception_ids`.
unfoldable pub is_completed : List Investigation → String → Bool
is_completed rows e = ltb 0 (
    count_where (λ (r : Investigation). str_eq r.exception_id e && status_eq r.status completed)
      rows)

abbrev pub holds : String → List String → Bool
holds e es = ltb 0 (count_where (λ y. str_eq y e) es)

-- `selected[e] = None`: a key keeps its first place
abbrev pub add_key : String → List String → List String
add_key e es = if holds e es then es else es ++ (e ∷ [])

-- the loop over the rows of a page
unfoldable pub take_page : ℕ → (String → Bool) → List CandidateCursor → List String → List String
take_page maximum history [] chosen = chosen
take_page maximum history (row ∷ rows) chosen =
    let next = if history row.external_id then chosen else add_key row.external_id chosen in
    let rest = take_page maximum history rows next in if length next == maximum then next else rest

abbrev pub last_of : CandidateCursor → List CandidateCursor → CandidateCursor
last_of row [] = row
last_of row (next ∷ rows) = last_of next rows

module _ (page_size : ℕ) (read_page : ℕ → Option CandidateCursor → Option (List CandidateCursor))
    (tables : ℕ → List Investigation) (maximum : ℕ) where
  -- `_select` from its n-th page on; `none` of the source is CandidateSourceUnavailableError
  unfoldable pub select : ℕ → ℕ → Option CandidateCursor → List String → Selection
  select zero n cursor chosen = if ltb (length chosen) maximum then out_of_fuel else selected chosen
  select (suc fuel) n cursor chosen =
      let again = select fuel (suc n) in
      if ltb (length chosen) maximum
      then elim (read_page n cursor) [
        | none ↦ candidate_source_unavailable
        | some page ↦ elim page [
          | [] ↦ selected chosen
          | row ∷ rows ↦
              if validate_page page_size cursor (row ∷ rows)
              then (let next = take_page maximum (is_completed (tables n)) (row ∷ rows) chosen in
                  let more = again (some (last_of row rows)) next in
                  if ltb (length (row ∷ rows)) page_size then selected next else more)
              else candidate_source_unavailable
        ]
      ]
      else selected chosen
