-- ===== src/Orchestrator/Status/Summary.antt =====
-- What the summary of a request says of its investigations.
use backend_engineering_note.Prelude.{
  ℕ, ◌+◌, ◌<◌, ◌≡◌, ◌↔◌, ◌⊎◌, inl, inr, Bool-cases, refl, subst, some, List, [], ◌∷◌, arith, length,
  All,
}
use backend_engineering_note.Platform.Table.{count_where}
use backend_engineering_note.Platform.Rows.{Database}
use backend_engineering_note.Orchestrator.Domain.{
  ExternalInvestigationStatus, not_found, external_eq, external_status, InvestigationRecord,
}
use backend_engineering_note.Orchestrator.Status.{
  InvestigationStatusItem, item, count_status, summarize, AggregateRequestStatus, aggregate_status,
  InvestigationRequestStatus, answer, items_of, by_api_request_id, request_status,
}

abbrev pub IsCompleted : InvestigationStatusItem → Type 0
IsCompleted i = i.status ≡ ExternalInvestigationStatus.completed

-- The items in a state, counted over the answer's own list.
abbrev pub items_in : ExternalInvestigationStatus → List InvestigationStatusItem → ℕ
items_in s items = count_where (λ (i : InvestigationStatusItem). external_eq i.status s) items

-- Some item is in progress.
abbrev pub SomeInProgress : List InvestigationStatusItem → Type 0
SomeInProgress [] = ⊥
SomeInProgress (i ∷ is) = (i.status ≡ ExternalInvestigationStatus.in_progress) ⊎ SomeInProgress is

count_status-items_in :
    (s : ExternalInvestigationStatus) (items : List InvestigationStatusItem)
    → count_status s items ≡ items_in s items
unfolding count_status count_where
count_status-items_in s [] = refl
count_status-items_in s (i ∷ is) = elim (Bool-cases (external_eq i.status s)) [
  | inl e ↦ ground (arith, e, count_status-items_in s is)
  | inr e ↦ ground (arith, e, count_status-items_in s is)
]

some_counted :
    (items : List InvestigationStatusItem)
    → 0 < count_status ExternalInvestigationStatus.in_progress items
    → SomeInProgress items
unfolding count_status
some_counted [] h = absurd (omega (arith, h))
some_counted (i ∷ is) h = by i.status refl (some_counted is)
  where
    by :
        (s : ExternalInvestigationStatus)
        → i.status ≡ s
        → (0 < count_status ExternalInvestigationStatus.in_progress is → SomeInProgress is)
        → SomeInProgress (i ∷ is)
    by ExternalInvestigationStatus.in_progress e f = inl e
    by ExternalInvestigationStatus.completed e f = inr (f (ground (arith, h, e)))
    by ExternalInvestigationStatus.failed e f = inr (f (ground (arith, h, e)))
    by not_found e f = inr (f (ground (arith, h, e)))

counted_some :
    (items : List InvestigationStatusItem)
    → SomeInProgress items
    → 0 < count_status ExternalInvestigationStatus.in_progress items
unfolding count_status
counted_some [] h = absurd h
counted_some (i ∷ is) (inl e) = ground (arith, e)
counted_some (i ∷ is) (inr h) = ground (arith, counted_some is h)

-- Every investigation of a request is in one of three states.
total_of_states :
    (rs : List InvestigationRecord)
    → let items = items_of rs in
      length items
      ≡ count_status ExternalInvestigationStatus.in_progress items
        + count_status ExternalInvestigationStatus.completed items
        + count_status ExternalInvestigationStatus.failed items
unfolding items_of item count_status external_status
total_of_states [] = refl
total_of_states (r ∷ rs) = ground (arith, total_of_states rs)

All-IsCompleted :
    (rs : List InvestigationRecord)
    → let items = items_of rs in
      count_status ExternalInvestigationStatus.in_progress items ≡ 0
      → count_status ExternalInvestigationStatus.failed items ≡ 0
      → All IsCompleted items
unfolding items_of item count_status external_status
All-IsCompleted [] p f = tt
All-IsCompleted (r ∷ rs) p f = (ground arith, All-IsCompleted rs (ground arith) (ground arith))

none_open :
    (items : List InvestigationStatusItem)
    → All IsCompleted items
    → (count_status ExternalInvestigationStatus.in_progress items ≡ 0)
      × (count_status ExternalInvestigationStatus.failed items ≡ 0)
unfolding count_status
none_open [] a = (refl, refl)
none_open (i ∷ is) a = ground (arith, a.0, none_open is a.1)

-- A status that counts its investigations.
abbrev pub Counts : InvestigationRequestStatus → Type 0
Counts s =
    (s.summary.total ≡ s.summary.in_progress + s.summary.completed + s.summary.failed)
    × (s.summary.in_progress ≡ items_in ExternalInvestigationStatus.in_progress s.investigations)
    × (s.summary.completed ≡ items_in ExternalInvestigationStatus.completed s.investigations)
    × (s.summary.failed ≡ items_in ExternalInvestigationStatus.failed s.investigations)
    × ((s.status ≡ AggregateRequestStatus.in_progress) ↔ SomeInProgress s.investigations)
    × ((s.status ≡ AggregateRequestStatus.completed) ↔ All IsCompleted s.investigations)

answer-Counts :
    (request_id : ℕ) (rs : List InvestigationRecord) → Counts (answer request_id (items_of rs))
unfolding answer summarize aggregate_status
answer-Counts request_id rs = (
  total_of_states rs,
  count_status-items_in ExternalInvestigationStatus.in_progress (items_of rs),
  count_status-items_in ExternalInvestigationStatus.completed (items_of rs),
  count_status-items_in ExternalInvestigationStatus.failed (items_of rs),
  (
    λ h. some_counted (items_of rs) (ground arith),
    λ h. ground (arith, counted_some (items_of rs) h),
  ),
  (
    λ h. All-IsCompleted rs (ground arith) (ground arith),
    λ h. ground (arith, (none_open (items_of rs) h).0, (none_open (items_of rs) h).1),
  ),
)

-- If a request is found, its summary counts the items of the answer in each of the three states, and
-- its total is their sum; its status is in progress exactly if some item is, and completed exactly
-- if all are.
pub request_status_lem :
    (request_id client_id : ℕ) (db : Database) (s : InvestigationRequestStatus)
    → request_status request_id client_id db ≡ some s
    → (s.summary.total ≡ s.summary.in_progress + s.summary.completed + s.summary.failed)
      × (s.summary.in_progress ≡ items_in ExternalInvestigationStatus.in_progress s.investigations)
      × (s.summary.completed ≡ items_in ExternalInvestigationStatus.completed s.investigations)
      × (s.summary.failed ≡ items_in ExternalInvestigationStatus.failed s.investigations)
      × ((s.status ≡ AggregateRequestStatus.in_progress) ↔ SomeInProgress s.investigations)
      × ((s.status ≡ AggregateRequestStatus.completed) ↔ All IsCompleted s.investigations)
unfolding request_status
request_status_lem request_id client_id db s h =
    let same : answer request_id (items_of (by_api_request_id request_id db)) ≡ s = ground arith in
    subst Counts same (answer-Counts request_id (by_api_request_id request_id db))
