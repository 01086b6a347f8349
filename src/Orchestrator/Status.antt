-- ===== src/Orchestrator/Status.antt =====
-- The status of a request: QueryInvestigationRequestStatus of application/query_status.py, with the
-- statements that it reads.
pub mod Summary
pub mod Batch
use backend_engineering_note.Prelude.{
  ℕ, suc, ◌+◌, String, Bool, true, false, ◌&&◌, Option, none, some, List, [], ◌∷◌, map,
  if◌then◌else◌, ltb, leb, ◌==◌, length,
}
use backend_engineering_note.Platform.Table.{count_where, select_where}
use backend_engineering_note.Platform.Rows.{
  Investigation, ApiRequest, ApiRequestInvestigation, Database,
}
use backend_engineering_note.Platform.Update.{get_row}
use backend_engineering_note.Orchestrator.Domain.{
  ExternalInvestigationStatus, not_found, external_eq, external_status, InvestigationRecord,
  record_of,
}

pub record InvestigationStatusItem : Type 0 where
  pub investigation_id : Option ℕ
  pub exception_id : Option String
  pub status : ExternalInvestigationStatus
  pub attempt_count : Option ℕ
  pub created_at : Option ℕ
  pub started_at : Option ℕ
  pub completed_at : Option ℕ
  pub last_error_code : Option String

-- `_item`: a record, or what was asked for
unfoldable pub item :
    Option InvestigationRecord → Option ℕ → Option String → InvestigationStatusItem
item none investigation_id exception_id = record {
  investigation_id = investigation_id;
  exception_id = exception_id;
  status = not_found;
  attempt_count = none;
  created_at = none;
  started_at = none;
  completed_at = none;
  last_error_code = none;
}
item (some r) investigation_id exception_id = record {
  investigation_id = some r.id;
  exception_id = some r.exception_id;
  status = external_status r.status;
  attempt_count = some r.attempt_count;
  created_at = some r.created_at;
  started_at = r.started_at;
  completed_at = r.completed_at;
  last_error_code = r.last_error_code;
}

pub record RequestStatusSummary : Type 0 where
  pub total : ℕ
  pub in_progress : ℕ
  pub completed : ℕ
  pub failed : ℕ

-- `counts[status]` after the loop
unfoldable pub count_status : ExternalInvestigationStatus → List InvestigationStatusItem → ℕ
count_status s [] = 0
count_status s (i ∷ is) =
    let rest = count_status s is in if external_eq i.status s then suc rest else rest

unfoldable pub summarize : List InvestigationStatusItem → RequestStatusSummary
summarize investigations = record {
  total = length investigations;
  in_progress = count_status ExternalInvestigationStatus.in_progress investigations;
  completed = count_status ExternalInvestigationStatus.completed investigations;
  failed = count_status ExternalInvestigationStatus.failed investigations;
}

pub data AggregateRequestStatus : Type 0 where
  in_progress completed failed : AggregateRequestStatus

unfoldable pub aggregate_status : RequestStatusSummary → AggregateRequestStatus
aggregate_status summary =
    if ltb 0 summary.in_progress
    then AggregateRequestStatus.in_progress
    else if ltb 0 summary.failed
    then AggregateRequestStatus.failed
    else AggregateRequestStatus.completed

pub record InvestigationRequestStatus : Type 0 where
  pub request_id : ℕ
  pub status : AggregateRequestStatus
  pub summary : RequestStatusSummary
  pub investigations : List InvestigationStatusItem

-- SELECT id … WHERE id = … AND client_id = …
unfoldable pub exists_for_client : ℕ → ℕ → Database → Bool
exists_for_client request_id client_id db = ltb 0 (
    count_where (λ (q : ApiRequest). q.id == request_id && q.client_id == client_id)
      db.api_requests)

-- ORDER BY position
unfoldable pub insert_by_position :
    ApiRequestInvestigation → List ApiRequestInvestigation → List ApiRequestInvestigation
insert_by_position m [] = m ∷ []
insert_by_position m (n ∷ ns) =
    let rest = insert_by_position m ns in if leb m.position n.position then m ∷ n ∷ ns else n ∷ rest

unfoldable pub by_position : List ApiRequestInvestigation → List ApiRequestInvestigation
by_position [] = []
by_position (m ∷ ms) = insert_by_position m (by_position ms)

-- the join on the primary key of the investigations
unfoldable pub joined : List ApiRequestInvestigation → List Investigation → List InvestigationRecord
joined [] rows = []
joined (m ∷ ms) rows =
    let rest = joined ms rows in
    elim (get_row m.investigation_id rows) [ none ↦ rest | some r ↦ record_of r ∷ rest ]

unfoldable pub by_api_request_id : ℕ → Database → List InvestigationRecord
by_api_request_id request_id db =
    joined
      (by_position
        (select_where (λ (m : ApiRequestInvestigation). m.request_id == request_id) db.memberships))
      db.investigations

unfoldable pub items_of : List InvestigationRecord → List InvestigationStatusItem
items_of [] = []
items_of (r ∷ rs) = item (some r) none none ∷ items_of rs

unfoldable pub answer : ℕ → List InvestigationStatusItem → InvestigationRequestStatus
answer request_id investigations = record {
  request_id = request_id;
  status = aggregate_status (summarize investigations);
  summary = summarize investigations;
  investigations = investigations;
}

-- `QueryInvestigationRequestStatus.execute`; `none` is InvestigationRequestNotFoundError
unfoldable pub request_status : ℕ → ℕ → Database → Option InvestigationRequestStatus
request_status request_id client_id db =
    if exists_for_client request_id client_id db
    then some (answer request_id (items_of (by_api_request_id request_id db)))
    else none
