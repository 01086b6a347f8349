-- ===== src/Worker/Reconciliation.antt =====
-- The reconciler's statements: db/platform/reconciliation.py of the worker, with the records of
-- ports/reconciliation_store.py. Rows read for update are locked until the transaction ends.

pub mod Retention
use backend_engineering_note.Prelude.{
  ℕ, String, Bool, true, false, not, ◌&&◌, ◌||◌, Option, none, some, List, [], ◌∷◌, map,
  if◌then◌else◌, ltb, ◌==◌, sql_lt, is_some, min,
}
use backend_engineering_note.Platform.Table.{count_where, select_where, delete_where}
use backend_engineering_note.Platform.Rows.{
  Investigation, InvestigationStatus, queued, processing, completed, failed, status_eq, OutboxEvent,
  ApiRequest, ApiRequestInvestigation, Database, is_active,
}
use backend_engineering_note.Platform.Update.{update_row}
use backend_engineering_note.Worker.Repository.{Rows}

pub record ObservedInvestigation : Type 0 where
  pub id : ℕ
  pub status : InvestigationStatus
  pub worker_id : Option ℕ
  pub lease_expires_at : Option ℕ
  pub observed_at : ℕ

pub record ReconciliationMutation : Type 0 where
  pub investigation_id : ℕ
  pub expected_status : InvestigationStatus
  pub expected_worker_id : Option ℕ
  pub expected_lease_expires_at : Option ℕ
  pub target_status : InvestigationStatus
  pub completed_at : ℕ
  pub error_code : String
  pub error_message : String

unfoldable pub observe : ℕ → Investigation → ObservedInvestigation
observe now r = record {
  id = r.id;
  status = r.status;
  worker_id = r.worker_id;
  lease_expires_at = r.lease_expires_at;
  observed_at = now;
}

unfoldable pub contains : List ℕ → ℕ → Bool
contains [] a = false
contains (x ∷ xs) a = a == x || contains xs a

-- The caller keys the result by `id`, so the order of the rows is left as the table has it.
unfoldable pub read_for_update : ℕ → List ℕ → Rows → List ObservedInvestigation
read_for_update now ids rows = map (observe now) (select_where (λ r. contains ids r.id) rows)

-- `column IS NULL` or `column = value`
abbrev pub same_value : Option ℕ → Option ℕ → Bool
same_value none none = true
same_value none (some b) = false
same_value (some a) none = false
same_value (some a) (some b) = a == b

unfoldable pub is_expected : ReconciliationMutation → Investigation → Bool
is_expected m r =
    status_eq r.status m.expected_status
    && (same_value r.worker_id m.expected_worker_id
        && same_value r.lease_expires_at m.expected_lease_expires_at)

unfoldable pub mutation_values : ReconciliationMutation → Investigation → Investigation
mutation_values m r = record r {
  status = m.target_status;
  completed_at = some m.completed_at;
  worker_id = none;
  lease_expires_at = none;
  last_error_code = some m.error_code;
  last_error_message = some m.error_message;
}

unfoldable pub apply_mutation : ReconciliationMutation → Rows → Rows × Bool
apply_mutation m rows =
    let (after, matched) = update_row m.investigation_id (is_expected m) (mutation_values m) rows in
    (after, not (matched == 0))

-- Rows, outbox events and requests that a retention pass removed.
pub record RetentionDeletes : Type 0 where
  pub outbox_events : ℕ
  pub investigations : ℕ
  pub api_requests : ℕ

unfoldable pub is_expired_event : ℕ → OutboxEvent → Bool
is_expired_event cutoff e = sql_lt e.published_at cutoff

unfoldable pub is_expired_investigation : ℕ → Investigation → Bool
is_expired_investigation cutoff r = not (is_active r) && sql_lt r.completed_at cutoff

unfoldable pub references : ℕ → Investigation → Bool
references request_id r = r.request_id == request_id

unfoldable pub is_expired_request : ℕ → Rows → ApiRequest → Bool
is_expired_request cutoff rows q =
    ltb q.created_at cutoff && count_where (references q.id) rows == 0

unfoldable pub count_stale_processing : ℕ → Rows → ℕ
count_stale_processing expired_before =
    count_where (λ r. status_eq r.status processing && sql_lt r.lease_expires_at expired_before)

-- min(created_at) of the events without a publication time
unfoldable pub oldest_unpublished_at : List OutboxEvent → Option ℕ
oldest_unpublished_at [] = none
oldest_unpublished_at (e ∷ es) =
    let oldest = oldest_unpublished_at es in
    if is_some e.published_at
    then oldest
    else elim oldest [ none ↦ some e.created_at | some t ↦ some (min e.created_at t) ]

-- `count_by_status`; a status without rows has no entry
unfoldable pub count_by_status : InvestigationStatus → Rows → ℕ
count_by_status s = count_where (λ r. status_eq r.status s)

-- ON DELETE CASCADE of both foreign keys: a membership goes with a row that a delete removes, its
-- investigation or its request.
unfoldable pub is_cascaded : Rows → List ApiRequest → ApiRequestInvestigation → Bool
is_cascaded removed_rows removed_requests m =
    ltb 0 (count_where (λ r. r.id == m.investigation_id) removed_rows)
    || ltb 0 (count_where (λ (q : ApiRequest). q.id == m.request_id) removed_requests)

unfoldable pub delete_expired : ℕ → Database → Database × RetentionDeletes
delete_expired cutoff db =
    let rows = delete_where (is_expired_investigation cutoff) db.investigations in
    let requests = delete_where (is_expired_request cutoff rows) db.api_requests in
    (
      record db {
        outbox_events = delete_where (is_expired_event cutoff) db.outbox_events;
        investigations = rows;
        api_requests = requests;
        memberships =
            delete_where
              (is_cascaded (select_where (is_expired_investigation cutoff) db.investigations)
                (select_where (is_expired_request cutoff rows) db.api_requests))
              db.memberships;
      },
      record {
        outbox_events = count_where (is_expired_event cutoff) db.outbox_events;
        investigations = count_where (is_expired_investigation cutoff) db.investigations;
        api_requests = count_where (is_expired_request cutoff rows) db.api_requests;
      },
    )
