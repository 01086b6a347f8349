-- ===== src/Orchestrator/Domain.antt =====
-- The records and statuses of domain/investigation.py of the orchestrator.
use backend_engineering_note.Prelude.{ℕ, String, Bool, true, false, Option}
use backend_engineering_note.Platform.Rows.{Investigation, InvestigationStatus, queued, processing}

pub data ExternalInvestigationStatus : Type 0 where
  in_progress completed failed not_found : ExternalInvestigationStatus

abbrev pub external_eq : ExternalInvestigationStatus → ExternalInvestigationStatus → Bool
external_eq in_progress in_progress = true
external_eq ExternalInvestigationStatus.completed ExternalInvestigationStatus.completed = true
external_eq ExternalInvestigationStatus.failed ExternalInvestigationStatus.failed = true
external_eq not_found not_found = true
external_eq _ _ = false

unfoldable pub external_status : InvestigationStatus → ExternalInvestigationStatus
external_status queued = in_progress
external_status processing = in_progress
external_status InvestigationStatus.completed = ExternalInvestigationStatus.completed
external_status InvestigationStatus.failed = ExternalInvestigationStatus.failed

pub record InvestigationRecord : Type 0 where
  pub id : ℕ
  pub request_id : ℕ
  pub client_id : ℕ
  pub exception_id : String
  pub event_id : ℕ
  pub status : InvestigationStatus
  pub attempt_count : ℕ
  pub created_at : ℕ
  pub started_at : Option ℕ
  pub completed_at : Option ℕ
  pub last_error_code : Option String

pub record InvestigationInsertResult : Type 0 where
  pub investigation : InvestigationRecord
  pub created : Bool

-- `_record` and `_record_from_mapping` of db/repositories/investigations.py
unfoldable pub record_of : Investigation → InvestigationRecord
record_of r = record {
  id = r.id;
  request_id = r.request_id;
  client_id = r.client_id;
  exception_id = r.exception_id;
  event_id = r.event_id;
  status = r.status;
  attempt_count = r.attempt_count;
  created_at = r.created_at;
  started_at = r.started_at;
  completed_at = r.completed_at;
  last_error_code = r.last_error_code;
}
