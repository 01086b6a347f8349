-- ===== src/Worker/Failure.antt =====
-- Retry or terminal failure of an investigation: application/record_investigation_failure.py of the
-- worker. Each method runs in one transaction of the platform database.
pub mod Outcomes
pub mod Retries
pub mod Between
use backend_engineering_note.Prelude.{
  ℕ, String, Bool, true, false, ◌&&◌, ◌||◌, Option, none, some, if◌then◌else◌, leb, sql_eq,
}
use backend_engineering_note.Platform.Rows.{
  Investigation, InvestigationStatus, queued, processing, status_eq,
}
use backend_engineering_note.Platform.Update.{get_row}
use backend_engineering_note.Worker.Errors.{Failure}
use backend_engineering_note.Worker.Repository.{
  Rows, InvestigationFailureMutation, apply_failure_transition,
}

pub record ClassifiedInvestigationFailure : Type 0 where
  pub error_code : String
  pub message : String
  pub permanent : Bool

pub data FailureOutcome : Type 0 where
  retry failed ownership_lost : FailureOutcome

pub record RecordedFailure : Type 0 where
  pub outcome : FailureOutcome
  pub attempt_count : Option ℕ

unfoldable pub classify_investigation_failure : Failure → ClassifiedInvestigationFailure
classify_investigation_failure (Failure.transient code message) = record {
  error_code = code;
  message = message;
  permanent = false;
}
classify_investigation_failure (Failure.permanent code message) = record {
  error_code = code;
  message = message;
  permanent = true;
}
classify_investigation_failure Failure.ownership_lost = record {
  error_code = "internal_error";
  message = "Investigation lease ownership was lost";
  permanent = false;
}
classify_investigation_failure (Failure.unexpected message) = record {
  error_code = "internal_error";
  message = message;
  permanent = false;
}

-- The row is in the caller's hands: `status is PROCESSING and worker_id == worker_id`.
abbrev pub in_hand : ℕ → Investigation → Bool
in_hand w r = status_eq r.status processing && sql_eq r.worker_id w

unfoldable pub target_of : ℕ → ClassifiedInvestigationFailure → ℕ → InvestigationStatus
target_of max_attempts failure attempt_count =
    if failure.permanent || leb max_attempts attempt_count
    then InvestigationStatus.failed
    else queued

unfoldable pub mutation_of :
    ℕ
    → ℕ
    → ClassifiedInvestigationFailure
    → InvestigationStatus
    → ℕ
    → ℕ
    → InvestigationFailureMutation
mutation_of i w failure target attempt_count clock = record {
  investigation_id = i;
  worker_id = w;
  expected_attempt_count = attempt_count;
  target_status = target;
  completed_at = if status_eq target InvestigationStatus.failed then some clock else none;
  error_code = failure.error_code;
  error_message = failure.message;
}

abbrev ownership_lost_with : Option ℕ → RecordedFailure
ownership_lost_with attempts = record { outcome = ownership_lost; attempt_count = attempts }

-- What both methods do with their mutation; a refused update leaves the transaction without a commit.
unfoldable pub transition :
    ℕ
    → ℕ
    → ClassifiedInvestigationFailure
    → InvestigationStatus
    → ℕ
    → ℕ
    → Rows
    → Rows × RecordedFailure
transition i w failure target attempt_count clock rows =
    let (after, applied) =
      apply_failure_transition (mutation_of i w failure target attempt_count clock) rows in
    if applied
    then (
      after,
      record {
        outcome =
            if status_eq target InvestigationStatus.failed then FailureOutcome.failed else retry;
        attempt_count = some attempt_count;
      },
    )
    else (rows, ownership_lost_with (some attempt_count))

on_state :
    ℕ
    → ℕ
    → ℕ
    → ℕ
    → ClassifiedInvestigationFailure
    → Option Investigation
    → Rows
    → Rows × RecordedFailure
on_state max_attempts clock i w failure none rows = (rows, ownership_lost_with none)
on_state max_attempts clock i w failure (some r) rows =
    if in_hand w r
    then transition i w failure (target_of max_attempts failure r.attempt_count) r.attempt_count
        clock rows
    else (rows, ownership_lost_with none)

-- `RecordInvestigationFailure.execute`, where no other session commits between its read and its
-- update
unfoldable pub record_failure :
    ℕ → ℕ → ℕ → ℕ → ClassifiedInvestigationFailure → Rows → Rows × RecordedFailure
unfolding on_state
record_failure max_attempts clock i w failure rows =
    on_state max_attempts clock i w failure (get_row i rows) rows

-- `RecordInvestigationFailure.execute`, where other sessions commit between the read and the update,
-- as READ COMMITTED lets them.
unfoldable pub record_failure_between :
    (Rows → Rows) → ℕ → ℕ → ℕ → ℕ → ClassifiedInvestigationFailure → Rows → Rows × RecordedFailure
unfolding on_state
record_failure_between others max_attempts clock i w failure rows =
    on_state max_attempts clock i w failure (get_row i rows) (others rows)

abbrev pub shutdown_interrupted : ClassifiedInvestigationFailure
shutdown_interrupted = record {
  error_code = "shutdown_interrupted";
  message = "Worker shutdown grace period expired";
  permanent = false;
}

-- a return to the queue has no completion time, so it reads no clock
release_state : ℕ → ℕ → Option Investigation → Rows → Rows × RecordedFailure
release_state i w none rows = (rows, ownership_lost_with none)
release_state i w (some r) rows =
    if in_hand w r
    then transition i w shutdown_interrupted queued r.attempt_count 0 rows
    else (rows, ownership_lost_with none)

unfoldable pub release_interrupted : ℕ → ℕ → Rows → Rows × RecordedFailure
unfolding release_state
release_interrupted i w rows = release_state i w (get_row i rows) rows
