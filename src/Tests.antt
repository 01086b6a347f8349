-- ===== src/Tests.antt =====
-- Concrete rows and values for the tests.
pub mod Leases
pub mod Failures
pub mod Attempts
pub mod Comments
pub mod Reconciliations
pub mod Batches
pub mod Statuses
pub mod Publications
pub mod Deliveries
pub mod Admissions
pub mod Selections
pub mod Resolutions
pub mod Queries
use backend_engineering_note.Prelude.{
  ℕ, ◌≡◌, refl, false, arith, String, Option, none, some, List, [], ◌∷◌,
}
use backend_engineering_note.Platform.Rows.{
  Investigation, InvestigationStatus, queued, processing, Database, OutboxEvent, ApiRequest,
  explicit, ApiRequestInvestigation,
}
use backend_engineering_note.Platform.Table.{count_where}
use backend_engineering_note.Platform.Consistency.{IsValid, IsConsistent}
use backend_engineering_note.Worker.Failure.{ClassifiedInvestigationFailure}

-- A queued row, as it is inserted.
abbrev pub new_row : ℕ → String → Investigation
new_row id exception_id = record {
  id = id;
  request_id = 1;
  client_id = 2;
  exception_id = exception_id;
  event_id = id;
  status = queued;
  attempt_count = 0;
  worker_id = none;
  lease_expires_at = none;
  last_heartbeat_at = none;
  created_at = 5;
  started_at = none;
  completed_at = none;
  last_error_code = none;
  last_error_message = none;
  report = none;
  report_uri = none;
  analysis = none;
  analysis_persisted_at = none;
  comment_outcome = none;
  comment_written_at = none;
  comment_detail = none;
  codes_outcome = none;
  codes_written_at = none;
  codes_detail = none;
}

-- The same row, claimed by a worker at 10 with a lease until 40.
abbrev pub held_row : ℕ → ℕ → Investigation
held_row id worker = record (new_row id "E-1") {
  status = processing;
  attempt_count = 1;
  worker_id = some worker;
  lease_expires_at = some 40;
  last_heartbeat_at = some 10;
  started_at = some 10;
}

-- A finished row.
abbrev pub done_row : ℕ → Investigation
done_row id = record (new_row id "E-9") {
  status = InvestigationStatus.completed;
  attempt_count = 1;
  started_at = some 6;
  completed_at = some 9;
}

abbrev pub two_rows : List Investigation
two_rows = new_row 7 "E-1" ∷ done_row 8 ∷ []

abbrev pub held_rows : List Investigation
held_rows = done_row 8 ∷ held_row 7 3 ∷ []

abbrev pub outage : ClassifiedInvestigationFailure
outage = record { error_code = "analysis_unavailable"; message = "down"; permanent = false }

pub new_row-IsValid : (id : ℕ) (exception_id : String) → IsValid (new_row id exception_id)
new_row-IsValid id exception_id = record {
  owned = λ h. absurd (ground arith);
  leased = λ h. absurd (ground arith);
  started = λ h. absurd (ground arith);
  attempted = λ h. absurd (ground arith);
  released = λ h. (refl, refl);
  open_active = λ h. refl;
  closed_inactive = λ h. absurd (ground arith);
  checkpointed = refl;
}

done_row-IsValid : (id : ℕ) → IsValid (done_row id)
done_row-IsValid id = record {
  owned = λ h. absurd (ground arith);
  leased = λ h. absurd (ground arith);
  started = λ h. absurd (ground arith);
  attempted = λ h. absurd (ground arith);
  released = λ h. (refl, refl);
  open_active = λ h. absurd (ground arith);
  closed_inactive = λ h. refl;
  checkpointed = refl;
}

pub held_row-IsValid : (id worker : ℕ) → IsValid (held_row id worker)
held_row-IsValid id worker = record {
  owned = λ h. refl;
  leased = λ h. refl;
  started = λ h. refl;
  attempted = λ h. omega arith;
  released = λ h. absurd (h refl);
  open_active = λ h. refl;
  closed_inactive = λ h. absurd (ground arith);
  checkpointed = refl;
}

pub two_rows-IsConsistent : IsConsistent two_rows
unfolding count_where
two_rows-IsConsistent = record {
  unique_id = λ i. ground arith;
  unique_active = λ e. ground arith;
  valid = (new_row-IsValid 7 "E-1", (done_row-IsValid 8, tt));
}

pub held_rows-IsConsistent : IsConsistent held_rows
unfolding count_where
held_rows-IsConsistent = record {
  unique_id = λ i. ground arith;
  unique_active = λ e. ground arith;
  valid = (done_row-IsValid 8, (held_row-IsValid 7 3, tt));
}
