-- ===== src/Worker/Repository.antt =====
-- Conditional lifecycle updates of the worker: temp/services/worker/src/worker/db/platform/
-- repositories.py, with the mutation record of ports/investigation/investigation_store.py. `now` is
-- `func.now()`, the time of the transaction, and durations are in its ticks.
pub mod Effects
pub mod Leases
pub mod Consistency
use backend_engineering_note.Prelude.{
  ℕ, ◌+◌, String, Bool, true, ◌&&◌, ◌||◌, Option, none, some, List, ◌==◌, if◌then◌else◌, sql_eq,
  sql_lt, str_eq, take_text,
}
use backend_engineering_note.Platform.Rows.{
  Investigation, InvestigationStatus, queued, processing, completed, Mapping, status_eq,
}
use backend_engineering_note.Platform.Update.{get_row, update_row}

pub data WriteBackStep : Type 0 where
  comment codes : WriteBackStep

pub record InvestigationFailureMutation : Type 0 where
  pub investigation_id : ℕ
  pub worker_id : ℕ
  pub expected_attempt_count : ℕ
  pub target_status : InvestigationStatus
  pub completed_at : Option ℕ
  pub error_code : String
  pub error_message : String

-- Each statement returns the table and its result.
abbrev pub Rows : Type 0
Rows = List Investigation

unfoldable pub claimable : ℕ → Investigation → Bool
claimable now r =
    status_eq r.status queued || (status_eq r.status processing && sql_lt r.lease_expires_at now)

-- func.coalesce(column, value)
abbrev pub coalesce : Option ℕ → ℕ → ℕ
coalesce none d = d
coalesce (some a) d = a

unfoldable pub claim_values : ℕ → ℕ → ℕ → Investigation → Investigation
claim_values worker_id lease now r = record r {
  status = processing;
  worker_id = some worker_id;
  lease_expires_at = some (now + lease);
  last_heartbeat_at = some now;
  started_at = some (coalesce r.started_at now);
  attempt_count = r.attempt_count + 1;
}

-- `scalar_one_or_none` of the returned keys, and the row read again
unfoldable pub claim : ℕ → ℕ → ℕ → ℕ → Rows → Rows × Option Investigation
claim investigation_id worker_id lease now rows =
    let (after, matched) =
      update_row investigation_id (claimable now) (claim_values worker_id lease now) rows in
    (after, if matched == 0 then none else get_row investigation_id after)

abbrev pub matches_attempt : Option ℕ → ℕ → Bool
matches_attempt none attempt_count = true
matches_attempt (some expected) attempt_count = attempt_count == expected

unfoldable pub is_owned : ℕ → Option ℕ → Investigation → Bool
is_owned worker_id expected r =
    status_eq r.status processing
    && (sql_eq r.worker_id worker_id && matches_attempt expected r.attempt_count)

-- `_owned_update`; the result is `rowcount == 1`
unfoldable pub owned_update :
    ℕ → ℕ → Option ℕ → (Investigation → Investigation) → Rows → Rows × Bool
owned_update investigation_id worker_id expected values rows =
    let (after, matched) = update_row investigation_id (is_owned worker_id expected) values rows in
    (after, matched == 1)

unfoldable pub extend_lease : ℕ → ℕ → ℕ → ℕ → Rows → Rows × Bool
extend_lease investigation_id worker_id lease now =
    owned_update investigation_id worker_id none
      (λ r. record r { lease_expires_at = some (now + lease); last_heartbeat_at = some now })

unfoldable pub failure_values : InvestigationFailureMutation → Investigation → Investigation
failure_values m r = record r {
  status = m.target_status;
  completed_at = m.completed_at;
  worker_id = none;
  lease_expires_at = none;
  last_error_code = some m.error_code;
  last_error_message = some (take_text 4000 m.error_message);
}

unfoldable pub apply_failure_transition : InvestigationFailureMutation → Rows → Rows × Bool
apply_failure_transition m =
    owned_update m.investigation_id m.worker_id (some m.expected_attempt_count) (failure_values m)

unfoldable pub persist_analysis : ℕ → ℕ → Mapping → Option String → String → ℕ → Rows → Rows × Bool
persist_analysis investigation_id worker_id analysis report report_uri now =
    owned_update investigation_id worker_id none (λ r. record r {
      analysis = some analysis;
      analysis_persisted_at = some now;
      report = report;
      report_uri = some report_uri;
    })

-- the columns `{step}_outcome`, `{step}_written_at` and `{step}_detail`
unfoldable pub step_values :
    WriteBackStep → String → Option String → ℕ → Investigation → Investigation
step_values comment outcome detail now r = record r {
  comment_outcome = some outcome;
  comment_written_at = if str_eq outcome "written" then some now else r.comment_written_at;
  comment_detail = detail;
}
step_values codes outcome detail now r = record r {
  codes_outcome = some outcome;
  codes_written_at = if str_eq outcome "written" then some now else r.codes_written_at;
  codes_detail = detail;
}

unfoldable pub record_write_back_step :
    ℕ → ℕ → WriteBackStep → String → Option String → ℕ → Rows → Rows × Bool
record_write_back_step investigation_id worker_id step outcome detail now =
    owned_update investigation_id worker_id none (step_values step outcome detail now)

unfoldable pub complete_values : ℕ → Investigation → Investigation
complete_values now r = record r {
  status = completed;
  completed_at = some now;
  worker_id = none;
  lease_expires_at = none;
}

unfoldable pub complete : ℕ → ℕ → ℕ → Rows → Rows × Bool
complete investigation_id worker_id now =
    owned_update investigation_id worker_id none (complete_values now)
