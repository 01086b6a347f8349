-- ===== src/Worker/Repository/Consistency.antt =====
-- The repository's statements keep the table consistent.
use backend_engineering_note.Prelude.{
  ℕ, ◌≡◌, refl, String, true, Option, none, some, arith, ◌⊎◌, is_some,
}
use backend_engineering_note.Platform.Rows.{Investigation, Mapping, queued, failed, processing}
use backend_engineering_note.Platform.Consistency.{IsValid, IsConsistent}
use backend_engineering_note.Platform.Update.{update_row-IsConsistent}
use backend_engineering_note.Worker.Repository.{
  Rows, WriteBackStep, comment, codes, claimable, claim_values, claim, is_owned, owned_update,
  extend_lease, failure_values, apply_failure_transition, InvestigationFailureMutation,
  persist_analysis, step_values, record_write_back_step, complete_values, complete,
}

-- A failure either returns the row to the queue or closes it with a time.
abbrev pub IsCoherent : InvestigationFailureMutation → Type 0
IsCoherent m =
    ((m.target_status ≡ queued) × (m.completed_at ≡ none))
    ⊎ ((m.target_status ≡ failed) × (is_some m.completed_at ≡ true))

pub is_owned-processing :
    (w : ℕ) (expected : Option ℕ) (r : Investigation)
    → is_owned w expected r ≡ true
    → r.status ≡ processing
unfolding is_owned
is_owned-processing w expected r h = ground arith

pub claim-IsConsistent :
    (i w lease now : ℕ) (rows : Rows)
    → IsConsistent rows
    → IsConsistent (claim i w lease now rows).0
unfolding claim claimable claim_values
claim-IsConsistent i w lease now rows c =
    update_row-IsConsistent i (claimable now) (claim_values w lease now) rows (λ r. refl)
      (λ r. refl) (λ r g a. ground arith) (λ r v g. ground arith) c

module _ (i w : ℕ) (expected : Option ℕ) (f : Investigation → Investigation) (rows : Rows)
    (same_id : (r : Investigation) → (f r).id ≡ r.id)
    (same_exception : (r : Investigation) → (f r).exception_id ≡ r.exception_id)
    (keeps : (r : Investigation) → IsValid r → r.status ≡ processing → IsValid (f r)) where
  owned_update-IsConsistent : IsConsistent rows → IsConsistent (owned_update i w expected f rows).0
  unfolding owned_update
  owned_update-IsConsistent c =
      update_row-IsConsistent i (is_owned w expected) f rows same_id same_exception
        (λ r g a. ground (arith, is_owned-processing w expected r))
        (λ r v g. keeps r v (is_owned-processing w expected r g)) c

pub extend_lease-IsConsistent :
    (i w lease now : ℕ) (rows : Rows)
    → IsConsistent rows
    → IsConsistent (extend_lease i w lease now rows).0
unfolding extend_lease
extend_lease-IsConsistent i w lease now rows c =
    owned_update-IsConsistent i w none _ rows (λ r. refl) (λ r. refl) (λ r v p. ground arith) c

pub apply_failure_transition-IsConsistent :
    (m : InvestigationFailureMutation) (rows : Rows)
    → IsCoherent m
    → IsConsistent rows
    → IsConsistent (apply_failure_transition m rows).0
unfolding apply_failure_transition failure_values
apply_failure_transition-IsConsistent m rows h c =
    owned_update-IsConsistent m.investigation_id m.worker_id (some m.expected_attempt_count)
      (failure_values m) rows (λ r. refl) (λ r. refl) (λ r v p. ground arith) c

pub persist_analysis-IsConsistent :
    (i w : ℕ) (analysis : Mapping) (report : Option String) (report_uri : String) (now : ℕ)
    (rows : Rows)
    → IsConsistent rows
    → IsConsistent (persist_analysis i w analysis report report_uri now rows).0
unfolding persist_analysis
persist_analysis-IsConsistent i w analysis report report_uri now rows c =
    owned_update-IsConsistent i w none _ rows (λ r. refl) (λ r. refl) (λ r v p. ground arith) c

pub record_write_back_step-IsConsistent :
    (i w : ℕ) (step : WriteBackStep) (outcome : String) (detail : Option String) (now : ℕ)
    (rows : Rows)
    → IsConsistent rows
    → IsConsistent (record_write_back_step i w step outcome detail now rows).0
unfolding record_write_back_step step_values
record_write_back_step-IsConsistent i w comment outcome detail now rows c =
    owned_update-IsConsistent i w none _ rows (λ r. refl) (λ r. refl) (λ r v p. ground arith) c
record_write_back_step-IsConsistent i w codes outcome detail now rows c =
    owned_update-IsConsistent i w none _ rows (λ r. refl) (λ r. refl) (λ r v p. ground arith) c

pub complete-IsConsistent :
    (i w now : ℕ) (rows : Rows) → IsConsistent rows → IsConsistent (complete i w now rows).0
unfolding complete complete_values
complete-IsConsistent i w now rows c =
    owned_update-IsConsistent i w none _ rows (λ r. refl) (λ r. refl) (λ r v p. ground arith) c

-- Each statement of the worker's repository keeps the table consistent, which is unique keys, one
-- active row per exception and rows whose columns fit their status: claims, heartbeats, checkpoints,
-- write-back outcomes, completion, and failures that either return the row to the queue without a
-- completion time or close it with one.
pub operations-IsConsistent :
    (i w lease now : ℕ) (analysis : Mapping) (report detail : Option String)
    (report_uri outcome : String) (step : WriteBackStep) (m : InvestigationFailureMutation)
    (rows : Rows)
    → IsCoherent m
    → IsConsistent rows
    → IsConsistent (claim i w lease now rows).0
      × IsConsistent (extend_lease i w lease now rows).0
      × IsConsistent (persist_analysis i w analysis report report_uri now rows).0
      × IsConsistent (record_write_back_step i w step outcome detail now rows).0
      × IsConsistent (complete i w now rows).0
      × IsConsistent (apply_failure_transition m rows).0
operations-IsConsistent i w lease now analysis report detail report_uri outcome step m rows h c = (
  claim-IsConsistent i w lease now rows c,
  extend_lease-IsConsistent i w lease now rows c,
  persist_analysis-IsConsistent i w analysis report report_uri now rows c,
  record_write_back_step-IsConsistent i w step outcome detail now rows c,
  complete-IsConsistent i w now rows c,
  apply_failure_transition-IsConsistent m rows h c,
)
