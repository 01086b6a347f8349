-- ===== src/Worker/Failure/Outcomes.antt =====
-- What recording a failure does, on each branch.
use backend_engineering_note.Prelude.{
  ℕ, ◌≤◌, ◌≡◌, refl, Bool, true, false, ◌||◌, none, some, arith, if◌then◌else◌, leb, Option-cases,
  inl, inr, take_text, Bool-cases,
}
use backend_engineering_note.Platform.Table.{count_where}
use backend_engineering_note.Platform.Rows.{
  Investigation, InvestigationStatus, queued, has_id, status_eq,
}
use backend_engineering_note.Platform.Update.{get_row, satisfies, count_id-update_row}
use backend_engineering_note.Platform.Consistency.{IsConsistent}
use backend_engineering_note.Worker.Repository.{
  is_owned, owned_update, apply_failure_transition, failure_values, Rows,
}
use backend_engineering_note.Worker.Repository.Effects.{
  owned_update_result, get_row-owned_update_self,
}
use backend_engineering_note.Worker.Repository.Consistency.{
  apply_failure_transition-IsConsistent, IsCoherent,
}
use backend_engineering_note.Worker.Failure.{
  ClassifiedInvestigationFailure, FailureOutcome, retry, ownership_lost, in_hand, target_of,
  mutation_of, transition, record_failure, release_interrupted, shutdown_interrupted,
}

module _ (i w clock : ℕ) (failure : ClassifiedInvestigationFailure) (target : InvestigationStatus)
    (rows : Rows) (r : Investigation) (unique : count_where (has_id i) rows ≤ 1)
    (found : get_row i rows ≡ some r) (held : in_hand w r ≡ true) where
  abbrev closing : Investigation → Investigation
  closing = failure_values (mutation_of i w failure target r.attempt_count clock)

  -- The update of a row in hand is accepted.
  transition_in_hand :
      (transition i w failure target r.attempt_count clock rows ≡ (
        (apply_failure_transition (mutation_of i w failure target r.attempt_count clock) rows).0,
        record {
          outcome =
              if status_eq target InvestigationStatus.failed then FailureOutcome.failed else retry;
          attempt_count = some r.attempt_count;
        },
      ))
      × (get_row i (transition i w failure target r.attempt_count clock rows).0 ≡ some (closing r))
  unfolding transition apply_failure_transition mutation_of failure_values is_owned
  transition_in_hand = (
    ground (arith, owned_update_result i w (some r.attempt_count) closing (λ r. refl) rows unique),
    ground (
      arith,
      owned_update_result i w (some r.attempt_count) closing (λ r. refl) rows unique,
      get_row-owned_update_self i w (some r.attempt_count) closing (λ r. refl) rows,
    ),
  )

module _ (max_attempts clock i w : ℕ) (failure : ClassifiedInvestigationFailure) (rows : Rows)
    (r : Investigation) (unique : count_where (has_id i) rows ≤ 1) (found : get_row i rows ≡ some r)
    (held : in_hand w r ≡ true) where
  -- On a row that the worker has in hand, where keys are unique, a permanent failure, or one of the
  -- last attempt, closes the row as failed with the time and the error, and gives up the lease.
  pub record_failure_closes :
      (failure.permanent || leb max_attempts r.attempt_count) ≡ true
      → ((record_failure max_attempts clock i w failure rows).1
          ≡ record { outcome = FailureOutcome.failed; attempt_count = some r.attempt_count })
        × (get_row i (record_failure max_attempts clock i w failure rows).0
            ≡ some (record r {
              status = InvestigationStatus.failed;
              completed_at = some clock;
              worker_id = none;
              lease_expires_at = none;
              last_error_code = some failure.error_code;
              last_error_message = some (take_text 4000 failure.message);
            }))
  unfolding record_failure target_of mutation_of failure_values
  record_failure_closes last =
      let (accepted, stored) =
        transition_in_hand i w clock failure InvestigationStatus.failed rows r unique found held in
      (ground (arith, accepted), ground (arith, stored))

  -- On a row that the worker has in hand, where keys are unique, any other failure returns the row
  -- to the queue with the error, with its attempts kept and without an owner.
  pub record_failure_requeues :
      (failure.permanent || leb max_attempts r.attempt_count) ≡ false
      → ((record_failure max_attempts clock i w failure rows).1
          ≡ record { outcome = retry; attempt_count = some r.attempt_count })
        × (get_row i (record_failure max_attempts clock i w failure rows).0
            ≡ some (record r {
              status = queued;
              completed_at = none;
              worker_id = none;
              lease_expires_at = none;
              last_error_code = some failure.error_code;
              last_error_message = some (take_text 4000 failure.message);
            }))
  unfolding record_failure target_of mutation_of failure_values
  record_failure_requeues again =
      let (accepted, stored) =
        transition_in_hand i w clock failure queued rows r unique found held in
      (ground (arith, accepted), ground (arith, stored))

-- A worker that does not have the row in hand is told so by both methods, and neither changes the
-- table.
pub record_failure_not_in_hand :
    (max_attempts clock i w : ℕ) (failure : ClassifiedInvestigationFailure) (rows : Rows)
    → satisfies (in_hand w) (get_row i rows) ≡ false
    → (record_failure max_attempts clock i w failure rows
        ≡ (rows, record { outcome = ownership_lost; attempt_count = none }))
      × (release_interrupted i w rows
          ≡ (rows, record { outcome = ownership_lost; attempt_count = none }))
unfolding record_failure release_interrupted
record_failure_not_in_hand max_attempts clock i w failure rows h =
    elim (Option-cases (get_row i rows)) [
      | inl e ↦ (rw e, rw e)
      | inr (r, e) ↦ (ground arith, ground arith)
    ]

pub if_IsConsistent :
    {A : Type 0} (b : Bool) (s t : Rows × A)
    → IsConsistent s.0
    → IsConsistent t.0
    → IsConsistent (if b then s else t).0
if_IsConsistent true s t h k = h
if_IsConsistent false s t h k = k

pub mutation_of-IsCoherent :
    (max_attempts i w : ℕ) (failure : ClassifiedInvestigationFailure) (attempts clock : ℕ)
    → IsCoherent (mutation_of i w failure (target_of max_attempts failure attempts) attempts clock)
unfolding mutation_of target_of
mutation_of-IsCoherent max_attempts i w failure attempts clock =
    elim (Bool-cases (failure.permanent || leb max_attempts attempts)) [
      | inl e ↦ rw e (inr (refl, refl))
      | inr e ↦ rw e (inl (refl, refl))
    ]

pub transition-IsConsistent :
    (i w : ℕ) (failure : ClassifiedInvestigationFailure) (target : InvestigationStatus)
    (attempts clock : ℕ) (rows : Rows)
    → IsCoherent (mutation_of i w failure target attempts clock)
    → IsConsistent rows
    → IsConsistent (transition i w failure target attempts clock rows).0
unfolding transition
transition-IsConsistent i w failure target attempts clock rows h c =
    elim (Bool-cases
      (apply_failure_transition (mutation_of i w failure target attempts clock) rows).1) [
        | inl e ↦ rw e (
            apply_failure_transition-IsConsistent (mutation_of i w failure target attempts clock)
              rows h c)
        | inr e ↦ rw e c
      ]

-- Releasing an interrupted investigation keeps a consistent table consistent, whoever calls it.
pub release_interrupted-IsConsistent :
    (i w : ℕ) (rows : Rows) → IsConsistent rows → IsConsistent (release_interrupted i w rows).0
unfolding release_interrupted
release_interrupted-IsConsistent i w rows c = elim (Option-cases (get_row i rows)) [
  | inl e ↦ rw e c
  | inr (r, e) ↦ rw e (
      if_IsConsistent (in_hand w r) _ _
        (transition-IsConsistent i w shutdown_interrupted queued r.attempt_count 0 rows
          (unfold mutation_of in inl (refl, refl)) c)
        c)
]

count_id-transition :
    (i j w : ℕ) (failure : ClassifiedInvestigationFailure) (target : InvestigationStatus)
    (attempts clock : ℕ) (rows : Rows)
    → count_where (has_id j) (transition i w failure target attempts clock rows).0
      ≡ count_where (has_id j) rows
unfolding transition apply_failure_transition owned_update failure_values mutation_of
count_id-transition i j w failure target attempts clock rows = ground (
  arith,
  count_id-update_row (is_owned w (some attempts))
      (failure_values (mutation_of i w failure target attempts clock)) (λ r. refl) i j rows,
)

pub count_id-record_failure :
    (max_attempts clock i j w : ℕ) (failure : ClassifiedInvestigationFailure) (rows : Rows)
    → count_where (has_id j) (record_failure max_attempts clock i w failure rows).0
      ≡ count_where (has_id j) rows
unfolding record_failure
count_id-record_failure max_attempts clock i j w failure rows =
    elim (Option-cases (get_row i rows)) [
      | inl e ↦ rw e
      | inr (r, e) ↦ ground (
        arith,
        count_id-transition i j w failure (target_of max_attempts failure r.attempt_count)
            r.attempt_count clock rows,
      )
    ]
