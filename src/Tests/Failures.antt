-- ===== src/Tests/Failures.antt =====
-- The theorems on failures, on a row that is held and on one that is tried three times.
use backend_engineering_note.Prelude.{◌≡◌, refl, none, some, List, [], ◌∷◌, arith, take_text}
use backend_engineering_note.Platform.Rows.{Investigation, InvestigationStatus, queued}
use backend_engineering_note.Platform.Consistency.{IsConsistent}
use backend_engineering_note.Platform.Update.{get_row, update_row}
use backend_engineering_note.Platform.Table.{update_where}
use backend_engineering_note.Worker.Failure.{
  FailureOutcome, retry, ownership_lost, record_failure_between, record_failure,
  release_interrupted,
}
use backend_engineering_note.Worker.Failure.Outcomes.{
  record_failure_closes, record_failure_requeues, release_interrupted-IsConsistent,
}
use backend_engineering_note.Worker.Repository.{Rows, claim, claim_values, claimable}
use backend_engineering_note.Worker.Repository.Consistency.{claim-IsConsistent}
use backend_engineering_note.Worker.Failure.Between.{
  record_failure_superseded, record_failure_between-IsConsistent,
}
use backend_engineering_note.Worker.Failure.Retries.{
  Attempt, attempts, retries_exhausted, retries_left,
}
use backend_engineering_note.Tests.{
  new_row, held_row, two_rows, held_rows, two_rows-IsConsistent, held_rows-IsConsistent, outage,
}

held_by_3 : get_row 7 held_rows ≡ some (held_row 7 3)
unfolding get_row
held_by_3 = refl

record_failure_closes_example :
    ((record_failure 1 20 7 3 outage held_rows).1
      ≡ record { outcome = FailureOutcome.failed; attempt_count = some 1 })
    × (get_row 7 (record_failure 1 20 7 3 outage held_rows).0
        ≡ some (record (held_row 7 3) {
          status = InvestigationStatus.failed;
          completed_at = some 20;
          worker_id = none;
          lease_expires_at = none;
          last_error_code = some "analysis_unavailable";
          last_error_message = some (take_text 4000 "down");
        }))
record_failure_closes_example =
    record_failure_closes 1 20 7 3 outage held_rows (held_row 7 3)
      (held_rows-IsConsistent.unique_id 7) held_by_3 refl refl

record_failure_requeues_example :
    ((record_failure 5 20 7 3 outage held_rows).1
      ≡ record { outcome = retry; attempt_count = some 1 })
    × (get_row 7 (record_failure 5 20 7 3 outage held_rows).0
        ≡ some (record (held_row 7 3) {
          status = queued;
          completed_at = none;
          worker_id = none;
          lease_expires_at = none;
          last_error_code = some "analysis_unavailable";
          last_error_message = some (take_text 4000 "down");
        }))
record_failure_requeues_example =
    record_failure_requeues 5 20 7 3 outage held_rows (held_row 7 3)
      (held_rows-IsConsistent.unique_id 7) held_by_3 refl refl

release_interrupted-IsConsistent_example : IsConsistent (release_interrupted 7 3 held_rows).0
release_interrupted-IsConsistent_example =
    release_interrupted-IsConsistent 7 3 held_rows held_rows-IsConsistent

-- The lease has run out, and the same worker claims the row again.
abbrev claimed_again : Rows → Rows
claimed_again rows = (claim 7 3 30 60 rows).0

abbrev second_attempt : Investigation
second_attempt = claim_values 3 30 60 (held_row 7 3)

second_attempt_stored : get_row 7 (claimed_again held_rows) ≡ some second_attempt
unfolding claim claim_values claimable get_row update_row update_where
second_attempt_stored = refl

claimed_again-IsConsistent : IsConsistent (claimed_again held_rows)
claimed_again-IsConsistent = claim-IsConsistent 7 3 30 60 held_rows held_rows-IsConsistent

record_failure_superseded_example :
    record_failure_between claimed_again 1 61 7 3 outage held_rows
    ≡ (claimed_again held_rows, record { outcome = ownership_lost; attempt_count = some 1 })
record_failure_superseded_example =
    record_failure_superseded claimed_again 1 61 7 3 outage held_rows (held_row 7 3) second_attempt
      held_by_3 refl (claimed_again-IsConsistent.unique_id 7) second_attempt_stored
      (unfold claim_values in λ e. ground (arith, e))

record_failure_between-IsConsistent_example :
    IsConsistent (record_failure_between claimed_again 1 61 7 3 outage held_rows).0
record_failure_between-IsConsistent_example =
    record_failure_between-IsConsistent claimed_again 1 61 7 3 outage held_rows
      claimed_again-IsConsistent

abbrev three_tries : List Attempt
three_tries =
    record { worker_id = 3; claimed_at = 10; failed_at = 20; failure = outage }
    ∷ record { worker_id = 4; claimed_at = 30; failed_at = 35; failure = outage }
    ∷ record { worker_id = 3; claimed_at = 60; failed_at = 65; failure = outage }
    ∷ []

found_queued : get_row 7 two_rows ≡ some (new_row 7 "E-1")
unfolding get_row
found_queued = refl

retries_exhausted_example :
    (s : Investigation) × (get_row 7 (attempts 3 30 7 three_tries two_rows) ≡ some s)
    × (s.status ≡ InvestigationStatus.failed)
    × (s.attempt_count ≡ 3)
retries_exhausted_example =
    retries_exhausted 3 30 7 three_tries two_rows (new_row 7 "E-1")
      (two_rows-IsConsistent.unique_id 7) found_queued refl (refl, (refl, (refl, tt))) refl
      (omega arith)

retries_left_example :
    (s : Investigation) × (get_row 7 (attempts 5 30 7 three_tries two_rows) ≡ some s)
    × (s.status ≡ queued)
    × (s.attempt_count ≡ 3)
retries_left_example =
    retries_left 5 30 7 three_tries two_rows (new_row 7 "E-1") (two_rows-IsConsistent.unique_id 7)
      found_queued refl (refl, (refl, (refl, tt))) (omega arith)
