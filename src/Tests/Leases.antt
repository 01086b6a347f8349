-- ===== src/Tests/Leases.antt =====
-- The theorems on leases, on a table of two rows.
use backend_engineering_note.Prelude.{ℕ, ◌≤◌, ◌≡◌, refl, false, none, some, [], arith, inl}
use backend_engineering_note.Platform.Table.{count_where, update_where}
use backend_engineering_note.Platform.Rows.{Investigation, has_id, queued}
use backend_engineering_note.Platform.Consistency.{IsConsistent}
use backend_engineering_note.Platform.Update.{get_row, update_row}
use backend_engineering_note.Worker.Repository.{
  codes, InvestigationFailureMutation, claimable, claim_values, claim, extend_lease,
  persist_analysis, record_write_back_step, complete, apply_failure_transition,
}
use backend_engineering_note.Worker.Repository.Leases.{
  claim_exclusive, claim_fences, stale_attempt_refused, lease_protects,
}
use backend_engineering_note.Worker.Repository.Consistency.{operations-IsConsistent}
use backend_engineering_note.Tests.{held_row, two_rows-IsConsistent, two_rows, held_rows}

abbrev claimed : Investigation
claimed = held_row 7 3

abbrev failure_of_3 : InvestigationFailureMutation
failure_of_3 = record {
  investigation_id = 7;
  worker_id = 3;
  expected_attempt_count = 0;
  target_status = queued;
  completed_at = none;
  error_code = "analysis_unavailable";
  error_message = "down";
}

two_rows_unique : (i : ℕ) → count_where (has_id i) two_rows ≤ 1
unfolding count_where
two_rows_unique i = ground arith

claimed_by_3 : (claim 7 3 30 10 two_rows).1 ≡ some claimed
unfolding claim claim_values claimable get_row update_row count_where update_where
claimed_by_3 = refl

claim_exclusive_example :
    claim 7 4 30 40 (claim 7 3 30 10 two_rows).0 ≡ ((claim 7 3 30 10 two_rows).0, none)
claim_exclusive_example =
    claim_exclusive 7 3 4 30 30 10 40 two_rows claimed (two_rows_unique 7) claimed_by_3
      (omega arith)

claimed_by_4 : (claim 7 4 30 10 two_rows).1 ≡ some (held_row 7 4)
unfolding claim claim_values claimable get_row update_row count_where update_where
claimed_by_4 = refl

held_rows_unique : count_where (has_id 7) held_rows ≤ 1
unfolding count_where
held_rows_unique = ground arith

held_rows_found : get_row 7 held_rows ≡ some claimed
unfolding get_row
held_rows_found = refl

claim_fences_example :
    let after = (claim 7 4 30 10 two_rows).0 in
    (extend_lease 7 3 30 20 after ≡ (after, false))
    × (persist_analysis 7 3 [] none "s3://r" 20 after ≡ (after, false))
    × (record_write_back_step 7 3 codes "written" none 20 after ≡ (after, false))
    × (complete 7 3 20 after ≡ (after, false))
    × (apply_failure_transition failure_of_3 after ≡ (after, false))
claim_fences_example =
    claim_fences 7 3 4 30 30 10 20 two_rows (held_row 7 4) [] none none "s3://r" "written" codes
      failure_of_3 (two_rows_unique 7) claimed_by_4 (λ h. absurd (ground arith)) refl refl

stale_attempt_refused_example :
    apply_failure_transition failure_of_3 (claim 7 3 30 10 two_rows).0
    ≡ ((claim 7 3 30 10 two_rows).0, false)
stale_attempt_refused_example =
    stale_attempt_refused 7 3 30 10 two_rows claimed failure_of_3 (two_rows_unique 7) claimed_by_3
      refl (λ h. absurd (ground arith))

lease_protects_example : claim 7 4 30 40 held_rows ≡ (held_rows, none)
lease_protects_example =
    lease_protects 7 4 30 40 held_rows claimed 40 held_rows_unique held_rows_found refl refl
      (omega arith)

operations-IsConsistent_example :
    IsConsistent (claim 7 3 30 10 two_rows).0
    × IsConsistent (extend_lease 7 3 30 10 two_rows).0
    × IsConsistent (persist_analysis 7 3 [] none "s3://r" 10 two_rows).0
    × IsConsistent (record_write_back_step 7 3 codes "written" none 10 two_rows).0
    × IsConsistent (complete 7 3 10 two_rows).0
    × IsConsistent (apply_failure_transition failure_of_3 two_rows).0
operations-IsConsistent_example =
    operations-IsConsistent 7 3 30 10 [] none none "s3://r" "written" codes failure_of_3 two_rows
      (inl (refl, refl)) two_rows-IsConsistent
