-- ===== src/Worker/Failure/Between.antt =====
-- Recording a failure where other sessions commit between its read and its update.
use backend_engineering_note.Prelude.{
  ℕ, ◌≤◌, ◌≡◌, ◌≢◌, refl, true, some, arith, Option-cases, inl, inr,
}
use backend_engineering_note.Platform.Table.{count_where}
use backend_engineering_note.Platform.Rows.{Investigation, has_id}
use backend_engineering_note.Platform.Update.{get_row}
use backend_engineering_note.Platform.Consistency.{IsConsistent}
use backend_engineering_note.Worker.Repository.{
  is_owned, apply_failure_transition, failure_values, Rows,
}
use backend_engineering_note.Worker.Repository.Leases.{stranger_refused}
use backend_engineering_note.Worker.Failure.{
  ClassifiedInvestigationFailure, ownership_lost, in_hand, target_of, mutation_of, transition,
  record_failure, record_failure_between,
}
use backend_engineering_note.Worker.Failure.Outcomes.{
  if_IsConsistent, mutation_of-IsCoherent, transition-IsConsistent,
}

module _ (others : Rows → Rows) (max_attempts clock i w : ℕ)
    (failure : ClassifiedInvestigationFailure) (rows : Rows) where
  -- If the others leave the row alone, the method does what it does without them, on their table.
  between_quiet :
      get_row i (others rows) ≡ get_row i rows
      → record_failure_between others max_attempts clock i w failure rows
        ≡ record_failure max_attempts clock i w failure (others rows)
  unfolding record_failure_between record_failure
  between_quiet h = rw h refl

  -- Where keys are unique: if a worker has the row in hand when a failure is read, and what others
  -- commit before the update leaves the row with another number of attempts, whoever holds it then,
  -- the worker is told that it has lost the row, and the table stays as the others left it.
  pub record_failure_superseded :
      (r s : Investigation)
      → get_row i rows ≡ some r
      → in_hand w r ≡ true
      → count_where (has_id i) (others rows) ≤ 1
      → get_row i (others rows) ≡ some s
      → s.attempt_count ≢ r.attempt_count
      → record_failure_between others max_attempts clock i w failure rows
        ≡ (others rows, record { outcome = ownership_lost; attempt_count = some r.attempt_count })
  unfolding record_failure_between transition apply_failure_transition mutation_of is_owned
  record_failure_superseded r s found held unique now stale =
      let values = failure_values (
        mutation_of i w failure (target_of max_attempts failure r.attempt_count) r.attempt_count
          clock) in
      let refused =
        stranger_refused i w (some r.attempt_count) values (others rows) s unique now
          (ground (arith, stale)) in
      rw (found, held, refused) refl

  -- Recording a failure keeps the table consistent, whatever others commit between its read and its
  -- update that leaves a consistent table.
  pub record_failure_between-IsConsistent :
      IsConsistent (others rows)
      → IsConsistent (record_failure_between others max_attempts clock i w failure rows).0
  unfolding record_failure_between
  record_failure_between-IsConsistent c = elim (Option-cases (get_row i rows)) [
    | inl e ↦ rw e c
    | inr (r, e) ↦ rw e (
        if_IsConsistent (in_hand w r) _ _
          (transition-IsConsistent i w failure (target_of max_attempts failure r.attempt_count)
            r.attempt_count clock (others rows)
            (mutation_of-IsCoherent max_attempts i w failure r.attempt_count clock) c)
          c)
  ]
