-- ===== src/Worker/Repository/Leases.antt =====
-- Exclusive leases: who can write a row that a worker has claimed.
use backend_engineering_note.Prelude.{
  ℕ, ◌+◌, ◌≤◌, ◌≡◌, ◌≢◌, refl, String, true, false, Option, none, some, arith, Option-cases, inl,
  inr, sql_eq,
}
use backend_engineering_note.Platform.Table.{count_where}
use backend_engineering_note.Platform.Rows.{Investigation, has_id, processing, Mapping}
use backend_engineering_note.Platform.Update.{get_row, update_row_refused, count_id-update_row}
use backend_engineering_note.Worker.Repository.{
  Rows, claimable, claim_values, claim, is_owned, owned_update, extend_lease, persist_analysis,
  record_write_back_step, WriteBackStep, complete, apply_failure_transition,
  InvestigationFailureMutation,
}
use backend_engineering_note.Worker.Repository.Effects.{get_row-claim_self, claim_result}

-- A successful claim found a claimable row, and returns it with the claimant's mark.
pub claim-eq-some :
    (i w lease now : ℕ) (rows : Rows) (s : Investigation)
    → count_where (has_id i) rows ≤ 1
    → (claim i w lease now rows).1 ≡ some s
    → (r : Investigation) × (get_row i rows ≡ some r)
      × (claimable now r ≡ true)
      × (s ≡ claim_values w lease now r)
      × (get_row i (claim i w lease now rows).0 ≡ some s)
claim-eq-some i w lease now rows s h e = elim (Option-cases (get_row i rows)) [
  | inl missing ↦ absurd (ground (arith, claim_result i w lease now rows h))
  | inr (r, found) ↦ (
    r,
    found,
    ground (arith, claim_result i w lease now rows h, get_row-claim_self i w lease now rows),
    ground (arith, claim_result i w lease now rows h, get_row-claim_self i w lease now rows),
    ground (arith, claim_result i w lease now rows h, get_row-claim_self i w lease now rows),
  )
]

-- Where keys are unique: while a lease on a row in processing runs, no claim of the row succeeds,
-- and none changes the table.
pub lease_protects :
    (i w lease now : ℕ) (rows : Rows) (r : Investigation) (expiry : ℕ)
    → count_where (has_id i) rows ≤ 1
    → get_row i rows ≡ some r
    → r.status ≡ processing
    → r.lease_expires_at ≡ some expiry
    → now ≤ expiry
    → claim i w lease now rows ≡ (rows, none)
unfolding claim claimable
lease_protects i w lease now rows r expiry h found p l t =
    ground (arith, update_row_refused i (claimable now) (claim_values w lease now) rows h)

pub count_id-claim :
    (i j w lease now : ℕ) (rows : Rows)
    → count_where (has_id j) (claim i w lease now rows).0 ≡ count_where (has_id j) rows
unfolding claim claim_values
count_id-claim i j w lease now rows =
    count_id-update_row (claimable now) (claim_values w lease now) (λ r. refl) i j rows

-- Where keys are unique: a worker that claims a row holds it alone. Until its lease has run out,
-- every later claim of the row, by any worker and with any lease, returns nothing and changes
-- nothing.
pub claim_exclusive :
    (i a b lease lease' now now' : ℕ) (rows : Rows) (s : Investigation)
    → count_where (has_id i) rows ≤ 1
    → (claim i a lease now rows).1 ≡ some s
    → now' ≤ now + lease
    → claim i b lease' now' (claim i a lease now rows).0 ≡ ((claim i a lease now rows).0, none)
unfolding claim_values
claim_exclusive i a b lease lease' now now' rows s h e t =
    let (r, found, free, taken, stored) = claim-eq-some i a lease now rows s h e in
    lease_protects i b lease' now' (claim i a lease now rows).0 s (now + lease)
      (omega (arith, count_id-claim i i a lease now rows)) stored (rw taken) (rw taken) t

-- An update by a worker that the row does not name is refused and changes nothing.
pub stranger_refused :
    (i w : ℕ) (expected : Option ℕ) (f : Investigation → Investigation) (rows : Rows)
    (r : Investigation)
    → count_where (has_id i) rows ≤ 1
    → get_row i rows ≡ some r
    → is_owned w expected r ≡ false
    → owned_update i w expected f rows ≡ (rows, false)
unfolding owned_update
stranger_refused i w expected f rows r h found e =
    rw (update_row_refused i (is_owned w expected) f rows h (rw found e))

-- Where keys are unique: after another worker has claimed a row, everything that the former owner
-- still tries on it is refused and changes nothing, which is heartbeats, checkpoints, write-back
-- outcomes, completion and failures.
pub claim_fences :
    (i a b lease lease' now now' : ℕ) (rows : Rows) (s : Investigation) (analysis : Mapping)
    (report detail : Option String) (report_uri outcome : String) (step : WriteBackStep)
    (m : InvestigationFailureMutation)
    → count_where (has_id i) rows ≤ 1
    → (claim i b lease now rows).1 ≡ some s
    → a ≢ b
    → m.investigation_id ≡ i
    → m.worker_id ≡ a
    → let after = (claim i b lease now rows).0 in
      (extend_lease i a lease' now' after ≡ (after, false))
      × (persist_analysis i a analysis report report_uri now' after ≡ (after, false))
      × (record_write_back_step i a step outcome detail now' after ≡ (after, false))
      × (complete i a now' after ≡ (after, false))
      × (apply_failure_transition m after ≡ (after, false))
unfolding extend_lease persist_analysis record_write_back_step complete apply_failure_transition
    is_owned claim_values
claim_fences i a b lease lease' now now' rows s analysis report detail report_uri outcome step m h e
      other mi mw =
    let (r, found, free, taken, stored) = claim-eq-some i b lease now rows s h e in
    let unique : count_where (has_id i) (claim i b lease now rows).0 ≤ 1 =
      omega (arith, count_id-claim i i b lease now rows) in
    let named : sql_eq s.worker_id a ≡ false = ground arith in
    let refused = λ (expected : Option ℕ) (f : Investigation → Investigation).
      stranger_refused i a expected f (claim i b lease now rows).0 s unique stored (ground arith) in
    (
      refused none _,
      refused none _,
      refused none _,
      refused none _,
      rw (mi, mw) (refused (some m.expected_attempt_count) _),
    )

-- Where keys are unique: a failure of a row that was decided for another attempt than the one a
-- claim has just begun is refused and changes nothing, whichever worker reports it.
pub stale_attempt_refused :
    (i w lease now : ℕ) (rows : Rows) (s : Investigation) (m : InvestigationFailureMutation)
    → count_where (has_id i) rows ≤ 1
    → (claim i w lease now rows).1 ≡ some s
    → m.investigation_id ≡ i
    → m.expected_attempt_count ≢ s.attempt_count
    → apply_failure_transition m (claim i w lease now rows).0
      ≡ ((claim i w lease now rows).0, false)
unfolding apply_failure_transition is_owned
stale_attempt_refused i w lease now rows s m h e mi stale =
    let (r, found, free, taken, stored) = claim-eq-some i w lease now rows s h e in
    let unique : count_where (has_id i) (claim i w lease now rows).0 ≤ 1 =
      omega (arith, count_id-claim i i w lease now rows) in
    rw mi (
      stranger_refused i m.worker_id (some m.expected_attempt_count) _ (claim i w lease now rows).0
        s unique stored (ground arith))
