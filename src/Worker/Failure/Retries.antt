-- ===== src/Worker/Failure/Retries.antt =====
-- Claims and transient failures in turn: how often an investigation is tried.
use backend_engineering_note.Prelude.{
  ℕ, ◌+◌, ◌≤◌, ◌<◌, ◌≡◌, refl, true, false, some, All, List, [], ◌∷◌, arith, length,
}
use backend_engineering_note.Platform.Table.{count_where}
use backend_engineering_note.Platform.Rows.{Investigation, InvestigationStatus, queued, has_id}
use backend_engineering_note.Platform.Update.{get_row}
use backend_engineering_note.Worker.Repository.{Rows, claim, claim_values, claimable}
use backend_engineering_note.Worker.Repository.Effects.{get_row-claim_self}
use backend_engineering_note.Worker.Repository.Leases.{count_id-claim}
use backend_engineering_note.Worker.Failure.{
  ClassifiedInvestigationFailure, record_failure, in_hand,
}
use backend_engineering_note.Worker.Failure.Outcomes.{
  record_failure_closes, record_failure_requeues, count_id-record_failure,
}

-- One delivery: a worker claims the row at a time, and then records a failure at a later one.
pub record Attempt : Type 0 where
  pub worker_id : ℕ
  pub claimed_at : ℕ
  pub failed_at : ℕ
  pub failure : ClassifiedInvestigationFailure

unfoldable pub attempt : ℕ → ℕ → ℕ → Attempt → Rows → Rows
attempt max_attempts lease i a rows =
    (record_failure max_attempts a.failed_at i a.worker_id a.failure
      (claim i a.worker_id lease a.claimed_at rows).0).0

unfoldable pub attempts : ℕ → ℕ → ℕ → List Attempt → Rows → Rows
attempts max_attempts lease i [] rows = rows
attempts max_attempts lease i (a ∷ rest) rows =
    attempts max_attempts lease i rest (attempt max_attempts lease i a rows)

module _ (max_attempts lease i : ℕ) (a : Attempt) (rows : Rows) (r : Investigation)
    (unique : count_where (has_id i) rows ≤ 1) (found : get_row i rows ≡ some r)
    (waiting : r.status ≡ queued) where
  abbrev claimed : Investigation
  claimed = claim_values a.worker_id lease a.claimed_at r

  claimed_row : get_row i (claim i a.worker_id lease a.claimed_at rows).0 ≡ some claimed
  unfolding claimable
  claimed_row = ground (arith, get_row-claim_self i a.worker_id lease a.claimed_at rows)

  claimed_unique : count_where (has_id i) (claim i a.worker_id lease a.claimed_at rows).0 ≤ 1
  claimed_unique = omega (arith, count_id-claim i i a.worker_id lease a.claimed_at rows)

  claimed-in_hand : in_hand a.worker_id claimed ≡ true
  unfolding claim_values
  claimed-in_hand = ground arith

  attempt_requeues :
      r.attempt_count + 1 < max_attempts
      → a.failure.permanent ≡ false
      → (s : Investigation) × (get_row i (attempt max_attempts lease i a rows) ≡ some s)
        × (s.status ≡ queued)
        × (s.attempt_count ≡ r.attempt_count + 1)
  unfolding attempt claim_values
  attempt_requeues h t =
      let (_, stored) =
        record_failure_requeues max_attempts a.failed_at i a.worker_id a.failure _ claimed
          claimed_unique claimed_row claimed-in_hand (ground arith) in
      (_, stored, refl, refl)

  attempt_closes :
      max_attempts ≤ r.attempt_count + 1
      → (s : Investigation) × (get_row i (attempt max_attempts lease i a rows) ≡ some s)
        × (s.status ≡ InvestigationStatus.failed)
        × (s.attempt_count ≡ r.attempt_count + 1)
  unfolding attempt claim_values
  attempt_closes h =
      let (_, stored) =
        record_failure_closes max_attempts a.failed_at i a.worker_id a.failure _ claimed
          claimed_unique claimed_row claimed-in_hand (ground arith) in
      (_, stored, refl, refl)

  attempt_unique : count_where (has_id i) (attempt max_attempts lease i a rows) ≤ 1
  unfolding attempt
  attempt_unique = omega (
    arith,
    claimed_unique,
    count_id-record_failure max_attempts a.failed_at i i a.worker_id a.failure
        (claim i a.worker_id lease a.claimed_at rows).0,
  )

-- A queued investigation under a unique key that fails transiently at as many deliveries as it has
-- attempts left, of which there is at least one, is failed for good, with all its attempts counted,
-- whichever workers try it and whenever.
pub retries_exhausted :
    (max_attempts lease i : ℕ) (tries : List Attempt) (rows : Rows) (r : Investigation)
    → count_where (has_id i) rows ≤ 1
    → get_row i rows ≡ some r
    → r.status ≡ queued
    → All (λ a. a.failure.permanent ≡ false) tries
    → r.attempt_count + length tries ≡ max_attempts
    → 0 < length tries
    → (s : Investigation) × (get_row i (attempts max_attempts lease i tries rows) ≡ some s)
      × (s.status ≡ InvestigationStatus.failed)
      × (s.attempt_count ≡ max_attempts)
unfolding attempts
retries_exhausted max_attempts lease i [] rows r unique found waiting t budget some_left =
    absurd (omega arith)
retries_exhausted max_attempts lease i (a ∷ []) rows r unique found waiting t budget some_left =
    let (s, stored, closed, count) =
      attempt_closes max_attempts lease i a rows r unique found waiting (omega arith) in
    (s, stored, closed, omega arith)
retries_exhausted max_attempts lease i (a ∷ b ∷ rest) rows r unique found waiting t budget
      some_left =
    let (s, stored, again, count) =
      attempt_requeues max_attempts lease i a rows r unique found waiting (omega arith) t.0 in
    retries_exhausted max_attempts lease i (b ∷ rest) (attempt max_attempts lease i a rows) s
      (attempt_unique max_attempts lease i a rows r unique found waiting) stored again t.1
      (omega arith) (omega arith)

-- A queued investigation under a unique key that fails transiently at fewer deliveries than it has
-- attempts left is back in the queue, with one attempt counted for each.
pub retries_left :
    (max_attempts lease i : ℕ) (tries : List Attempt) (rows : Rows) (r : Investigation)
    → count_where (has_id i) rows ≤ 1
    → get_row i rows ≡ some r
    → r.status ≡ queued
    → All (λ a. a.failure.permanent ≡ false) tries
    → r.attempt_count + length tries < max_attempts
    → (s : Investigation) × (get_row i (attempts max_attempts lease i tries rows) ≡ some s)
      × (s.status ≡ queued)
      × (s.attempt_count ≡ r.attempt_count + length tries)
unfolding attempts
retries_left max_attempts lease i [] rows r unique found waiting t budget =
    (r, found, waiting, omega arith)
retries_left max_attempts lease i (a ∷ rest) rows r unique found waiting t budget =
    let (s, stored, again, count) =
      attempt_requeues max_attempts lease i a rows r unique found waiting (omega arith) t.0 in
    let (u, stored', again', count') =
      retries_left max_attempts lease i rest (attempt max_attempts lease i a rows) s
        (attempt_unique max_attempts lease i a rows r unique found waiting) stored again t.1
        (omega arith) in
    (u, stored', again', omega arith)
