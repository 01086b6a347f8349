-- ===== src/Worker/Handler/Recorded.antt =====
-- What the transactions of a delivery leave in the table once they return.
use backend_engineering_note.Prelude.{
  ℕ, ◌≡◌, refl, ap, ◌∙◌, Bool, true, ◌||◌, Option, none, some, arith, leb, Bool-cases, Option-cases,
  inl, inr,
}
use backend_engineering_note.Platform.Rows.{Investigation}
use backend_engineering_note.Platform.Update.{get_row, satisfies}
use backend_engineering_note.Worker.Exec.{
  ok, World, Session, Commit, committed, refused, unacknowledged,
}
use backend_engineering_note.Worker.Failure.{
  ClassifiedInvestigationFailure, FailureOutcome, record_failure, in_hand,
}
use backend_engineering_note.Worker.Failure.Outcomes.{
  record_failure_closes, record_failure_requeues, record_failure_not_in_hand,
}
use backend_engineering_note.Worker.Investigate.Keyed.{Unique}
use backend_engineering_note.Worker.Repository.{Rows}
use backend_engineering_note.Worker.Handler.{is_closed, transact}

-- The investigation is gone, completed or failed.
abbrev pub closed_row : Option Investigation → Bool
closed_row none = true
closed_row (some r) = is_closed r.status

pub record_failure_failed :
    (max_attempts clock i w : ℕ) (failure : ClassifiedInvestigationFailure) (rows : Rows)
    → Unique i rows
    → (record_failure max_attempts clock i w failure rows).1.outcome ≡ FailureOutcome.failed
    → closed_row (get_row i (record_failure max_attempts clock i w failure rows).0) ≡ true
record_failure_failed max_attempts clock i w failure rows u h =
    elim (Option-cases (get_row i rows)) [
      | inl e ↦
          let same =
            (record_failure_not_in_hand max_attempts clock i w failure rows
              (ap (satisfies (in_hand w)) e)).0 in
          absurd (ground (arith, h, same))
      | inr (r, e) ↦ elim (Bool-cases (in_hand w r)) [
        | inl held ↦ elim (Bool-cases (failure.permanent || leb max_attempts r.attempt_count)) [
          | inl last ↦
              ground (
                arith,
                (record_failure_closes max_attempts clock i w failure rows r u e held last).1,
              )
          | inr again ↦ absurd (
              ground (
                arith,
                h,
                (record_failure_requeues max_attempts clock i w failure rows r u e held again).0,
              ))
        ]
        | inr stranger ↦
            let same =
              (record_failure_not_in_hand max_attempts clock i w failure rows
                (ap (satisfies (in_hand w)) e ∙ stranger)).0 in
            absurd (ground (arith, h, same))
      ]
    ]

-- A transaction that returns has stored what its statement wrote.
pub transact-eq-ok :
    {A : Type 0} (session : Session) (statement : ℕ → Rows → Rows × A) (world : World) (a : A)
    → (transact session statement world).0 ≡ ok a
    → let (after, result) =
        statement (session.now world.tick) (session.others world.tick world.rows) in
      ((transact session statement world).1.rows ≡ after) × (result ≡ a)
unfolding transact
transact-eq-ok session statement world a h = by (session.commit world.tick) refl
  where
    by :
        (c : Commit)
        → session.commit world.tick ≡ c
        → let (after, result) =
            statement (session.now world.tick) (session.others world.tick world.rows) in
          ((transact session statement world).1.rows ≡ after) × (result ≡ a)
    by committed e = ground (arith, e, h)
    by refused e = absurd (ground (arith, e, h))
    by unacknowledged e = absurd (ground (arith, e, h))
