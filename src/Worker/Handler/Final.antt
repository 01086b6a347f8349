-- ===== src/Worker/Handler/Final.antt =====
-- The replies after which the broker drops a delivery: `ack` and `term`.
use backend_engineering_note.Prelude.{
  ℕ, ◌≡◌, refl, subst, ap, ◌∙◌, String, Bool, true, false, Option, none, some, List, arith,
}
use backend_engineering_note.Platform.Rows.{Investigation}
use backend_engineering_note.Platform.Update.{get_row}
use backend_engineering_note.Worker.Errors.{Failure}
use backend_engineering_note.Worker.Exec.{
  Result, ok, raised, World, Session, read, Commit, committed, refused, unacknowledged,
}
use backend_engineering_note.Worker.Failure.{
  RecordedFailure, FailureOutcome, retry, ownership_lost, classify_investigation_failure,
  record_failure,
}
use backend_engineering_note.Worker.Investigate.{Services, WriteBackSettings, execute}
use backend_engineering_note.Worker.Investigate.Steps.{IsLeased, Known}
use backend_engineering_note.Worker.Investigate.Completes.{execute_completes}
use backend_engineering_note.Worker.Investigate.Keyed.{Unique, execute-Unique}
use backend_engineering_note.Worker.Repository.{claim, claim_values}
use backend_engineering_note.Worker.Repository.Leases.{claim-eq-some, count_id-claim}
use backend_engineering_note.Worker.Handler.Recorded.{
  closed_row, record_failure_failed, transact-eq-ok,
}
use backend_engineering_note.Worker.Handler.{
  Reply, ack, nak, term, Handled, Race, action_ends, heartbeat_ends, unclaimed_reply, transact,
  failure_reply, handle_failure, run_owned, owned_reply, handle_owned, handle_unclaimed,
  handle_claim, handle, retry_delay, attempts_or_one,
}

abbrev pub is_final : Reply → Bool
is_final ack = true
is_final (nak delay) = false
is_final term = true

-- Whatever is replied, a final reply finds the investigation closed.
abbrev pub Settles : ℕ → Option Handled × World → Type 0
Settles i (reply, world) =
    (h : Handled)
    → reply ≡ some h
    → is_final h.reply ≡ true
    → closed_row (get_row i world.rows) ≡ true

module _ (session : Session) (services : Services) (settings : WriteBackSettings)
    (report_inline_limit lease max_attempts clock i w : ℕ) (delays : List ℕ) (jitter : ℕ → ℕ)
    (leased : IsLeased session i w) where
  unclaimed-Settles :
      (world : World)
      → Settles i (
          handle_unclaimed session services settings report_inline_limit lease max_attempts clock i
            w delays jitter world)
  unfolding handle_unclaimed read unclaimed_reply
  unclaimed-Settles world =
      by (session.commit world.tick) refl (get_row i (session.others world.tick world.rows)) refl
    where
      by :
          (c : Commit)
          → session.commit world.tick ≡ c
          → (o : Option Investigation) → get_row i (session.others world.tick world.rows) ≡ o
          → Settles i (
              handle_unclaimed session services settings report_inline_limit lease max_attempts
                clock i w delays jitter world)
      by committed e none f = λ h p q. ground (arith, e, f)
      by committed e (some r) f = λ h p q. ground (arith, e, f, p, q)
      by refused e o f = λ h p q. absurd (ground (arith, e, p, q))
      by unacknowledged e o f = λ h p q. absurd (ground (arith, e, p, q))

  -- Only a failure that was recorded as the last is replied to with a final reply.
  failure_reply-final :
      (code : String) (r : Result RecordedFailure) (h : Handled)
      → failure_reply session services settings report_inline_limit lease max_attempts clock i w
          delays jitter code r
        ≡ some h
      → is_final h.reply ≡ true
      → (recorded : RecordedFailure) × (r ≡ ok recorded)
        × (recorded.outcome ≡ FailureOutcome.failed)
  unfolding failure_reply
  failure_reply-final code (raised e) h p q = absurd (ground (arith, p, q))
  failure_reply-final code (ok recorded) h p q =
      by recorded.outcome refl (retry_delay delays jitter (attempts_or_one recorded.attempt_count))
        refl
    where
      by :
          (o : FailureOutcome)
          → recorded.outcome ≡ o
          → (t : Option ℕ) → retry_delay delays jitter (attempts_or_one recorded.attempt_count) ≡ t
          → (found : RecordedFailure) × (ok recorded ≡ ok found)
            × (found.outcome ≡ FailureOutcome.failed)
      by FailureOutcome.failed e t g = (recorded, refl, e)
      by ownership_lost e t g = absurd (ground (arith, e, p, q))
      by retry e none g = absurd (ground (arith, e, g, p, q))
      by retry e (some delay) g = absurd (ground (arith, e, g, p, q))

  failure-Settles :
      (error : Failure) (world : World)
      → Unique i world.rows
      → Settles i (
          handle_failure session services settings report_inline_limit lease max_attempts clock i w
            delays jitter error world)
  unfolding handle_failure
  failure-Settles error world u h p q =
      let failure = classify_investigation_failure error in
      let statement = λ (now : ℕ). record_failure max_attempts clock i w failure in
      let (recorded, e, f) =
        failure_reply-final failure.error_code (transact session statement world).0 h p q in
      let (rows, result) = transact-eq-ok session statement world recorded e in
      rw rows (
        record_failure_failed max_attempts clock i w failure (session.others world.tick world.rows)
          (leased.keyed world.tick world.rows u)
          (ap (λ (x : RecordedFailure). x.outcome) result ∙ f))

  owned-Settles :
      (r : Investigation) (race : Race) (cancelled : World → World) (world : World)
      → Known i w r world
      → Settles i (
          handle_owned session services settings report_inline_limit lease max_attempts clock i w
            delays jitter race cancelled world)
  unfolding run_owned owned_reply
  owned-Settles r heartbeat_ends cancelled world k = λ h p q. absurd (ground (arith, p, q))
  owned-Settles r action_ends cancelled world k =
      by (execute session services settings report_inline_limit i w world).0 refl
    where
      after : World
      after = (execute session services settings report_inline_limit i w world).1

      kept : Unique i after.rows
      kept =
          execute-Unique session i leased.keyed services settings report_inline_limit w world
            k.unique

      by :
          (error : Option Failure)
          → (execute session services settings report_inline_limit i w world).0 ≡ error
          → Settles i (
              owned_reply session services settings report_inline_limit lease max_attempts clock i w
                delays jitter error after)
      by none e = λ h p q.
          let (s, found, status, _, _) =
            execute_completes session services settings report_inline_limit i w leased r world k
              e in
          rw (found, status) refl
      by (some Failure.ownership_lost) e = λ h p q. absurd (ground (arith, p, q))
      by (some (Failure.transient code message)) e =
          failure-Settles (Failure.transient code message) after kept
      by (some (Failure.permanent code message)) e =
          failure-Settles (Failure.permanent code message) after kept
      by (some (Failure.unexpected message)) e =
          failure-Settles (Failure.unexpected message) after kept

  claimed-Known :
      (r : Investigation) (world : World)
      → Unique i world.rows
      → (transact session (claim i w lease) world).0 ≡ ok (some r)
      → Known i w r (transact session (claim i w lease) world).1
  unfolding claim_values
  claimed-Known r world u e =
      let now = session.now world.tick in
      let before = session.others world.tick world.rows in
      let one = leased.keyed world.tick world.rows u in
      let (rows, result) = transact-eq-ok session (claim i w lease) world (some r) e in
      let (old, found, free, values, stored) = claim-eq-some i w lease now before r one result in
      record {
        unique = rw rows (omega (arith, count_id-claim i i w lease now before, one));
        found = (r.lease_expires_at, r.last_heartbeat_at, rw rows stored);
        held = ground (arith, values);
      }

  claim-Settles :
      (race : Race) (cancelled : World → World) (world : World)
      (result : Result (Option Investigation))
      → Unique i world.rows
      → (transact session (claim i w lease) world).0 ≡ result
      → Settles i (
          handle_claim session services settings report_inline_limit lease max_attempts clock i w
            delays jitter race cancelled result
            (transact session (claim i w lease) world).1)
  unfolding handle_claim
  claim-Settles race cancelled world (raised x) u e = λ h p q. absurd (ground (arith, p, q))
  claim-Settles race cancelled world (ok none) u e =
      unclaimed-Settles (transact session (claim i w lease) world).1
  claim-Settles race cancelled world (ok (some r)) u e =
      owned-Settles r race cancelled (transact session (claim i w lease) world).1
        (claimed-Known r world u e)

  -- When a delivery is replied to with a final reply, one after which the broker drops it, its
  -- investigation is gone, completed or failed in the table then. The key is unique at the start,
  -- and other sessions respect the lease: they change no more than the lease and the heartbeat of a
  -- row that the worker has in hand, and keep the key unique. Any transaction may fail to commit or
  -- lose its acknowledgement, and a lost heartbeat may cancel the action anywhere.
  pub handle_settles :
      (race : Race) (cancelled : World → World) (world after : World) (h : Handled)
      → Unique i world.rows
      → handle session services settings report_inline_limit lease max_attempts clock i w delays
          jitter race cancelled world
        ≡ (some h, after)
      → is_final h.reply ≡ true
      → closed_row (get_row i after.rows) ≡ true
  unfolding handle
  handle_settles race cancelled world after h u e q =
      let (claimed, held) = transact session (claim i w lease) world in
      let closed = claim-Settles race cancelled world claimed u refl h in
      subst (λ (x : World). closed_row (get_row i x.rows) ≡ true)
        (ap (λ (x : Option Handled × World). x.1) e)
        (closed (ap (λ (x : Option Handled × World). x.0) e) q)
