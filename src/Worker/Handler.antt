-- ===== src/Worker/Handler.antt =====
-- A delivery from the broker, from its claim to the broker's reply: adapters/nats/handler.py of the
-- worker, over db/platform/lease_manager.py. Delays are in ticks. The broker takes every reply; what
-- the failed keep-alive `in_progress` raises is only logged.
pub mod Heartbeat
pub mod Recorded
pub mod Final
pub mod Delays
use backend_engineering_note.Prelude.{
  ℕ, zero, suc, ◌-◌, ◌*◌, String, Bool, true, false, Option, none, some, List, [], ◌∷◌, option_map,
  min, length, second, get_elem?, if◌then◌else◌,
}
use backend_engineering_note.Platform.Rows.{
  Investigation, InvestigationStatus, status_eq, completed,
}
use backend_engineering_note.Platform.Update.{get_row}
use backend_engineering_note.Worker.Errors.{Failure}
use backend_engineering_note.Worker.Exec.{
  Result, ok, raised, World, Session, committed, refused, unacknowledged, begun, store_error, read,
}
use backend_engineering_note.Worker.Failure.{
  ClassifiedInvestigationFailure, RecordedFailure, FailureOutcome, retry, ownership_lost,
  classify_investigation_failure, record_failure,
}
use backend_engineering_note.Worker.Investigate.{Services, WriteBackSettings, execute}
use backend_engineering_note.Worker.Repository.{Rows, claim}

pub data Reply : Type 0 where
  ack : Reply
  nak : ℕ → Reply
  term : Reply

-- The reply to the broker, beside the outcome and the error code that `_handle` returns.
pub record Handled : Type 0 where
  pub reply : Reply
  pub outcome : String
  pub error_code : String

abbrev pub handled : Reply → String → String → Handled
handled reply outcome error_code = record {
  reply = reply;
  outcome = outcome;
  error_code = error_code;
}

abbrev pub database_unavailable : Handled
database_unavailable = handled (nak (30 * second)) "retried" "database_unavailable"

abbrev pub lost : Handled
lost = handled (nak 0) "retried" "ownership_lost"

-- Which of the two tasks of `_run_owned` ends first.
pub data Race : Type 0 where
  action_ends heartbeat_ends : Race

abbrev pub is_closed : InvestigationStatus → Bool
is_closed InvestigationStatus.completed = true
is_closed InvestigationStatus.failed = true
is_closed InvestigationStatus.processing = false
is_closed InvestigationStatus.queued = false

abbrev pub remaining : ℕ → Option ℕ → ℕ
remaining clock none = 0
remaining clock (some expires) = expires - clock

-- `_handle_unclaimed`, by the state that it reads
unfoldable pub unclaimed_reply : ℕ → Option Investigation → Reply
unclaimed_reply clock none = ack
unclaimed_reply clock (some state) =
    if is_closed state.status then ack else nak (remaining clock state.lease_expires_at)

-- `_retry_delay`; `jitter` multiplies by `retry_multiplier()`, and `none` is an IndexError
unfoldable pub retry_delay : List ℕ → (ℕ → ℕ) → ℕ → Option ℕ
retry_delay delays jitter attempt_count =
    option_map jitter (get_elem? delays (min (attempt_count - 1) (length delays - 1)))

-- `recorded.attempt_count or 1`
abbrev pub attempts_or_one : Option ℕ → ℕ
attempts_or_one none = 1
attempts_or_one (some zero) = 1
attempts_or_one (some (suc n)) = suc n

-- A transaction that commits whatever it wrote, as those of the lease manager do.
module _ {A : Type 0} (session : Session) where
  unfoldable pub transact : (ℕ → Rows → Rows × A) → World → Result A × World
  transact statement w =
      let (after, result) = statement (session.now w.tick) (begun session w).rows in
      elim (session.commit w.tick) [
        | committed ↦ (ok result, record (begun session w) { rows = after })
        | refused ↦ (raised (store_error session), begun session w)
        | unacknowledged ↦ (raised (store_error session), record (begun session w) { rows = after })
      ]

module _ (session : Session) (services : Services) (settings : WriteBackSettings)
    (report_inline_limit lease max_attempts clock i w : ℕ) (delays : List ℕ) (jitter : ℕ → ℕ) where
  -- the reply to a failure that was recorded
  unfoldable pub failure_reply : String → Result RecordedFailure → Option Handled
  failure_reply code (raised e) = some database_unavailable
  failure_reply code (ok recorded) = elim recorded.outcome [
    | ownership_lost ↦ some lost
    | FailureOutcome.failed ↦ some (handled term "failed" code)
    | retry ↦
        option_map (λ delay. handled (nak delay) "retried" code)
          (retry_delay delays jitter (attempts_or_one recorded.attempt_count))
  ]

  -- `_record_failure`
  unfoldable pub handle_failure : Failure → World → Option Handled × World
  handle_failure error world =
      let failure = classify_investigation_failure error in
      let (recorded, after) =
        transact session (λ _. record_failure max_attempts clock i w failure) world in
      (failure_reply failure.error_code recorded, after)

  -- `_run_owned`: the action stands wherever it was when it was cancelled
  unfoldable pub run_owned : Race → (World → World) → World → Option Failure × World
  run_owned action_ends cancelled world =
      execute session services settings report_inline_limit i w world
  run_owned heartbeat_ends cancelled world = (some Failure.ownership_lost, cancelled world)

  unfoldable pub owned_reply : Option Failure → World → Option Handled × World
  owned_reply none world = (some (handled ack "completed" "_NONE"), world)
  owned_reply (some Failure.ownership_lost) world = (some lost, world)
  owned_reply (some (Failure.transient code message)) world =
      handle_failure (Failure.transient code message) world
  owned_reply (some (Failure.permanent code message)) world =
      handle_failure (Failure.permanent code message) world
  owned_reply (some (Failure.unexpected message)) world =
      handle_failure (Failure.unexpected message) world

  abbrev pub handle_owned : Race → (World → World) → World → Option Handled × World
  handle_owned race cancelled world =
      let (error, after) = run_owned race cancelled world in owned_reply error after

  abbrev pub skipped_by : Result (Option Investigation) → Handled
  skipped_by (raised e) = database_unavailable
  skipped_by (ok state) = handled (unclaimed_reply clock state) "skipped" "_NONE"

  unfoldable pub handle_unclaimed : World → Option Handled × World
  handle_unclaimed world =
      let (state, after) = read session (get_row i) world in (some (skipped_by state), after)

  -- `_handle` once the claim has been answered
  unfoldable pub handle_claim :
      Race → (World → World) → Result (Option Investigation) → World → Option Handled × World
  handle_claim race cancelled (raised e) world = (some database_unavailable, world)
  handle_claim race cancelled (ok none) world = handle_unclaimed world
  handle_claim race cancelled (ok (some claimed)) world = handle_owned race cancelled world

  -- `_handle`
  unfoldable pub handle : Race → (World → World) → World → Option Handled × World
  handle race cancelled world =
      let (claimed, after) = transact session (claim i w lease) world in
      handle_claim race cancelled claimed after
