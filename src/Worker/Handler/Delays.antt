-- ===== src/Worker/Handler/Delays.antt =====
-- Every delivery is replied to, and one that is put back comes back in time.
use backend_engineering_note.Prelude.{
  ℕ, ◌+◌, ◌-◌, ◌<◌, ◌≡◌, refl, String, true, false, ◌||◌, ◌&&◌, ◌⊎◌, Option, none, some, List,
  arith, length, get_elem?_lt_length, min, sql_lt, Option-cases, inl, inr,
}
use backend_engineering_note.Platform.Rows.{
  Investigation, InvestigationStatus, queued, processing, status_eq,
}
use backend_engineering_note.Platform.Consistency.{IsValid}
use backend_engineering_note.Worker.Errors.{Failure}
use backend_engineering_note.Worker.Exec.{Result, ok, raised, World, Session}
use backend_engineering_note.Worker.Failure.{RecordedFailure, FailureOutcome, retry, ownership_lost}
use backend_engineering_note.Worker.Investigate.{Services, WriteBackSettings}
use backend_engineering_note.Worker.Repository.{claimable}
use backend_engineering_note.Worker.Handler.{
  nak, term, handled, lost, Handled, Race, is_closed, remaining, attempts_or_one, unclaimed_reply,
  retry_delay, failure_reply, handle_failure, owned_reply, handle_unclaimed, handle_claim, handle,
}

retry_delay_total :
    (delays : List ℕ) (jitter : ℕ → ℕ) (attempts : ℕ)
    → 0 < length delays
    → (t : ℕ) × (retry_delay delays jitter attempts ≡ some t)
unfolding retry_delay
retry_delay_total delays jitter attempts h =
    let (d, e) =
      get_elem?_lt_length delays (min (attempts - 1) (length delays - 1)) (omega arith) in
    (jitter d, rw e refl)

abbrev pub Answers : Option Handled × World → Type 0
Answers (reply, world) = (h : Handled) × (reply ≡ some h)

module _ (session : Session) (services : Services) (settings : WriteBackSettings)
    (report_inline_limit lease max_attempts clock i w : ℕ) (delays : List ℕ) (jitter : ℕ → ℕ)
    (some_delay : 0 < length delays) where
  failure_reply_total :
      (code : String) (r : Result RecordedFailure)
      → (h : Handled) × (failure_reply session services settings report_inline_limit lease
            max_attempts clock i w delays jitter code r
          ≡ some h)
  unfolding failure_reply
  failure_reply_total code (raised e) = (_, refl)
  failure_reply_total code (ok recorded) = by recorded.outcome refl
    where
      by :
          (o : FailureOutcome)
          → recorded.outcome ≡ o
          → (h : Handled) × (failure_reply session services settings report_inline_limit lease
                max_attempts clock i w delays jitter code
                (ok recorded)
              ≡ some h)
      by FailureOutcome.failed e = (handled term "failed" code, rw e refl)
      by ownership_lost e = (lost, rw e refl)
      by retry e =
          let (t, d) =
            retry_delay_total delays jitter (attempts_or_one recorded.attempt_count) some_delay in
          (handled (nak t) "retried" code, rw (e, d) refl)

  owned_reply_total :
      (error : Option Failure) (world : World)
      → Answers (
          owned_reply session services settings report_inline_limit lease max_attempts clock i w
            delays jitter error world)
  unfolding owned_reply handle_failure
  owned_reply_total none world = (_, refl)
  owned_reply_total (some Failure.ownership_lost) world = (_, refl)
  owned_reply_total (some (Failure.transient code message)) world = failure_reply_total _ _
  owned_reply_total (some (Failure.permanent code message)) world = failure_reply_total _ _
  owned_reply_total (some (Failure.unexpected message)) world = failure_reply_total _ _

  claim_total :
      (race : Race) (cancelled : World → World) (claimed : Result (Option Investigation))
      (world : World)
      → Answers (
          handle_claim session services settings report_inline_limit lease max_attempts clock i w
            delays jitter race cancelled claimed world)
  unfolding handle_claim handle_unclaimed
  claim_total race cancelled (raised e) world = (_, refl)
  claim_total race cancelled (ok none) world = (_, refl)
  claim_total race cancelled (ok (some r)) world = owned_reply_total _ _

  -- If the list of retry delays is not empty, every delivery gets a reply, whatever the database
  -- does and whichever task ends first.
  pub handle_total :
      (race : Race) (cancelled : World → World) (world : World)
      → (h : Handled) × ((handle session services settings report_inline_limit lease max_attempts
            clock i w delays jitter race cancelled world).0
          ≡ some h)
  unfolding handle
  handle_total race cancelled world = claim_total race cancelled _ _

-- A delivery of a valid and open investigation that could not be claimed is put back for the rest of
-- the lease, and at any time after that the row may be claimed, if it is as it was read.
pub unclaimed_comes_back :
    (clock now : ℕ) (state : Investigation)
    → IsValid state
    → is_closed state.status ≡ false
    → clock + remaining clock state.lease_expires_at < now
    → (unclaimed_reply clock (some state) ≡ nak (remaining clock state.lease_expires_at))
      × (claimable now state ≡ true)
unfolding unclaimed_reply claimable
unclaimed_comes_back clock now state valid opened late =
    (ground (arith, opened), by state.status refl (Option-cases state.lease_expires_at))
  where
    by :
        (s : InvestigationStatus)
        → state.status ≡ s
        → (state.lease_expires_at ≡ none) ⊎ ((e : ℕ) × (state.lease_expires_at ≡ some e))
        → (status_eq state.status queued
            || (status_eq state.status processing && sql_lt state.lease_expires_at now))
          ≡ true
    by queued e o = ground (arith, e)
    by InvestigationStatus.completed e o = absurd (ground (arith, e, opened))
    by InvestigationStatus.failed e o = absurd (ground (arith, e, opened))
    by processing e (inl o) = absurd (ground (arith, valid.leased e, o))
    by processing e (inr (t, o)) = ground (arith, e, o, late)
