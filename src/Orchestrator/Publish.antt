-- ===== src/Orchestrator/Publish.antt =====
-- Publication of outbox events: application/publish_outbox.py, with the statements of
-- db/repositories/outbox.py. The rows that a pass selects are locked until it ends, so that no other
-- transaction changes them meanwhile; rows that others hold locked are skipped.
pub mod Loop
pub mod Settled
use backend_engineering_note.Prelude.{
  option_map, ℕ, suc, ◌+◌, ◌-◌, ◌*◌, String, Bool, true, false, not, ◌&&◌, Option, none, some, List,
  [], ◌∷◌, leb, ltb, length, take, get_elem?, take_text, is_some, second, min, if◌then◌else◌, ◌==◌,
}
use backend_engineering_note.Platform.Table.{count_where, select_where, update_where}
use backend_engineering_note.Platform.Keyed.{by_key}
use backend_engineering_note.Platform.Rows.{OutboxEvent, Mapping}

-- What the broker's publisher does: it returns, raises EventPublishError, or raises anything else.
pub data PublishReply : Type 0 where
  acknowledged : PublishReply
  event_publish_error : String → PublishReply
  crashed : PublishReply

pub record PublishBatchResult : Type 0 where
  pub selected : ℕ
  pub published : ℕ
  pub failed : ℕ

abbrev pub event_key : OutboxEvent → ℕ
event_key e = e.id

abbrev pub is_pending : OutboxEvent → Bool
is_pending e = not (is_some e.published_at)

abbrev pub is_due : ℕ → OutboxEvent → Bool
is_due now e = is_pending e && leb e.next_attempt_at now

-- SELECT … ORDER BY id LIMIT … FOR UPDATE SKIP LOCKED
unfoldable pub claim_pending : (ℕ → Bool) → ℕ → ℕ → List OutboxEvent → List OutboxEvent
claim_pending locked now limit events =
    take limit (by_key event_key (select_where (λ e. is_due now e && not (locked e.id)) events))

unfoldable pub count_pending : List OutboxEvent → ℕ
count_pending events = count_where is_pending events

unfoldable pub published_values : ℕ → OutboxEvent → OutboxEvent
published_values now e = record e { published_at = some now; last_error = none }

unfoldable pub mark_published : ℕ → ℕ → List OutboxEvent → List OutboxEvent
mark_published i now events =
    update_where (λ e. e.id == i && is_pending e) (published_values now) events

unfoldable pub failed_values : String → ℕ → ℕ → OutboxEvent → OutboxEvent
failed_values error retry_after now e = record e {
  attempt_count = e.attempt_count + 1;
  last_error = some (take_text 2000 error);
  next_attempt_at = now + retry_after;
}

unfoldable pub mark_failed : ℕ → String → ℕ → ℕ → List OutboxEvent → List OutboxEvent
mark_failed i error retry_after now events =
    update_where (λ e. e.id == i && is_pending e) (failed_values error retry_after now) events

abbrev pub backoff_seconds : List ℕ
backoff_seconds = 1 ∷ 5 ∷ 30 ∷ 60 ∷ []

-- `_retry_delay`, in seconds; `none` is an IndexError
unfoldable pub retry_delay : ℕ → Option ℕ
retry_delay attempt_count =
    get_elem? backoff_seconds (min attempt_count (length backoff_seconds - 1))

-- A pass under way: what it has published and failed, and the table.
pub record Pass : Type 0 where
  pub published : ℕ
  pub failed : ℕ
  pub events : List OutboxEvent

abbrev pub concluded : ℕ → Pass → PublishBatchResult × List OutboxEvent × ℕ
concluded selected pass = (
  record { selected = selected; published = pass.published; failed = pass.failed },
  pass.events,
  count_pending pass.events,
)

-- What a statement leaves if the database answers it, and an exception if not.
abbrev pub answered {ℓ} : {A : Type ℓ} → Bool → Option A → Option A
answered true o = o
answered false o = none

module _ (publish : String → Mapping → ℕ → PublishReply) (now : ℕ) where
  unfoldable pub mark : OutboxEvent → PublishReply → Option ℕ → Pass → Option Pass
  mark e acknowledged delay pass = some (record {
    published = pass.published + 1;
    failed = pass.failed;
    events = mark_published e.id now pass.events;
  })
  mark e (event_publish_error error) none pass = none
  mark e (event_publish_error error) (some delay) pass = some (record {
    published = pass.published;
    failed = pass.failed + 1;
    events = mark_failed e.id error (delay * second) now pass.events;
  })
  mark e crashed delay pass = none

  -- one round of the loop; `none` is an exception, which rolls the pass back
  unfoldable pub publish_one : OutboxEvent → Pass → Option Pass
  publish_one e pass =
      mark e (publish e.subject e.payload e.event_id) (retry_delay e.attempt_count) pass

  -- The rounds of the loop, the first one's statement being the n-th of the pass.
  unfoldable pub publish_each : (ℕ → Bool) → ℕ → List OutboxEvent → Pass → Option Pass
  publish_each answers n [] pass = some pass
  publish_each answers n (e ∷ es) pass = elim (answered (answers n) (publish_one e pass)) [
    | none ↦ none
    | some next ↦ publish_each answers (suc n) es next
  ]

  -- `PublishOutbox.execute`: the result, the table, and the gauge `outbox_pending`. The database
  -- answers, or fails to answer, the claim, each mark, the count, the commit and the close; `none` is
  -- an exception: OutboxStoreUnavailableError after a failure, or what the publisher raised.
  unfoldable pub publish_outbox :
      (ℕ → Bool)
      → (ℕ → Bool)
      → ℕ
      → List OutboxEvent
      → Option (PublishBatchResult × List OutboxEvent × ℕ)
  publish_outbox answers locked batch_size events =
      let selected = claim_pending locked now batch_size events in
      let start : Pass = record { published = 0; failed = 0; events = events } in
      let last = length selected in
      answered (answers 0) (
        answered (answers (last + 1) && (answers (last + 2) && answers (last + 3)))
          (option_map (concluded last) (publish_each answers 1 selected start)))
