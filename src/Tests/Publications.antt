-- ===== src/Tests/Publications.antt =====
-- The theorems on publication, on an outbox with an event of each kind.
use backend_engineering_note.Prelude.{
  if◌then◌else◌, ℕ, ◌+◌, ◌≤◌, ◌≡◌, refl, String, Bool, true, not, none, some, List, [], ◌∷◌, All,
  arith, ltb, ◌==◌,
}
use backend_engineering_note.Platform.Rows.{OutboxEvent, Mapping}
use backend_engineering_note.Platform.Table.{count_where, select_where, update_where}
use backend_engineering_note.Platform.Keyed.{row_at, rows_at, by_key, insert_by_key}
use backend_engineering_note.Orchestrator.Publish.{
  PublishReply, acknowledged, event_publish_error, PublishBatchResult, event_key, claim_pending,
  count_pending, published_values, failed_values, mark_published, mark_failed, mark, publish_one,
  publish_each, publish_outbox, retry_delay,
}
use backend_engineering_note.Orchestrator.Publish.Loop.{
  settled_at, retry_delay-eq-schedule, schedule,
}
use backend_engineering_note.Orchestrator.Publish.Settled.{
  IsKeyed, IsSelectable, publish_outbox_settles,
}

abbrev event : ℕ → ℕ → OutboxEvent
event id attempts = record {
  id = id;
  event_id = 50 + id;
  aggregate_type = "investigation";
  aggregate_id = 7;
  event_type = "investigation.requested";
  subject = "investigations.requested";
  payload = [];
  created_at = 5;
  published_at = none;
  attempt_count = attempts;
  next_attempt_at = 5;
  last_error = none;
}

abbrev sent_before : OutboxEvent
sent_before = record (event 4 1) { published_at = some 6 }

abbrev outbox : List OutboxEvent
outbox = event 2 1 ∷ event 1 0 ∷ event 3 0 ∷ sent_before ∷ []

-- The broker refuses the event 2.
abbrev broker : String → Mapping → ℕ → PublishReply
broker subject payload id = if id == 52 then event_publish_error "no stream" else acknowledged

-- Another publisher has locked the event 3.
abbrev locked_3 : ℕ → Bool
locked_3 i = i == 3

-- The database answers every statement.
abbrev available : ℕ → Bool
available n = true

-- Without an answer to its commit a pass raises.
commit_fails : publish_outbox broker 100 (λ n. not (n == 4)) locked_3 5 outbox ≡ none
unfolding publish_outbox claim_pending select_where publish_each publish_one retry_delay mark
    mark_published mark_failed published_values failed_values update_where count_pending count_where
    by_key insert_by_key
commit_fails = refl

abbrev outbox_after : List OutboxEvent
outbox_after =
    record (event 2 2) { next_attempt_at = 5000100; last_error = some "no stream" }
    ∷ record (event 1 0) { published_at = some 100 }
    ∷ event 3 0
    ∷ sent_before
    ∷ []

abbrev batch_result : PublishBatchResult
batch_result = record { selected = 2; published = 1; failed = 1 }

published :
    publish_outbox broker 100 available locked_3 5 outbox ≡ some (batch_result, outbox_after, 2)
unfolding publish_outbox claim_pending select_where publish_each publish_one retry_delay mark
    mark_published mark_failed published_values failed_values update_where count_pending count_where
    by_key insert_by_key
published = refl

outbox-IsKeyed : IsKeyed outbox
unfolding count_where
outbox-IsKeyed i = ground arith

publish_outbox_settles_example :
    (batch_result.selected ≤ 5)
    × (batch_result.published + batch_result.failed ≡ batch_result.selected)
    × All (IsSelectable locked_3 100 outbox) (claim_pending locked_3 100 5 outbox)
    × ((j : ℕ)
        → row_at event_key j outbox_after
          ≡ settled_at broker 100
              (ltb 0 (rows_at event_key j (claim_pending locked_3 100 5 outbox)))
              (row_at event_key j outbox))
    × (2 ≡ count_pending outbox_after)
publish_outbox_settles_example =
    publish_outbox_settles broker 100 available locked_3 5 outbox outbox-IsKeyed batch_result
      outbox_after 2 published

retry_delay-eq-schedule_example : retry_delay 7 ≡ some (schedule 7)
retry_delay-eq-schedule_example = retry_delay-eq-schedule 7
