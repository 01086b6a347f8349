-- ===== src/Orchestrator/Publish/Settled.antt =====
-- What a publication pass does to the outbox.
use backend_engineering_note.Prelude.{
  option_map, ℕ, ◌+◌, ◌≤◌, ◌≡◌, refl, String, Bool, true, not, ◌&&◌, Option, none, some, List,
  arith, ltb, length, length-take, All, All-map,
}
use backend_engineering_note.Platform.Table.{select_where}
use backend_engineering_note.Platform.Keyed.{
  row_at, rows_at, by_key, row_at_own, rows_at-by_key, rows_at-take_le, rows_at-select_where_le,
  All-by_key, All-take, All-select_where,
}
use backend_engineering_note.Platform.Rows.{OutboxEvent, Mapping}
use backend_engineering_note.Orchestrator.Publish.{
  PublishReply, PublishBatchResult, event_key, is_due, claim_pending, count_pending, publish_each,
  Pass, concluded, publish_outbox,
}
use backend_engineering_note.Orchestrator.Publish.Loop.{settled_at, answered-some, publish_each_lem}

-- The primary key of the outbox.
abbrev pub IsKeyed : List OutboxEvent → Type 0
IsKeyed events = (i : ℕ) → rows_at event_key i events ≤ 1

-- What a pass selects is due and not locked by another transaction.
abbrev pub IsSelectable : (ℕ → Bool) → ℕ → List OutboxEvent → OutboxEvent → Type 0
IsSelectable locked now events e =
    (row_at event_key e.id events ≡ some e) × ((is_due now e && not (locked e.id)) ≡ true)

claim_pending-IsSelectable :
    (locked : ℕ → Bool) (now limit : ℕ) (events : List OutboxEvent)
    → IsKeyed events
    → All (IsSelectable locked now events) (claim_pending locked now limit events)
unfolding claim_pending
claim_pending-IsSelectable locked now limit events u =
    All-take _ limit _
      (All-by_key event_key _ _ (All-select_where _ _ events (row_at_own event_key events u)))

rows_at-claim_pending_le :
    (locked : ℕ → Bool) (now limit : ℕ) (events : List OutboxEvent) (i : ℕ)
    → rows_at event_key i (claim_pending locked now limit events) ≤ rows_at event_key i events
unfolding claim_pending
rows_at-claim_pending_le locked now limit events i =
    let chosen = select_where (λ (e : OutboxEvent). is_due now e && not (locked e.id)) events in
    omega (
      arith,
      rows_at-take_le event_key i limit (by_key event_key chosen),
      rows_at-by_key event_key i chosen,
      rows_at-select_where_le event_key i (λ (e : OutboxEvent). is_due now e && not (locked e.id))
          events,
    )

length-claim_pending_le :
    (locked : ℕ → Bool) (now limit : ℕ) (events : List OutboxEvent)
    → length (claim_pending locked now limit events) ≤ limit
unfolding claim_pending
length-claim_pending_le locked now limit events = omega (arith, length-take {0})

module _ (publish : String → Mapping → ℕ → PublishReply) (now : ℕ) (answers locked : ℕ → Bool)
    (batch_size : ℕ) (events : List OutboxEvent) (keyed : IsKeyed events) where
  -- On an outbox with unique keys, a publication pass that ends selects at most the batch size,
  -- counts each selected event as published or failed, selects only events that are pending, due and
  -- not locked elsewhere, leaves every selected row as its event's reply settles it, with the
  -- scheduled delay after a failure, and every other row as it was, and reports the number still
  -- pending.
  pub publish_outbox_settles :
      (result : PublishBatchResult) (after : List OutboxEvent) (pending : ℕ)
      → publish_outbox publish now answers locked batch_size events ≡ some (result, after, pending)
      → let selected = claim_pending locked now batch_size events in
        (result.selected ≤ batch_size)
        × (result.published + result.failed ≡ result.selected)
        × All (IsSelectable locked now events) selected
        × ((j : ℕ)
            → row_at event_key j after
              ≡ settled_at publish now
                  (ltb 0 (rows_at event_key j selected))
                  (row_at event_key j events))
        × (pending ≡ count_pending after)
  unfolding publish_outbox
  publish_outbox_settles result after pending h =
      by (publish_each publish now answers 1 selected start) refl
        (answered-some _ _ _ (answered-some _ _ _ h))
    where
      selected : List OutboxEvent
      selected = claim_pending locked now batch_size events

      start : Pass
      start = record { published = 0; failed = 0; events = events }

      by :
          (o : Option Pass)
          → publish_each publish now answers 1 selected start ≡ o
          → option_map (concluded (length selected)) o ≡ some (result, after, pending)
          → (result.selected ≤ batch_size)
            × (result.published + result.failed ≡ result.selected)
            × All (IsSelectable locked now events) selected
            × ((j : ℕ)
                → row_at event_key j after
                  ≡ settled_at publish now
                      (ltb 0 (rows_at event_key j selected))
                      (row_at event_key j events))
            × (pending ≡ count_pending after)
      by none e k = absurd (ground arith)
      by (some pass) e k =
          let chosen = claim_pending-IsSelectable locked now batch_size events keyed in
          let (count, rows) =
            publish_each_lem publish now answers 1 selected start pass
              (λ i. omega (arith, rows_at-claim_pending_le locked now batch_size events i, keyed i))
              (All-map _ _ selected
                (λ (x : OutboxEvent) (p : IsSelectable locked now events x).
                  (p.0, ground (arith, p.1)))
                chosen)
              e in
          (
            ground (arith, length-claim_pending_le locked now batch_size events),
            ground (arith, count),
            chosen,
            λ j. ground (arith, rows j),
            ground arith,
          )
