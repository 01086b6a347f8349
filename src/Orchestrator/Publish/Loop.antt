-- ===== src/Orchestrator/Publish/Loop.antt =====
-- The loop of a publication pass settles each of its events once.
use backend_engineering_note.Prelude.{
  ℕ, zero, suc, ◌+◌, ◌*◌, ◌≤◌, ◌≡◌, refl, String, Bool, true, false, Option, none, some, List, [],
  ◌∷◌, arith, ltb, length, second, min, if◌then◌else◌, ◌==◌, All, All-map, All-both,
}
use backend_engineering_note.Platform.Table.{count_where}
use backend_engineering_note.Platform.Keyed.{
  row_at, rows_at, row_at-update_where, All-absent, has_key,
}
use backend_engineering_note.Platform.Rows.{OutboxEvent, Mapping}
use backend_engineering_note.Orchestrator.Publish.{
  PublishReply, acknowledged, event_publish_error, crashed, event_key, is_pending, published_values,
  mark_published, failed_values, mark_failed, retry_delay, Pass, answered, mark, publish_one,
  publish_each,
}

-- The seconds to wait before the next attempt, by the attempts so far.
abbrev pub schedule : ℕ → ℕ
schedule zero = 1
schedule (suc zero) = 5
schedule (suc (suc zero)) = 30
schedule (suc (suc (suc n))) = 60

pub retry_delay-eq-schedule : (n : ℕ) → retry_delay n ≡ some (schedule n)
unfolding retry_delay
retry_delay-eq-schedule zero = refl
retry_delay-eq-schedule (suc zero) = refl
retry_delay-eq-schedule (suc (suc zero)) = refl
retry_delay-eq-schedule (suc (suc (suc n))) =
    let last : min (suc (suc (suc n))) 3 ≡ 3 = omega arith in rw last refl

-- The event once the publisher has replied.
abbrev pub replied : ℕ → OutboxEvent → PublishReply → OutboxEvent
replied now e acknowledged = record e { published_at = some now; last_error = none }
replied now e (event_publish_error error) =
    failed_values error (schedule e.attempt_count * second) now e
replied now e crashed = e

-- A statement that leaves something was answered.
pub answered-some {ℓ} :
    {A : Type ℓ} (b : Bool) (o : Option A) (a : A) → answered b o ≡ some a → o ≡ some a
answered-some true o a h = h
answered-some false o a h = absurd (ground arith)

module _ (publish : String → Mapping → ℕ → PublishReply) (now : ℕ) where
  abbrev pub settled : OutboxEvent → OutboxEvent
  settled e = replied now e (publish e.subject e.payload e.event_id)

  abbrev pub settled_at : Bool → Option OutboxEvent → Option OutboxEvent
  settled_at true (some e) = some (settled e)
  settled_at true none = none
  settled_at false o = o

  -- An event that the pass may settle: as it stands in the table, and pending.
  abbrev pub Ready : List OutboxEvent → OutboxEvent → Type 0
  Ready events e = (row_at event_key e.id events ≡ some e) × (is_pending e ≡ true)

  mark_lem :
      (e : OutboxEvent) (r : PublishReply) (pass next : Pass)
      → Ready pass.events e
      → mark publish now e r (some (schedule e.attempt_count)) pass ≡ some next
      → (next.published + next.failed ≡ suc (pass.published + pass.failed))
        × ((j : ℕ)
            → row_at event_key j next.events
              ≡ (if j == e.id then some (replied now e r) else row_at event_key j pass.events))
  unfolding mark mark_published mark_failed published_values failed_values
  mark_lem e acknowledged pass next ready h = (
    ground arith,
    λ j. ground (
      arith,
      row_at-update_where event_key e.id j is_pending (published_values now) pass.events
          (λ x. refl),
    ),
  )
  mark_lem e (event_publish_error m) pass next ready h = (
    ground arith,
    λ j. ground (
      arith,
      row_at-update_where event_key e.id j is_pending
          (failed_values m (schedule e.attempt_count * second) now) pass.events (λ x. refl),
    ),
  )
  mark_lem e crashed pass next ready h = absurd (ground arith)

  publish_one_lem :
      (e : OutboxEvent) (pass next : Pass)
      → Ready pass.events e
      → publish_one publish now e pass ≡ some next
      → (next.published + next.failed ≡ suc (pass.published + pass.failed))
        × ((j : ℕ)
            → row_at event_key j next.events
              ≡ (if j == e.id then some (settled e) else row_at event_key j pass.events))
  unfolding publish_one
  publish_one_lem e pass next ready h =
      mark_lem e (publish e.subject e.payload e.event_id) pass next ready
        (rw (retry_delay-eq-schedule e.attempt_count) at h)

  -- The loop settles the rows under the keys of its events, and no others.
  pub publish_each_lem :
      (answers : ℕ → Bool) (n : ℕ) (es : List OutboxEvent) (pass final : Pass)
      → ((i : ℕ) → rows_at event_key i es ≤ 1)
      → All (Ready pass.events) es
      → publish_each publish now answers n es pass ≡ some final
      → (final.published + final.failed ≡ length es + (pass.published + pass.failed))
        × ((j : ℕ)
            → row_at event_key j final.events
              ≡ settled_at (ltb 0 (rows_at event_key j es)) (row_at event_key j pass.events))
  unfolding publish_each count_where
  publish_each_lem answers n [] pass final unique ready h =
      (ground arith, λ j. let same : pass ≡ final = ground arith in rw same refl)
  publish_each_lem answers n (e ∷ es) pass final unique ready h =
      by (answered (answers n) (publish_one publish now e pass)) refl h
        (λ next. publish_each_lem answers (suc n) es next final (λ i. ground (arith, unique i)))
    where
      Goal : Type 0
      Goal =
          (final.published + final.failed ≡ length (e ∷ es) + (pass.published + pass.failed))
          × ((j : ℕ)
              → row_at event_key j final.events
                ≡ settled_at (ltb 0 (rows_at event_key j (e ∷ es)))
                    (row_at event_key j pass.events))

      by :
          (o : Option Pass)
          → answered (answers n) (publish_one publish now e pass) ≡ o
          → elim o [ none ↦ none | some next ↦ publish_each publish now answers (suc n) es next ]
            ≡ some final
          → ((next : Pass)
              → All (Ready next.events) es
              → publish_each publish now answers (suc n) es next ≡ some final
              → (final.published + final.failed ≡ length es + (next.published + next.failed))
                × ((j : ℕ)
                    → row_at event_key j final.events
                      ≡ settled_at
                          (ltb 0 (rows_at event_key j es))
                          (row_at event_key j next.events)))
          → Goal
      by none e' k ih = absurd (ground arith)
      by (some next) e' k ih =
          let (count, rows) =
            publish_one_lem e pass next ready.0
              (answered-some (answers n) (publish_one publish now e pass) next e') in
          let absent : rows_at event_key e.id es ≡ 0 = ground (arith, unique e.id) in
          let later : All (Ready next.events) es =
            All-map _ _ es
              (λ (x : OutboxEvent) (p : Ready pass.events x × (has_key event_key e.id x ≡ false)).
                (ground (arith, rows x.id, p.0.0, p.1), p.0.1))
              (All-both _ _ es ready.1 (All-absent event_key e.id es absent)) in
          let (total, settle) = ih next later k in
          (omega (arith, count, total), λ j. ground (arith, settle j, rows j, absent, ready.0.0))
