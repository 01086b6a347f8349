-- ===== src/Worker/Reconcile.antt =====
-- One reconciliation pass: application/reconcile.py of the worker. A pass is one transaction. UUIDs
-- of equal length are ordered as their texts are, so `sorted(…, key=str)` orders by number.

pub mod Decisions
pub mod Pass
use backend_engineering_note.Prelude.{
  ℕ, ◌-◌, ◌*◌, Bool, true, false, ◌&&◌, ◌||◌, Option, none, some, List, [], ◌∷◌, if◌then◌else◌, ltb,
  leb, ◌==◌, minute, second, day,
}
use backend_engineering_note.Platform.Table.{count_where}
use backend_engineering_note.Platform.Rows.{
  InvestigationStatus, processing, completed, status_eq, Database,
}
use backend_engineering_note.Worker.Repository.{Rows}
use backend_engineering_note.Worker.Reconciliation.{
  ObservedInvestigation, ReconciliationMutation, RetentionDeletes, read_for_update, apply_mutation,
  count_stale_processing, oldest_unpublished_at, count_by_status, delete_expired,
}

pub data MaxDeliveryOutcome : Type 0 where
  failed deferred already_terminal missing : MaxDeliveryOutcome

pub record MaxDeliveryDecision : Type 0 where
  pub investigation_id : ℕ
  pub outcome : MaxDeliveryOutcome
  pub mutation : Option ReconciliationMutation

abbrev pub decided : ℕ → MaxDeliveryOutcome → MaxDeliveryDecision
decided i outcome = record { investigation_id = i; outcome = outcome; mutation = none }

-- `lease_expires_at is None or lease_expires_at >= observed_at`
abbrev pub lease_running : Option ℕ → ℕ → Bool
lease_running none observed_at = true
lease_running (some expiry) observed_at = leb observed_at expiry

unfoldable pub decide_max_delivery : ℕ → Option ObservedInvestigation → MaxDeliveryDecision
decide_max_delivery i none = decided i missing
decide_max_delivery i (some state) =
    if status_eq state.status completed || status_eq state.status InvestigationStatus.failed
    then decided i already_terminal
    else if status_eq state.status processing
        && lease_running state.lease_expires_at state.observed_at
    then decided i deferred
    else record {
      investigation_id = i;
      outcome = MaxDeliveryOutcome.failed;
      mutation = some (record {
        investigation_id = i;
        expected_status = state.status;
        expected_worker_id = state.worker_id;
        expected_lease_expires_at = state.lease_expires_at;
        target_status = InvestigationStatus.failed;
        completed_at = state.observed_at;
        error_code = "MAX_DELIVER_EXCEEDED";
        error_message = "JetStream maximum delivery count was exhausted";
      });
    }

-- `by_id.get(investigation_id)`
unfoldable pub by_id : ℕ → List ObservedInvestigation → Option ObservedInvestigation
by_id i [] = none
by_id i (o ∷ rest) = if o.id == i then some o else by_id i rest

-- One round of the loop in `_apply_decisions`.
unfoldable pub apply_decision :
    MaxDeliveryDecision → Option ReconciliationMutation → Rows → Rows × MaxDeliveryDecision
apply_decision decision none rows = (rows, decision)
apply_decision decision (some m) rows =
    let (after, applied) = apply_mutation m rows in
    (after, if applied then decision else decided decision.investigation_id deferred)

unfoldable pub apply_decisions :
    List ℕ → List ObservedInvestigation → Rows → Rows × List MaxDeliveryDecision
apply_decisions [] observed rows = (rows, [])
apply_decisions (i ∷ ids) observed rows =
    let decision = decide_max_delivery i (by_id i observed) in
    let (after, result) = apply_decision decision decision.mutation rows in
    let (final, results) = apply_decisions ids observed after in (final, result ∷ results)

-- `sorted(set(ids), key=str)`
unfoldable pub insert_id : ℕ → List ℕ → List ℕ
insert_id i [] = i ∷ []
insert_id i (j ∷ js) =
    let rest = insert_id i js in if i == j then j ∷ js else if ltb i j then i ∷ j ∷ js else j ∷ rest

unfoldable pub ordered_ids : List ℕ → List ℕ
ordered_ids [] = []
ordered_ids (i ∷ ids) = insert_id i (ordered_ids ids)

-- `_age_seconds`, in microseconds; `-` stops at 0 as `max(0.0, …)` does
abbrev pub age : ℕ → Option ℕ → Option ℕ
age now none = none
age now (some t) = some (now - t)

pub record ReconciliationResult : Type 0 where
  pub stale_processing : ℕ
  pub oldest_unpublished_age : Option ℕ
  pub max_deliver_exhausted : ℕ
  pub retention_deletes : RetentionDeletes
  pub investigations_by_status : InvestigationStatus → ℕ
  pub investigation_results : List MaxDeliveryDecision

unfoldable pub outbox_lagging : ReconciliationResult → Bool
outbox_lagging result = elim result.oldest_unpublished_age [
  | none ↦ false
  | some t ↦ ltb (300 * second) t
]

abbrev pub is_failed : MaxDeliveryDecision → Bool
is_failed d = elim d.outcome [ MaxDeliveryOutcome.failed ↦ true | _ ↦ false ]

-- `Reconcile.execute`: `clock` is the worker's clock, `now` the transaction's.
unfoldable pub execute : ℕ → ℕ → ℕ → List ℕ → Database → Database × ReconciliationResult
execute retention_days clock now investigation_ids db =
    let ids = ordered_ids investigation_ids in
    let observed = read_for_update now ids db.investigations in
    let (rows, decisions) = apply_decisions ids observed db.investigations in
    let (after, deletes) =
      delete_expired (clock - retention_days * day) (record db { investigations = rows }) in
    (
      after,
      record {
        stale_processing = count_stale_processing (clock - 10 * minute) db.investigations;
        oldest_unpublished_age = age clock (oldest_unpublished_at db.outbox_events);
        max_deliver_exhausted = count_where is_failed decisions;
        retention_deletes = deletes;
        investigations_by_status = λ s. count_by_status s db.investigations;
        investigation_results = decisions;
      },
    )
