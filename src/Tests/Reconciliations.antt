-- ===== src/Tests/Reconciliations.antt =====
-- The theorems on the reconciler, on a small database.
use backend_engineering_note.Prelude.{
  ℕ, ◌-◌, ◌*◌, day, ◌≡◌, if◌then◌else◌, none, some, List, [], ◌∷◌, arith,
}
use backend_engineering_note.Platform.Table.{count_where, select_where}
use backend_engineering_note.Platform.Rows.{is_active, Database, OutboxEvent, ApiRequest, explicit}
use backend_engineering_note.Platform.Update.{get_row}
use backend_engineering_note.Worker.Reconciliation.{contains, delete_expired}
use backend_engineering_note.Worker.Reconciliation.Retention.{
  is_unpublished, IsReferential, delete_expired_keeps_pending, delete_expired-IsReferential,
}
use backend_engineering_note.Worker.Reconcile.{is_failed, execute, ordered_ids}
use backend_engineering_note.Worker.Reconcile.Decisions.{given_up}
use backend_engineering_note.Worker.Reconcile.Pass.{
  Ascending, verdicts, retained, reconcile_decisions,
}
use backend_engineering_note.Tests.{held_rows, held_rows-IsConsistent}

abbrev notified : List ℕ
notified = 8 ∷ 7 ∷ 8 ∷ []

abbrev old_request : ApiRequest
old_request = record {
  id = 1;
  client_id = 2;
  exception_ids = "E-1" ∷ "E-9" ∷ [];
  request_kind = explicit;
  selection_created_at_gte = none;
  selection_max_exceptions = none;
  selection_schema = none;
  selection_exception_name = none;
  created_at = 5;
}

abbrev pending_event : OutboxEvent
pending_event = record {
  id = 1;
  event_id = 7;
  aggregate_type = "investigation";
  aggregate_id = 7;
  event_type = "investigation.requested";
  subject = "investigations";
  payload = [];
  created_at = 5;
  published_at = none;
  attempt_count = 0;
  next_attempt_at = 5;
  last_error = none;
}

abbrev small : Database
small = record {
  investigations = held_rows;
  outbox_events = pending_event ∷ [];
  api_requests = old_request ∷ [];
  memberships =
      record { request_id = 1; investigation_id = 7; position = 0 }
      ∷ record { request_id = 1; investigation_id = 8; position = 1 }
      ∷ [];
  generation = some 3;
}

small-IsReferential : IsReferential small
unfolding count_where
small-IsReferential = record {
  owners = (omega arith, (omega arith, tt));
  members = ((omega arith, omega arith), ((omega arith, omega arith), tt));
}

delete_expired-IsReferential_example : IsReferential (delete_expired 20 small).0
delete_expired-IsReferential_example = delete_expired-IsReferential 20 small small-IsReferential

delete_expired_keeps_pending_example :
    (select_where is_active (delete_expired 20 small).0.investigations
      ≡ select_where is_active small.investigations)
    × (select_where is_unpublished (delete_expired 20 small).0.outbox_events
        ≡ select_where is_unpublished small.outbox_events)
delete_expired_keeps_pending_example = delete_expired_keeps_pending 20 small

reconcile_decisions_example :
    let ids = ordered_ids notified in
    let (after, result) = execute 0 50 50 notified small in
    Ascending ids
    × (result.investigation_results ≡ verdicts 50 ids held_rows)
    × (result.max_deliver_exhausted ≡ count_where is_failed (verdicts 50 ids held_rows))
    × ((j : ℕ)
        → get_row j after.investigations
          ≡ retained (50 - 0 * day) (
              if contains notified j
              then given_up 50 (get_row j held_rows)
              else get_row j held_rows))
reconcile_decisions_example =
    reconcile_decisions 0 50 50 notified small held_rows-IsConsistent.unique_id
