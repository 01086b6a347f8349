-- ===== src/Tests/Statuses.antt =====
-- The theorem on the status of a request, on one with a finished and a running investigation.
use backend_engineering_note.Prelude.{◌+◌, ◌≡◌, ◌↔◌, refl, none, some, [], ◌∷◌, All}
use backend_engineering_note.Platform.Table.{count_where, select_where, first_where}
use backend_engineering_note.Platform.Update.{get_row}
use backend_engineering_note.Platform.Rows.{Database, explicit}
use backend_engineering_note.Orchestrator.Domain.{ExternalInvestigationStatus, record_of}
use backend_engineering_note.Orchestrator.Status.{
  AggregateRequestStatus, InvestigationRequestStatus, answer, items_of, by_api_request_id,
  request_status, exists_for_client, joined, by_position, insert_by_position,
}
use backend_engineering_note.Orchestrator.Status.Summary.{
  items_in, SomeInProgress, IsCompleted, request_status_lem,
}
use backend_engineering_note.Tests.{held_row, done_row, held_rows}

abbrev asked : Database
asked = record {
  investigations = held_rows;
  outbox_events = [];
  api_requests =
      record {
        id = 1;
        client_id = 2;
        exception_ids = "E-1" ∷ "E-9" ∷ [];
        request_kind = explicit;
        selection_created_at_gte = none;
        selection_max_exceptions = none;
        selection_schema = none;
        selection_exception_name = none;
        created_at = 5;
      }
      ∷ [];
  memberships =
      record { request_id = 1; investigation_id = 8; position = 1 }
      ∷ record { request_id = 1; investigation_id = 7; position = 0 }
      ∷ [];
  generation = none;
}

abbrev told : InvestigationRequestStatus
told = answer 1 (items_of (record_of (held_row 7 3) ∷ record_of (done_row 8) ∷ []))

asked_is_told : request_status 1 2 asked ≡ some told
unfolding request_status exists_for_client count_where by_api_request_id joined by_position
    insert_by_position select_where get_row first_where
asked_is_told = refl

request_status_lem_example :
    (told.summary.total ≡ told.summary.in_progress + told.summary.completed + told.summary.failed)
    × (told.summary.in_progress
        ≡ items_in ExternalInvestigationStatus.in_progress told.investigations)
    × (told.summary.completed ≡ items_in ExternalInvestigationStatus.completed told.investigations)
    × (told.summary.failed ≡ items_in ExternalInvestigationStatus.failed told.investigations)
    × ((told.status ≡ AggregateRequestStatus.in_progress) ↔ SomeInProgress told.investigations)
    × ((told.status ≡ AggregateRequestStatus.completed) ↔ All IsCompleted told.investigations)
request_status_lem_example = request_status_lem 1 2 asked told asked_is_told
