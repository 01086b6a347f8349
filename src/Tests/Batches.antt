-- ===== src/Tests/Batches.antt =====
-- The theorems on accepting a batch, on a database where one of its exceptions is active already.
use backend_engineering_note.Prelude.{
  All, ◌+◌, ◌≤◌, ◌<◌, ◌≡◌, refl, true, false, ◌++◌, String, if◌then◌else◌, ltb, none, List, [], ◌∷◌,
  length, map, strip,
}
use backend_engineering_note.Platform.Rows.{Investigation}
use backend_engineering_note.Orchestrator.Transaction.{
  returned, Session, Transaction, pure, statement, ◌>>=◌,
}
use backend_engineering_note.Platform.Table.{delete_where, count_where, first_where}
use backend_engineering_note.Orchestrator.Domain.{external_status, in_progress, record_of}
use backend_engineering_note.Orchestrator.Requests.{
  requested_event, add_request, request_add, attach_investigation, add_investigation_requested,
  insert_event, insert_membership,
}
use backend_engineering_note.Orchestrator.Repositories.{
  queued_row, insert_or_attach, insert_attempts, insert_unless_active, active_for_exception,
}
use backend_engineering_note.Orchestrator.Repositories.Inserts.{Sound}
use backend_engineering_note.Orchestrator.Accept.{
  validate_and_deduplicate, from_keys, has_empty, accept, request_each, request_one, insert_by,
  announce, requested, request_investigations, InvestigationBatch,
}
use backend_engineering_note.Orchestrator.Accept.Keys.{times, validate_and_deduplicate_lem}
use backend_engineering_note.Orchestrator.Accept.Outbox.{
  IsAnnounced, request_investigations_announces,
}
use backend_engineering_note.Orchestrator.Accept.Batch.{AnswersAll, request_investigations_lem}
use backend_engineering_note.Tests.{held_rows, held_rows-IsConsistent}

abbrev ids : List String
ids = " E-1" ∷ "E-2" ∷ "E-1 " ∷ []

abbrev keys : List String
keys = "E-1" ∷ "E-2" ∷ []

ids_valid : validate_and_deduplicate 5 ids ≡ returned keys
unfolding validate_and_deduplicate has_empty strip from_keys delete_where
ids_valid = refl

validate_and_deduplicate_lem_example :
    (0 < length ids)
    × (length ids ≤ 5)
    × (times "" keys ≡ 0)
    × ((x : String) → times x keys ≡ (if ltb 0 (times x (map strip ids)) then 1 else 0))
validate_and_deduplicate_lem_example = validate_and_deduplicate_lem 5 ids keys ids_valid

abbrev alone : Session
alone = record {
  others = λ n db. db;
  now = λ n. 50 + n;
  uuid = λ n. 100 + n;
  event_uuid = λ n. 200 + n;
  serial = λ n. n;
  uuid_text = λ n. "00000000-0000-0000-0000-000000000000";
  client_text = λ n. "client";
  time_text = λ n. "2026-01-01T00:00:00+00:00";
}

abbrev start : Transaction
start = record {
  database = record {
    investigations = held_rows;
    outbox_events = [];
    api_requests = [];
    memberships = [];
    generation = none;
  };
  tick = 0;
}

-- The row that the run inserts.
abbrev second_row : Investigation
second_row = queued_row 104 100 2 "E-2" 204 54

abbrev answers : InvestigationBatch
answers = record {
  request_id = 100;
  investigations =
      record { investigation_id = 7; exception_id = "E-1"; status = in_progress; created = false }
      ∷ record {
        investigation_id = 104;
        exception_id = "E-2";
        status = in_progress;
        created = true;
      }
      ∷ [];
}

abbrev end : Transaction
end = record {
  database = record {
    investigations = held_rows ++ (second_row ∷ []);
    outbox_events =
        requested_event alone (record_of second_row) "00-trace-01" "investigations" 5 ∷ [];
    api_requests = add_request 100 2 keys none 50 ∷ [];
    memberships =
        record { request_id = 100; investigation_id = 7; position = 0 }
        ∷ record { request_id = 100; investigation_id = 104; position = 1 }
        ∷ [];
    generation = none;
  };
  tick = 7;
}

ran :
    request_investigations alone "investigations" 5 2 ids "00-trace-01" start
    ≡ returned (answers, end)
unfolding request_investigations validate_and_deduplicate has_empty strip from_keys delete_where
    accept ◌>>=◌ request_add statement count_where request_each request_one insert_by
    insert_or_attach insert_attempts insert_unless_active queued_row active_for_exception
    first_where pure announce attach_investigation requested external_status record_of
    add_investigation_requested add_request insert_event insert_membership requested_event
ran = refl

request_investigations_lem_example : Sound end × AnswersAll keys answers.investigations
request_investigations_lem_example =
    request_investigations_lem alone "investigations" (λ n db c. c) 5 2 ids keys "00-trace-01" start
      end answers held_rows-IsConsistent ids_valid ran

request_investigations_announces_example : All (IsAnnounced alone end) answers.investigations
request_investigations_announces_example =
    request_investigations_announces alone "investigations" (λ n m db h. h) 5 2 ids keys
      "00-trace-01" start end answers ids_valid ran
