-- ===== src/Orchestrator/Requests.antt =====
-- The statements on requests and outbox events that accept work: db/repositories/requests.py and
-- db/repositories/outbox.py of the orchestrator, with the unique keys of their models.
use backend_engineering_note.Prelude.{
  ℕ, String, Bool, ◌&&◌, ◌||◌, Option, none, some, List, [], ◌∷◌, ◌++◌, if◌then◌else◌, ◌==◌, ltb,
}
use backend_engineering_note.Platform.Table.{count_where, update_where}
use backend_engineering_note.Platform.Rows.{
  text, OutboxEvent, explicit, filtered, ApiRequest, ApiRequestInvestigation, Database,
}
use backend_engineering_note.Orchestrator.Domain.{InvestigationRecord}
use backend_engineering_note.Orchestrator.Transaction.{
  Outcome, returned, integrity_error, lookup_error, Session, Action, statement,
}

pub record FilteredSelection : Type 0 where
  pub created_at_gte : Option ℕ
  pub max_exceptions : ℕ
  pub schema : String
  pub exception_name : String

unfoldable pub add_request : ℕ → ℕ → List String → Option FilteredSelection → ℕ → ApiRequest
add_request id client_id exception_ids none now = record {
  id = id;
  client_id = client_id;
  exception_ids = exception_ids;
  request_kind = explicit;
  selection_created_at_gte = none;
  selection_max_exceptions = none;
  selection_schema = none;
  selection_exception_name = none;
  created_at = now;
}
add_request id client_id exception_ids (some selection) now = record {
  id = id;
  client_id = client_id;
  exception_ids = exception_ids;
  request_kind = filtered;
  selection_created_at_gte = selection.created_at_gte;
  selection_max_exceptions = some selection.max_exceptions;
  selection_schema = some selection.schema;
  selection_exception_name = some selection.exception_name;
  created_at = now;
}

abbrev pub has_request_id : ℕ → ApiRequest → Bool
has_request_id i r = r.id == i

-- The primary key of the membership table and its unique key on positions.
abbrev pub is_same_membership : ApiRequestInvestigation → ApiRequestInvestigation → Bool
is_same_membership m n =
    n.request_id == m.request_id
    && (n.investigation_id == m.investigation_id || n.position == m.position)

unfoldable pub insert_membership :
    ApiRequestInvestigation → Database → Outcome (Unit {0} × Database)
insert_membership m db =
    if ltb 0 (count_where (is_same_membership m) db.memberships)
    then integrity_error
    else returned (tt, record db { memberships = db.memberships ++ (m ∷ []) })

abbrev pub has_event_id : ℕ → OutboxEvent → Bool
has_event_id i e = e.event_id == i

module _ (session : Session) where
  unfoldable pub requested_event : InvestigationRecord → String → String → ℕ → OutboxEvent
  requested_event investigation traceparent subject n = record {
    id = session.serial n;
    event_id = investigation.event_id;
    aggregate_type = "investigation";
    aggregate_id = investigation.id;
    event_type = "investigation.requested";
    subject = subject;
    payload =
        ("event_id", text (session.uuid_text investigation.event_id))
        ∷ ("event_type", text "investigation.requested")
        ∷ ("occurred_at", text (session.time_text (session.now n)))
        ∷ ("investigation_id", text (session.uuid_text investigation.id))
        ∷ ("request_id", text (session.uuid_text investigation.request_id))
        ∷ ("client_id", text (session.client_text investigation.client_id))
        ∷ ("exception_id", text investigation.exception_id)
        ∷ ("traceparent", text traceparent)
        ∷ [];
    created_at = session.now n;
    published_at = none;
    attempt_count = 0;
    next_attempt_at = session.now n;
    last_error = none;
  }

  unfoldable pub insert_event : OutboxEvent → Database → Outcome (ℕ × Database)
  insert_event e db =
      if ltb 0 (count_where (has_event_id e.event_id) db.outbox_events)
      then integrity_error
      else returned (e.event_id, record db { outbox_events = db.outbox_events ++ (e ∷ []) })

  unfoldable pub add_investigation_requested : InvestigationRecord → String → String → Action ℕ
  add_investigation_requested investigation traceparent subject =
      statement session
        λ n db. insert_event (requested_event investigation traceparent subject n) db

  unfoldable pub request_add : ℕ → List String → Option FilteredSelection → Action ℕ
  request_add client_id exception_ids selection = statement session λ n db.
      if ltb 0 (count_where (has_request_id (session.uuid n)) db.api_requests)
      then integrity_error
      else returned (
        session.uuid n,
        record db {
          api_requests =
              db.api_requests
              ++ (add_request (session.uuid n) client_id exception_ids selection (session.now n)
                  ∷ []);
        },
      )

  unfoldable pub attach_investigation : ℕ → ℕ → ℕ → Action (Unit {0})
  attach_investigation request_id investigation_id position = statement session λ n db.
      insert_membership
        (record {
          request_id = request_id;
          investigation_id = investigation_id;
          position = position;
        })
        db

  unfoldable pub set_selected_ids : ℕ → List String → Action (Unit {0})
  set_selected_ids request_id exception_ids = statement session λ n db.
      if ltb 0 (count_where (has_request_id request_id) db.api_requests)
      then returned (
        tt,
        record db {
          api_requests =
              update_where (has_request_id request_id)
                (λ r. record r { exception_ids = exception_ids }) db.api_requests;
        },
      )
      else lookup_error
