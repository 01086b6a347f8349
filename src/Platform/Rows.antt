-- ===== src/Platform/Rows.antt =====
-- The tables of the platform database, from models/investigation.py, models/outbox_event.py,
-- models/api_request.py, models/api_request_investigation.py and models/config_state.py. UUIDs,
-- worker and client identifiers are only compared, so they are numbers. A timestamp is a number of
-- clock ticks. A JSON object is an association list.
use backend_engineering_note.Prelude.{
  ℕ, ℤ, String, Bool, true, false, ◌&&◌, Option, List, ◌==◌, str_eq,
}

-- The JSON values, of which the program reads texts and integers only.
pub data Value : Type 0 where
  text : String → Value
  integer : ℤ → Value
  boolean : Bool → Value
  null float array object : Value

abbrev pub Mapping : Type 0
Mapping = List (String × Value)

pub data InvestigationStatus : Type 0 where
  queued processing completed failed : InvestigationStatus

abbrev pub status_eq : InvestigationStatus → InvestigationStatus → Bool
status_eq queued queued = true
status_eq processing processing = true
status_eq completed completed = true
status_eq failed failed = true
status_eq _ _ = false

-- ACTIVE_STATUS_PREDICATE: status IN ('queued', 'processing')
abbrev pub is_active_status : InvestigationStatus → Bool
is_active_status queued = true
is_active_status processing = true
is_active_status completed = false
is_active_status failed = false

pub record Investigation : Type 0 where
  pub id : ℕ
  pub request_id : ℕ
  pub client_id : ℕ
  pub exception_id : String
  pub event_id : ℕ
  pub status : InvestigationStatus
  pub attempt_count : ℕ
  pub worker_id : Option ℕ
  pub lease_expires_at : Option ℕ
  pub last_heartbeat_at : Option ℕ
  pub created_at : ℕ
  pub started_at : Option ℕ
  pub completed_at : Option ℕ
  pub last_error_code : Option String
  pub last_error_message : Option String
  pub report : Option String
  pub report_uri : Option String
  pub analysis : Option Mapping
  pub analysis_persisted_at : Option ℕ
  pub comment_outcome : Option String
  pub comment_written_at : Option ℕ
  pub comment_detail : Option String
  pub codes_outcome : Option String
  pub codes_written_at : Option ℕ
  pub codes_detail : Option String

pub record OutboxEvent : Type 0 where
  pub id : ℕ
  pub event_id : ℕ
  pub aggregate_type : String
  pub aggregate_id : ℕ
  pub event_type : String
  pub subject : String
  pub payload : Mapping
  pub created_at : ℕ
  pub published_at : Option ℕ
  pub attempt_count : ℕ
  pub next_attempt_at : ℕ
  pub last_error : Option String

pub data RequestKind : Type 0 where
  explicit filtered : RequestKind

pub record ApiRequest : Type 0 where
  pub id : ℕ
  pub client_id : ℕ
  pub exception_ids : List String
  pub request_kind : RequestKind
  pub selection_created_at_gte : Option ℕ
  pub selection_max_exceptions : Option ℕ
  pub selection_schema : Option String
  pub selection_exception_name : Option String
  pub created_at : ℕ

pub record ApiRequestInvestigation : Type 0 where
  pub request_id : ℕ
  pub investigation_id : ℕ
  pub position : ℕ

-- `generation` is the singleton row of config_state, `none` if it is missing.
pub record Database : Type 0 where
  pub investigations : List Investigation
  pub outbox_events : List OutboxEvent
  pub api_requests : List ApiRequest
  pub memberships : List ApiRequestInvestigation
  pub generation : Option ℕ

-- The tests of a WHERE clause that several statements share.
abbrev pub has_id : ℕ → Investigation → Bool
has_id i r = r.id == i

abbrev pub is_active : Investigation → Bool
is_active r = is_active_status r.status

-- The rows that the partial unique index investigations_active_uniq holds apart.
abbrev pub is_active_for : String → Investigation → Bool
is_active_for e r = str_eq r.exception_id e && is_active r
