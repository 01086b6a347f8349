-- ===== src/Orchestrator/Repositories.antt =====
-- The statements on investigations that accept work: db/repositories/investigations.py of the
-- orchestrator. The keys are the primary key and the partial unique index
-- investigations_active_uniq.
pub mod Active
pub mod Inserts
use backend_engineering_note.Prelude.{
  ℕ, zero, suc, String, Bool, true, false, not, ◌&&◌, ◌||◌, Option, none, some, List, [], ◌∷◌, ◌++◌,
  map, if◌then◌else◌, ◌==◌, ltb, leb, str_eq, is_some,
}
use backend_engineering_note.Platform.Table.{
  count_where, select_where, delete_where, first_where, update_where,
}
use backend_engineering_note.Platform.Rows.{
  Value, text, Mapping, Investigation, InvestigationStatus, queued, completed, status_eq,
  OutboxEvent, RequestKind, explicit, filtered, ApiRequest, ApiRequestInvestigation, Database,
  has_id, is_active_for,
}
use backend_engineering_note.Orchestrator.Domain.{
  InvestigationRecord, InvestigationInsertResult, record_of,
}
use backend_engineering_note.Orchestrator.Transaction.{
  Outcome, returned, integrity_error, lookup_error, runtime_error, Session, Transaction, Action,
  pure, raise, statement, ◌>>=◌, ◌>>◌,
}

-- The row of `values`, and what the table defaults.
unfoldable pub queued_row : ℕ → ℕ → ℕ → String → ℕ → ℕ → Investigation
queued_row id request_id client_id exception_id event_id now = record {
  id = id;
  request_id = request_id;
  client_id = client_id;
  exception_id = exception_id;
  event_id = event_id;
  status = queued;
  attempt_count = 0;
  worker_id = none;
  lease_expires_at = none;
  last_heartbeat_at = none;
  created_at = now;
  started_at = none;
  completed_at = none;
  last_error_code = none;
  last_error_message = none;
  report = none;
  report_uri = none;
  analysis = none;
  analysis_persisted_at = none;
  comment_outcome = none;
  comment_written_at = none;
  comment_detail = none;
  codes_outcome = none;
  codes_written_at = none;
  codes_detail = none;
}

-- The unique key on event_id.
abbrev pub has_investigation_event_id : ℕ → Investigation → Bool
has_investigation_event_id i r = r.event_id == i

-- INSERT … ON CONFLICT (exception_id) WHERE status is active DO NOTHING RETURNING *
unfoldable pub insert_unless_active :
    Investigation → Database → Outcome (Option InvestigationRecord × Database)
insert_unless_active r db =
    if ltb 0 (count_where (is_active_for r.exception_id) db.investigations)
    then returned (none, db)
    else if ltb 0 (count_where (has_id r.id) db.investigations)
        || ltb 0 (count_where (has_investigation_event_id r.event_id) db.investigations)
    then integrity_error
    else returned (some (record_of r), record db { investigations = db.investigations ++ (r ∷ []) })

-- The index leaves at most one row, so the order by created_at does not choose.
unfoldable pub active_for_exception : String → Database → Option InvestigationRecord
active_for_exception exception_id db =
    elim (first_where (is_active_for exception_id) db.investigations) [
      | none ↦ none
      | some r ↦ some (record_of r)
    ]

unfoldable pub is_completed_among : List String → Investigation → Bool
is_completed_among [] r = false
is_completed_among (e ∷ es) r =
    (str_eq r.exception_id e && status_eq r.status completed) || is_completed_among es r

-- The result is read as a set.
unfoldable pub completed_exception_ids : List String → Database → List String
completed_exception_ids ids db =
    map (λ (r : Investigation). r.exception_id)
      (select_where (is_completed_among ids) db.investigations)

abbrev pub is_nonempty : List String → Bool
is_nonempty [] = false
is_nonempty (x ∷ xs) = true

module _ (session : Session) where
  abbrev pub attached_or :
      Action InvestigationInsertResult
      → Option InvestigationRecord
      → Action InvestigationInsertResult
  attached_or again none = again
  attached_or again (some active) = pure (record { investigation = active; created = false })

  -- The body of the loop after the insert.
  abbrev pub inserted_or :
      Action InvestigationInsertResult
      → String
      → Option InvestigationRecord
      → Action InvestigationInsertResult
  inserted_or again exception_id (some created) =
      pure (record { investigation = created; created = true })
  inserted_or again exception_id none =
      statement session (λ n db. returned (active_for_exception exception_id db, db))
      >>= attached_or again

  -- `insert_or_attach` from its loop on, with the attempts that are left. `id` and `event_id` are
  -- drawn once.
  unfoldable pub insert_attempts : ℕ → ℕ → ℕ → String → ℕ → ℕ → Action InvestigationInsertResult
  insert_attempts zero request_id client_id exception_id id event_id =
      raise (runtime_error "Active-investigation conflict did not yield an attachable row")
  insert_attempts (suc attempts) request_id client_id exception_id id event_id =
      let again = insert_attempts attempts request_id client_id exception_id id event_id in
      statement session (λ n db.
        insert_unless_active
          (queued_row id request_id client_id exception_id event_id (session.now n)) db)
      >>= inserted_or again exception_id

  unfoldable pub insert_or_attach : ℕ → ℕ → String → Action InvestigationInsertResult
  insert_or_attach request_id client_id exception_id t =
      insert_attempts 2 request_id client_id exception_id (session.uuid t.tick)
        (session.event_uuid t.tick) t

  unfoldable pub has_completed : String → Action Bool
  has_completed exception_id =
      statement session
        λ n db. returned (is_nonempty (completed_exception_ids (exception_id ∷ []) db), db)

  unfoldable pub delete_investigation : ℕ → Action (Unit {0})
  delete_investigation i = statement session λ n db.
      returned (tt, record db { investigations = delete_where (has_id i) db.investigations })

  -- `insert_or_attach_filtered` after the insert
  abbrev pub unless_completed :
      InvestigationInsertResult → Bool → Action (Option InvestigationInsertResult)
  unless_completed result false = pure (some result)
  unless_completed result true =
      if result.created
      then delete_investigation result.investigation.id >> pure none
      else pure none

  abbrev pub filtered_insert : ℕ → ℕ → String → Bool → Action (Option InvestigationInsertResult)
  filtered_insert request_id client_id exception_id true = pure none
  filtered_insert request_id client_id exception_id false = do
    result ← insert_or_attach request_id client_id exception_id
    done ← has_completed exception_id
    unless_completed result done

  unfoldable pub insert_or_attach_filtered :
      ℕ → ℕ → String → Action (Option InvestigationInsertResult)
  insert_or_attach_filtered request_id client_id exception_id = do
    done ← has_completed exception_id
    filtered_insert request_id client_id exception_id done
