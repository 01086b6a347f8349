-- ===== src/Orchestrator/Repositories/Inserts.antt =====
-- The insert of an investigation keeps the table consistent, and yields the active row of its
-- exception.
use backend_engineering_note.Prelude.{
  ℕ, zero, suc, ◌≡◌, refl, sym, subst, String, Bool, true, false, Option, none, some, arith,
}
use backend_engineering_note.Platform.Rows.{Database}
use backend_engineering_note.Platform.Consistency.{IsConsistent}
use backend_engineering_note.Orchestrator.Domain.{InvestigationRecord, InvestigationInsertResult}
use backend_engineering_note.Orchestrator.Transaction.{
  Outcome, returned, Session, Transaction, Action, raise, statement,
}
use backend_engineering_note.Orchestrator.Transaction.Rules.{
  Ensures, Ensures-bind, Ensures-pure, Ensures-weaken, Ensures-if, Ensures-statement,
  returned-injective,
}
use backend_engineering_note.Orchestrator.Repositories.{
  queued_row, insert_attempts, inserted_or, attached_or, insert_or_attach, has_completed,
  unless_completed, delete_investigation, filtered_insert, insert_or_attach_filtered,
}
use backend_engineering_note.Orchestrator.Repositories.Active.{
  IsActiveFor, Inserted, queued_row-IsValid, delete-IsConsistent, insert_unless_active_lem,
  active_for_exception_lem,
}

-- The table of investigations is consistent.
abbrev pub Sound : Transaction → Type 0
Sound t = IsConsistent t.database.investigations

module _ (session : Session)
    (others_keep : (n : ℕ) (db : Database)
      → IsConsistent db.investigations
      → IsConsistent (session.others n db).investigations) where
  -- A statement that leaves the investigations alone.
  pub Sound-statement :
      {A : Type 0} (f : ℕ → Database → Outcome (A × Database))
      → ((n : ℕ) (db d : Database) (x : A)
          → f n db ≡ returned (x, d)
          → d.investigations ≡ db.investigations)
      → Ensures Sound (λ _ t. Sound t) (statement session f)
  Sound-statement f same =
      Ensures-statement session Sound (λ _ t. Sound t) f
        λ t x d s h.
          subst IsConsistent (sym (same t.tick (session.others t.tick t.database) d x h))
            (others_keep t.tick t.database s)

  abbrev pub Accepted : String → InvestigationInsertResult → Transaction → Type 0
  Accepted e result t = Sound t × IsActiveFor e result.investigation

  module _ (e : String) (again : Action InvestigationInsertResult)
      (again-sound : Ensures Sound (Accepted e) again) where
    attached_or-Sound :
        (o : Option InvestigationRecord)
        → Ensures (λ t. Sound t × Inserted e o) (Accepted e) (attached_or session again o)
    attached_or-Sound none =
        Ensures-weaken Sound _ (Accepted e) (Accepted e) _ (λ t p. p.0) (λ x t q. q) again-sound
    attached_or-Sound (some x) =
        Ensures-pure (λ t. Sound t × IsActiveFor e x) (Accepted e) _ (λ t p. p)

    inserted_or-Sound :
        (o : Option InvestigationRecord)
        → Ensures (λ t. Sound t × Inserted e o) (Accepted e) (inserted_or session again e o)
    inserted_or-Sound (some x) =
        Ensures-pure (λ t. Sound t × IsActiveFor e x) (Accepted e) _ (λ t p. p)
    inserted_or-Sound none =
        Ensures-bind (λ t. Sound t × Unit) (λ o t. Sound t × Inserted e o) (Accepted e) _ _
          (Ensures-statement session (λ t. Sound t × Unit) (λ o t. Sound t × Inserted e o) _
            λ t x d p h.
              subst (λ q. IsConsistent q.1.investigations × Inserted e q.0)
                (returned-injective _ (x, d) h)
                (
                  others_keep t.tick t.database p.0,
                  active_for_exception_lem e (session.others t.tick t.database),
                ))
          attached_or-Sound

  insert_attempts-Sound :
      (attempts request_id client_id : ℕ) (e : String) (id event_id : ℕ)
      → Ensures Sound
          (Accepted e)
          (insert_attempts session attempts request_id client_id e id event_id)
  unfolding insert_attempts raise queued_row
  insert_attempts-Sound zero request_id client_id e id event_id = record {
    at = λ t x t' p h. absurd (ground arith);
  }
  insert_attempts-Sound (suc attempts) request_id client_id e id event_id =
      Ensures-bind Sound (λ o t. Sound t × Inserted e o) (Accepted e) _ _
        (Ensures-statement session Sound (λ o t. Sound t × Inserted e o) _
          λ t x d s h.
            insert_unless_active_lem _ (session.others t.tick t.database) d x
              (queued_row-IsValid id request_id client_id e event_id (session.now t.tick)) refl
              (others_keep t.tick t.database s) h)
        (inserted_or-Sound e (insert_attempts session attempts request_id client_id e id event_id)
          (insert_attempts-Sound attempts request_id client_id e id event_id))

  pub insert_or_attach-Sound :
      (request_id client_id : ℕ) (e : String)
      → Ensures Sound (Accepted e) (insert_or_attach session request_id client_id e)
  unfolding insert_or_attach
  insert_or_attach-Sound request_id client_id e = record {
    at = λ t x t' p h.
        (insert_attempts-Sound 2 request_id client_id e (session.uuid t.tick)
            (session.event_uuid t.tick)).at
          t x t' p h;
  }

  has_completed-Sound : (e : String) → Ensures Sound (λ _ t. Sound t) (has_completed session e)
  unfolding has_completed
  has_completed-Sound e = Sound-statement _ (λ n db d x h. ground arith)

  -- What the filtered insert returns.
  abbrev pub AcceptedIf : String → Option InvestigationInsertResult → Transaction → Type 0
  AcceptedIf e none t = Sound t
  AcceptedIf e (some result) t = Accepted e result t

  unless_completed-Sound :
      (e : String) (result : InvestigationInsertResult) (done : Bool)
      → Ensures (Accepted e result) (AcceptedIf e) (unless_completed session result done)
  unfolding delete_investigation
  unless_completed-Sound e result false =
      Ensures-pure (Accepted e result) (AcceptedIf e) _ (λ t p. p)
  unless_completed-Sound e result true =
      Ensures-if (Accepted e result) (AcceptedIf e) result.created _ _
        (Ensures-bind (Accepted e result) (λ _ t. Sound t) (AcceptedIf e) _ _
          (Ensures-statement session (Accepted e result) (λ _ t. Sound t) _
            λ t x d p h.
              subst (λ q. IsConsistent q.1.investigations) (returned-injective _ (x, d) h)
                (delete-IsConsistent _ _ (others_keep t.tick t.database p.0)))
          λ _. Ensures-pure Sound (AcceptedIf e) _ (λ t p. p))
        (Ensures-pure (Accepted e result) (AcceptedIf e) _ (λ t p. p.0))

  pub insert_or_attach_filtered-Sound :
      (request_id client_id : ℕ) (e : String)
      → Ensures Sound (AcceptedIf e) (insert_or_attach_filtered session request_id client_id e)
  unfolding insert_or_attach_filtered
  insert_or_attach_filtered-Sound request_id client_id e =
      Ensures-bind Sound (λ _ t. Sound t) (AcceptedIf e) _ _ (has_completed-Sound e) by
    where
      by :
          (done : Bool)
          → Ensures Sound (AcceptedIf e) (filtered_insert session request_id client_id e done)
      by true = Ensures-pure Sound (AcceptedIf e) _ (λ t p. p)
      by false =
          Ensures-bind Sound (Accepted e) (AcceptedIf e) _ _
            (insert_or_attach-Sound request_id client_id e)
            λ result.
              Ensures-bind (Accepted e result) (λ _ t. Accepted e result t) (AcceptedIf e) _ _
                (record { at = λ t x t' p h. ((has_completed-Sound e).at t x t' p.0 h, p.1) })
                λ done. unless_completed-Sound e result done
