-- ===== src/Orchestrator/Accept/Drawn.antt =====
-- What an insert creates has the identifier that was drawn for it.
use backend_engineering_note.Prelude.{ℕ, zero, suc, ◌≡◌, String, true, Option, none, some, arith}
use backend_engineering_note.Platform.Rows.{Database, Investigation}
use backend_engineering_note.Orchestrator.Domain.{
  InvestigationRecord, InvestigationInsertResult, record_of,
}
use backend_engineering_note.Orchestrator.Transaction.{
  returned, Session, Transaction, Action, raise,
}
use backend_engineering_note.Orchestrator.Transaction.Rules.{
  Ensures, Ensures-bind, Ensures-pure, Ensures-statement,
}
use backend_engineering_note.Orchestrator.Repositories.{
  queued_row, insert_unless_active, insert_attempts, inserted_or, attached_or, insert_or_attach,
}

-- No condition.
abbrev pub Any : Transaction → Type 0
Any t = Unit

-- What is created has the identifier that was drawn for it.
abbrev pub Drawn : Session → InvestigationInsertResult → Type 0
Drawn session result = result.created ≡ true → (m : ℕ) × (result.investigation.id ≡ session.uuid m)

inserted-id :
    (r : Investigation) (db d : Database) (x : InvestigationRecord)
    → insert_unless_active r db ≡ returned (some x, d)
    → x.id ≡ r.id
unfolding insert_unless_active record_of
inserted-id r db d x h = ground arith

module _ (session : Session) where
  -- a record that the insert returned
  abbrev From : ℕ → Option InvestigationRecord → Type 0
  From id none = Unit
  From id (some x) = x.id ≡ id

  abbrev OfId : ℕ → InvestigationInsertResult → Transaction → Type 0
  OfId id result t = result.created ≡ true → result.investigation.id ≡ id

  attached_or-OfId :
      (id : ℕ) (again : Action InvestigationInsertResult) (o : Option InvestigationRecord)
      → Ensures Any (OfId id) again
      → Ensures Any (OfId id) (attached_or session again o)
  attached_or-OfId id again none h = h
  attached_or-OfId id again (some x) h =
      Ensures-pure Any (OfId id) _ (λ t p c. absurd (ground arith))

  inserted_or-OfId :
      (id : ℕ) (again : Action InvestigationInsertResult) (e : String)
      (o : Option InvestigationRecord)
      → Ensures Any (OfId id) again
      → Ensures (λ t. From id o) (OfId id) (inserted_or session again e o)
  inserted_or-OfId id again e (some x) h = Ensures-pure (λ t. x.id ≡ id) (OfId id) _ (λ t p c. p)
  inserted_or-OfId id again e none h =
      Ensures-bind (λ t. From id none) (λ _ t. Any t) (OfId id) _ _
        (Ensures-statement session (λ t. From id none) (λ _ t. Any t) _ (λ t x d p k. tt))
        λ o. attached_or-OfId id again o h

  insert_attempts-OfId :
      (attempts request_id client_id : ℕ) (e : String) (id event_id : ℕ)
      → Ensures Any (OfId id) (insert_attempts session attempts request_id client_id e id event_id)
  unfolding insert_attempts raise queued_row
  insert_attempts-OfId zero request_id client_id e id event_id = record {
    at = λ t x t' p h. absurd (ground arith);
  }
  insert_attempts-OfId (suc attempts) request_id client_id e id event_id =
      Ensures-bind Any (λ o t. From id o) (OfId id) _ _
        (Ensures-statement session Any (λ o t. From id o) _ from_insert)
        λ o.
          inserted_or-OfId id _ e o
            (insert_attempts-OfId attempts request_id client_id e id event_id)
    where
      from_insert :
          (t : Transaction) (o : Option InvestigationRecord) (d : Database)
          → Any t
          → insert_unless_active
              (queued_row id request_id client_id e event_id (session.now t.tick))
              (session.others t.tick t.database)
            ≡ returned (o, d)
          → From id o
      from_insert t none d p h = tt
      from_insert t (some x) d p h =
          inserted-id (queued_row id request_id client_id e event_id (session.now t.tick))
            (session.others t.tick t.database) d x h

  pub insert_or_attach-Drawn :
      (request_id client_id : ℕ) (e : String)
      → Ensures Any
          (λ result t. Drawn session result)
          (insert_or_attach session request_id client_id e)
  unfolding insert_or_attach
  insert_or_attach-Drawn request_id client_id e = record {
    at = λ t x t' p h c. (
      t.tick,
      (insert_attempts-OfId 2 request_id client_id e (session.uuid t.tick)
            (session.event_uuid t.tick)).at
          t x t' tt h c,
    );
  }
