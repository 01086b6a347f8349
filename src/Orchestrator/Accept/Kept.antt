-- ===== src/Orchestrator/Accept/Kept.antt =====
-- The events that a transaction has added stay in its outbox while it goes on.
use backend_engineering_note.Prelude.{
  ℕ, zero, suc, ◌≤◌, ◌<◌, ◌≡◌, String, Bool, true, false, not, ◌&&◌, Option, none, some, List, [],
  ◌∷◌, ◌++◌, arith, is_some, ◌==◌,
}
use backend_engineering_note.Platform.Table.{count_where, count_where-append}
use backend_engineering_note.Platform.Rows.{OutboxEvent, Database}
use backend_engineering_note.Orchestrator.Domain.{InvestigationRecord, InvestigationInsertResult}
use backend_engineering_note.Orchestrator.Transaction.{
  Outcome, returned, Session, Transaction, Action, pure, raise, statement, ◌>>=◌,
}
use backend_engineering_note.Orchestrator.Transaction.Rules.{
  Ensures, Ensures-bind, Ensures-pure, Ensures-statement,
}
use backend_engineering_note.Orchestrator.Requests.{
  add_investigation_requested, requested_event, insert_event, attach_investigation,
  insert_membership,
}
use backend_engineering_note.Orchestrator.Repositories.{
  insert_unless_active, insert_attempts, inserted_or, attached_or, insert_or_attach,
}
use backend_engineering_note.Orchestrator.Accept.{
  RequestedInvestigation, announce, requested_or_none, insert_by, request_one, asserted,
  request_each,
}

-- An event for the investigation that is not published yet.
abbrev pub announces : ℕ → OutboxEvent → Bool
announces i e = e.aggregate_id == i && not (is_some e.published_at)

-- The outbox has an event for the m-th identifier that the transaction may draw.
abbrev pub Announced : Session → ℕ → Transaction → Type 0
Announced session m t = 0 < count_where (announces (session.uuid m)) t.database.outbox_events

-- Other transactions do not see the events of this one, and leave them.
abbrev pub IsIsolated : Session → Type 0
IsIsolated session =
    (n m : ℕ) (db : Database)
    → 0 < count_where (announces (session.uuid m)) db.outbox_events
    → 0 < count_where (announces (session.uuid m)) (session.others n db).outbox_events

-- The action removes no announcement.
pub record Keeps {A : Type 0} (session : Session) (action : Transaction → Outcome (A × Transaction))
    : Type 0 where
  pub at : (m : ℕ) → Ensures (Announced session m) (λ _ t. Announced session m t) action

module _ (session : Session) where
  -- An event that is accepted stands at the end of the outbox.
  pub insert_event_lem :
      (e : OutboxEvent) (db d : Database) (y : ℕ)
      → insert_event session e db ≡ returned (y, d)
      → d.outbox_events ≡ db.outbox_events ++ (e ∷ [])
  unfolding insert_event
  insert_event_lem e db d y h = ground arith

  Keeps-bind :
      {A B : Type 0} (a : Transaction → Outcome (A × Transaction))
      (f : A → Transaction → Outcome (B × Transaction))
      → Keeps session a
      → ((x : A) → Keeps session (f x))
      → Keeps session (a >>= f)
  Keeps-bind a f h k = record {
    at = λ m.
        Ensures-bind (Announced session m) (λ _ t. Announced session m t)
          (λ _ t. Announced session m t) a f (h.at m) (λ x. (k x).at m);
  }

  Keeps-pure : {A : Type 0} (x : A) → Keeps session (pure x)
  Keeps-pure x = record {
    at = λ m. Ensures-pure (Announced session m) (λ _ t. Announced session m t) x (λ t p. p);
  }

module _ (session : Session) (subject : String) (isolated : IsIsolated session) where
  Keeps-statement :
      {A : Type 0} (f : ℕ → Database → Outcome (A × Database))
      → ((n i : ℕ) (db d : Database) (x : A)
          → f n db ≡ returned (x, d)
          → count_where (announces i) db.outbox_events ≤ count_where (announces i) d.outbox_events)
      → Keeps session (statement session f)
  Keeps-statement f h = record {
    at = λ m.
        Ensures-statement session (Announced session m) (λ _ t. Announced session m t) f
          λ t x d p e. omega (
            arith,
            isolated t.tick m t.database p,
            h t.tick (session.uuid m) (session.others t.tick t.database) d x e,
          );
  }

  Keeps-attached_or :
      (again : Action InvestigationInsertResult) (o : Option InvestigationRecord)
      → Keeps session again
      → Keeps session (attached_or session again o)
  Keeps-attached_or again none h = h
  Keeps-attached_or again (some x) h = Keeps-pure session _

  Keeps-inserted_or :
      (again : Action InvestigationInsertResult) (e : String) (o : Option InvestigationRecord)
      → Keeps session again
      → Keeps session (inserted_or session again e o)
  Keeps-inserted_or again e (some x) h = Keeps-pure session _
  Keeps-inserted_or again e none h =
      Keeps-bind session _ _ (Keeps-statement _ (λ n i db d x k. ground arith))
        λ o. Keeps-attached_or again o h

  Keeps-insert_attempts :
      (attempts request_id client_id : ℕ) (e : String) (id event_id : ℕ)
      → Keeps session (insert_attempts session attempts request_id client_id e id event_id)
  unfolding insert_attempts raise insert_unless_active
  Keeps-insert_attempts zero request_id client_id e id event_id = record {
    at = λ m. record { at = λ t x t' p h. absurd (ground arith) };
  }
  Keeps-insert_attempts (suc attempts) request_id client_id e id event_id =
      Keeps-bind session _ _ (Keeps-statement _ (λ n i db d x k. ground arith)) λ o.
        Keeps-inserted_or _ e o (Keeps-insert_attempts attempts request_id client_id e id event_id)

  pub Keeps-insert_or_attach :
      (request_id client_id : ℕ) (e : String)
      → Keeps session (insert_or_attach session request_id client_id e)
  unfolding insert_or_attach
  Keeps-insert_or_attach request_id client_id e = record {
    at = λ m. record {
      at = λ t x t' p h.
          ((Keeps-insert_attempts 2 request_id client_id e (session.uuid t.tick)
                (session.event_uuid t.tick)).at
              m).at
            t x t' p h;
    };
  }

  pub Keeps-add_investigation_requested :
      (x : InvestigationRecord) (traceparent : String)
      → Keeps session (add_investigation_requested session x traceparent subject)
  unfolding add_investigation_requested
  Keeps-add_investigation_requested x traceparent = Keeps-statement _ λ n i db d y k.
      let stored =
        insert_event_lem session (requested_event session x traceparent subject n) db d y k in
      rw stored (
        omega (
          arith,
          count_where-append (announces i) db.outbox_events
              (requested_event session x traceparent subject n ∷ []),
        ))

  Keeps-announce :
      (created : Bool) (x : InvestigationRecord) (traceparent : String)
      → Keeps session (announce session subject created x traceparent)
  unfolding announce
  Keeps-announce false x traceparent = Keeps-pure session _
  Keeps-announce true x traceparent =
      Keeps-bind session _ _ (Keeps-add_investigation_requested x traceparent)
        λ _. Keeps-pure session _

  pub Keeps-attach_investigation :
      (request_id investigation_id position : ℕ)
      → Keeps session (attach_investigation session request_id investigation_id position)
  unfolding attach_investigation insert_membership
  Keeps-attach_investigation request_id investigation_id position =
      Keeps-statement _ (λ n i db d y k. ground arith)

  Keeps-request_one :
      (request_id client_id : ℕ) (e traceparent : String)
      → Keeps session (request_one session subject false request_id client_id e traceparent)
  unfolding request_one insert_by
  Keeps-request_one request_id client_id e traceparent =
      Keeps-bind session _ _
        (Keeps-bind session _ _ (Keeps-insert_or_attach request_id client_id e)
          λ result. Keeps-pure session _)
        by
    where
      by :
          (o : Option InvestigationInsertResult)
          → Keeps session (requested_or_none session subject traceparent o)
      by none = Keeps-pure session _
      by (some result) =
          Keeps-bind session _ _ (Keeps-announce result.created result.investigation traceparent)
            λ _. Keeps-pure session _

  Keeps-asserted : (o : Option RequestedInvestigation) → Keeps session (asserted session subject o)
  unfolding raise
  Keeps-asserted none = record { at = λ m. record { at = λ t x t' p h. absurd (ground arith) } }
  Keeps-asserted (some r) = Keeps-pure session r

  pub Keeps-request_each :
      (request_id client_id : ℕ) (traceparent : String) (position : ℕ) (es : List String)
      → Keeps session (request_each session subject request_id client_id traceparent position es)
  unfolding request_each
  Keeps-request_each request_id client_id traceparent position [] = Keeps-pure session _
  Keeps-request_each request_id client_id traceparent position (e ∷ es) =
      Keeps-bind session _ _ (Keeps-request_one request_id client_id e traceparent) λ found.
        Keeps-bind session _ _ (Keeps-asserted found) λ result.
          Keeps-bind session _ _
            (Keeps-attach_investigation request_id result.investigation_id position)
            λ _.
              Keeps-bind session _ _
                (Keeps-request_each request_id client_id traceparent (suc position) es)
                λ rest. Keeps-pure session _
