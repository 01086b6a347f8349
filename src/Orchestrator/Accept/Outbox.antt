-- ===== src/Orchestrator/Accept/Outbox.antt =====
-- The transactional outbox: an investigation that a batch creates is committed with its event.
use backend_engineering_note.Prelude.{
  ℕ, suc, ◌<◌, ◌≡◌, refl, sym, ap, ◌∙◌, String, Bool, true, false, Option, none, some, List, [],
  ◌∷◌, arith, is_some, All,
}
use backend_engineering_note.Platform.Table.{count_where, count_where-append}
use backend_engineering_note.Platform.Rows.{OutboxEvent, Database}
use backend_engineering_note.Orchestrator.Domain.{InvestigationRecord, InvestigationInsertResult}
use backend_engineering_note.Orchestrator.Transaction.{
  returned, Session, Transaction, Action, after, raise,
}
use backend_engineering_note.Orchestrator.Transaction.Rules.{
  Ensures, Ensures-bind, Ensures-pure, Ensures-statement,
}
use backend_engineering_note.Orchestrator.Requests.{
  add_investigation_requested, requested_event, insert_event, request_add,
}
use backend_engineering_note.Orchestrator.Accept.{
  RequestedInvestigation, InvestigationBatch, requested, announce, requested_or_none, insert_by,
  request_one, asserted, request_each, accept, validate_and_deduplicate, request_investigations,
}
use backend_engineering_note.Orchestrator.Accept.Kept.{
  announces, Announced, IsIsolated, Keeps, insert_event_lem, Keeps-attach_investigation,
  Keeps-request_each,
}
use backend_engineering_note.Orchestrator.Accept.Drawn.{Any, Drawn, insert_or_attach-Drawn}

-- What is created has an event in the outbox that is not published.
abbrev pub IsAnnounced : Session → Transaction → RequestedInvestigation → Type 0
IsAnnounced session t r =
    r.created ≡ true → (m : ℕ) × (r.investigation_id ≡ session.uuid m) × Announced session m t

module _ (session : Session) (subject : String) where
  added-Announced :
      (e : OutboxEvent) (db d : Database) (y m : ℕ)
      → insert_event session e db ≡ returned (y, d)
      → e.aggregate_id ≡ session.uuid m
      → is_some e.published_at ≡ false
      → 0 < count_where (announces (session.uuid m)) d.outbox_events
  unfolding count_where
  added-Announced e db d y m h same fresh =
      rw (insert_event_lem session e db d y h)
        (ground (arith, count_where-append (announces (session.uuid m)) db.outbox_events (e ∷ [])))

  announce-IsAnnounced :
      (created : Bool) (x : InvestigationRecord) (traceparent : String)
      → (created ≡ true → (m : ℕ) × (x.id ≡ session.uuid m))
      → Ensures Any
          (λ _ t. created ≡ true → (m : ℕ) × (x.id ≡ session.uuid m) × Announced session m t)
          (announce session subject created x traceparent)
  unfolding announce add_investigation_requested requested_event
  announce-IsAnnounced false x traceparent h = Ensures-pure Any _ _ (λ t p c. absurd (ground arith))
  announce-IsAnnounced true x traceparent h =
      let (m, drawn) = h refl in
      Ensures-bind Any (λ _ t. Announced session m t) _ _ _
        (Ensures-statement session Any (λ _ t. Announced session m t) _
          λ t y d p k.
            added-Announced (requested_event session x traceparent subject t.tick)
              (session.others t.tick t.database) d y m k drawn refl)
        λ _. Ensures-pure (Announced session m) _ _ (λ t p c. (m, drawn, p))

  abbrev IsAnnouncedIf : Option RequestedInvestigation → Transaction → Type 0
  IsAnnouncedIf none t = Unit
  IsAnnouncedIf (some r) t = IsAnnounced session t r

  request_one-IsAnnounced :
      (request_id client_id : ℕ) (e traceparent : String)
      → Ensures Any IsAnnouncedIf
          (request_one session subject false request_id client_id e traceparent)
  unfolding request_one insert_by requested
  request_one-IsAnnounced request_id client_id e traceparent =
      Ensures-bind Any DrawnIf IsAnnouncedIf _ _
        (Ensures-bind Any (λ result t. Drawn session result) DrawnIf _ _
          (insert_or_attach-Drawn session request_id client_id e)
          λ result. Ensures-pure (λ t. Drawn session result) DrawnIf _ (λ t p. p))
        by
    where
      DrawnIf : Option InvestigationInsertResult → Transaction → Type 0
      DrawnIf none t = Unit
      DrawnIf (some result) t = Drawn session result

      by :
          (o : Option InvestigationInsertResult)
          → Ensures (DrawnIf o) IsAnnouncedIf (requested_or_none session subject traceparent o)
      by none = Ensures-pure _ IsAnnouncedIf _ (λ t p. tt)
      by (some result) = record {
        at = λ t x t' p h.
            (Ensures-bind Any (λ _ t. IsAnnounced session t (requested result)) IsAnnouncedIf _ _
                (announce-IsAnnounced result.created result.investigation traceparent p)
                λ _.
                  Ensures-pure (λ t. IsAnnounced session t (requested result)) IsAnnouncedIf _
                    (λ t q. q)).at
              t x t' tt h;
      }

  asserted-IsAnnounced :
      (o : Option RequestedInvestigation)
      → Ensures (IsAnnouncedIf o) (λ r t. IsAnnounced session t r) (asserted session subject o)
  unfolding raise
  asserted-IsAnnounced none = record { at = λ t x t' p h. absurd (ground arith) }
  asserted-IsAnnounced (some r) =
      Ensures-pure (λ t. IsAnnounced session t r) (λ x t. IsAnnounced session t x) r (λ t p. p)

  -- An announcement outlives an action that keeps announcements.
  Keeps-IsAnnounced :
      {A : Type 0} (r : RequestedInvestigation) (action : Action A)
      → Keeps session action
      → Ensures (λ t. IsAnnounced session t r) (λ _ t. IsAnnounced session t r) action
  Keeps-IsAnnounced r action k = record {
    at = λ t x t' p h c. let (m, drawn, a) = p c in (m, drawn, (k.at m).at t x t' a h);
  }

  module _ (isolated : IsIsolated session) where
    abbrev AllAnnounced : List RequestedInvestigation → Transaction → Type 0
    AllAnnounced rs t = All (IsAnnounced session t) rs

    request_each-IsAnnounced :
        (request_id client_id : ℕ) (traceparent : String) (position : ℕ) (es : List String)
        → Ensures Any AllAnnounced
            (request_each session subject request_id client_id traceparent position es)
    unfolding request_each
    request_each-IsAnnounced request_id client_id traceparent position [] =
        Ensures-pure Any AllAnnounced _ (λ t p. tt)
    request_each-IsAnnounced request_id client_id traceparent position (e ∷ es) =
        Ensures-bind Any IsAnnouncedIf AllAnnounced _ _
          (request_one-IsAnnounced request_id client_id e traceparent)
          λ found.
            Ensures-bind (IsAnnouncedIf found) (λ r t. IsAnnounced session t r) AllAnnounced _ _
              (asserted-IsAnnounced found)
              λ result.
                Ensures-bind (λ t. IsAnnounced session t result)
                  (λ _ t. IsAnnounced session t result) AllAnnounced _ _
                  (Keeps-IsAnnounced result _ (
                    Keeps-attach_investigation session subject isolated request_id
                      result.investigation_id position))
                  λ _.
                    Ensures-bind (λ t. IsAnnounced session t result)
                      (λ rs t. AllAnnounced rs t × IsAnnounced session t result) AllAnnounced _ _
                      (record {
                        at = λ t x t' p h. (
                          (request_each-IsAnnounced request_id client_id traceparent (suc position)
                                es).at
                              t x t' tt h,
                          (Keeps-IsAnnounced result _ (
                                Keeps-request_each session subject isolated request_id client_id
                                  traceparent (suc position) es)).at
                              t x t' p h,
                        );
                      })
                      λ rest. Ensures-pure _ AllAnnounced _ (λ t p. (p.1, p.0))

    accept-IsAnnounced :
        (client_id : ℕ) (normalized : List String) (traceparent : String)
        → Ensures Any
            (λ (batch : InvestigationBatch) t. AllAnnounced batch.investigations t)
            (accept session subject client_id normalized traceparent)
    unfolding accept request_add
    accept-IsAnnounced client_id normalized traceparent =
        Ensures-bind Any (λ _ t. Any t)
          (λ (batch : InvestigationBatch) t. AllAnnounced batch.investigations t) _ _
          (Ensures-statement session Any (λ _ t. Any t) _ (λ t x d p k. tt))
          λ request_id.
            Ensures-bind Any AllAnnounced
              (λ (batch : InvestigationBatch) t. AllAnnounced batch.investigations t) _ _
              (request_each-IsAnnounced request_id client_id traceparent 0 normalized)
              λ results.
                Ensures-pure _
                  (λ (batch : InvestigationBatch) t. AllAnnounced batch.investigations t) _
                  (λ t p. p)

    -- When a request that validates is accepted, every investigation that it created, as opposed to
    -- attached, has an unpublished event in the outbox that is committed with it. Other transactions
    -- may commit between any two statements, if they leave the events of the identifiers that this
    -- transaction may draw, which they do not see.
    pub request_investigations_announces :
        (max_batch_size client_id : ℕ) (ids normalized : List String) (traceparent : String)
        (t t' : Transaction) (batch : InvestigationBatch)
        → validate_and_deduplicate max_batch_size ids ≡ returned normalized
        → request_investigations session subject max_batch_size client_id ids traceparent t
          ≡ returned (batch, t')
        → All (IsAnnounced session t') batch.investigations
    unfolding request_investigations
    request_investigations_announces max_batch_size client_id ids normalized traceparent t t' batch
          v h =
        (accept-IsAnnounced client_id normalized traceparent).at t batch t' tt (
          ap (λ o. after o λ (n : List String). accept session subject client_id n traceparent t)
            (sym v)
          ∙ h)
