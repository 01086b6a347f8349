-- ===== src/Orchestrator/Accept/Batch.antt =====
-- What an accepted batch answers, whatever other transactions commit in between.
use backend_engineering_note.Prelude.{
  ℕ, suc, ◌≡◌, refl, sym, ap, ◌∙◌, String, Bool, true, false, Option, none, some, List, [], ◌∷◌,
  arith, map, All,
}
use backend_engineering_note.Platform.Rows.{InvestigationStatus, Database, is_active_status}
use backend_engineering_note.Platform.Consistency.{IsConsistent}
use backend_engineering_note.Orchestrator.Domain.{
  InvestigationRecord, InvestigationInsertResult, in_progress, external_status,
}
use backend_engineering_note.Orchestrator.Transaction.{
  returned, Session, Transaction, Action, after, raise,
}
use backend_engineering_note.Orchestrator.Transaction.Rules.{Ensures, Ensures-bind, Ensures-pure}
use backend_engineering_note.Orchestrator.Requests.{
  add_investigation_requested, insert_event, request_add, attach_investigation, insert_membership,
  FilteredSelection,
}
use backend_engineering_note.Orchestrator.Repositories.Active.{IsActiveFor}
use backend_engineering_note.Orchestrator.Repositories.Inserts.{
  Sound, Accepted, AcceptedIf, Sound-statement, insert_or_attach-Sound,
  insert_or_attach_filtered-Sound,
}
use backend_engineering_note.Orchestrator.Accept.{
  RequestedInvestigation, InvestigationBatch, requested, announce, requested_or_none, insert_by,
  request_one, asserted, request_each, accept, validate_and_deduplicate, request_investigations,
}

external_status_active :
    (s : InvestigationStatus) → is_active_status s ≡ true → external_status s ≡ in_progress
unfolding external_status
external_status_active s h = ground arith

-- The answer for an exception: its own identifier, in progress.
abbrev pub Answers : String → RequestedInvestigation → Type 0
Answers e r = (r.exception_id ≡ e) × (r.status ≡ in_progress)

abbrev pub AnswersIf : String → Option RequestedInvestigation → Transaction → Type 0
AnswersIf e none t = Sound t
AnswersIf e (some r) t = Sound t × Answers e r

requested-Answers :
    (e : String) (result : InvestigationInsertResult)
    → IsActiveFor e result.investigation
    → Answers e (requested result)
unfolding requested
requested-Answers e result h = (h.0, external_status_active result.investigation.status h.1)

-- The answers for a list of exceptions, in its order.
abbrev pub AnswersAll : List String → List RequestedInvestigation → Type 0
AnswersAll es rs =
    (map (λ (r : RequestedInvestigation). r.exception_id) rs ≡ es)
    × All (λ (r : RequestedInvestigation). r.status ≡ in_progress) rs

module _ (session : Session) (subject : String)
    (others_keep : (n : ℕ) (db : Database)
      → IsConsistent db.investigations
      → IsConsistent (session.others n db).investigations) where
  announce-Sound :
      (created : Bool) (x : InvestigationRecord) (traceparent : String)
      → Ensures Sound (λ _ t. Sound t) (announce session subject created x traceparent)
  unfolding announce add_investigation_requested insert_event
  announce-Sound false x traceparent = Ensures-pure Sound (λ _ t. Sound t) _ (λ t p. p)
  announce-Sound true x traceparent =
      Ensures-bind Sound (λ _ t. Sound t) (λ _ t. Sound t) _ _
        (Sound-statement session others_keep _ (λ n db d y h. ground arith))
        λ _. Ensures-pure Sound (λ _ t. Sound t) _ (λ t p. p)

  attach_investigation-Sound :
      (request_id investigation_id position : ℕ)
      → Ensures Sound
          (λ _ t. Sound t)
          (attach_investigation session request_id investigation_id position)
  unfolding attach_investigation insert_membership
  attach_investigation-Sound request_id investigation_id position =
      Sound-statement session others_keep _ (λ n db d y h. ground arith)

  request_add-Sound :
      (client_id : ℕ) (es : List String) (selection : Option FilteredSelection)
      → Ensures Sound (λ _ t. Sound t) (request_add session client_id es selection)
  unfolding request_add
  request_add-Sound client_id es selection =
      Sound-statement session others_keep _ (λ n db d y h. ground arith)

  insert_by-Sound :
      (filtered : Bool) (request_id client_id : ℕ) (e : String)
      → Ensures Sound
          (AcceptedIf session others_keep e)
          (insert_by session subject filtered request_id client_id e)
  unfolding insert_by
  insert_by-Sound true request_id client_id e =
      insert_or_attach_filtered-Sound session others_keep request_id client_id e
  insert_by-Sound false request_id client_id e =
      Ensures-bind Sound (Accepted session others_keep e) (AcceptedIf session others_keep e) _ _
        (insert_or_attach-Sound session others_keep request_id client_id e)
        λ result. Ensures-pure _ (AcceptedIf session others_keep e) _ (λ t p. p)

  -- what is left after a statement that says nothing of a fact
  framed :
      {A : Type 0} (F : Type 0) (m : Action A)
      → Ensures Sound (λ _ t. Sound t) m
      → Ensures (λ t. Sound t × F) (λ _ t. Sound t × F) m
  framed F m h = record { at = λ t x t' p e. (h.at t x t' p.0 e, p.1) }

  request_one-Sound :
      (filtered : Bool) (request_id client_id : ℕ) (e traceparent : String)
      → Ensures Sound
          (AnswersIf e)
          (request_one session subject filtered request_id client_id e traceparent)
  unfolding request_one
  request_one-Sound filtered request_id client_id e traceparent =
      Ensures-bind Sound (AcceptedIf session others_keep e) (AnswersIf e) _ _
        (insert_by-Sound filtered request_id client_id e) by
    where
      by :
          (o : Option InvestigationInsertResult)
          → Ensures
              (AcceptedIf session others_keep e o)
              (AnswersIf e)
              (requested_or_none session subject traceparent o)
      by none = Ensures-pure Sound (AnswersIf e) _ (λ t p. p)
      by (some result) =
          Ensures-bind (λ t. Sound t × IsActiveFor e result.investigation)
            (λ _ t. Sound t × IsActiveFor e result.investigation) (AnswersIf e) _ _
            (framed (IsActiveFor e result.investigation) _
              (announce-Sound result.created result.investigation traceparent))
            λ _. Ensures-pure _ (AnswersIf e) _ (λ t p. (p.0, requested-Answers e result p.1))

  asserted-Sound :
      (e : String) (o : Option RequestedInvestigation)
      → Ensures (AnswersIf e o) (λ r t. Sound t × Answers e r) (asserted session subject o)
  unfolding raise
  asserted-Sound e none = record { at = λ t x t' p h. absurd (ground arith) }
  asserted-Sound e (some r) =
      Ensures-pure (λ t. Sound t × Answers e r) (λ r t. Sound t × Answers e r) _ (λ t p. p)

  request_each-Sound :
      (request_id client_id : ℕ) (traceparent : String) (position : ℕ) (es : List String)
      → Ensures Sound
          (λ rs t. Sound t × AnswersAll es rs)
          (request_each session subject request_id client_id traceparent position es)
  unfolding request_each
  request_each-Sound request_id client_id traceparent position [] =
      Ensures-pure Sound _ _ (λ t p. (p, (refl, tt)))
  request_each-Sound request_id client_id traceparent position (e ∷ es) =
      Ensures-bind Sound (AnswersIf e) (λ rs t. Sound t × AnswersAll (e ∷ es) rs) _ _
        (request_one-Sound false request_id client_id e traceparent)
        λ found.
          Ensures-bind (AnswersIf e found) (λ r t. Sound t × Answers e r)
            (λ rs t. Sound t × AnswersAll (e ∷ es) rs) _ _ (asserted-Sound e found)
            λ result.
              Ensures-bind (λ t. Sound t × Answers e result) (λ _ t. Sound t × Answers e result)
                (λ rs t. Sound t × AnswersAll (e ∷ es) rs) _ _
                (framed (Answers e result) _
                  (attach_investigation-Sound request_id result.investigation_id position))
                λ _.
                  Ensures-bind (λ t. Sound t × Answers e result)
                    (λ rs t. (Sound t × AnswersAll es rs) × Answers e result)
                    (λ rs t. Sound t × AnswersAll (e ∷ es) rs) _ _
                    (record {
                      at = λ t x t' p h. (
                        (request_each-Sound request_id client_id traceparent (suc position) es).at t
                            x t' p.0 h,
                        p.1,
                      );
                    })
                    λ rest.
                      Ensures-pure _ (λ rs t. Sound t × AnswersAll (e ∷ es) rs) _
                        λ t p.
                          let ((s, (same, open_ones)), (mine, status)) = p in
                          (s, (ground (arith, mine, same), (status, open_ones)))

  accept-Sound :
      (client_id : ℕ) (normalized : List String) (traceparent : String)
      → Ensures Sound
          (λ batch t. Sound t × AnswersAll normalized batch.investigations)
          (accept session subject client_id normalized traceparent)
  unfolding accept
  accept-Sound client_id normalized traceparent =
      Ensures-bind Sound (λ _ t. Sound t)
        (λ (batch : InvestigationBatch) t. Sound t × AnswersAll normalized batch.investigations) _ _
        (request_add-Sound client_id normalized none)
        λ request_id.
          Ensures-bind Sound (λ rs t. Sound t × AnswersAll normalized rs)
            (λ (batch : InvestigationBatch) t. Sound t × AnswersAll normalized batch.investigations)
            _ _ (request_each-Sound request_id client_id traceparent 0 normalized)
            λ results.
              Ensures-pure _
                (λ (batch : InvestigationBatch) t.
                  Sound t × AnswersAll normalized batch.investigations)
                _ (λ t p. p)

  -- On a consistent table of investigations, a request that validates and is accepted answers each
  -- of its normalized identifiers, in their order, with an investigation that is in progress, and
  -- leaves the table consistent. Other transactions may commit between any two statements, if they
  -- keep the table consistent.
  pub request_investigations_lem :
      (max_batch_size client_id : ℕ) (ids normalized : List String) (traceparent : String)
      (t t' : Transaction) (batch : InvestigationBatch)
      → Sound t
      → validate_and_deduplicate max_batch_size ids ≡ returned normalized
      → request_investigations session subject max_batch_size client_id ids traceparent t
        ≡ returned (batch, t')
      → Sound t' × AnswersAll normalized batch.investigations
  unfolding request_investigations
  request_investigations_lem max_batch_size client_id ids normalized traceparent t t' batch s v h =
      (accept-Sound client_id normalized traceparent).at t batch t' s (
        ap (λ o. after o λ (n : List String). accept session subject client_id n traceparent t)
          (sym v)
        ∙ h)
