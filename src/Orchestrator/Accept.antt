-- ===== src/Orchestrator/Accept.antt =====
-- Acceptance of a batch: application/request_investigations.py, and the admission of
-- application/request_filtered_investigations.py after its selection.
pub mod Batch
pub mod Keys
pub mod Kept
pub mod Drawn
pub mod Outbox
use backend_engineering_note.Prelude.{
  ℕ, suc, String, Bool, true, false, not, Option, none, some, List, [], ◌∷◌, map, if◌then◌else◌,
  ltb, str_eq, is_empty, strip, length,
}
use backend_engineering_note.Platform.Table.{delete_where}
use backend_engineering_note.Platform.Rows.{Database}
use backend_engineering_note.Orchestrator.Domain.{
  ExternalInvestigationStatus, external_status, InvestigationInsertResult, InvestigationRecord,
}
use backend_engineering_note.Orchestrator.Transaction.{
  Outcome, returned, invalid_batch, batch_too_large, assertion_error, Session, Transaction, Action,
  after, pure, raise, ◌>>=◌, ◌>>◌,
}
use backend_engineering_note.Orchestrator.Requests.{
  FilteredSelection, add_investigation_requested, request_add, attach_investigation,
  set_selected_ids,
}
use backend_engineering_note.Orchestrator.Repositories.{insert_or_attach, insert_or_attach_filtered}

pub record RequestedInvestigation : Type 0 where
  pub investigation_id : ℕ
  pub exception_id : String
  pub status : ExternalInvestigationStatus
  pub created : Bool

pub record InvestigationBatch : Type 0 where
  pub request_id : ℕ
  pub investigations : List RequestedInvestigation

-- `list(dict.fromkeys(xs))`: each value at its first place
unfoldable pub from_keys : List String → List String
from_keys [] = []
from_keys (x ∷ xs) = x ∷ delete_where (λ y. str_eq y x) (from_keys xs)

unfoldable pub has_empty : List String → Bool
has_empty [] = false
has_empty (x ∷ xs) = if is_empty x then true else has_empty xs

unfoldable pub validate_and_deduplicate : ℕ → List String → Outcome (List String)
validate_and_deduplicate max_batch_size [] = invalid_batch "At least one exception ID is required"
validate_and_deduplicate max_batch_size (x ∷ xs) =
    let ids = x ∷ xs in
    let normalized = map strip ids in
    if ltb max_batch_size (length ids)
    then batch_too_large max_batch_size
    else if has_empty normalized
    then invalid_batch "Exception IDs must be non-empty strings"
    else returned (from_keys normalized)

unfoldable pub requested : InvestigationInsertResult → RequestedInvestigation
requested result = record {
  investigation_id = result.investigation.id;
  exception_id = result.investigation.exception_id;
  status = external_status result.investigation.status;
  created = result.created;
}

module _ (session : Session) (subject : String) where
  -- an event for a row that was created
  unfoldable pub announce : Bool → InvestigationRecord → String → Action (Unit {0})
  announce false investigation traceparent = pure tt
  announce true investigation traceparent =
      add_investigation_requested session investigation traceparent subject >> pure tt

  -- `request_one` after its insert
  abbrev pub requested_or_none :
      String → Option InvestigationInsertResult → Action (Option RequestedInvestigation)
  requested_or_none traceparent none = pure none
  requested_or_none traceparent (some result) =
      announce result.created result.investigation traceparent >> pure (some (requested result))

  -- the insert that `request_one` chooses
  unfoldable pub insert_by : Bool → ℕ → ℕ → String → Action (Option InvestigationInsertResult)
  insert_by true request_id client_id exception_id =
      insert_or_attach_filtered session request_id client_id exception_id
  insert_by false request_id client_id exception_id = do
    result ← insert_or_attach session request_id client_id exception_id
    pure (some result)

  unfoldable pub request_one :
      Bool → ℕ → ℕ → String → String → Action (Option RequestedInvestigation)
  request_one filtered request_id client_id exception_id traceparent =
      insert_by filtered request_id client_id exception_id >>= requested_or_none traceparent

  abbrev pub asserted : Option RequestedInvestigation → Action RequestedInvestigation
  asserted none = raise assertion_error
  asserted (some result) = pure result

  -- the loop of `execute`
  unfoldable pub request_each :
      ℕ → ℕ → String → ℕ → List String → Action (List RequestedInvestigation)
  request_each request_id client_id traceparent position [] = pure []
  request_each request_id client_id traceparent position (e ∷ es) = do
    found ← request_one false request_id client_id e traceparent
    result ← asserted found
    attach_investigation session request_id result.investigation_id position
    rest ← request_each request_id client_id traceparent (suc position) es
    pure (result ∷ rest)

  unfoldable pub accept : ℕ → List String → String → Action InvestigationBatch
  accept client_id normalized traceparent = do
    request_id ← request_add session client_id normalized none
    results ← request_each request_id client_id traceparent 0 normalized
    pure (record { request_id = request_id; investigations = results })

  -- `RequestInvestigations.execute`
  unfoldable pub request_investigations : ℕ → ℕ → List String → String → Action InvestigationBatch
  request_investigations max_batch_size client_id exception_ids traceparent t =
      after (validate_and_deduplicate max_batch_size exception_ids)
        λ normalized. accept client_id normalized traceparent t

  -- the rest of the loop of `_accept` once an exception is attached at `position`, or is left out
  abbrev pub attach_and :
      ℕ
      → ℕ
      → (ℕ → Action (List RequestedInvestigation))
      → Option RequestedInvestigation
      → Action (List RequestedInvestigation)
  attach_and request_id position rest none = rest position
  attach_and request_id position rest (some result) = do
    attach_investigation session request_id result.investigation_id position
    results ← rest (suc position)
    pure (result ∷ results)

  -- the loop of `_accept`: the position is the number of results so far
  unfoldable pub request_each_filtered :
      ℕ → ℕ → String → List String → ℕ → Action (List RequestedInvestigation)
  request_each_filtered request_id client_id traceparent [] position = pure []
  request_each_filtered request_id client_id traceparent (e ∷ es) position =
      let rest = request_each_filtered request_id client_id traceparent es in
      request_one true request_id client_id e traceparent >>= attach_and request_id position rest

  -- `RequestFilteredInvestigations._accept`, with the exceptions that `_select` chose
  unfoldable pub accept_filtered :
      FilteredSelection → ℕ → String → List String → Action InvestigationBatch
  accept_filtered selection client_id traceparent selected = do
    request_id ← request_add session client_id [] (some selection)
    results ← request_each_filtered request_id client_id traceparent selected 0
    set_selected_ids session request_id
        (map (λ (r : RequestedInvestigation). r.exception_id) results)
    pure (record { request_id = request_id; investigations = results })
