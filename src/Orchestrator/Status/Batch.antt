-- ===== src/Orchestrator/Status/Batch.antt =====
-- The status of several investigations: QueryStatus of application/query_status.py.
pub mod Answers
use backend_engineering_note.Prelude.{
  ℕ, String, Bool, true, false, Option, none, some, List, [], ◌∷◌, map, option_map, if◌then◌else◌,
  ltb, str_eq, strip, length, is_empty,
}
use backend_engineering_note.Platform.Rows.{Investigation}
use backend_engineering_note.Platform.Update.{get_row}
use backend_engineering_note.Orchestrator.Domain.{record_of}
use backend_engineering_note.Orchestrator.Accept.{has_empty}
use backend_engineering_note.Orchestrator.Status.{InvestigationStatusItem, item}

pub data StatusBatch : Type 0 where
  investigations : List InvestigationStatusItem → StatusBatch
  invalid_status_query : String → StatusBatch
  status_batch_too_large : ℕ → StatusBatch

-- The later of two rows; of rows created at one time the database may choose, here the first.
abbrev pub later : Investigation → Option Investigation → Investigation
later r none = r
later r (some s) = if ltb r.created_at s.created_at then s else r

-- DISTINCT ON (exception_id) … ORDER BY exception_id, created_at DESC, for one exception
unfoldable pub most_recent : String → List Investigation → Option Investigation
most_recent e [] = none
most_recent e (r ∷ rows) =
    let rest = most_recent e rows in if str_eq r.exception_id e then some (later r rest) else rest

module _ {ℓ} {A : Type ℓ} where
  -- `_validate_size`
  unfoldable pub validate_size : ℕ → List A → Option StatusBatch
  validate_size max_batch_size [] =
      some (invalid_status_query "At least one identifier is required")
  validate_size max_batch_size (x ∷ xs) =
      if ltb max_batch_size (length (x ∷ xs))
      then some (status_batch_too_large max_batch_size)
      else none

-- what a validation raises, or what comes after it
abbrev pub or_raise : Option StatusBatch → StatusBatch → StatusBatch
or_raise none batch = batch
or_raise (some raised) batch = raised

unfoldable pub exception_item : List Investigation → String → InvestigationStatusItem
exception_item rows e = item (option_map record_of (most_recent e rows)) none (some e)

unfoldable pub investigation_item : List Investigation → ℕ → InvestigationStatusItem
investigation_item rows i = item (option_map record_of (get_row i rows)) (some i) none

-- `QueryStatus.execute`
unfoldable pub query_status :
    ℕ → Option (List String) → Option (List ℕ) → List Investigation → StatusBatch
query_status max_batch_size none none rows =
    invalid_status_query "Provide exactly one of exception_ids or investigation_ids"
query_status max_batch_size (some exception_ids) (some investigation_ids) rows =
    invalid_status_query "Provide exactly one of exception_ids or investigation_ids"
query_status max_batch_size (some exception_ids) none rows =
    let values = map strip exception_ids in
    or_raise (validate_size max_batch_size exception_ids) (
      if has_empty values
      then invalid_status_query "Exception IDs must be non-empty strings"
      else investigations (map (exception_item rows) values))
query_status max_batch_size none (some investigation_ids) rows =
    or_raise (validate_size max_batch_size investigation_ids)
      (investigations (map (investigation_item rows) investigation_ids))
