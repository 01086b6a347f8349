-- ===== src/Worker/Checkpoints.antt =====
-- Durable checkpoints of an investigation and what they mean on a later attempt:
-- application/investigation_checkpoints.py, with the outcomes of ports/investigation/ctc_write_back.py.
pub mod RoundTrip
pub mod Done
use backend_engineering_note.Prelude.{
  ℕ, ℤ, String, Bool, true, false, ◌&&◌, ◌||◌, Option, none, some, List, [], ◌∷◌, if◌then◌else◌,
  str_eq, is_some, append_text,
}
use backend_engineering_note.Platform.Rows.{
  Investigation, Mapping, Value, text, integer, array, object,
}
use backend_engineering_note.Worker.Errors.{Failure, permanent, Exception, failure}
use backend_engineering_note.Worker.Exec.{Result, ok, raised}
use backend_engineering_note.Worker.Analysis.{ExceptionAnalysis, Confidence, high, medium, low}

pub data WriteBackOutcome : Type 0 where
  written skipped_version_conflict skipped_disabled failed : WriteBackOutcome

-- the value of the enumeration, and `WriteBackOutcome(value)`
abbrev pub outcome_value : WriteBackOutcome → String
outcome_value written = "written"
outcome_value skipped_version_conflict = "skipped_version_conflict"
outcome_value skipped_disabled = "skipped_disabled"
outcome_value failed = "failed"

unfoldable pub outcome_of : String → Option WriteBackOutcome
outcome_of value =
    if str_eq value "written"
    then some written
    else if str_eq value "skipped_version_conflict"
    then some skipped_version_conflict
    else if str_eq value "skipped_disabled"
    then some skipped_disabled
    else if str_eq value "failed"
    then some failed
    else none

-- COMMENT_DONE and CODES_DONE
abbrev pub comment_done : WriteBackOutcome → Bool
comment_done written = true
comment_done skipped_version_conflict = false
comment_done skipped_disabled = true
comment_done failed = false

abbrev pub codes_done : WriteBackOutcome → Bool
codes_done written = true
codes_done skipped_version_conflict = true
codes_done skipped_disabled = true
codes_done failed = false

abbrev pub permanent_error : String → String → Exception
permanent_error code message = failure (permanent code message)

unfoldable pub checkpoint_outcome : Option String → Result (Option WriteBackOutcome)
unfolding outcome_of
checkpoint_outcome none = ok none
checkpoint_outcome (some value) = elim (outcome_of value) [
  | none ↦ raised (
      permanent_error "invalid_write_back_checkpoint"
        (append_text "Unknown write-back checkpoint outcome " value))
  | some outcome ↦ ok (some outcome)
]

unfoldable pub require_successful_outcome :
    WriteBackOutcome → (WriteBackOutcome → Bool) → Result WriteBackOutcome
require_successful_outcome outcome allowed =
    if allowed outcome
    then ok outcome
    else raised (
        permanent_error "write_back_rejected"
          (append_text "Write-back checkpoint has terminal outcome " (outcome_value outcome)))

abbrev required :
    Result (Option WriteBackOutcome) → (WriteBackOutcome → Bool) → Result (Option WriteBackOutcome)
required (ok none) allowed = ok none
required (ok (some outcome)) allowed = elim (require_successful_outcome outcome allowed) [
  | ok o ↦ ok (some o)
  | raised e ↦ raised e
]
required (raised e) allowed = raised e

unfoldable pub completed_checkpoint :
    Option String → (WriteBackOutcome → Bool) → Result (Option WriteBackOutcome)
unfolding checkpoint_outcome require_successful_outcome
completed_checkpoint value allowed = required (checkpoint_outcome value) allowed

-- The comment's checkpoint is read first; `and` reads the other only if that is done.
unfoldable pub write_back_complete : Investigation → Result Bool
unfolding completed_checkpoint
write_back_complete state = elim (completed_checkpoint state.comment_outcome comment_done) [
  | raised e ↦ raised e
  | ok none ↦ ok false
  | ok (some c) ↦ elim (completed_checkpoint state.codes_outcome codes_done) [
    | raised e ↦ raised e
    | ok codes ↦ ok (is_some codes)
  ]
]

-- `mapping.get(key)`
unfoldable pub get : String → Mapping → Option Value
get key [] = none
get key ((k, v) ∷ rest) = if str_eq k key then some v else get key rest

-- the value if it is a `str`
abbrev pub as_text : Option Value → Option String
as_text (some (text s)) = some s
as_text _ = none

abbrev pub invalid_analysis : String → Exception
invalid_analysis message = permanent_error "invalid_analysis_checkpoint" message

abbrev invalid_confidence : Exception
invalid_confidence = invalid_analysis "Persisted analysis checkpoint has an invalid confidence"

-- A list or a dictionary has no hash, so `confidence not in {…}` raises `TypeError` for it.
unfoldable pub confidence_of : Option Value → Result Confidence
confidence_of (some (text s)) =
    if str_eq s "high"
    then ok high
    else if str_eq s "medium"
    then ok medium
    else if str_eq s "low"
    then ok low
    else raised invalid_confidence
confidence_of (some array) = raised (failure (Failure.unexpected "unhashable type: 'list'"))
confidence_of (some object) = raised (failure (Failure.unexpected "unhashable type: 'dict'"))
confidence_of _ = raised invalid_confidence

abbrev pub confidence_value : Confidence → String
confidence_value high = "high"
confidence_value medium = "medium"
confidence_value low = "low"

texts_of :
    Option String
    → Option String
    → Option String
    → Option String
    → Option String
    → Result Confidence
    → Result ExceptionAnalysis
texts_of (some explanation) (some reasoning) (some reason) (some resolution) (some short)
      (ok confidence) =
    ok (record {
      explanation = explanation;
      reasoning = reasoning;
      reason_code = reason;
      resolution_code = resolution;
      short_analysis = short;
      confidence = confidence;
    })
texts_of (some explanation) (some reasoning) (some reason) (some resolution) (some short)
      (raised e) =
    raised e
texts_of _ _ _ _ _ _ =
    raised (invalid_analysis "Persisted analysis checkpoint has an invalid payload")

unfoldable pub analysis_from_checkpoint : Option Mapping → Result ExceptionAnalysis
unfolding texts_of get confidence_of
analysis_from_checkpoint none =
    raised (invalid_analysis "Persisted analysis checkpoint has no analysis payload")
analysis_from_checkpoint (some value) =
    texts_of (as_text (get "explanation" value)) (as_text (get "reasoning" value))
      (as_text (get "reason_code" value)) (as_text (get "resolution_code" value))
      (as_text (get "short_analysis" value)) (confidence_of (get "confidence" value))

abbrev version_of : Option Value → ℤ → ℤ
version_of (some (integer v)) current = v
version_of _ current = current

-- The version of the exception that the persisted analysis was made for, and `current` without one.
unfoldable pub checkpoint_exception_version : Investigation → ℤ → ℤ
unfolding get
checkpoint_exception_version state current = elim state.analysis [
  | none ↦ current
  | some value ↦
      if is_some state.analysis_persisted_at
      then version_of (get "_exception_version" value) current
      else current
]

-- `asdict(analysis)` with `_exception_version`, as `_resolve_analysis` persists it
unfoldable pub checkpoint_of : ExceptionAnalysis → ℤ → Mapping
checkpoint_of analysis version =
    ("explanation", text analysis.explanation)
    ∷ ("reasoning", text analysis.reasoning)
    ∷ ("reason_code", text analysis.reason_code)
    ∷ ("resolution_code", text analysis.resolution_code)
    ∷ ("short_analysis", text analysis.short_analysis)
    ∷ ("confidence", text (confidence_value analysis.confidence))
    ∷ ("_exception_version", integer version)
    ∷ []
