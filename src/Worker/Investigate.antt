-- ===== src/Worker/Investigate.antt =====
-- One attempt at an investigation: application/investigate_exception.py of the worker. Other systems
-- (the context resolver, the CTC database and API, the language model, the report store) are the
-- fields of `Services`; what they raise is a value. Calls of the write-back port
-- are traced.
pub mod Sending
pub mod Steps
pub mod Success
pub mod Completes
pub mod Keyed
use backend_engineering_note.Prelude.{
  ℕ, ℤ, String, Bool, true, false, ◌&&◌, ◌||◌, Option, none, some, List, [], ◌∷◌, map,
  if◌then◌else◌, leb, sql_eq, is_empty,
}
use backend_engineering_note.Platform.Rows.{Investigation, Mapping}
use backend_engineering_note.Platform.Update.{get_row}
use backend_engineering_note.Worker.Errors.{
  Failure, Exception, failure, rejected, invalid_analysis_output, translate,
}
use backend_engineering_note.Worker.Exec.{
  Result, ok, raised, World, Session, Exec, pure, raise, lift, read, require_update, send, Sent,
  codes_sent, comment_sent, ◌>>=◌, ◌>>◌,
}
use backend_engineering_note.Worker.Analysis.{ExceptionAnalysis, validate_codes, is_vocabulary}
use backend_engineering_note.Worker.Comment.{
  validate_comment_length, CommentCheck, no_budget, too_long, fits, render_comment,
}
use backend_engineering_note.Worker.Context.{ControlContext, ExceptionData, LinkedRecord, codes_of}
use backend_engineering_note.Worker.Report.{render_report}
use backend_engineering_note.Worker.Repository.{
  WriteBackStep, persist_analysis, record_write_back_step, complete,
}
use backend_engineering_note.Worker.Checkpoints.{
  WriteBackOutcome, written, skipped_version_conflict, skipped_disabled, outcome_value,
  comment_done, codes_done, permanent_error, completed_checkpoint, require_successful_outcome,
  write_back_complete, analysis_from_checkpoint, checkpoint_exception_version, checkpoint_of,
  invalid_analysis,
}

pub record WriteBackResult : Type 0 where
  pub outcome : WriteBackOutcome
  pub detail : Option String

pub record WriteBackSettings : Type 0 where
  pub record_comment_limit : ℕ
  pub comment_enabled : Bool
  pub codes_enabled : Bool

pub record Services : Type 0 where
  pub resolve : Result ControlContext
  pub fetch : String → String → Result ExceptionData
  pub analyze : String → ExceptionData → ControlContext → Result ExceptionAnalysis
  pub store_report : ℕ → String → Result String
  -- what comes back from a write to the CTC API
  pub write_codes : ExceptionData → ControlContext → ExceptionAnalysis → ℤ → Result WriteBackResult
  pub write_comment : String → List LinkedRecord → Result WriteBackResult
  -- `_utc_timestamp(clock())`, and `len(report.encode("utf-8"))`
  pub timestamp : String
  pub encoded_length : String → ℕ

abbrev pub value_error : String → Exception
value_error message = failure (Failure.unexpected message)

unfoldable pub require_owned : ℕ → Option Investigation → Result Investigation
require_owned w none =
    raised (permanent_error "investigation_not_found" "The investigation does not exist")
require_owned w (some state) =
    if sql_eq state.worker_id w then ok state else raised (failure Failure.ownership_lost)

unfoldable pub post_validate : ExceptionAnalysis → ControlContext → ℕ → Result (Unit {0})
post_validate analysis context comment_limit =
    let reasons = codes_of context.reason_codes in
    let resolutions = codes_of context.resolution_codes in
    if is_vocabulary reasons && is_vocabulary resolutions
    then elim (validate_codes analysis reasons resolutions) [
      | [] ↦ elim (validate_comment_length analysis comment_limit) [
        | no_budget ↦
            raised (value_error "Record comment limit must exceed the confidence prefix length")
        | too_long ↦ raised (rejected invalid_analysis_output "short_analysis exceeds the limit")
        | fits ↦ ok tt
      ]
      | _ ∷ _ ↦ raised (rejected invalid_analysis_output "a code is not in its vocabulary")
    ]
    else raised (rejected invalid_analysis_output "a vocabulary is empty or contains duplicates")

abbrev pub detail_or : Option String → String → String
detail_or none d = d
detail_or (some s) d = if is_empty s then d else s

-- the end of `_record_outcome`
unfoldable pub conclude : WriteBackOutcome → Option String → Exec WriteBackOutcome
conclude WriteBackOutcome.failed detail =
    raise (permanent_error "write_back_rejected" (detail_or detail "CTC rejected write-back"))
conclude outcome detail = pure outcome

abbrev pub rendered : Option String → Result String
rendered none = raised (value_error "Maximum length must not be negative")
rendered (some comment) = ok comment

-- a checkpoint that is done is returned, and nothing is sent
unfoldable pub or_existing : Option WriteBackOutcome → Exec WriteBackOutcome → Exec WriteBackOutcome
or_existing (some outcome) m = pure outcome
or_existing none m = m

module _ (session : Session) (services : Services) (settings : WriteBackSettings)
    (report_inline_limit i w : ℕ) where
  unfoldable pub load_owned : Exec Investigation
  load_owned = do state ← read session (get_row i); lift (require_owned w state)

  abbrev pub inline_report : String → Option String
  inline_report report =
      if leb (services.encoded_length report) report_inline_limit then some report else none

  -- the branch of `_resolve_analysis` that asks the model
  unfoldable pub new_analysis :
      Investigation → ExceptionData → ControlContext → Exec ExceptionAnalysis
  new_analysis state source_data context = do
    analysis ← lift (services.analyze state.exception_id source_data context)
    lift (post_validate analysis context settings.record_comment_limit)
    let report = render_report state.exception_id analysis services.timestamp
    report_uri ← lift (services.store_report state.id report)
    require_update session (λ now.
        persist_analysis state.id w (checkpoint_of analysis source_data.exception_version)
          (inline_report report) report_uri now)
    pure analysis

  -- `_resolve_analysis` by `analysis_persisted_at` and `analysis`
  unfoldable pub resolve_by :
      Option ℕ
      → Option Mapping
      → Investigation
      → ExceptionData
      → ControlContext
      → Exec ExceptionAnalysis
  resolve_by (some _) analysis state source_data context = lift (analysis_from_checkpoint analysis)
  resolve_by none (some _) state source_data context =
      raise (invalid_analysis "Investigation has analysis without a persisted checkpoint")
  resolve_by none none state source_data context = new_analysis state source_data context

  unfoldable pub resolve_analysis :
      Investigation → ExceptionData → ControlContext → Exec ExceptionAnalysis
  resolve_analysis state source_data context =
      resolve_by state.analysis_persisted_at state.analysis state source_data context

  unfoldable pub record_outcome :
      Investigation → WriteBackStep → WriteBackOutcome → Option String → Exec WriteBackOutcome
  record_outcome state step outcome detail = do
    require_update session
        (λ now. record_write_back_step state.id w step (outcome_value outcome) detail now)
    conclude outcome detail

  -- `_write_codes` past its checkpoint
  unfoldable pub send_codes :
      Investigation → ExceptionData → ExceptionAnalysis → ControlContext → Exec WriteBackOutcome
  send_codes state source_data analysis context =
      let version = checkpoint_exception_version state source_data.exception_version in
      if settings.codes_enabled
      then (do
        send (codes_sent analysis.reason_code analysis.resolution_code version)
        result ← lift (services.write_codes source_data context analysis version)
        outcome ← record_outcome state WriteBackStep.codes result.outcome result.detail
        lift (require_successful_outcome outcome codes_done))
      else record_outcome state WriteBackStep.codes skipped_disabled none

  unfoldable pub write_codes :
      Investigation → ExceptionData → ExceptionAnalysis → ControlContext → Exec WriteBackOutcome
  write_codes state source_data analysis context = do
    existing ← lift (completed_checkpoint state.codes_outcome codes_done)
    or_existing existing (send_codes state source_data analysis context)

  -- `_write_comment` past its checkpoint
  unfoldable pub send_comment :
      Investigation → ExceptionData → ExceptionAnalysis → Exec WriteBackOutcome
  send_comment state source_data analysis =
      if settings.comment_enabled
      then (do
        comment ← lift (rendered (render_comment analysis settings.record_comment_limit))
        send (comment_sent comment)
        result ← lift (services.write_comment comment source_data.records)
        outcome ← record_outcome state WriteBackStep.comment result.outcome result.detail
        lift (require_successful_outcome outcome comment_done))
      else record_outcome state WriteBackStep.comment skipped_disabled none

  unfoldable pub write_comment :
      Investigation → ExceptionData → ExceptionAnalysis → Exec WriteBackOutcome
  write_comment state source_data analysis = do
    existing ← lift (completed_checkpoint state.comment_outcome comment_done)
    or_existing existing (send_comment state source_data analysis)

  unfoldable pub finish : Exec (Unit {0})
  finish = require_update session (λ now. complete i w now)

  -- The body of `execute`, from the loaded state on.
  unfoldable pub proceed : Investigation → Bool → Exec (Unit {0})
  proceed state true = finish
  proceed state false = do
    context ← lift services.resolve
    source_data ← lift (services.fetch state.exception_id context.positions_rec_schema)
    analysis ← resolve_analysis state source_data context
    write_codes state source_data analysis context
    write_comment state source_data analysis
    finish

  unfoldable pub run : Exec (Unit {0})
  run = do state ← load_owned; done ← lift (write_back_complete state); proceed state done

  -- `execute`: what it raises is translated.
  unfoldable pub execute : World → Option Failure × World
  execute world =
      let (result, after) = run world in
      (elim result [ ok _ ↦ none | raised e ↦ some (translate e) ], after)
