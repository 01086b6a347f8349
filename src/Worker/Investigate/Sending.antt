-- ===== src/Worker/Investigate/Sending.antt =====
-- How often one attempt calls the port that writes back to the CTC API.
use backend_engineering_note.Prelude.{
  ℕ, ◌≤◌, String, Bool, true, false, Option, none, some, arith, Bool-cases, inl, inr, refl, ◌≡◌,
}
use backend_engineering_note.Platform.Rows.{Investigation, Mapping}
use backend_engineering_note.Worker.Exec.{Result, ok, raised, World, Session, lift, raise, ◌>>=◌}
use backend_engineering_note.Worker.Exec.Rules.{
  Sends, Sends-send-codes_sent, Sends-send-comment_sent, Sends-pure, Sends-raise, Sends-lift,
  Sends-if, Sends-more, Sends-require_update, Sends-bind,
}
use backend_engineering_note.Worker.Analysis.{ExceptionAnalysis}
use backend_engineering_note.Worker.Context.{ControlContext, ExceptionData}
use backend_engineering_note.Worker.Repository.{WriteBackStep}
use backend_engineering_note.Worker.Checkpoints.{
  WriteBackOutcome, written, skipped_version_conflict, skipped_disabled, completed_checkpoint,
  checkpoint_outcome, require_successful_outcome, outcome_of, codes_done, comment_done,
}
use backend_engineering_note.Worker.Investigate.{
  Services, WriteBackSettings, new_analysis, resolve_by, resolve_analysis, conclude, or_existing,
  record_outcome, send_codes, write_codes, send_comment, write_comment, finish, proceed,
}

Sends-conclude :
    (outcome : WriteBackOutcome) (detail : Option String) → Sends 0 0 (conclude outcome detail)
unfolding conclude
Sends-conclude WriteBackOutcome.failed detail = Sends-raise _
Sends-conclude written detail = Sends-pure _
Sends-conclude skipped_version_conflict detail = Sends-pure _
Sends-conclude skipped_disabled detail = Sends-pure _

-- The calls that a step may make, by what its checkpoint was read as.
abbrev pub budget : Result (Option WriteBackOutcome) → ℕ
budget (ok none) = 1
budget (ok (some outcome)) = 0
budget (raised e) = 0

-- The calls that a step may make, by the column of its checkpoint: one if that is NULL, and none if it
-- holds anything.
abbrev pub column_budget : Option String → ℕ
column_budget none = 1
column_budget (some value) = 0

budget_bound :
    (column : Option String) (allowed : WriteBackOutcome → Bool)
    → budget (completed_checkpoint column allowed) ≤ column_budget column
unfolding completed_checkpoint checkpoint_outcome require_successful_outcome
budget_bound none allowed = omega arith
budget_bound (some value) allowed = by (outcome_of value) refl
  where
    by :
        (o : Option WriteBackOutcome)
        → outcome_of value ≡ o
        → budget (completed_checkpoint (some value) allowed) ≤ 0
    by none e = ground (arith, e)
    by (some outcome) e = elim (Bool-cases (allowed outcome)) [
      | inl a ↦ ground (arith, e, a)
      | inr a ↦ ground (arith, e, a)
    ]

module _ (m : World → Result WriteBackOutcome × World) where
  Sends-existing_codes :
      (r : Result (Option WriteBackOutcome))
      → Sends 1 0 m
      → Sends (budget r) 0 (lift r >>= λ existing. or_existing existing m)
  unfolding ◌>>=◌ or_existing lift raise
  Sends-existing_codes (ok none) h = h
  Sends-existing_codes (ok (some outcome)) h = Sends-pure outcome
  Sends-existing_codes (raised e) h = Sends-raise e

  Sends-existing_comment :
      (r : Result (Option WriteBackOutcome))
      → Sends 0 1 m
      → Sends 0 (budget r) (lift r >>= λ existing. or_existing existing m)
  unfolding ◌>>=◌ or_existing lift raise
  Sends-existing_comment (ok none) h = h
  Sends-existing_comment (ok (some outcome)) h = Sends-pure outcome
  Sends-existing_comment (raised e) h = Sends-raise e

module _ (session : Session) (services : Services) (settings : WriteBackSettings)
    (report_inline_limit i w : ℕ) where
  Sends-new_analysis :
      (state : Investigation) (source_data : ExceptionData) (context : ControlContext)
      → Sends 0 0
          (new_analysis session services settings report_inline_limit i w state source_data context)
  unfolding new_analysis
  Sends-new_analysis state source_data context = Sends-bind 0 0 0 0 _ _ (Sends-lift _) λ analysis.
      Sends-bind 0 0 0 0 _ _ (Sends-lift _) λ _.
        Sends-bind 0 0 0 0 _ _ (Sends-lift _)
          λ uri. Sends-bind 0 0 0 0 _ _ (Sends-require_update session _) λ _. Sends-pure analysis

  Sends-resolve_by :
      (persisted : Option ℕ) (analysis : Option Mapping) (state : Investigation)
      (source_data : ExceptionData) (context : ControlContext)
      → Sends 0 0 (
          resolve_by session services settings report_inline_limit i w persisted analysis state
            source_data context)
  unfolding resolve_by
  Sends-resolve_by (some _) analysis state source_data context = Sends-lift _
  Sends-resolve_by none (some _) state source_data context = Sends-raise _
  Sends-resolve_by none none state source_data context =
      Sends-new_analysis state source_data context

  Sends-record_outcome :
      (state : Investigation) (step : WriteBackStep) (outcome : WriteBackOutcome)
      (detail : Option String)
      → Sends 0 0 (
          record_outcome session services settings report_inline_limit i w state step outcome
            detail)
  unfolding record_outcome
  Sends-record_outcome state step outcome detail =
      Sends-bind 0 0 0 0 _ _ (Sends-require_update session _) λ _. Sends-conclude outcome detail

  Sends-send_codes :
      (state : Investigation) (source_data : ExceptionData) (analysis : ExceptionAnalysis)
      (context : ControlContext)
      → Sends 1 0 (
          send_codes session services settings report_inline_limit i w state source_data analysis
            context)
  unfolding send_codes
  Sends-send_codes state source_data analysis context =
      Sends-if 1 0 settings.codes_enabled _ _
        (Sends-bind 1 0 0 0 _ _ (Sends-send-codes_sent _ _ _) λ _.
          Sends-bind 0 0 0 0 _ _ (Sends-lift _) λ result.
            Sends-bind 0 0 0 0 _ _
              (Sends-record_outcome state WriteBackStep.codes result.outcome result.detail)
              λ outcome. Sends-lift _)
        (Sends-more 0 0 1 0 _ (omega arith) (omega arith)
          (Sends-record_outcome state WriteBackStep.codes skipped_disabled none))

  Sends-send_comment :
      (state : Investigation) (source_data : ExceptionData) (analysis : ExceptionAnalysis)
      → Sends 0 1 (
          send_comment session services settings report_inline_limit i w state source_data analysis)
  unfolding send_comment
  Sends-send_comment state source_data analysis =
      Sends-if 0 1 settings.comment_enabled _ _
        (Sends-bind 0 0 0 1 _ _ (Sends-lift _) λ comment.
          Sends-bind 0 1 0 0 _ _ (Sends-send-comment_sent _) λ _.
            Sends-bind 0 0 0 0 _ _ (Sends-lift _) λ result.
              Sends-bind 0 0 0 0 _ _
                (Sends-record_outcome state WriteBackStep.comment result.outcome result.detail)
                λ outcome. Sends-lift _)
        (Sends-more 0 0 0 1 _ (omega arith) (omega arith)
          (Sends-record_outcome state WriteBackStep.comment skipped_disabled none))

  Sends-write_codes :
      (state : Investigation) (source_data : ExceptionData) (analysis : ExceptionAnalysis)
      (context : ControlContext)
      → Sends (column_budget state.codes_outcome) 0 (
          write_codes session services settings report_inline_limit i w state source_data analysis
            context)
  unfolding write_codes
  Sends-write_codes state source_data analysis context =
      Sends-more _ _ _ _ _ (budget_bound state.codes_outcome codes_done) (omega arith) (
        Sends-existing_codes _ (completed_checkpoint state.codes_outcome codes_done)
          (Sends-send_codes state source_data analysis context))

  Sends-write_comment :
      (state : Investigation) (source_data : ExceptionData) (analysis : ExceptionAnalysis)
      → Sends 0 (column_budget state.comment_outcome) (
          write_comment session services settings report_inline_limit i w state source_data
            analysis)
  unfolding write_comment
  Sends-write_comment state source_data analysis =
      Sends-more _ _ _ _ _ (omega arith) (budget_bound state.comment_outcome comment_done) (
        Sends-existing_comment _ (completed_checkpoint state.comment_outcome comment_done)
          (Sends-send_comment state source_data analysis))

  -- An attempt that goes on from a loaded state calls the write-back port at most once for the codes
  -- and once for the comment, and not at all for a step whose checkpoint column holds a value,
  -- however it ends and whatever other sessions do. What the port's adapter sends for a call is not
  -- counted.
  pub proceed-Sends :
      (state : Investigation) (done : Bool)
      → Sends
          (column_budget state.codes_outcome)
          (column_budget state.comment_outcome)
          (proceed session services settings report_inline_limit i w state done)
  unfolding proceed finish resolve_analysis
  proceed-Sends state true =
      Sends-more 0 0 _ _ _ (omega arith) (omega arith) (Sends-require_update session _)
  proceed-Sends state false = Sends-more _ _ _ _ _ (omega arith) (omega arith) (
      Sends-bind 0 0 _ _ _ _ (Sends-lift _) λ context.
        Sends-bind 0 0 _ _ _ _ (Sends-lift _) λ source_data.
          Sends-bind 0 0 _ _ _ _ (Sends-resolve_by _ _ state source_data context) λ analysis.
            Sends-bind (column_budget state.codes_outcome) 0 _ _ _ _
              (Sends-write_codes state source_data analysis context)
              λ _.
                Sends-bind 0 (column_budget state.comment_outcome) 0 0 _ _
                  (Sends-write_comment state source_data analysis)
                  λ _. Sends-require_update session _)
