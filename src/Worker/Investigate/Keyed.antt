-- ===== src/Worker/Investigate/Keyed.antt =====
-- An attempt keeps the primary key, however it ends.
use backend_engineering_note.Prelude.{
  refl, ℕ, ◌≤◌, ◌≡◌, String, Bool, true, false, Option, none, some, arith,
}
use backend_engineering_note.Platform.Table.{count_where}
use backend_engineering_note.Platform.Rows.{Investigation, Mapping, has_id}
use backend_engineering_note.Platform.Update.{count_id-update_row}
use backend_engineering_note.Worker.Exec.{Result, World, Session, require_update}
use backend_engineering_note.Worker.Exec.Keeps.{
  Keeps, Keeps-send, Keeps-pure, Keeps-raise, Keeps-lift, Keeps-if, Keeps-read,
  Keeps-require_update, Keeps-bind,
}
use backend_engineering_note.Worker.Analysis.{ExceptionAnalysis}
use backend_engineering_note.Worker.Context.{ControlContext, ExceptionData}
use backend_engineering_note.Worker.Repository.{
  Rows, WriteBackStep, comment, codes, is_owned, owned_update, persist_analysis,
  record_write_back_step, step_values, complete, complete_values,
}
use backend_engineering_note.Worker.Checkpoints.{
  WriteBackOutcome, written, skipped_version_conflict, skipped_disabled,
}
use backend_engineering_note.Worker.Investigate.{
  Services, WriteBackSettings, load_owned, new_analysis, resolve_by, resolve_analysis, conclude,
  or_existing, record_outcome, send_codes, write_codes, send_comment, write_comment, finish,
  proceed, run, execute,
}

abbrev pub Unique : ℕ → Rows → Type 0
Unique i rows = count_where (has_id i) rows ≤ 1

Unique-owned_update :
    (i j w : ℕ) (f : Investigation → Investigation) (rows : Rows)
    → ((r : Investigation) → (f r).id ≡ r.id)
    → Unique i rows
    → Unique i (owned_update j w none f rows).0
unfolding owned_update
Unique-owned_update i j w f rows same u =
    omega (arith, count_id-update_row (is_owned w none) f same j i rows, u)

module _ (session : Session) (i : ℕ)
    (keyed : (n : ℕ) (rows : Rows) → Unique i rows → Unique i (session.others n rows)) where
  Keeps-update :
      (j w : ℕ) (f : ℕ → Investigation → Investigation)
      → ((now : ℕ) (r : Investigation) → (f now r).id ≡ r.id)
      → Keeps (Unique i) (require_update session (λ now. owned_update j w none (f now)))
  Keeps-update j w f same =
      Keeps-require_update session _ keyed
        λ now rows u. Unique-owned_update i j w (f now) rows (same now) u

  Keeps-conclude :
      (outcome : WriteBackOutcome) (detail : Option String)
      → Keeps (Unique i) (conclude outcome detail)
  unfolding conclude
  Keeps-conclude WriteBackOutcome.failed detail = Keeps-raise _
  Keeps-conclude written detail = Keeps-pure _
  Keeps-conclude skipped_version_conflict detail = Keeps-pure _
  Keeps-conclude skipped_disabled detail = Keeps-pure _

  Keeps-or_existing :
      (o : Option WriteBackOutcome) (m : World → Result WriteBackOutcome × World)
      → Keeps (Unique i) m
      → Keeps (Unique i) (or_existing o m)
  unfolding or_existing
  Keeps-or_existing (some o) m h = Keeps-pure o
  Keeps-or_existing none m h = h

  step_values-id :
      (step : WriteBackStep) (outcome : String) (detail : Option String) (now : ℕ)
      (r : Investigation)
      → (step_values step outcome detail now r).id ≡ r.id
  unfolding step_values
  step_values-id comment outcome detail now r = refl
  step_values-id codes outcome detail now r = refl

  module _ (services : Services) (settings : WriteBackSettings) (report_inline_limit w : ℕ) where
    Keeps-new_analysis :
        (state : Investigation) (source_data : ExceptionData) (context : ControlContext)
        → Keeps (Unique i) (
            new_analysis session services settings report_inline_limit i w state source_data
              context)
    unfolding new_analysis persist_analysis
    Keeps-new_analysis state source_data context = Keeps-bind _ _ (Keeps-lift _) λ analysis.
        Keeps-bind _ _ (Keeps-lift _) λ _.
          Keeps-bind _ _ (Keeps-lift _)
            λ uri. Keeps-bind _ _ (Keeps-update state.id w _ λ now r. refl) λ _. Keeps-pure analysis

    Keeps-resolve_by :
        (persisted : Option ℕ) (analysis : Option Mapping) (state : Investigation)
        (source_data : ExceptionData) (context : ControlContext)
        → Keeps (Unique i) (
            resolve_by session services settings report_inline_limit i w persisted analysis state
              source_data context)
    unfolding resolve_by
    Keeps-resolve_by (some _) analysis state source_data context = Keeps-lift _
    Keeps-resolve_by none (some _) state source_data context = Keeps-raise _
    Keeps-resolve_by none none state source_data context =
        Keeps-new_analysis state source_data context

    Keeps-record_outcome :
        (state : Investigation) (step : WriteBackStep) (outcome : WriteBackOutcome)
        (detail : Option String)
        → Keeps (Unique i) (
            record_outcome session services settings report_inline_limit i w state step outcome
              detail)
    unfolding record_outcome record_write_back_step
    Keeps-record_outcome state step outcome detail =
        Keeps-bind _ _ (Keeps-update state.id w _ (step_values-id step _ detail))
          λ _. Keeps-conclude outcome detail

    Keeps-write_codes :
        (state : Investigation) (source_data : ExceptionData) (analysis : ExceptionAnalysis)
        (context : ControlContext)
        → Keeps (Unique i) (
            write_codes session services settings report_inline_limit i w state source_data analysis
              context)
    unfolding write_codes send_codes
    Keeps-write_codes state source_data analysis context = Keeps-bind _ _ (Keeps-lift _) λ existing.
        Keeps-or_existing existing _ (
          Keeps-if settings.codes_enabled _ _
            (Keeps-bind _ _ (Keeps-send _) λ _. Keeps-bind _ _ (Keeps-lift _) λ result.
              Keeps-bind _ _ (Keeps-record_outcome state codes result.outcome result.detail)
                λ outcome. Keeps-lift _)
            (Keeps-record_outcome state codes skipped_disabled none))

    Keeps-write_comment :
        (state : Investigation) (source_data : ExceptionData) (analysis : ExceptionAnalysis)
        → Keeps (Unique i) (
            write_comment session services settings report_inline_limit i w state source_data
              analysis)
    unfolding write_comment send_comment
    Keeps-write_comment state source_data analysis = Keeps-bind _ _ (Keeps-lift _) λ existing.
        Keeps-or_existing existing _ (
          Keeps-if settings.comment_enabled _ _
            (Keeps-bind _ _ (Keeps-lift _) λ text. Keeps-bind _ _ (Keeps-send _) λ _.
              Keeps-bind _ _ (Keeps-lift _) λ result.
                Keeps-bind _ _ (Keeps-record_outcome state comment result.outcome result.detail)
                  λ outcome. Keeps-lift _)
            (Keeps-record_outcome state comment skipped_disabled none))

    Keeps-finish : Keeps (Unique i) (finish session services settings report_inline_limit i w)
    unfolding finish complete complete_values
    Keeps-finish = Keeps-update i w complete_values λ now r. refl

    Keeps-proceed :
        (state : Investigation) (done : Bool)
        → Keeps (Unique i) (proceed session services settings report_inline_limit i w state done)
    unfolding proceed resolve_analysis
    Keeps-proceed state true = Keeps-finish
    Keeps-proceed state false = Keeps-bind _ _ (Keeps-lift _) λ context.
        Keeps-bind _ _ (Keeps-lift _) λ source_data.
          Keeps-bind _ _ (Keeps-resolve_by _ _ state source_data context) λ analysis.
            Keeps-bind _ _ (Keeps-write_codes state source_data analysis context)
              λ _. Keeps-bind _ _ (Keeps-write_comment state source_data analysis) λ _. Keeps-finish

    pub execute-Unique :
        (world : World)
        → Unique i world.rows
        → Unique i (execute session services settings report_inline_limit i w world).1.rows
    unfolding execute run load_owned
    execute-Unique world u =
        (Keeps-bind _ _ (Keeps-bind _ _ (Keeps-read session _ keyed) λ state. Keeps-lift _)
            λ state. Keeps-bind _ _ (Keeps-lift _) λ done. Keeps-proceed state done).at
          world u
