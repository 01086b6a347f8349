-- ===== src/Worker/Investigate/Success.antt =====
-- A successful attempt has completed the row, with both write-back steps done.
use backend_engineering_note.Prelude.{
  ℕ, ◌≡◌, refl, subst, ◌∙◌, String, Bool, true, Option, none, some, arith,
}
use backend_engineering_note.Platform.Rows.{Investigation}
use backend_engineering_note.Worker.Exec.{Result, ok, World, Session, Exec, lift, send, Sent, ◌>>=◌}
use backend_engineering_note.Worker.Exec.Rules.{
  Returns, Returns-bind, Returns-lift, Returns-pure, Returns-weaken, Returns-if,
}
use backend_engineering_note.Worker.Analysis.{ExceptionAnalysis}
use backend_engineering_note.Worker.Context.{ControlContext, ExceptionData}
use backend_engineering_note.Worker.Repository.{WriteBackStep, step_values}
use backend_engineering_note.Worker.Checkpoints.{
  WriteBackOutcome, skipped_disabled, outcome_value, completed_checkpoint, codes_done, comment_done,
  require_successful_outcome,
}
use backend_engineering_note.Worker.Checkpoints.Done.{completed_checkpoint-eq_some}
use backend_engineering_note.Worker.Investigate.{
  Services, WriteBackSettings, WriteBackResult, or_existing, record_outcome, send_codes,
  write_codes, send_comment, write_comment,
}
use backend_engineering_note.Worker.Investigate.Steps.{
  IsLeased, Known, CodesDone, Loaded, Coded, Commented, Stepped, Returns-record,
}

successful-allowed :
    (o x : WriteBackOutcome) (allowed : WriteBackOutcome → Bool)
    → require_successful_outcome o allowed ≡ ok x
    → allowed o ≡ true
unfolding require_successful_outcome
successful-allowed o x allowed h = ground arith

send_keeps :
    (i w : ℕ) (r : Investigation) (s : Sent)
    → Returns (Known i w r) (λ _ world. Known i w r world) (send s)
unfolding send
send_keeps i w r s = record {
  at = λ world x k e. record { unique = k.unique; found = k.found; held = k.held };
}

-- A step that is done is not taken again, and a step that is not done is taken.
Returns-checkpointed :
    (P Q : World → Type 0) (column : Option String) (allowed : WriteBackOutcome → Bool)
    (m : Exec WriteBackOutcome)
    → ((world : World) (o : WriteBackOutcome)
        → column ≡ some (outcome_value o)
        → allowed o ≡ true
        → P world
        → Q world)
    → Returns P (λ _ world. Q world) m
    → Returns P
        (λ _ world. Q world)
        (lift (completed_checkpoint column allowed) >>= λ existing. or_existing existing m)
unfolding or_existing
Returns-checkpointed P Q column allowed m done taken =
    Returns-bind P (λ existing world. P world × (completed_checkpoint column allowed ≡ ok existing))
      _ _ (Returns-lift P _) by_existing
  where
    by_existing :
        (existing : Option WriteBackOutcome)
        → Returns
            (λ world. P world × (completed_checkpoint column allowed ≡ ok existing))
            (λ _ world. Q world)
            (or_existing existing m)
    by_existing (some o) = Returns-pure _ _ _ λ world p.
        let (value, fine) = completed_checkpoint-eq_some column allowed o p.1 in
        done world o value fine p.0
    by_existing none =
        Returns-weaken P _ (λ _ world. Q world) (λ _ world. Q world) m (λ world p. p.0)
          (λ x world q. q) taken

module _ (session : Session) (services : Services) (settings : WriteBackSettings)
    (report_inline_limit i w : ℕ) (leased : IsLeased session i w) (state : Investigation)
    (named : state.id ≡ i) where
  returns_codes_recorded :
      (s : Investigation) (outcome : WriteBackOutcome) (detail : Option String)
      → s.comment_outcome ≡ state.comment_outcome
      → codes_done outcome ≡ true
      → (world : World) → Stepped i w s WriteBackStep.codes outcome detail world
      → Coded i w state world
  unfolding step_values
  returns_codes_recorded s outcome detail same fine world (now, k) =
      (_, k, (outcome, refl, fine), same)

  returns_comment_recorded :
      (s : Investigation) (outcome : WriteBackOutcome) (detail : Option String)
      → CodesDone s
      → comment_done outcome ≡ true
      → (world : World) → Stepped i w s WriteBackStep.comment outcome detail world
      → Commented i w world
  unfolding step_values
  returns_comment_recorded s outcome detail done fine world (now, k) =
      (_, k, done, (outcome, refl, fine))

  -- A result is recorded, and is returned only if it is allowed.
  Returns-settled :
      (s : Investigation) (step : WriteBackStep) (allowed : WriteBackOutcome → Bool)
      (result : WriteBackResult)
      → Returns
          (Known i w s)
          (λ _ world.
            Stepped i w s step result.outcome result.detail world × (allowed result.outcome ≡ true))
          (record_outcome session services settings report_inline_limit i w state step
              result.outcome result.detail
            >>= λ outcome. lift (require_successful_outcome outcome allowed))
  Returns-settled s step allowed result =
      Returns-bind (Known i w s)
        (λ o world. Stepped i w s step result.outcome result.detail world × (o ≡ result.outcome)) _
        _
        (Returns-record session services settings report_inline_limit i w leased state s step
          result.outcome result.detail named)
        λ o.
          Returns-weaken
            (λ world. Stepped i w s step result.outcome result.detail world × (o ≡ result.outcome))
            _
            (λ x world.
              (Stepped i w s step result.outcome result.detail world × (o ≡ result.outcome))
              × (require_successful_outcome o allowed ≡ ok x))
            _ _ (λ world p. p)
            (λ x world p.
              (p.0.0, subst (λ y. allowed y ≡ true) p.0.1 (successful-allowed o x allowed p.1)))
            (Returns-lift _ _)

  Known-after_lift :
      {A : Type 0} (s : Investigation) (r : Result A)
      → Returns (Known i w s) (λ _ world. Known i w s world) (lift r)
  Known-after_lift s r =
      Returns-weaken (Known i w s) (Known i w s) (λ x world. Known i w s world × (r ≡ ok x)) _ _
        (λ world k. k) (λ x world k. k.0) (Returns-lift (Known i w s) r)

  Returns-send_codes :
      (s : Investigation) (source_data : ExceptionData) (analysis : ExceptionAnalysis)
      (context : ControlContext)
      → s.comment_outcome ≡ state.comment_outcome
      → Returns
          (Known i w s)
          (λ _ world. Coded i w state world)
          (send_codes session services settings report_inline_limit i w state source_data analysis
            context)
  unfolding send_codes
  Returns-send_codes s source_data analysis context same =
      Returns-if (Known i w s) (λ _ world. Coded i w state world) settings.codes_enabled _ _
        (Returns-bind (Known i w s) (λ _ world. Known i w s world) _ _ (send_keeps i w s _)
          λ _.
            Returns-bind (Known i w s) (λ _ world. Known i w s world) _ _ (Known-after_lift s _)
              λ (result : WriteBackResult).
                Returns-weaken (Known i w s) (Known i w s)
                  (λ _ world.
                    Stepped i w s WriteBackStep.codes result.outcome result.detail world
                    × (codes_done result.outcome ≡ true))
                  (λ _ world. Coded i w state world) _ (λ world k. k)
                  (λ x world p.
                    returns_codes_recorded s result.outcome result.detail same p.1 world p.0)
                  (Returns-settled s WriteBackStep.codes codes_done result))
        (Returns-weaken (Known i w s) (Known i w s)
          (λ o world.
            Stepped i w s WriteBackStep.codes skipped_disabled none world × (o ≡ skipped_disabled))
          (λ _ world. Coded i w state world) _ (λ world k. k)
          (λ x world p. returns_codes_recorded s skipped_disabled none same refl world p.0)
          (Returns-record session services settings report_inline_limit i w leased state s
            WriteBackStep.codes skipped_disabled none named))

  Returns-send_comment :
      (s : Investigation) (source_data : ExceptionData) (analysis : ExceptionAnalysis)
      → CodesDone s
      → Returns
          (Known i w s)
          (λ _ world. Commented i w world)
          (send_comment session services settings report_inline_limit i w state source_data
            analysis)
  unfolding send_comment
  Returns-send_comment s source_data analysis done =
      Returns-if (Known i w s) (λ _ world. Commented i w world) settings.comment_enabled _ _
        (Returns-bind (Known i w s) (λ _ world. Known i w s world) _ _ (Known-after_lift s _)
          λ comment.
            Returns-bind (Known i w s) (λ _ world. Known i w s world) _ _ (send_keeps i w s _)
              λ _.
                Returns-bind (Known i w s) (λ _ world. Known i w s world) _ _ (Known-after_lift s _)
                  λ (result : WriteBackResult).
                    Returns-weaken (Known i w s) (Known i w s)
                      (λ _ world.
                        Stepped i w s WriteBackStep.comment result.outcome result.detail world
                        × (comment_done result.outcome ≡ true))
                      (λ _ world. Commented i w world) _ (λ world k. k)
                      (λ x world p.
                        returns_comment_recorded s result.outcome result.detail done p.1 world p.0)
                      (Returns-settled s WriteBackStep.comment comment_done result))
        (Returns-weaken (Known i w s) (Known i w s)
          (λ o world.
            Stepped i w s WriteBackStep.comment skipped_disabled none world
            × (o ≡ skipped_disabled))
          (λ _ world. Commented i w world) _ (λ world k. k)
          (λ x world p. returns_comment_recorded s skipped_disabled none done refl world p.0)
          (Returns-record session services settings report_inline_limit i w leased state s
            WriteBackStep.comment skipped_disabled none named))

  pub Returns-write_codes :
      (source_data : ExceptionData) (analysis : ExceptionAnalysis) (context : ControlContext)
      → Returns
          (Loaded i w state)
          (λ _ world. Coded i w state world)
          (write_codes session services settings report_inline_limit i w state source_data analysis
            context)
  unfolding write_codes
  Returns-write_codes source_data analysis context =
      Returns-checkpointed (Loaded i w state) (Coded i w state) state.codes_outcome codes_done
        (send_codes session services settings report_inline_limit i w state source_data analysis
          context)
        (λ world o value fine p.
          let (s, k, codes, comment) = p in (s, k, (o, codes ∙ value, fine), comment))
        (record {
          at = λ world x p e.
              let (s, k, codes, comment) = p in
              (Returns-send_codes s source_data analysis context comment).at world x k e;
        })

  pub Returns-write_comment :
      (source_data : ExceptionData) (analysis : ExceptionAnalysis)
      → Returns
          (Coded i w state)
          (λ _ world. Commented i w world)
          (write_comment session services settings report_inline_limit i w state source_data
            analysis)
  unfolding write_comment
  Returns-write_comment source_data analysis =
      Returns-checkpointed (Coded i w state) (Commented i w) state.comment_outcome comment_done
        (send_comment session services settings report_inline_limit i w state source_data analysis)
        (λ world o value fine p.
          let (s, k, codes, comment) = p in (s, k, codes, (o, comment ∙ value, fine)))
        (record {
          at = λ world x p e.
              let (s, k, codes, comment) = p in
              (Returns-send_comment s source_data analysis codes).at world x k e;
        })
