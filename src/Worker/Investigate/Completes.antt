-- ===== src/Worker/Investigate/Completes.antt =====
-- An attempt that returns has completed the row, with both write-back steps done.
use backend_engineering_note.Prelude.{
  ℕ, ◌≡◌, refl, sym, subst, ap, ◌∙◌, String, Bool, true, false, Option, none, some, arith,
}
use backend_engineering_note.Platform.Rows.{Investigation, completed, Mapping}
use backend_engineering_note.Platform.Update.{get_row, get_row-id}
use backend_engineering_note.Worker.Exec.{Result, ok, raised, World, Session, lift, require_update}
use backend_engineering_note.Worker.Exec.Rules.{
  Returns, Returns-bind, Returns-lift, Returns-pure, Returns-raise, Returns-weaken,
}
use backend_engineering_note.Worker.Context.{ControlContext, ExceptionData}
use backend_engineering_note.Worker.Repository.{persist_analysis, complete, complete_values}
use backend_engineering_note.Worker.Checkpoints.{
  WriteBackOutcome, completed_checkpoint, codes_done, comment_done, write_back_complete,
}
use backend_engineering_note.Worker.Checkpoints.Done.{completed_checkpoint-eq_some}
use backend_engineering_note.Worker.Investigate.{
  Services, WriteBackSettings, require_owned, load_owned, new_analysis, resolve_by,
  resolve_analysis, finish, proceed, run, execute,
}
use backend_engineering_note.Worker.Investigate.Steps.{
  IsLeased, Known, CodesDone, CommentDone, Loaded, Coded, Commented, read-Known, update-Known,
}
use backend_engineering_note.Worker.Investigate.Success.{Returns-write_codes, Returns-write_comment}

-- The row is completed, and both of its write-back steps were done.
abbrev pub Completed : ℕ → World → Type 0
Completed i world =
    (s : Investigation) × (get_row i world.rows ≡ some s)
    × (s.status ≡ completed)
    × CodesDone s
    × CommentDone s

write_back_complete-done :
    (s : Investigation) → write_back_complete s ≡ ok true → CodesDone s × CommentDone s
unfolding write_back_complete
write_back_complete-done s h =
    by (completed_checkpoint s.comment_outcome comment_done)
      (completed_checkpoint s.codes_outcome codes_done) refl refl
  where
    by :
        (c k : Result (Option WriteBackOutcome))
        → completed_checkpoint s.comment_outcome comment_done ≡ c
        → completed_checkpoint s.codes_outcome codes_done ≡ k
        → CodesDone s × CommentDone s
    by (raised e) k p q = absurd (ground arith)
    by (ok none) k p q = absurd (ground arith)
    by (ok (some o)) (raised e) p q = absurd (ground arith)
    by (ok (some o)) (ok none) p q = absurd (ground arith)
    by (ok (some o)) (ok (some c)) p q =
        let (a, b) = completed_checkpoint-eq_some s.comment_outcome comment_done o p in
        let (u, v) = completed_checkpoint-eq_some s.codes_outcome codes_done c q in
        ((c, u, v), (o, a, b))

module _ (session : Session) (services : Services) (settings : WriteBackSettings)
    (report_inline_limit i w : ℕ) (leased : IsLeased session i w) where
  Returns-finish :
      Returns
        (Commented i w)
        (λ _ world. Completed i world)
        (finish session services settings report_inline_limit i w)
  unfolding finish complete complete_values
  Returns-finish = record {
    at = λ world x p e.
        let (s, k, codes, comment) = p in
        let (now, e', b', stored, one) =
          (update-Known session i w leased s complete_values (λ now r. refl)).at world x k e in
        (_, stored, refl, codes, comment);
  }

  module _ (state : Investigation) (named : state.id ≡ i) where
    Loaded-after_lift :
        {A : Type 0} (r : Result A)
        → Returns (Loaded i w state) (λ _ world. Loaded i w state world) (lift r)
    Loaded-after_lift r =
        Returns-weaken (Loaded i w state) (Loaded i w state)
          (λ x world. Loaded i w state world × (r ≡ ok x)) (λ _ world. Loaded i w state world) _
          (λ world k. k) (λ x world k. k.0) (Returns-lift (Loaded i w state) r)

    Returns-persist :
        (analysis : Mapping) (report : Option String) (uri : String)
        → Returns
            (Loaded i w state)
            (λ _ world. Loaded i w state world)
            (require_update session (λ now. persist_analysis i w analysis report uri now))
    unfolding persist_analysis
    Returns-persist analysis report uri = record {
      at = λ world x p e.
          let (s, k, codes, comment) = p in
          let (now, e', b', stored, one) =
            (update-Known session i w leased s _ (λ now r. refl)).at world x k e in
          (
            record s {
              analysis = some analysis;
              analysis_persisted_at = some now;
              report = report;
              report_uri = some uri;
            },
            record { unique = one; found = (e', b', stored); held = k.held },
            codes,
            comment,
          );
    }

    Returns-persist_named :
        (k : ℕ)
        → k ≡ i
        → (analysis : Mapping) (report : Option String) (uri : String)
        → Returns
            (Loaded i w state)
            (λ _ world. Loaded i w state world)
            (require_update session (λ now. persist_analysis k w analysis report uri now))
    Returns-persist_named k same analysis report uri =
        subst
          (λ j.
            Returns (Loaded i w state) (λ _ world. Loaded i w state world)
              (require_update session (λ now. persist_analysis j w analysis report uri now)))
          (sym same) (Returns-persist analysis report uri)

    Returns-new_analysis :
        (source_data : ExceptionData) (context : ControlContext)
        → Returns
            (Loaded i w state)
            (λ _ world. Loaded i w state world)
            (new_analysis session services settings report_inline_limit i w state source_data
              context)
    unfolding new_analysis
    Returns-new_analysis source_data context =
        Returns-bind (Loaded i w state) (λ _ world. Loaded i w state world) _ _
          (Loaded-after_lift _)
          λ analysis.
            Returns-bind (Loaded i w state) (λ _ world. Loaded i w state world) _ _
              (Loaded-after_lift _)
              λ _.
                Returns-bind (Loaded i w state) (λ _ world. Loaded i w state world) _ _
                  (Loaded-after_lift _)
                  λ uri.
                    Returns-bind (Loaded i w state) (λ _ world. Loaded i w state world) _ _
                      (Returns-persist_named state.id named _ _ uri)
                      λ _. Returns-pure _ _ _ (λ world p. p)

    Returns-resolve_by :
        (at : Option ℕ) (analysis : Option Mapping) (source_data : ExceptionData)
        (context : ControlContext)
        → Returns
            (Loaded i w state)
            (λ _ world. Loaded i w state world)
            (resolve_by session services settings report_inline_limit i w at analysis state
              source_data context)
    unfolding resolve_by
    Returns-resolve_by (some at) analysis source_data context = Loaded-after_lift _
    Returns-resolve_by none (some a) source_data context = Returns-raise _ _ _
    Returns-resolve_by none none source_data context = Returns-new_analysis source_data context

    Returns-resolve_analysis :
        (source_data : ExceptionData) (context : ControlContext)
        → Returns
            (Loaded i w state)
            (λ _ world. Loaded i w state world)
            (resolve_analysis session services settings report_inline_limit i w state source_data
              context)
    unfolding resolve_analysis
    Returns-resolve_analysis source_data context =
        Returns-resolve_by state.analysis_persisted_at state.analysis source_data context

    Returns-proceed :
        (done : Bool)
        → Returns
            (λ world. Known i w state world × (write_back_complete state ≡ ok done))
            (λ _ world. Completed i world)
            (proceed session services settings report_inline_limit i w state done)
    unfolding proceed
    Returns-proceed true =
        Returns-weaken (Commented i w) _ (λ _ world. Completed i world) _ _
          (λ world p. let (a, b) = write_back_complete-done state p.1 in (state, p.0, a, b))
          (λ x world q. q) Returns-finish
    Returns-proceed false =
        Returns-weaken (Loaded i w state) _ (λ _ world. Completed i world) _ _
          (λ world p. (state, p.0, refl, refl)) (λ x world q. q)
          (Returns-bind (Loaded i w state) (λ _ world. Loaded i w state world) _ _
            (Loaded-after_lift _)
            λ context.
              Returns-bind (Loaded i w state) (λ _ world. Loaded i w state world) _ _
                (Loaded-after_lift _)
                λ source_data.
                  Returns-bind (Loaded i w state) (λ _ world. Loaded i w state world) _ _
                    (Returns-resolve_analysis source_data context)
                    λ analysis.
                      Returns-bind (Loaded i w state) (λ _ world. Coded i w state world) _ _
                        (Returns-write_codes session services settings report_inline_limit i w
                          leased state named source_data analysis context)
                        λ _.
                          Returns-bind (Coded i w state) (λ _ world. Commented i w world) _ _
                            (Returns-write_comment session services settings report_inline_limit i w
                              leased state named source_data analysis)
                            λ _. Returns-finish)

  require_owned-same : (r state : Investigation) → require_owned w (some r) ≡ ok state → r ≡ state
  unfolding require_owned
  require_owned-same r state h = ground arith

  Returns-run :
      (r : Investigation)
      → Returns
          (Known i w r)
          (λ _ world. Completed i world)
          (run session services settings report_inline_limit i w)
  unfolding run load_owned
  Returns-run r =
      Returns-bind (Known i w r) (λ state world. Known i w state world) _ _
        (Returns-bind (Known i w r)
          (λ o world. (s : Investigation) × Known i w s world × (o ≡ some s)) _ _
          (read-Known session i w leased r)
          λ o.
            Returns-weaken _ _ _ (λ state world. Known i w state world) _ (λ world p. p)
              (λ state world p.
                let (s, k, same) = p.0 in
                subst (λ z. Known i w z world)
                  (require_owned-same s state (ap (require_owned w) (sym same) ∙ p.1)) k)
              (Returns-lift (λ world. (s : Investigation) × Known i w s world × (o ≡ some s))
                (require_owned w o)))
        λ state.
          Returns-bind (Known i w state) _ _ _
            (Returns-lift (Known i w state) (write_back_complete state))
            λ done. record {
              at = λ world x p e.
                  (Returns-proceed state
                      (let (e', b', found) = p.0.found in get_row-id i world.rows _ found) done).at
                    world x p e;
            }

  -- If an attempt at an investigation that the worker has in hand, under a unique key, raises
  -- nothing, the row is completed afterwards, and it holds an outcome that counts as done for the
  -- codes and one for the comment. Other sessions respect the lease: they leave a row alone that the
  -- worker has in hand, and keep the key unique.
  pub execute_completes :
      (r : Investigation) (world : World)
      → Known i w r world
      → (execute session services settings report_inline_limit i w world).0 ≡ none
      → Completed i (execute session services settings report_inline_limit i w world).1
  unfolding execute
  execute_completes r world k h =
      by (run session services settings report_inline_limit i w world).0 refl h
    where
      by :
          (result : Result (Unit {0}))
          → (run session services settings report_inline_limit i w world).0 ≡ result
          → (execute session services settings report_inline_limit i w world).0 ≡ none
          → Completed i (run session services settings report_inline_limit i w world).1
      by (ok x) e _ = (Returns-run r).at world x k e
      by (raised x) e g = absurd (ground arith)
