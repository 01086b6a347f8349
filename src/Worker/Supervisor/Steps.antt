-- ===== src/Worker/Supervisor/Steps.antt =====
-- What may happen between two awaits of the supervisors, in any order.
use backend_engineering_note.Prelude.{ℕ, ◌≡◌, Bool, true, false, Option, some, get_elem?}
use backend_engineering_note.Worker.Admission.{Double, AimdPolicy, WindowCounters, AdmissionState}
use backend_engineering_note.Worker.Supervisor.{
  Task, looping, fetching, AdmissionSupervisor, enter, waited, fetched, run_one_finally, task_done,
  evaluate_window,
}

module _ {ℓ} {F : Type ℓ} (d : Double F) (policy : AimdPolicy F) where
  pub data Step : AdmissionSupervisor → AdmissionSupervisor → Type ℓ where
    entering :
        (stop cooling : Bool) (s : AdmissionSupervisor)
        → s.phase ≡ looping
        → Step s (enter stop cooling s)
    waiting : (s : AdmissionSupervisor) → s.phase ≡ looping → Step s (waited s)
    fetching_ends :
        (reply : Option ℕ) (s : AdmissionSupervisor) → s.phase ≡ fetching → Step s (fetched reply s)
    finishing :
        (k : ℕ) (t : Task) (s after : AdmissionSupervisor)
        → get_elem? s.tasks k ≡ some t
        → t.finished ≡ false
        → run_one_finally k s ≡ some after
        → Step s after
    reaping :
        (k : ℕ) (t : Task) (s : AdmissionSupervisor)
        → get_elem? s.tasks k ≡ some t
        → t.finished ≡ true
        → Step s (task_done k s)
    window :
        (cooldown_seconds jitter : F) (increase_step : ℕ) (counters next : WindowCounters F)
        (ttl : Option F) (state : AdmissionState) (s : AdmissionSupervisor)
        → evaluate_window d policy cooldown_seconds jitter increase_step counters s.state
          ≡ some (state, next, ttl)
        → Step s (record s { state = state })

  pub data Reachable (start : AdmissionSupervisor) : AdmissionSupervisor → Type ℓ where
    started : Reachable start start
    stepped :
        (s after : AdmissionSupervisor) → Reachable start s → Step s after → Reachable start after
