-- ===== src/Worker/Supervisor/Invariant.antt =====
-- What holds whenever the supervisors are at an await.
use backend_engineering_note.Prelude.{
  ℕ, zero, suc, ◌+◌, ◌-◌, ◌≤◌, ◌≡◌, refl, Bool, true, false, Option, none, some, List, [], ◌∷◌,
  ◌++◌, arith, length, get_elem?, ltb, min, ◌==◌, Bool-cases, inl, inr,
}
use backend_engineering_note.Worker.Admission.{
  Double, AimdPolicy, WindowCounters, AdmissionState, limit, can_admit, admitted, completed,
  set_target, snapshot_and_reset,
}
use backend_engineering_note.Worker.Admission.Target.{IsShrinking, decide_aimd_bounds}
use backend_engineering_note.Worker.Supervisor.{
  Task, Phase, looping, fetching, draining, AdmissionSupervisor, enter, waited, fetched, finish_at,
  remove_at, run_one_finally, task_done, pending, evaluate_window,
}
use backend_engineering_note.Worker.Supervisor.Steps.{
  Step, entering, waiting, fetching_ends, finishing, reaping, window, Reachable, started, stepped,
}

length-pending-finish_at :
    (k : ℕ) (t : Task) (ts : List Task)
    → get_elem? ts k ≡ some t
    → t.finished ≡ false
    → length (pending ts) ≡ suc (length (pending (finish_at k ts)))
length-pending-finish_at k t [] h e = absurd (ground arith)
length-pending-finish_at zero t (u ∷ ts) h e = ground arith
length-pending-finish_at (suc k) t (u ∷ ts) h e =
    ground (arith, length-pending-finish_at k t ts h e)

length-pending-remove_at :
    (k : ℕ) (t : Task) (ts : List Task)
    → get_elem? ts k ≡ some t
    → t.finished ≡ true
    → length (pending (remove_at k ts)) ≡ length (pending ts)
length-pending-remove_at k t [] h e = absurd (ground arith)
length-pending-remove_at zero t (u ∷ ts) h e = ground arith
length-pending-remove_at (suc k) t (u ∷ ts) h e =
    ground (arith, length-pending-remove_at k t ts h e)

length-pending-append :
    (m : ℕ) (ts : List Task)
    → length (pending (ts ++ (record { message = m; finished = false } ∷ [])))
      ≡ suc (length (pending ts))
length-pending-append m [] = refl
length-pending-append m (t ∷ ts) = ground (arith, length-pending-append m ts)

-- The place that a fetch under way will take.
abbrev pub reserved : Phase → ℕ
reserved looping = 0
reserved fetching = 1
reserved draining = 0

-- The number in flight is that of the unfinished tasks, and it keeps below the instance's limit.
pub record IsSound {ℓ} {F : Type ℓ} (policy : AimdPolicy F) (s : AdmissionSupervisor) : Type ℓ where
  pub running : s.state.actual_inflight ≡ length (pending s.tasks)
  pub room : s.state.actual_inflight + reserved s.phase ≤ policy.max_per_instance
  pub low : policy.min_inflight ≤ s.state.target
  pub high : s.state.target ≤ policy.max_per_instance
  pub capped : s.state.max_per_instance ≡ policy.max_per_instance

module _ {ℓ} {F : Type ℓ} (d : Double F) (policy : AimdPolicy F)
    (shrinking : IsShrinking d policy.max_per_instance policy.decrease_factor) where
  enter-IsSound :
      (stop cooling : Bool) (s : AdmissionSupervisor)
      → s.phase ≡ looping
      → IsSound policy s
      → IsSound policy (enter stop cooling s)
  unfolding enter can_admit limit
  enter-IsSound true cooling s p v = record {
    running = v.running;
    room = omega (arith, v.room);
    low = v.low;
    high = v.high;
    capped = v.capped;
  }
  enter-IsSound false true s p v = v
  enter-IsSound false false s p v =
      elim (Bool-cases
        (ltb s.state.actual_inflight (min s.state.target s.state.max_per_instance))) [
          | inl e ↦ rw e record {
            running = v.running;
            room = ground (arith, e, v.capped);
            low = v.low;
            high = v.high;
            capped = v.capped;
          }
          | inr e ↦ rw e v
        ]

  fetched-IsSound :
      (reply : Option ℕ) (s : AdmissionSupervisor)
      → s.phase ≡ fetching
      → IsSound policy s
      → IsSound policy (fetched reply s)
  unfolding fetched admitted
  fetched-IsSound none s p v = record {
    running = v.running;
    room = ground (arith, v.room);
    low = v.low;
    high = v.high;
    capped = v.capped;
  }
  fetched-IsSound (some m) s p v = record {
    running = ground (arith, v.running, length-pending-append m s.tasks);
    room = ground (arith, v.room);
    low = v.low;
    high = v.high;
    capped = v.capped;
  }

  finally-IsSound :
      (k : ℕ) (t : Task) (s after : AdmissionSupervisor)
      → get_elem? s.tasks k ≡ some t
      → t.finished ≡ false
      → run_one_finally k s ≡ some after
      → IsSound policy s
      → IsSound policy after
  unfolding run_one_finally completed
  finally-IsSound k t s after h e r v =
      let one = length-pending-finish_at k t s.tasks h e in
      let same : after ≡ record s {
        state = record s.state { actual_inflight = s.state.actual_inflight - 1 };
        tasks = finish_at k s.tasks;
        capacity_changed = true;
      } =
        ground (arith, r, one, v.running) in
      rw same record {
        running = omega (arith, one, v.running);
        room = omega (arith, v.room);
        low = v.low;
        high = v.high;
        capped = v.capped;
      }

  window-IsSound :
      (cooldown_seconds jitter : F) (increase_step : ℕ) (counters next : WindowCounters F)
      (ttl : Option F) (state : AdmissionState) (s : AdmissionSupervisor)
      → evaluate_window d policy cooldown_seconds jitter increase_step counters s.state
        ≡ some (state, next, ttl)
      → IsSound policy s
      → IsSound policy (record s { state = state })
  unfolding evaluate_window snapshot_and_reset set_target
  window-IsSound c j step counters next ttl state s h v =
      let fits =
        decide_aimd_bounds d s.state.target step (snapshot_and_reset d counters).0 policy v.low
          v.high shrinking in
      let same : state ≡ record s.state { target = fits.result.target } =
        ground (arith, h, fits.decided) in
      rw same record {
        running = v.running;
        room = v.room;
        low = fits.low;
        high = omega (arith, fits.high);
        capped = v.capped;
      }

  Step-IsSound :
      {s after : AdmissionSupervisor}
      → Step d policy s after
      → IsSound policy s
      → IsSound policy after
  unfolding waited task_done
  Step-IsSound (entering stop cooling s p) v = enter-IsSound stop cooling s p v
  Step-IsSound (waiting s p) v = record {
    running = v.running;
    room = v.room;
    low = v.low;
    high = v.high;
    capped = v.capped;
  }
  Step-IsSound (fetching_ends reply s p) v = fetched-IsSound reply s p v
  Step-IsSound (finishing k t s after h e r) v = finally-IsSound k t s after h e r v
  Step-IsSound (reaping k t s h e) v = record {
    running = ground (arith, v.running, length-pending-remove_at k t s.tasks h e);
    room = v.room;
    low = v.low;
    high = v.high;
    capped = v.capped;
  }
  Step-IsSound (window c j step counters next ttl state s h) v =
      window-IsSound c j step counters next ttl state s h v

  -- Every state that is reached from a sound one is sound.
  pub Reachable-IsSound :
      {start s : AdmissionSupervisor}
      → IsSound policy start
      → Reachable d policy start s
      → IsSound policy s
  Reachable-IsSound v started = v
  Reachable-IsSound v (stepped s after r step) = Step-IsSound step (Reachable-IsSound v r)

  -- A task that ends in a reached state leaves one less in flight, and raises nothing.
  pub finishing_total :
      {start s : AdmissionSupervisor} (k : ℕ) (t : Task)
      → IsSound policy start
      → Reachable d policy start s
      → get_elem? s.tasks k ≡ some t
      → t.finished ≡ false
      → (after : AdmissionSupervisor) × (run_one_finally k s ≡ some after)
        × (suc after.state.actual_inflight ≡ s.state.actual_inflight)
  unfolding run_one_finally completed
  finishing_total {s = s} k t v r h e =
      let sound = Reachable-IsSound v r in
      let one = length-pending-finish_at k t s.tasks h e in
      let busy : (s.state.actual_inflight == 0) ≡ false = ground (arith, one, sound.running) in
      rw busy (_, refl, ground (arith, one, sound.running))
