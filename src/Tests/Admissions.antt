-- ===== src/Tests/Admissions.antt =====
-- The theorems on admission, on an instance with two tasks.
use backend_engineering_note.Prelude.{
  ℕ, ◌+◌, ◌*◌, ◌/◌, ◌≤◌, ◌≡◌, refl, arith, Bool, true, false, not, some, none, List, [], ◌∷◌, ltb,
  leb, ◌==◌, pos, length, if◌then◌else◌,
}
use backend_engineering_note.Worker.Admission.{
  Double, AimdPolicy, AdmissionState, limit, can_admit, decide_aimd, snapshot_and_reset,
}
use backend_engineering_note.Worker.Admission.Window.{
  Attempt, fresh, record_all, failed_count, delays, IsLongest, IsOrdered, window_lem,
}
use backend_engineering_note.Worker.Admission.Target.{
  IsShrinking, is_breaking, Fits, decide_aimd_bounds,
}
use mathlib.Core.List.Permᴰ
use backend_engineering_note.Platform.Table.{count_where}
use backend_engineering_note.Worker.Supervisor.{
  fetching, AdmissionSupervisor, enter, fetched, pending, drain,
}
use backend_engineering_note.Worker.Supervisor.Steps.{
  Reachable, started, stepped, entering, fetching_ends,
}
use backend_engineering_note.Worker.Supervisor.Invariant.{IsSound}
use backend_engineering_note.Worker.Supervisor.Drain.{
  drain_lem, idle_fetches, is_message, messages, any_raises,
}
use backend_engineering_note.Worker.Settings.{
  Settings, validate_runtime_invariants, aimd_policy, admission_state, admission_supervisor,
  startup-IsSound, admission-IsSound,
}

-- Thousandths, as floats.
abbrev thousandths : Double ℕ
thousandths = record {
  nought = 0;
  quotient = λ a b. a * 1000 / b;
  times = λ n x. n * x;
  product = λ x y. x * y / 1000;
  trunc = λ x. some (pos (x / 1000));
  gt = λ x y. ltb y x;
  le = leb;
  truthy = λ x. not (x == 0);
}

abbrev settings : Settings ℕ
settings = record {
  redis_iam_auth_enabled = false;
  redis_iam_user_id = none;
  redis_cache_name = none;
  redis_region = none;
  ack_wait_seconds = 60000;
  heartbeat_interval_seconds = 20000;
  lease_seconds = 90000;
  max_deliver = 6;
  max_attempts = 5;
  min_samples = 4;
  stable_threshold = 50;
  decrease_threshold = 200;
  break_threshold = 500;
  decrease_factor = 500;
  increase_step_min = 1;
  increase_step_max = 2;
  initial_target = 2;
  min_inflight = 1;
  max_per_instance = 4;
  control_context_rebuild_lease_seconds = 30000;
  control_context_rebuild_wait_seconds = 40000;
}

settings_valid : validate_runtime_invariants thousandths settings ≡ none
unfolding validate_runtime_invariants
settings_valid = refl

abbrev policy : AimdPolicy ℕ
policy = aimd_policy settings

halving : IsShrinking thousandths policy.max_per_instance policy.decrease_factor
unfolding aimd_policy
halving n h = (_, refl, omega arith)

decide_aimd_bounds_example :
    Fits thousandths policy
      (3 + 2)
      (is_breaking thousandths
        (record { total = 4; failures = 3; retry_after_seconds = none })
        policy)
      (decide_aimd thousandths 3
        (record { total = 4; failures = 3; retry_after_seconds = none })
        policy
        2)
unfolding aimd_policy
decide_aimd_bounds_example =
    decide_aimd_bounds thousandths 3 2
      (record { total = 4; failures = 3; retry_after_seconds = none }) policy (omega arith)
      (omega arith) halving

abbrev start : AdmissionSupervisor
start = admission_supervisor settings

-- One message is fetched.
abbrev busy : AdmissionSupervisor
busy = fetched (some 71) (enter false false start)

busy-Reachable : Reachable thousandths policy start busy
unfolding admission_supervisor admission_state enter can_admit limit
busy-Reachable =
    stepped _ _ (stepped _ _ started (entering false false start refl))
      (fetching_ends (some 71) (enter false false start) refl)

admission-IsSound_example : IsSound policy busy
admission-IsSound_example =
    admission-IsSound thousandths settings settings_valid (unfold aimd_policy in halving) busy
      busy-Reachable

start-IsSound : IsSound policy start
start-IsSound = startup-IsSound thousandths settings settings_valid

drain_lem_example :
    (end : AdmissionState) × (released : List ℕ) × (all : Bool) × (rest : List ℕ) × (drain
        (λ m. false)
        (pending busy.tasks)
        busy
      ≡ some (end, released, all))
    × (end.actual_inflight ≡ 0)
    × ((m : ℕ)
        → count_where (is_message m) released + count_where (is_message m) rest
          ≡ count_where (is_message m) (messages (pending busy.tasks)))
    × ((if all then rest else []) ≡ [])
    × (all ≡ not (any_raises (λ m. false) (messages (pending busy.tasks))))
drain_lem_example =
    drain_lem thousandths policy halving (λ m. false) (pending busy.tasks) start-IsSound
      busy-Reachable (Permᴰ.refl (pending busy.tasks))

idle_fetches_example : enter false false start ≡ record start { phase = fetching }
unfolding admission_supervisor aimd_policy
idle_fetches_example =
    idle_fetches thousandths policy halving start-IsSound started (omega arith) refl refl

abbrev attempts : List (Attempt ℕ)
attempts = (true, some 3000) ∷ (false, none) ∷ (true, some 2000) ∷ []

thousandths-IsOrdered : IsOrdered thousandths
thousandths-IsOrdered = record {
  same = λ x. ground arith;
  other_way = λ x y h. ground (arith, h);
  through = λ x y z h k. ground (arith, h, k);
  zero_low = λ x h. ground (arith, h);
}

window_lem_example :
    let (seen, next) =
      snapshot_and_reset thousandths (record_all thousandths [] (fresh thousandths)) in
    let (o, left) = snapshot_and_reset thousandths (record_all thousandths attempts next) in
    (o.total ≡ length attempts)
    × (o.failures ≡ failed_count thousandths attempts)
    × (o.failures ≤ o.total)
    × IsLongest thousandths (delays thousandths attempts) o.retry_after_seconds
    × (left ≡ fresh thousandths)
window_lem_example = window_lem thousandths thousandths-IsOrdered [] attempts (fresh thousandths)
