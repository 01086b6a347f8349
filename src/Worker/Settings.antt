-- ===== src/Worker/Settings.antt =====
-- The settings that must fit together: `validate_runtime_invariants` of config/settings.py, and the
-- admission that bootstrap/runtime.py builds from them.
use backend_engineering_note.Prelude.{
  ℕ, String, ◌≤◌, ◌≡◌, refl, arith, Bool, false, not, ◌&&◌, Option, none, some, [], leb, ltb,
  if◌then◌else◌, is_empty,
}
use backend_engineering_note.Worker.Admission.{Double, AimdPolicy, AdmissionState}
use backend_engineering_note.Worker.Supervisor.{AdmissionSupervisor, looping}
use backend_engineering_note.Worker.Supervisor.Invariant.{IsSound, Reachable-IsSound}
use backend_engineering_note.Worker.Supervisor.Steps.{Reachable}
use backend_engineering_note.Worker.Admission.Target.{IsShrinking}

pub record Settings {ℓ} (F : Type ℓ) : Type ℓ where
  pub redis_iam_auth_enabled : Bool
  pub redis_iam_user_id : Option String
  pub redis_cache_name : Option String
  pub redis_region : Option String
  pub ack_wait_seconds : F
  pub heartbeat_interval_seconds : F
  pub lease_seconds : F
  pub max_deliver : ℕ
  pub max_attempts : ℕ
  pub min_samples : ℕ
  pub stable_threshold : F
  pub decrease_threshold : F
  pub break_threshold : F
  pub decrease_factor : F
  pub increase_step_min : ℕ
  pub increase_step_max : ℕ
  pub initial_target : ℕ
  pub min_inflight : ℕ
  pub max_per_instance : ℕ
  pub control_context_rebuild_lease_seconds : F
  pub control_context_rebuild_wait_seconds : F

-- A text counts as true if it is there and not empty.
abbrev truthy_text : Option String → Bool
truthy_text none = false
truthy_text (some t) = not (is_empty t)

module _ {ℓ} {F : Type ℓ} (d : Double F) where
  -- `none`: the settings pass; otherwise the message of the ValueError
  unfoldable pub validate_runtime_invariants : Settings F → Option String
  validate_runtime_invariants s =
      if s.redis_iam_auth_enabled
        && not (
            truthy_text s.redis_iam_user_id
            && (truthy_text s.redis_cache_name && truthy_text s.redis_region))
      then some
          "REDIS_IAM_USER_ID, REDIS_CACHE_NAME, and REDIS_REGION are required when REDIS_IAM_AUTH_ENABLED=true"
      else if d.le s.ack_wait_seconds (d.times 2 s.heartbeat_interval_seconds)
      then some "ACK_WAIT_SECONDS must exceed 2 × HEARTBEAT_INTERVAL_SECONDS"
      else if d.le s.lease_seconds s.ack_wait_seconds
      then some "LEASE_SECONDS must exceed ACK_WAIT_SECONDS"
      else if leb s.max_deliver s.max_attempts
      then some "MAX_DELIVER must exceed MAX_ATTEMPTS"
      else if not (
          d.gt s.decrease_threshold s.stable_threshold
          && d.gt s.break_threshold s.decrease_threshold)
      then some "AIMD thresholds must satisfy stable < decrease < break"
      else if not (leb s.min_inflight s.initial_target && leb s.initial_target s.max_per_instance)
      then some "INITIAL_TARGET must be between MIN_INFLIGHT and MAX_PER_INSTANCE"
      else if ltb s.increase_step_max s.increase_step_min
      then some "INCREASE_STEP_MIN must not exceed INCREASE_STEP_MAX"
      else if d.le s.control_context_rebuild_wait_seconds s.control_context_rebuild_lease_seconds
      then some
          "CONTROL_CONTEXT_REBUILD_WAIT_SECONDS must exceed CONTROL_CONTEXT_REBUILD_LEASE_SECONDS"
      else none

-- What `runtime.py` starts the supervisors with.
module _ {ℓ} {F : Type ℓ} where
  unfoldable pub aimd_policy : Settings F → AimdPolicy F
  aimd_policy s = record {
    min_samples = s.min_samples;
    stable_threshold = s.stable_threshold;
    decrease_threshold = s.decrease_threshold;
    break_threshold = s.break_threshold;
    decrease_factor = s.decrease_factor;
    min_inflight = s.min_inflight;
    max_per_instance = s.max_per_instance;
  }

  unfoldable pub admission_state : Settings F → AdmissionState
  admission_state s = record {
    target = s.initial_target;
    max_per_instance = s.max_per_instance;
    actual_inflight = 0;
  }

  unfoldable pub admission_supervisor : Settings F → AdmissionSupervisor
  admission_supervisor s = record {
    state = admission_state s;
    tasks = [];
    capacity_changed = false;
    phase = looping;
  }

module _ {ℓ} {F : Type ℓ} (d : Double F) where
  within :
      (s : Settings F)
      → validate_runtime_invariants d s ≡ none
      → (s.min_inflight ≤ s.initial_target) × (s.initial_target ≤ s.max_per_instance)
  unfolding validate_runtime_invariants
  within s h = ground (arith, h)

  -- Validated settings start sound.
  pub startup-IsSound :
      (s : Settings F)
      → validate_runtime_invariants d s ≡ none
      → IsSound (aimd_policy s) (admission_supervisor s)
  unfolding aimd_policy admission_supervisor admission_state
  startup-IsSound s h =
      let (low, high) = within s h in
      record { running = refl; room = omega arith; low = low; high = high; capped = refl }

  -- From settings that pass validation, and as long as the decrease factor shrinks every target in
  -- range, every interleaving of fetches, finished and reaped tasks, waits and window evaluations
  -- keeps this: the number in flight is that of the unfinished tasks and, with the fetch under way,
  -- within the limit of the instance, and the target stays within its bounds.
  pub admission-IsSound :
      (s : Settings F)
      → validate_runtime_invariants d s ≡ none
      → IsShrinking d s.max_per_instance s.decrease_factor
      → (now : AdmissionSupervisor) → Reachable d (aimd_policy s) (admission_supervisor s) now
      → IsSound (aimd_policy s) now
  unfolding aimd_policy
  admission-IsSound s h shrinking now r =
      Reachable-IsSound d (aimd_policy s) shrinking (startup-IsSound s h) r
