-- ===== src/Worker/Supervisor.antt =====
-- Admission of deliveries and its ends: `AdmissionSupervisor` and `AimdSupervisor` of
-- bootstrap/supervisor.py of the worker, cut at their awaits. A message is a number.
pub mod Steps
pub mod Invariant
pub mod Drain
use backend_engineering_note.Prelude.{
  ℕ, zero, suc, Bool, true, false, ◌||◌, not, Option, none, some, List, [], ◌∷◌, ◌++◌, option_map,
  if◌then◌else◌, map, get_elem?,
}
use backend_engineering_note.Worker.Admission.{
  Double, AimdPolicy, AimdDecision, WindowCounters, WindowObservation, AdmissionState, can_admit,
  admitted, completed, set_target, decide_aimd, snapshot_and_reset, cooldown_ttl_seconds,
}

-- A task of `_run_one`. Once its `finally` has run it is finished, and it stays among the tasks until
-- the done callback removes it.
pub record Task : Type 0 where
  pub message : ℕ
  pub finished : Bool

-- Where `run` stands: at the head of its loop, awaiting `fetch_one`, or past the loop.
pub data Phase : Type 0 where
  looping fetching draining : Phase

pub record AdmissionSupervisor : Type 0 where
  pub state : AdmissionState
  pub tasks : List Task
  pub capacity_changed : Bool
  pub phase : Phase

-- The head of the loop, with `stop` and what `is_active` says.
unfoldable pub enter : Bool → Bool → AdmissionSupervisor → AdmissionSupervisor
enter stop cooling s =
    if stop
    then record s { phase = draining }
    else if cooling || not (can_admit s.state)
    then s
    else record s { phase = fetching }

-- The end of `_wait_for_capacity`.
unfoldable pub waited : AdmissionSupervisor → AdmissionSupervisor
waited s = record s { capacity_changed = false }

-- `fetch_one` has returned.
unfoldable pub fetched : Option ℕ → AdmissionSupervisor → AdmissionSupervisor
fetched none s = record s { phase = looping }
fetched (some message) s = record s {
  state = admitted s.state;
  tasks = s.tasks ++ (record { message = message; finished = false } ∷ []);
  phase = looping;
}

abbrev pub finish_at : ℕ → List Task → List Task
finish_at k [] = []
finish_at zero (t ∷ ts) = record t { finished = true } ∷ ts
finish_at (suc k) (t ∷ ts) = t ∷ finish_at k ts

abbrev pub remove_at : ℕ → List Task → List Task
remove_at k [] = []
remove_at zero (t ∷ ts) = ts
remove_at (suc k) (t ∷ ts) = t ∷ remove_at k ts

abbrev finished_with : ℕ → AdmissionSupervisor → AdmissionState → AdmissionSupervisor
finished_with k s state = record s {
  state = state;
  tasks = finish_at k s.tasks;
  capacity_changed = true;
}

-- The `finally` of `_run_one`, of the k-th task; `none` is the error that `completed` raises.
unfoldable pub run_one_finally : ℕ → AdmissionSupervisor → Option AdmissionSupervisor
run_one_finally k s = option_map (finished_with k s) (completed s.state)

unfoldable pub task_done : ℕ → AdmissionSupervisor → AdmissionSupervisor
task_done k s = record s { tasks = remove_at k s.tasks }

abbrev pub pending : List Task → List Task
pending [] = []
pending (t ∷ ts) = if t.finished then pending ts else t ∷ pending ts

-- The `finally` of every cancelled task, and their done callbacks.
unfoldable pub cancel_each : List Task → AdmissionState → Option AdmissionState
cancel_each [] state = some state
cancel_each (t ∷ ts) state = elim (completed state) [
  | none ↦ none
  | some next ↦ cancel_each ts next
]

-- The messages given back until `release_interrupted` raises for one: `finally` gives that one back
-- too, and the exception ends the loop.
unfoldable pub release_each : (ℕ → Bool) → List Task → List ℕ × Bool
release_each raises [] = ([], true)
release_each raises (t ∷ ts) =
    let rest = release_each raises ts in
    if raises t.message then (t.message ∷ [], false) else (t.message ∷ rest.0, rest.1)

abbrev drained : (ℕ → Bool) → List Task → AdmissionState → AdmissionState × List ℕ × Bool
drained raises interrupted state =
    let (released, all) = release_each raises interrupted in (state, released, all)

-- `_drain`, from the end of the grace period: the state, the messages given back, and whether all
-- were. `interrupted` lists the set of the tasks that `asyncio.wait` returns as pending, in the order
-- in which Python iterates it.
unfoldable pub drain :
    (ℕ → Bool) → List Task → AdmissionSupervisor → Option (AdmissionState × List ℕ × Bool)
drain raises interrupted s =
    option_map (drained raises interrupted) (cancel_each interrupted s.state)

module _ {ℓ} {F : Type ℓ} (d : Double F) where
  -- `AimdSupervisor.run` when a window has ended: the state, the counters and, if it cools down, the
  -- seconds of the cooldown.
  abbrev windowed :
      F
      → F
      → WindowObservation F
      → WindowCounters F
      → AdmissionState
      → AimdDecision F
      → AdmissionState × WindowCounters F × Option F
  windowed cooldown_seconds jitter o counters state decision = (
    set_target decision.target state,
    counters,
    if decision.enter_cooldown
        then some (cooldown_ttl_seconds d cooldown_seconds jitter o.retry_after_seconds)
        else none,
  )

  unfoldable pub evaluate_window :
      AimdPolicy F
      → F
      → F
      → ℕ
      → WindowCounters F
      → AdmissionState
      → Option (AdmissionState × WindowCounters F × Option F)
  evaluate_window policy cooldown_seconds jitter increase_step counters state =
      let (o, reset) = snapshot_and_reset d counters in
      option_map (windowed cooldown_seconds jitter o reset state)
        (decide_aimd d state.target o policy increase_step)
