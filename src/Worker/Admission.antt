-- ===== src/Worker/Admission.antt =====
-- Adaptive limits on deliveries in flight: domain/admission.py of the worker. What the code does
-- with `float` is an interface; the other numbers are whole.
pub mod Window
pub mod Target
use backend_engineering_note.Prelude.{
  ℕ, suc, ◌+◌, ◌-◌, ◌≤◌, ◌≡◌, ℤ, pos, negsuc, Bool, true, false, Option, none, some, if◌then◌else◌,
  ltb, ◌==◌, min, max,
}

pub record Double {ℓ} (F : Type ℓ) : Type ℓ where
  pub nought : F
  -- a / b and n * x
  pub quotient : ℕ → ℕ → F
  pub times : ℕ → F → F
  pub product : F → F → F
  -- int(x), which raises on a value that is not finite
  pub trunc : F → Option ℤ
  pub gt : F → F → Bool
  pub le : F → F → Bool
  pub truthy : F → Bool

pub record AimdPolicy {ℓ} (F : Type ℓ) : Type ℓ where
  pub min_samples : ℕ
  pub stable_threshold : F
  pub decrease_threshold : F
  pub break_threshold : F
  pub decrease_factor : F
  pub min_inflight : ℕ
  pub max_per_instance : ℕ

pub record WindowObservation {ℓ} (F : Type ℓ) : Type ℓ where
  pub total : ℕ
  pub failures : ℕ
  pub retry_after_seconds : Option F

pub record AimdDecision {ℓ} (F : Type ℓ) : Type ℓ where
  pub target : ℕ
  pub failure_rate : F
  pub enter_cooldown : Bool

-- `WindowCounters`
pub record WindowCounters {ℓ} (F : Type ℓ) : Type ℓ where
  pub total : ℕ
  pub failures : ℕ
  pub retry_after_seconds : Option F

module _ {ℓ} {F : Type ℓ} (d : Double F) where
  unfoldable pub failure_rate : WindowObservation F → F
  failure_rate o = if o.total == 0 then d.nought else d.quotient o.failures o.total

  -- `max(x, y)` and `min(x, y)` of two floats
  abbrev pub larger : F → F → F
  larger x y = if d.gt y x then y else x

  abbrev pub smaller : F → F → F
  smaller x y = if d.gt x y then y else x

  -- `self._retry_after_seconds or 0.0`
  abbrev pub or_nought : Option F → F
  or_nought none = d.nought
  or_nought (some x) = if d.truthy x then x else d.nought

  abbrev pub raised_to : Option F → Option F → Option F
  raised_to current none = current
  raised_to current (some retry_after) = some (larger (or_nought current) retry_after)

  -- `WindowCounters.record`
  unfoldable pub record_attempt : Bool → Option F → WindowCounters F → WindowCounters F
  record_attempt failed retry_after c =
      if failed
      then record {
        total = c.total + 1;
        failures = c.failures + 1;
        retry_after_seconds = raised_to c.retry_after_seconds retry_after;
      }
      else record c { total = c.total + 1 }

  unfoldable pub snapshot_and_reset : WindowCounters F → WindowObservation F × WindowCounters F
  snapshot_and_reset c = (
    record { total = c.total; failures = c.failures; retry_after_seconds = c.retry_after_seconds },
    record { total = 0; failures = 0; retry_after_seconds = none },
  )

  -- `max(a, z)` of a natural number and an integer
  abbrev pub at_least : ℕ → ℤ → ℕ
  at_least a (pos n) = max a n
  at_least a (negsuc n) = a

  -- the branch that lowers the target; `none` is what `int` raises
  abbrev pub lowered : AimdPolicy F → F → Option ℤ → Option (AimdDecision F)
  lowered policy rate none = none
  lowered policy rate (some n) = some (record {
    target = at_least policy.min_inflight n;
    failure_rate = rate;
    enter_cooldown = false;
  })

  abbrev pub decision : ℕ → F → Bool → Option (AimdDecision F)
  decision target rate enter_cooldown =
      some (record { target = target; failure_rate = rate; enter_cooldown = enter_cooldown })

  unfoldable pub decide_aimd : ℕ → WindowObservation F → AimdPolicy F → ℕ → Option (AimdDecision F)
  decide_aimd current_target o policy increase_step =
      let rate = failure_rate o in
      let higher = min (current_target + increase_step) policy.max_per_instance in
      if o.total == 0
      then decision current_target rate false
      else if ltb o.total policy.min_samples
      then (if o.failures == 0
          then decision higher rate false
          else decision current_target rate false)
      else if d.gt rate policy.break_threshold
      then decision policy.min_inflight rate true
      else if d.gt rate policy.decrease_threshold
      then lowered policy rate (d.trunc (d.times current_target policy.decrease_factor))
      else if d.gt policy.stable_threshold rate
      then decision higher rate false
      else decision current_target rate false

  unfoldable pub cooldown_ttl_seconds : F → F → Option F → F
  cooldown_ttl_seconds default_seconds jitter_factor none = d.product default_seconds jitter_factor
  cooldown_ttl_seconds default_seconds jitter_factor (some retry_after) =
      smaller (larger d.nought retry_after) default_seconds

pub record AdmissionState : Type 0 where
  pub target : ℕ
  pub max_per_instance : ℕ
  pub actual_inflight : ℕ

unfoldable pub limit : AdmissionState → ℕ
limit s = min s.target s.max_per_instance

unfoldable pub can_admit : AdmissionState → Bool
can_admit s = ltb s.actual_inflight (limit s)

unfoldable pub set_target : ℕ → AdmissionState → AdmissionState
set_target target s = record s { target = target }

unfoldable pub admitted : AdmissionState → AdmissionState
admitted s = record s { actual_inflight = s.actual_inflight + 1 }

-- `none` is the RuntimeError
unfoldable pub completed : AdmissionState → Option AdmissionState
completed s =
    if s.actual_inflight == 0
    then none
    else some (record s { actual_inflight = s.actual_inflight - 1 })
