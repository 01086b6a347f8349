-- ===== src/Worker/Admission/Target.antt =====
-- The target that a window decides on.
use backend_engineering_note.Prelude.{
  ℕ, ◌+◌, ◌≤◌, ◌≡◌, refl, pos, Bool, true, false, Option, some, arith, if◌then◌else◌, ltb, ◌&&◌,
  ◌==◌, min, max, Bool-cases, inl, inr, not,
}
use backend_engineering_note.Worker.Admission.{
  Double, AimdPolicy, WindowObservation, AimdDecision, decide_aimd, decision, lowered, failure_rate,
}

module _ {ℓ} {F : Type ℓ} (d : Double F) where
  -- A factor between 0 and 1 shrinks every number that a double holds exactly.
  abbrev pub IsShrinking : ℕ → F → Type 0
  IsShrinking bound factor =
      (n : ℕ) → n ≤ bound → (m : ℕ) × (d.trunc (d.times n factor) ≡ some (pos m)) × (m ≤ n)

  -- Enough attempts, too many of which failed.
  abbrev pub is_breaking : WindowObservation F → AimdPolicy F → Bool
  is_breaking o policy =
      not (o.total == 0)
      && (not (ltb o.total policy.min_samples) && d.gt (failure_rate d o) policy.break_threshold)

  -- A decision within the policy's limits, that cools down exactly if `breaking`, and then goes to
  -- the lowest target.
  pub record Fits (policy : AimdPolicy F) (highest : ℕ) (breaking : Bool)
      (o : Option (AimdDecision F)) : Type ℓ where
    pub result : AimdDecision F
    pub decided : o ≡ some result
    pub low : policy.min_inflight ≤ result.target
    pub high : result.target ≤ min highest policy.max_per_instance
    pub cooling : result.enter_cooldown ≡ breaking
    pub lowest : (if breaking then policy.min_inflight else result.target) ≡ result.target

  module _ (policy : AimdPolicy F) (highest : ℕ) (breaking : Bool) where
    Fits-decision :
        (target : ℕ) (rate : F) (enter_cooldown : Bool)
        → policy.min_inflight ≤ target
        → target ≤ min highest policy.max_per_instance
        → enter_cooldown ≡ breaking
        → (if breaking then policy.min_inflight else target) ≡ target
        → Fits policy highest breaking (decision d target rate enter_cooldown)
    Fits-decision target rate enter_cooldown l h c e = record {
      result = record { target = target; failure_rate = rate; enter_cooldown = enter_cooldown };
      decided = refl;
      low = l;
      high = h;
      cooling = c;
      lowest = e;
    }

  -- The decision of a window with enough attempts.
  past_samples :
      (current step : ℕ) (rate : F) (policy : AimdPolicy F)
      → policy.min_inflight ≤ current
      → current ≤ policy.max_per_instance
      → IsShrinking policy.max_per_instance policy.decrease_factor
      → Fits policy (current + step) (d.gt rate policy.break_threshold) (
          if d.gt rate policy.break_threshold
          then decision d policy.min_inflight rate true
          else if d.gt rate policy.decrease_threshold
          then lowered d policy rate (d.trunc (d.times current policy.decrease_factor))
          else if d.gt policy.stable_threshold rate
          then decision d (min (current + step) policy.max_per_instance) rate false
          else decision d current rate false)
  past_samples current step rate policy low high shrinking =
      let (m, cut, smaller) = shrinking current high in
      let highest = current + step in
      elim (Bool-cases (d.gt rate policy.break_threshold)) [
        | inl c ↦ rw c (
            Fits-decision policy highest true policy.min_inflight rate true (omega arith)
              (omega arith) refl refl)
        | inr c ↦ rw c elim (Bool-cases (d.gt rate policy.decrease_threshold)) [
          | inl e ↦
              rw (e, cut)
                (Fits-decision policy highest false (max policy.min_inflight m) rate false
                  (omega arith) (omega (arith, smaller)) refl refl)
          | inr e ↦ rw e elim (Bool-cases (d.gt policy.stable_threshold rate)) [
            | inl f ↦ rw f (
                Fits-decision policy highest false (min highest policy.max_per_instance) rate false
                  (omega arith) (omega arith) refl refl)
            | inr f ↦
                rw f (
                  Fits-decision policy highest false current rate false low (omega arith) refl refl)
          ]
        ]
      ]

  -- A target within the policy's bounds stays within them, if the decrease factor shrinks every
  -- target in range, and rises by the increase step at most; the decision cools down exactly after a
  -- window with enough attempts and a failure rate above the break threshold, and goes to the least
  -- target then.
  pub decide_aimd_bounds :
      (current step : ℕ) (o : WindowObservation F) (policy : AimdPolicy F)
      → policy.min_inflight ≤ current
      → current ≤ policy.max_per_instance
      → IsShrinking policy.max_per_instance policy.decrease_factor
      → Fits policy (current + step) (is_breaking o policy) (decide_aimd d current o policy step)
  unfolding decide_aimd
  decide_aimd_bounds current step o policy low high shrinking =
      let highest = current + step in
      let rate = failure_rate d o in
      elim (Bool-cases (o.total == 0)) [
        | inl a ↦
            rw a (Fits-decision policy highest false current rate false low (omega arith) refl refl)
        | inr a ↦ rw a elim (Bool-cases (ltb o.total policy.min_samples)) [
          | inl b ↦ rw b elim (Bool-cases (o.failures == 0)) [
            | inl z ↦ rw z (
                Fits-decision policy highest false (min highest policy.max_per_instance) rate false
                  (omega arith) (omega arith) refl refl)
            | inr z ↦
                rw z (
                  Fits-decision policy highest false current rate false low (omega arith) refl refl)
          ]
          | inr b ↦ rw b (past_samples current step rate policy low high shrinking)
        ]
      ]
