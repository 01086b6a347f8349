-- ===== src/Worker/Resolve/Ends.antt =====
-- The rounds of a resolution come to an end.
use backend_engineering_note.Prelude.{
  ℕ, zero, suc, ◌+◌, ◌-◌, ◌≤◌, ◌<◌, ◌≡◌, refl, sym, ap, String, Bool, true, false, Option, none,
  some, arith, leb, min,
}
use backend_engineering_note.Worker.Context.{ControlContext}
use backend_engineering_note.Worker.Exec.{Result, ok, raised}
use backend_engineering_note.Worker.Resolve.{
  ControlContextCachePolicy, is_policy, Cache, Codec, timed_out, after_round, round, resolve_until,
  resolve,
}
use backend_engineering_note.Worker.Resolve.Build.{BuildServices, build}
use backend_engineering_note.Worker.Resolve.Rounds.{
  Holds, Holds-raised, Holds-ok, IsOf, IsOptionOf, build-IsOf, round-IsOptionOf,
}

-- A sleep lasts as long as asked for, or to the deadline.
abbrev pub IsAwaited : Cache → ControlContextCachePolicy → ℕ → Type 0
IsAwaited cache policy deadline =
    (n : ℕ) → min (cache.monotonic n + policy.poll_interval) deadline ≤ cache.monotonic (suc n)

module _ (codec : Codec) (cache : Cache) (policy : ControlContextCachePolicy) where
  resolve_until_total :
      (generation : ℕ) (built : Result ControlContext) (deadline fuel n : ℕ)
      → Holds (IsOf generation) built
      → 0 < policy.poll_interval
      → IsAwaited cache policy deadline
      → deadline - cache.monotonic n < fuel
      → (r : Result ControlContext) × (resolve_until codec generation cache built policy deadline
            fuel n
          ≡ some r)
        × Holds (IsOf generation) r
  unfolding resolve_until
  resolve_until_total generation built deadline zero n fresh positive awaited h =
      absurd (omega (arith, h))
  resolve_until_total generation built deadline (suc fuel) n fresh positive awaited h =
      by (round codec generation cache built policy n) (leb deadline (cache.monotonic n)) refl
        (round-IsOptionOf codec generation cache built policy fresh n)
        (λ k. resolve_until_total generation built deadline fuel (suc n) fresh positive awaited k)
    where
      by :
          (o : Result (Option ControlContext)) (late : Bool)
          → leb deadline (cache.monotonic n) ≡ late
          → Holds (IsOptionOf generation) o
          → (deadline - cache.monotonic (suc n) < fuel
              → (r : Result ControlContext) × (resolve_until codec generation cache built policy
                    deadline fuel
                    (suc n)
                  ≡ some r)
                × Holds (IsOf generation) r)
          → (r : Result ControlContext) × (after_round late
                (resolve_until codec generation cache built policy deadline fuel (suc n))
                o
              ≡ some r)
            × Holds (IsOf generation) r
      by (raised e) late l p again = (raised e, refl, Holds-raised (IsOf generation) e)
      by (ok (some context)) late l p again =
          (ok context, refl, Holds-ok (IsOf generation) context (p.at (some context) refl))
      by (ok none) true l p again = (timed_out, refl, Holds-raised (IsOf generation) _)
      by (ok none) false l p again = again (ground (arith, h, l, positive, awaited n))

  -- With a valid policy and more fuel than ticks of the rebuild wait, resolution ends, whatever the
  -- cache, the sources and the stores answer in each round, if the clock is not behind the start and
  -- a sleep does not return early; a context that it returns, cached or built, is of the generation
  -- that the source gave.
  pub resolve_total :
      (services : BuildServices) (positions_control reference_control : String) (start fuel : ℕ)
      (source : Result ℕ)
      → is_policy policy ≡ true
      → start ≤ cache.monotonic 0
      → IsAwaited cache policy (start + policy.rebuild_wait)
      → policy.rebuild_wait < fuel
      → (r : Result ControlContext) × (resolve codec cache policy
            (build services positions_control reference_control)
            start
            fuel
            source
          ≡ some r)
        × Holds (λ context. source ≡ ok context.generation) r
  unfolding resolve is_policy
  resolve_total services positions_control reference_control start fuel (raised e) valid begun
        awaited enough =
      (raised e, refl, Holds-raised _ e)
  resolve_total services positions_control reference_control start fuel (ok generation) valid begun
        awaited enough =
      let (r, e, p) =
        resolve_until_total generation
          (build services positions_control reference_control generation)
          (start + policy.rebuild_wait) fuel 0
          (build-IsOf services positions_control reference_control generation)
          (ground (arith, valid)) awaited (omega (arith, begun, enough)) in
      (r, e, record { at = λ context h. ap ok (sym (p.at context h)) })
