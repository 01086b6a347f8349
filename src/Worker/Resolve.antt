-- ===== src/Worker/Resolve.antt =====
-- The manuals and vocabularies of an investigation: application/resolve_control_context.py of the
-- worker. The shared cache, the stores, the summarizer and the codec of the payload are parameters;
-- what other workers do to the cache is in the cache's answers, one for each call of each round.
-- When several awaited tasks raise, time decides which exception is seen, and so does a parameter.
pub mod Build
pub mod Rounds
pub mod Ends
use backend_engineering_note.Prelude.{
  ℕ, zero, suc, ◌+◌, ◌-◌, String, Bool, true, false, not, ◌||◌, Option, none, some, List, [], ◌∷◌,
  if◌then◌else◌, leb, ltb, ◌==◌, str_eq, is_empty,
}
use backend_engineering_note.Worker.Context.{ControlContext, ControlManual, DecodeValue}
use backend_engineering_note.Worker.Errors.{
  Exception, unavailable, rejected, vocabulary_unavailable, invalid_control_config,
  control_context_cache_unavailable, control_context_rebuild_timeout,
}
use backend_engineering_note.Worker.Exec.{Result, ok, raised}

pub record ControlContextCachePolicy : Type 0 where
  pub rebuild_lease : ℕ
  pub rebuild_wait : ℕ
  pub poll_interval : ℕ

-- `__post_init__`: whether it raises nothing
unfoldable pub is_policy : ControlContextCachePolicy → Bool
is_policy p =
    if p.rebuild_lease == 0 || (p.rebuild_wait == 0 || p.poll_interval == 0)
    then false
    else ltb p.rebuild_lease p.rebuild_wait

module _ {A B : Type 0} where
  -- A result that is gone on with.
  unfoldable pub and_then : Result A → (A → Result B) → Result B
  and_then (ok a) f = f a
  and_then (raised e) f = raised e

-- What the shared cache and the clock answer in the n-th round of `resolve`.
pub record Cache : Type 0 where
  pub get : ℕ → Result (Option String)
  pub try_acquire_rebuild : ℕ → Result Bool
  -- the read under the lease
  pub get_again : ℕ → Result (Option String)
  pub put : ℕ → String → Result (Unit {0})
  pub release_rebuild : ℕ → Result (Unit {0})
  pub monotonic : ℕ → ℕ

-- `_CONTEXT_CODEC`: `none` is a ValidationError or a ValueError
pub record Codec : Type 0 where
  pub dump_json : ControlContext → String
  pub validate_json : String → Option ControlContext

abbrev cache_unavailable : String → Exception
cache_unavailable message = unavailable control_context_cache_unavailable message

abbrev pub timed_out : Result ControlContext
timed_out =
    raised (
      unavailable control_context_rebuild_timeout
        "Timed out waiting for the shared control context")

-- What the loop does after a round, if it is late or if there is `more` to come.
abbrev pub after_round :
    Bool
    → Option (Result ControlContext)
    → Result (Option ControlContext)
    → Option (Result ControlContext)
after_round late more (raised e) = some (raised e)
after_round late more (ok (some context)) = some (ok context)
after_round true more (ok none) = some timed_out
after_round false more (ok none) = more

module _ (codec : Codec) (generation : ℕ) where
  abbrev pub checked : Option ControlContext → Result (Option ControlContext)
  checked none = raised (cache_unavailable "The shared control context is invalid")
  checked (some context) =
      if context.generation == generation
      then ok (some context)
      else raised (cache_unavailable "The shared control context has an unexpected generation")

  abbrev pub payload_read : Option String → Result (Option ControlContext)
  payload_read none = ok none
  payload_read (some payload) = checked (codec.validate_json payload)

  -- `_read_cached`, by what the cache answers
  unfoldable pub read_cached : Result (Option String) → Result (Option ControlContext)
  read_cached answer = and_then answer payload_read

  module _ (cache : Cache) (built : Result ControlContext)
      (policy : ControlContextCachePolicy) where
    abbrev pub built_or : ℕ → Option ControlContext → Result ControlContext
    built_or n (some context) = ok context
    built_or n none =
        and_then built λ context. and_then (cache.put n (codec.dump_json context)) λ _. ok context

    -- what a failed release raises is only logged after another exception
    abbrev pub released : ℕ → Result ControlContext → Result ControlContext
    released n (raised e) = raised e
    released n (ok context) = and_then (cache.release_rebuild n) λ _. ok context

    -- The round's branch with the lease.
    unfoldable pub rebuild : ℕ → Result ControlContext
    rebuild n = released n (and_then (read_cached (cache.get_again n)) (built_or n))

    abbrev pub acquired : ℕ → Bool → Result (Option ControlContext)
    acquired n true = and_then (rebuild n) λ context. ok (some context)
    acquired n false = ok none

    abbrev pub cached_or : ℕ → Option ControlContext → Result (Option ControlContext)
    cached_or n (some context) = ok (some context)
    cached_or n none = and_then (cache.try_acquire_rebuild n) (acquired n)

    -- One round: `ok none` goes on to wait.
    unfoldable pub round : ℕ → Result (Option ControlContext)
    round n = and_then (read_cached (cache.get n)) (cached_or n)

    -- The loop of `resolve` from its n-th round on; `none` is the end of the model's fuel.
    unfoldable pub resolve_until : ℕ → ℕ → ℕ → Option (Result ControlContext)
    resolve_until deadline zero n = none
    resolve_until deadline (suc fuel) n =
        let more = resolve_until deadline fuel (suc n) in
        after_round (leb deadline (cache.monotonic n)) more (round n)

abbrev with_generation :
    Codec
    → Cache
    → ControlContextCachePolicy
    → (ℕ → Result ControlContext)
    → ℕ
    → ℕ
    → ℕ
    → Option (Result ControlContext)
with_generation codec cache policy built start fuel generation =
    resolve_until codec generation cache (built generation) policy (start + policy.rebuild_wait)
      fuel 0

-- `resolve`, with the generation that its source gives, and the time then
unfoldable pub resolve :
    Codec
    → Cache
    → ControlContextCachePolicy
    → (ℕ → Result ControlContext)
    → ℕ
    → ℕ
    → Result ℕ
    → Option (Result ControlContext)
resolve codec cache policy built start fuel (raised e) = some (raised e)
resolve codec cache policy built start fuel (ok generation) =
    with_generation codec cache policy built start fuel generation
