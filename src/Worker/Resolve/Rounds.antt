-- ===== src/Worker/Resolve/Rounds.antt =====
-- A round gives, if anything, a context of the generation asked for.
use backend_engineering_note.Prelude.{
  ℕ, ◌≡◌, refl, subst, String, Bool, true, false, Option, none, some, List, arith, ◌==◌, Bool-cases,
  inl, inr,
}
use backend_engineering_note.Worker.Context.{ControlContext, ControlManual}
use backend_engineering_note.Worker.Errors.{Exception}
use backend_engineering_note.Worker.Exec.{Result, ok, raised}
use backend_engineering_note.Worker.Resolve.{
  ControlContextCachePolicy, and_then, Cache, Codec, read_cached, rebuild, round, checked,
  payload_read, built_or, released, acquired, cached_or,
}
use backend_engineering_note.Worker.Resolve.Build.{
  ControlConfiguration, DecodeSet, BuildServices, assemble, build,
}

-- If it returns, it returns what has the property.
pub record Holds {A : Type 0} (P : A → Type 0) (r : Result A) : Type 0 where
  pub at : (a : A) → r ≡ ok a → P a

pub Holds-raised : {A : Type 0} (P : A → Type 0) (e : Exception) → Holds P (raised e)
Holds-raised P e = record { at = λ a h. absurd (ground (arith, h)) }

pub Holds-ok : {A : Type 0} (P : A → Type 0) (x : A) → P x → Holds P (ok x)
Holds-ok P x p = record { at = λ a h. let same : x ≡ a = ground (arith, h) in subst P same p }

Holds-and_then :
    {A B : Type 0} (P : A → Type 0) (Q : B → Type 0) (r : Result A) (f : A → Result B)
    → Holds P r
    → ((a : A) → P a → Holds Q (f a))
    → Holds Q (and_then r f)
unfolding and_then
Holds-and_then P Q (ok a) f h k = k a (h.at a refl)
Holds-and_then P Q (raised e) f h k = Holds-raised Q e

-- What comes after, whatever comes before.
Holds-after :
    {A B : Type 0} (Q : B → Type 0) (r : Result A) (f : A → Result B)
    → ((a : A) → Holds Q (f a))
    → Holds Q (and_then r f)
unfolding and_then
Holds-after Q (ok a) f k = k a
Holds-after Q (raised e) f k = Holds-raised Q e

abbrev pub IsOf : ℕ → ControlContext → Type 0
IsOf generation context = context.generation ≡ generation

assemble-IsOf :
    (services : BuildServices) (generation : ℕ)
    (positions_config reference_config : ControlConfiguration) (sets : List DecodeSet)
    (positions reference : ControlManual)
    → Holds
        (IsOf generation)
        (assemble services generation positions_config reference_config sets positions reference)
unfolding assemble
assemble-IsOf services generation positions_config reference_config sets positions reference =
    Holds-after _ _ _ λ reasons. Holds-after _ _ _ λ resolutions.
      Holds-after _ _ _ λ first. Holds-after _ _ _ λ second. Holds-ok (IsOf generation) _ refl

pub build-IsOf :
    (services : BuildServices) (positions_control reference_control : String) (generation : ℕ)
    → Holds (IsOf generation) (build services positions_control reference_control generation)
unfolding build
build-IsOf services positions_control reference_control generation = Holds-after _ _ _ λ fetched.
    Holds-after _ _ _ λ manuals.
      assemble-IsOf services generation fetched.0.0 fetched.0.1 fetched.1 manuals.0 manuals.1

-- The context in a result is of the generation.
abbrev pub IsOptionOf : ℕ → Option ControlContext → Type 0
IsOptionOf generation none = Unit
IsOptionOf generation (some context) = IsOf generation context

module _ (codec : Codec) (generation : ℕ) where
  read_cached-IsOptionOf :
      (answer : Result (Option String))
      → Holds (IsOptionOf generation) (read_cached codec generation answer)
  unfolding read_cached
  read_cached-IsOptionOf answer = Holds-after _ _ _ by
    where
      accepted :
          (o : Option ControlContext) → Holds (IsOptionOf generation) (checked codec generation o)
      accepted none = Holds-raised _ _
      accepted (some context) = elim (Bool-cases (context.generation == generation)) [
        | inl e ↦ rw e (Holds-ok (IsOptionOf generation) (some context) (ground (arith, e)))
        | inr e ↦ rw e (Holds-raised (IsOptionOf generation) _)
      ]

      by : (o : Option String) → Holds (IsOptionOf generation) (payload_read codec generation o)
      by none = Holds-ok (IsOptionOf generation) none tt
      by (some payload) = accepted (codec.validate_json payload)

  module _ (cache : Cache) (built : Result ControlContext) (policy : ControlContextCachePolicy)
      (fresh : Holds (IsOf generation) built) where
    built_or-IsOf :
        (n : ℕ) (o : Option ControlContext)
        → IsOptionOf generation o
        → Holds (IsOf generation) (built_or codec generation cache built policy n o)
    built_or-IsOf n (some context) h = Holds-ok (IsOf generation) context h
    built_or-IsOf n none h =
        Holds-and_then (IsOf generation) _ _ _ fresh
          λ context p. Holds-after _ _ _ λ _. Holds-ok (IsOf generation) context p

    released-IsOf :
        (n : ℕ) (r : Result ControlContext)
        → Holds (IsOf generation) r
        → Holds (IsOf generation) (released codec generation cache built policy n r)
    released-IsOf n (raised e) h = Holds-raised _ e
    released-IsOf n (ok context) h =
        Holds-after _ _ _ λ _. Holds-ok (IsOf generation) context (h.at context refl)

    rebuild-IsOf : (n : ℕ) → Holds (IsOf generation) (rebuild codec generation cache built policy n)
    unfolding rebuild
    rebuild-IsOf n = released-IsOf n _ (
        Holds-and_then (IsOptionOf generation) _ _ _ (read_cached-IsOptionOf (cache.get_again n))
          (built_or-IsOf n))

    pub round-IsOptionOf :
        (n : ℕ) → Holds (IsOptionOf generation) (round codec generation cache built policy n)
    unfolding round
    round-IsOptionOf n =
        Holds-and_then (IsOptionOf generation) _ _ _ (read_cached-IsOptionOf (cache.get n)) by
      where
        by_lease :
            (b : Bool)
            → Holds (IsOptionOf generation) (acquired codec generation cache built policy n b)
        by_lease true =
            Holds-and_then (IsOf generation) _ _ _ (rebuild-IsOf n)
              λ context p. Holds-ok (IsOptionOf generation) (some context) p
        by_lease false = Holds-ok (IsOptionOf generation) none tt

        by :
            (o : Option ControlContext)
            → IsOptionOf generation o
            → Holds (IsOptionOf generation) (cached_or codec generation cache built policy n o)
        by (some context) h = Holds-ok (IsOptionOf generation) (some context) h
        by none h = Holds-after _ _ _ by_lease
