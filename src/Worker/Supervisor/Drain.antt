-- ===== src/Worker/Supervisor/Drain.antt =====
-- The end of the admission loop, and its way out of full capacity.
use backend_engineering_note.Prelude.{
  ℕ, ◌+◌, ◌-◌, ◌≤◌, ◌≡◌, refl, ap, sym, ◌∙◌, Bool, true, false, not, ◌||◌, some, List, [], ◌∷◌,
  ◌++◌, map, if◌then◌else◌, arith, length, ltb, min, ◌==◌, Bool-cases, inl, inr,
}
use backend_engineering_note.Worker.Admission.{
  Double, AimdPolicy, AdmissionState, limit, can_admit, completed,
}
use backend_engineering_note.Worker.Admission.Target.{IsShrinking}
use mathlib.Core.List.{Permᴰ}
use backend_engineering_note.Platform.Table.{count_where, count_where-append}
use backend_engineering_note.Worker.Supervisor.{
  Task, looping, fetching, AdmissionSupervisor, enter, cancel_each, release_each, drain, pending,
}
use backend_engineering_note.Worker.Supervisor.Steps.{Reachable}
use backend_engineering_note.Worker.Supervisor.Invariant.{IsSound, Reachable-IsSound}

cancel_each_lem :
    (ts : List Task) (state : AdmissionState)
    → state.actual_inflight ≡ length ts
    → cancel_each ts state ≡ some (record state { actual_inflight = 0 })
unfolding cancel_each completed
cancel_each_lem [] state h = ground (arith, h)
cancel_each_lem (t ∷ ts) state h =
    let busy : (state.actual_inflight == 0) ≡ false = ground (arith, h) in
    rw (busy, cancel_each)
      (cancel_each_lem ts (record state { actual_inflight = state.actual_inflight - 1 })
        (omega (arith, h)))

-- Some message's release raises.
abbrev pub any_raises : (ℕ → Bool) → List ℕ → Bool
any_raises raises [] = false
any_raises raises (m ∷ ms) = raises m || any_raises raises ms

abbrev pub messages : List Task → List ℕ
messages ts = map (λ (t : Task). t.message) ts

release_each_lem :
    (raises : ℕ → Bool) (ts : List Task)
    → let (released, all) = release_each raises ts in
      (rest : List ℕ) × (released ++ rest ≡ messages ts)
      × ((if all then rest else []) ≡ [])
      × (all ≡ not (any_raises raises (messages ts)))
unfolding release_each
release_each_lem raises [] = ([], refl, refl, refl)
release_each_lem raises (t ∷ ts) =
    let (rest, whole, none_left, every) = release_each_lem raises ts in
    elim (Bool-cases (raises t.message)) [
      | inl e ↦ rw e (messages ts, refl, refl, refl)
      | inr e ↦ rw e (rest, ap (λ l. t.message ∷ l) whole, none_left, every)
    ]

abbrev pub is_message : ℕ → ℕ → Bool
is_message m n = n == m

-- An order of the tasks keeps their number.
length_permuted : {us ts : List Task} → Permᴰ us ts → length us ≡ length ts
length_permuted Permᴰ.nil = refl
length_permuted (Permᴰ.cons e p) = omega (arith, length_permuted p)
length_permuted (Permᴰ.swap e f) = refl
length_permuted (Permᴰ.trans p q) = length_permuted p ∙ length_permuted q

-- It keeps how often each message occurs.
count_permuted :
    (m : ℕ) {us ts : List Task}
    → Permᴰ us ts
    → count_where (is_message m) (messages us) ≡ count_where (is_message m) (messages ts)
unfolding count_where
count_permuted m Permᴰ.nil = refl
count_permuted m (Permᴰ.cons e p) = rw e (omega (arith, count_permuted m p))
count_permuted m (Permᴰ.swap e f) = rw (e, f) (omega arith)
count_permuted m (Permᴰ.trans p q) = count_permuted m p ∙ count_permuted m q

-- It keeps whether some release raises.
raises_permuted :
    (raises : ℕ → Bool) {us ts : List Task}
    → Permᴰ us ts
    → any_raises raises (messages us) ≡ any_raises raises (messages ts)
raises_permuted raises Permᴰ.nil = refl
raises_permuted raises (Permᴰ.cons e p) = rw (e, raises_permuted raises p) refl
raises_permuted raises (Permᴰ.swap {a' = a'} {b' = b'} e f) = rw (e, f) (ground (arith))
raises_permuted raises (Permᴰ.trans p q) = raises_permuted raises p ∙ raises_permuted raises q

module _ {ℓ} {F : Type ℓ} (d : Double F) (policy : AimdPolicy F)
    (shrinking : IsShrinking d policy.max_per_instance policy.decrease_factor) where
  -- A drain from any state reached from a sound one, in whatever order the unfinished tasks are
  -- iterated, leaves nothing in flight. Every message of an unfinished task is either given back or
  -- left over, as often as it occurs; nothing is left over if all were given back, which is so
  -- exactly if the release of none raises.
  pub drain_lem :
      (raises : ℕ → Bool) (interrupted : List Task) {start s : AdmissionSupervisor}
      → IsSound policy start
      → Reachable d policy start s
      → Permᴰ interrupted (pending s.tasks)
      → (end : AdmissionState) × (released : List ℕ) × (all : Bool) × (rest : List ℕ) × (drain
            raises interrupted s
          ≡ some (end, released, all))
        × (end.actual_inflight ≡ 0)
        × ((m : ℕ)
            → count_where (is_message m) released + count_where (is_message m) rest
              ≡ count_where (is_message m) (messages (pending s.tasks)))
        × ((if all then rest else []) ≡ [])
        × (all ≡ not (any_raises raises (messages (pending s.tasks))))
  unfolding drain
  drain_lem raises interrupted {s = s} v r order =
      let sound = Reachable-IsSound d policy shrinking v r in
      let (rest, whole, none_left, every) = release_each_lem raises interrupted in
      let (released, all) = release_each raises interrupted in
      (
        record s.state { actual_inflight = 0 },
        released,
        all,
        rest,
        rw (cancel_each_lem interrupted s.state (sound.running ∙ sym (length_permuted order))) refl,
        refl,
        λ m.
            sym (count_where-append (is_message m) released rest)
            ∙ ap (count_where (is_message m)) whole
            ∙ count_permuted m order,
        none_left,
        every ∙ ap not (raises_permuted raises order),
      )

  -- In any state reached from a sound one, where the least target is positive, an idle instance at
  -- the head of its loop goes on to fetch unless it stops or cools down.
  pub idle_fetches :
      {start s : AdmissionSupervisor}
      → IsSound policy start
      → Reachable d policy start s
      → 1 ≤ policy.min_inflight
      → s.phase ≡ looping
      → pending s.tasks ≡ []
      → enter false false s ≡ record s { phase = fetching }
  unfolding enter can_admit limit
  idle_fetches {s = s} v r positive p idle =
      let sound = Reachable-IsSound d policy shrinking v r in
      let free : ltb s.state.actual_inflight (min s.state.target s.state.max_per_instance) ≡ true =
        ground (arith, sound.running, sound.low, sound.high, sound.capped, idle) in
      rw free refl
