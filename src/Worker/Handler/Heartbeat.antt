-- ===== src/Worker/Handler/Heartbeat.antt =====
-- The heartbeat of `_heartbeat`: each round renews the lease, or finds it lost.
use backend_engineering_note.Prelude.{
  ℕ, ◌+◌, ◌≡◌, refl, Bool, true, false, Option, none, some, List, [], ◌∷◌, arith, if◌then◌else◌,
  leb, ltb, ◌&&◌,
}

-- What comes back from `extend_lease`.
pub data Extension : Type 0 where
  extended not_extended unreachable : Extension

-- A round: the answer, and the monotonic time when it is in.
pub record Round : Type 0 where
  pub answer : Extension
  pub time : ℕ

-- What a heartbeat does with a round: the next deadline, or `none` for the ownership-lost error.
unfoldable pub beat : ℕ → ℕ → Round → Option ℕ
beat lease deadline round = elim round.answer [
  | extended ↦ some (round.time + lease)
  | not_extended ↦ none
  | unreachable ↦ if leb deadline round.time then none else some deadline
]

unfoldable pub heartbeat : ℕ → ℕ → List Round → Option ℕ
heartbeat lease deadline [] = some deadline
heartbeat lease deadline (round ∷ rounds) = elim (beat lease deadline round) [
  | none ↦ none
  | some next ↦ heartbeat lease next rounds
]

-- The renewal that the lease still runs from: the last one that was accepted, or the first.
abbrev pub last_renewal : ℕ → List Round → ℕ
last_renewal start [] = start
last_renewal start (round ∷ rounds) =
    last_renewal (elim round.answer [ extended ↦ round.time | _ ↦ start ]) rounds

-- Every round was answered, or fell within the lease of the renewal before it.
abbrev pub within_lease : ℕ → ℕ → List Round → Bool
within_lease lease start [] = true
within_lease lease start (round ∷ rounds) = elim round.answer [
  | extended ↦ within_lease lease round.time rounds
  | not_extended ↦ false
  | unreachable ↦ ltb round.time (start + lease) && within_lease lease start rounds
]

-- A heartbeat that starts with a lease goes on after a list of rounds exactly if no renewal was
-- refused and each unanswered one fell within the lease of the last accepted renewal, and then its
-- deadline is the end of that lease.
pub heartbeat-eq-within_lease :
    (lease start : ℕ) (rounds : List Round)
    → heartbeat lease (start + lease) rounds
      ≡ (if within_lease lease start rounds then some (last_renewal start rounds + lease) else none)
unfolding heartbeat beat
heartbeat-eq-within_lease lease start [] = refl
heartbeat-eq-within_lease lease start (round ∷ rounds) = ground (
  arith,
  heartbeat-eq-within_lease lease start rounds,
  heartbeat-eq-within_lease lease round.time rounds,
)
