-- ===== src/Worker/Admission/Window.antt =====
-- What a window observes of the attempts since the window before.
use mathlib.Core.Logic.{Lift}
use backend_engineering_note.Prelude.{
  ℕ, ◌+◌, ◌≤◌, ◌≡◌, ◌⊎◌, ◌∙◌, inl, inr, All, Bool-cases, refl, Bool, true, false, Option, none,
  some, List, [], ◌∷◌, arith, length, if◌then◌else◌,
}
use backend_engineering_note.Worker.Admission.{
  Double, WindowCounters, record_attempt, snapshot_and_reset, raised_to, larger, or_nought,
}

-- An attempt: whether it failed, and the delay that the provider asked for.
abbrev pub Attempt {ℓ} : Type ℓ → Type ℓ
Attempt F = Bool × Option F

module _ {ℓ} {F : Type ℓ} (d : Double F) where
  abbrev pub fresh : WindowCounters F
  fresh = record { total = 0; failures = 0; retry_after_seconds = none }

  abbrev pub record_all : List (Attempt F) → WindowCounters F → WindowCounters F
  record_all [] c = c
  record_all ((failed, delay) ∷ rest) c = record_all rest (record_attempt d failed delay c)

  abbrev pub failed_count : List (Attempt F) → ℕ
  failed_count [] = 0
  failed_count ((failed, delay) ∷ rest) = (if failed then 1 else 0) + failed_count rest

  -- The delays that failed attempts came back with.
  abbrev pub delays : List (Attempt F) → List F
  delays [] = []
  delays ((true, some delay) ∷ rest) = delay ∷ delays rest
  delays ((true, none) ∷ rest) = delays rest
  delays ((false, delay) ∷ rest) = delays rest

  abbrev pub raise_all : Option F → List F → Option F
  raise_all current [] = current
  raise_all current (x ∷ xs) = raise_all (raised_to d current (some x)) xs

  record_all_lem :
      (attempts : List (Attempt F)) (c : WindowCounters F)
      → let after = record_all attempts c in
        (after.total ≡ c.total + length attempts)
        × (after.failures ≡ c.failures + failed_count attempts)
        × (after.retry_after_seconds ≡ raise_all c.retry_after_seconds (delays attempts))
  unfolding record_attempt
  record_all_lem [] c = (omega arith, omega arith, refl)
  record_all_lem ((true, none) ∷ rest) c =
      let (t, f, r) = record_all_lem rest (record_attempt d true none c) in
      (omega (arith, t), omega (arith, f), r)
  record_all_lem ((true, some delay) ∷ rest) c =
      let (t, f, r) = record_all_lem rest (record_attempt d true (some delay) c) in
      (omega (arith, t), omega (arith, f), r)
  record_all_lem ((false, delay) ∷ rest) c =
      let (t, f, r) = record_all_lem rest (record_attempt d false delay c) in
      (omega (arith, t), omega (arith, f), r)

  failed_count_le : (attempts : List (Attempt F)) → failed_count attempts ≤ length attempts
  failed_count_le [] = omega arith
  failed_count_le ((true, delay) ∷ rest) = omega (arith, failed_count_le rest)
  failed_count_le ((false, delay) ∷ rest) = omega (arith, failed_count_le rest)

  abbrev pub IsOneOf : F → List F → Type ℓ
  IsOneOf x [] = Lift {0, ℓ} ⊥
  IsOneOf x (y ∷ ys) = (x ≡ y) ⊎ IsOneOf x ys

  -- None without a delay; otherwise a delay, or nought, that no delay exceeds and nought does not.
  abbrev pub IsLongest : List F → Option F → Type ℓ
  IsLongest [] none = Unit
  IsLongest [] (some x) = Lift {0, ℓ} ⊥
  IsLongest (y ∷ ys) none = Lift {0, ℓ} ⊥
  IsLongest (y ∷ ys) (some x) =
      All (λ z. d.gt z x ≡ false) (y ∷ ys)
      × (d.gt d.nought x ≡ false)
      × ((x ≡ d.nought) ⊎ IsOneOf x (y ∷ ys))

-- The comparison of floats that are numbers: a float that is not truthy is a zero.
pub record IsOrdered {ℓ} {F : Type ℓ} (d : Double F) : Type ℓ where
  pub same : (x : F) → d.gt x x ≡ false
  pub other_way : (x y : F) → d.gt x y ≡ true → d.gt y x ≡ false
  pub through : (x y z : F) → d.gt x y ≡ false → d.gt y z ≡ false → d.gt x z ≡ false
  pub zero_low : (x : F) → d.truthy x ≡ false → d.gt x d.nought ≡ false

module _ {ℓ} {F : Type ℓ} (d : Double F) (order : IsOrdered d) where
  -- What the accumulated delay stands at after a further delay.
  abbrev IsNext : F → F → F → Type ℓ
  IsNext c y x = (d.gt c x ≡ false) × (d.gt y x ≡ false) × ((x ≡ c) ⊎ (x ≡ d.nought) ⊎ (x ≡ y))

  larger-IsNext :
      (c b y : F) → d.gt c b ≡ false → (b ≡ c) ⊎ (b ≡ d.nought) → IsNext c y (larger d b y)
  larger-IsNext c b y low from = elim (Bool-cases (d.gt y b)) [
    | inl g ↦ rw g (order.through c b y low (order.other_way y b g), order.same y, inr (inr refl))
    | inr g ↦ rw g (low, g, elim from [ inl e ↦ inl e | inr e ↦ inr (inl e) ])
  ]

  raised_to-IsNext : (c y : F) → IsNext c y (larger d (or_nought d (some c)) y)
  raised_to-IsNext c y = elim (Bool-cases (d.truthy c)) [
    | inl t ↦ rw t (larger-IsNext c c y (order.same c) (inl refl))
    | inr t ↦ rw t (larger-IsNext c d.nought y (order.zero_low c t) (inr refl))
  ]

  -- The end of the accumulation from a delay on.
  raise_all_lem :
      (c : F) (ys : List F)
      → (x : F) × (raise_all d (some c) ys ≡ some x)
        × (d.gt c x ≡ false)
        × All (λ z. d.gt z x ≡ false) ys
        × ((x ≡ c) ⊎ (x ≡ d.nought) ⊎ IsOneOf d x ys)
  raise_all_lem c [] = (c, refl, order.same c, tt, inl refl)
  raise_all_lem c (y ∷ ys) =
      let next = larger d (or_nought d (some c)) y in
      let (low, here, from) = raised_to-IsNext c y in
      let (x, final, above, all, source) = raise_all_lem next ys in
      (
        x,
        final,
        order.through c next x low above,
        (order.through y next x here above, all),
        elim source [
          | inl e ↦ elim from [
            | inl f ↦ inl (e ∙ f)
            | inr (inl f) ↦ inr (inl (e ∙ f))
            | inr (inr f) ↦ inr (inr (inl (e ∙ f)))
          ]
          | inr (inl e) ↦ inr (inl e)
          | inr (inr m) ↦ inr (inr (inr m))
        ],
      )

  raise_all-IsLongest : (ys : List F) → IsLongest d ys (raise_all d none ys)
  raise_all-IsLongest [] = tt
  raise_all-IsLongest (y ∷ ys) =
      let (low, here, from) = larger-IsNext d.nought d.nought y (order.same d.nought) (inl refl) in
      let (x, final, above, all, source) = raise_all_lem (larger d d.nought y) ys in
      rw final (
        (order.through y (larger d d.nought y) x here above, all),
        order.through d.nought (larger d d.nought y) x low above,
        elim source [
          | inl e ↦ elim from [
            | inl f ↦ inl (e ∙ f)
            | inr (inl f) ↦ inl (e ∙ f)
            | inr (inr f) ↦ inr (inl (e ∙ f))
          ]
          | inr (inl e) ↦ inl e
          | inr (inr m) ↦ inr (inr m)
        ],
      )

  -- Where the comparison of delays is that of numbers, a window observes exactly the attempts
  -- recorded since the window before: their number, the failures among them, which are no more, and
  -- the longest delay that a failed one came back with: none if no failed one came back with a
  -- delay, and otherwise one of these delays, or nought, which none of them and not nought exceeds.
  -- It leaves the counters as new.
  pub window_lem :
      (earlier attempts : List (Attempt F)) (start : WindowCounters F)
      → let (seen, next) = snapshot_and_reset d (record_all d earlier start) in
        let (o, left) = snapshot_and_reset d (record_all d attempts next) in
        (o.total ≡ length attempts)
        × (o.failures ≡ failed_count d attempts)
        × (o.failures ≤ o.total)
        × IsLongest d (delays d attempts) o.retry_after_seconds
        × (left ≡ fresh d)
  unfolding snapshot_and_reset
  window_lem earlier attempts start =
      let (t, f, r) = record_all_lem d attempts (fresh d) in
      (
        omega (arith, t),
        omega (arith, f),
        omega (arith, t, f, failed_count_le d attempts),
        rw r (raise_all-IsLongest (delays d attempts)),
        refl,
      )
