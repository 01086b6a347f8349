-- ===== src/Orchestrator/Accept/Keys.antt =====
-- The identifiers of a batch after validation: `_validate_and_deduplicate`.
use backend_engineering_note.Prelude.{
  ℕ, ◌≤◌, ◌<◌, ◌≡◌, refl, ap, subst, String, true, false, List, [], ◌∷◌, arith, if◌then◌else◌, ltb,
  str_eq, str_eq_iff, is_empty, strip, map, length, Bool-cases, inl, inr,
}
use backend_engineering_note.Platform.Table.{count_where, delete_where}
use backend_engineering_note.Orchestrator.Transaction.{returned}
use backend_engineering_note.Orchestrator.Accept.{from_keys, has_empty, validate_and_deduplicate}

abbrev pub times : String → List String → ℕ
times x xs = count_where (λ y. str_eq y x) xs

times-delete_self :
    (x : String) (xs : List String) → times x (delete_where (λ y. str_eq y x) xs) ≡ 0
unfolding count_where delete_where
times-delete_self x [] = refl
times-delete_self x (y ∷ ys) = ground (arith, times-delete_self x ys)

times-delete_ne :
    (x z : String) (xs : List String)
    → str_eq x z ≡ false
    → times z (delete_where (λ y. str_eq y x) xs) ≡ times z xs
unfolding count_where delete_where
times-delete_ne x z [] h = refl
times-delete_ne x z (y ∷ ys) h =
    ground (arith, times-delete_ne x z ys h, str_eq_iff y x, str_eq_iff y z, str_eq_iff x z)

str_eq_refl : (x : String) → str_eq x x ≡ true
str_eq_refl x = (str_eq_iff x x).1 refl

-- `dict.fromkeys` keeps exactly one of each key.
pub times-from_keys :
    (x : String) (xs : List String) → times x (from_keys xs) ≡ (if ltb 0 (times x xs) then 1 else 0)
unfolding from_keys count_where
times-from_keys x [] = refl
times-from_keys x (y ∷ ys) = elim (Bool-cases (str_eq y x)) [
  | inl e ↦ ground (
    arith,
    (str_eq_iff y x).0 e,
    times-delete_self y (from_keys ys),
    times-delete_self x (from_keys ys),
  )
  | inr e ↦ ground (arith, e, times-delete_ne y x (from_keys ys) e, times-from_keys x ys)
]

is_empty-false : (x : String) → is_empty x ≡ false → str_eq x "" ≡ false
is_empty-false x h = elim (Bool-cases (str_eq x "")) [
  | inl e ↦
      (let same : x ≡ "" = (str_eq_iff x "").0 e in
        let bad : is_empty x ≡ true = ap is_empty same in absurd (ground arith))
  | inr e ↦ e
]

has_empty-times : (xs : List String) → has_empty xs ≡ false → times "" xs ≡ 0
unfolding has_empty count_where
has_empty-times [] h = refl
has_empty-times (x ∷ xs) h = ground (arith, has_empty-times xs, is_empty-false x)

-- A batch that validates is not empty and not above the limit, and its normalized identifiers hold
-- each of its stripped identifiers exactly once, nothing else, and no empty one.
pub validate_and_deduplicate_lem :
    (max_batch_size : ℕ) (ids normalized : List String)
    → validate_and_deduplicate max_batch_size ids ≡ returned normalized
    → (0 < length ids)
      × (length ids ≤ max_batch_size)
      × (times "" normalized ≡ 0)
      × ((x : String) → times x normalized ≡ (if ltb 0 (times x (map strip ids)) then 1 else 0))
unfolding validate_and_deduplicate
validate_and_deduplicate_lem max_batch_size [] normalized h = absurd (ground arith)
validate_and_deduplicate_lem max_batch_size (i ∷ is) normalized h =
    elim (Bool-cases (ltb max_batch_size (length (i ∷ is)))) [
      | inl e ↦ absurd (ground arith)
      | inr e ↦ elim (Bool-cases (has_empty (map strip (i ∷ is)))) [
        | inl f ↦ absurd (ground arith)
        | inr f ↦
            (let same : from_keys (map strip (i ∷ is)) ≡ normalized = ground arith in
              subst
                (λ ks.
                  (0 < length (i ∷ is))
                  × (length (i ∷ is) ≤ max_batch_size)
                  × (times "" ks ≡ 0)
                  × ((x : String)
                      → times x ks ≡ (if ltb 0 (times x (map strip (i ∷ is))) then 1 else 0)))
                same
                (
                  omega arith,
                  ground arith,
                  ground (
                    arith,
                    times-from_keys "" (map strip (i ∷ is)),
                    has_empty-times (map strip (i ∷ is)) f,
                  ),
                  λ x. times-from_keys x (map strip (i ∷ is)),
                ))
      ]
    ]
