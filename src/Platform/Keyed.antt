-- ===== src/Platform/Keyed.antt =====
-- Rows under a numeric key: how they are found, changed by key, selected and ordered.
use backend_engineering_note.Prelude.{
  ℕ, zero, suc, ◌+◌, ◌≤◌, ◌<◌, ◌≡◌, refl, Bool, true, false, ◌&&◌, Option, none, some, List, [],
  ◌∷◌, arith, if◌then◌else◌, leb, ◌==◌, All, All-map, take, Bool-cases, inl, inr,
}
use backend_engineering_note.Platform.Table.{count_where, select_where, first_where, update_where}

module _ {A : Type 0} (key : A → ℕ) where
  abbrev pub has_key : ℕ → A → Bool
  has_key i x = key x == i

  -- SELECT … WHERE key = i
  abbrev pub row_at : ℕ → List A → Option A
  row_at i xs = first_where (has_key i) xs

  -- How many rows have the key.
  abbrev pub rows_at : ℕ → List A → ℕ
  rows_at i xs = count_where (has_key i) xs

  -- ORDER BY key
  unfoldable pub insert_by_key : A → List A → List A
  insert_by_key x [] = x ∷ []
  insert_by_key x (y ∷ ys) =
      let rest = insert_by_key x ys in if leb (key x) (key y) then x ∷ y ∷ ys else y ∷ rest

  unfoldable pub by_key : List A → List A
  by_key [] = []
  by_key (x ∷ xs) = insert_by_key x (by_key xs)

  -- UPDATE … WHERE key = i AND p changes the row under the key, if it satisfies `p`.
  pub row_at-update_where :
      (i j : ℕ) (p : A → Bool) (f : A → A) (xs : List A)
      → ((x : A) → key (f x) ≡ key x)
      → row_at j (update_where (λ x. key x == i && p x) f xs)
        ≡ elim (row_at j xs) [ none ↦ none | some x ↦ some (if j == i && p x then f x else x) ]
  unfolding first_where update_where
  row_at-update_where i j p f [] same = refl
  row_at-update_where i j p f (x ∷ xs) same =
      ground (arith, same x, row_at-update_where i j p f xs same)

  rows_at-insert_by_key :
      (i : ℕ) (x : A) (ys : List A)
      → rows_at i (insert_by_key x ys) ≡ (if key x == i then 1 else 0) + rows_at i ys
  unfolding insert_by_key count_where
  rows_at-insert_by_key i x [] = refl
  rows_at-insert_by_key i x (y ∷ ys) = ground (arith, rows_at-insert_by_key i x ys)

  pub rows_at-by_key : (i : ℕ) (xs : List A) → rows_at i (by_key xs) ≡ rows_at i xs
  unfolding by_key count_where
  rows_at-by_key i [] = refl
  rows_at-by_key i (x ∷ xs) =
      omega (arith, rows_at-insert_by_key i x (by_key xs), rows_at-by_key i xs)

  pub rows_at-take_le : (i n : ℕ) (xs : List A) → rows_at i (take n xs) ≤ rows_at i xs
  unfolding count_where
  rows_at-take_le i zero xs = omega arith
  rows_at-take_le i (suc n) [] = omega arith
  rows_at-take_le i (suc n) (x ∷ xs) = omega (arith, rows_at-take_le i n xs)

  pub rows_at-select_where_le :
      (i : ℕ) (p : A → Bool) (xs : List A) → rows_at i (select_where p xs) ≤ rows_at i xs
  unfolding count_where select_where
  rows_at-select_where_le i p [] = omega arith
  rows_at-select_where_le i p (x ∷ xs) = ground (arith, rows_at-select_where_le i p xs)

  pub rows_at_pos : (i : ℕ) (xs : List A) (x : A) → row_at i xs ≡ some x → 0 < rows_at i xs
  unfolding first_where count_where
  rows_at_pos i [] x h = absurd (ground arith)
  rows_at_pos i (y ∷ ys) x h = ground (arith, rows_at_pos i ys x)

  -- A key that no row has tells every row apart from it.
  pub All-absent : (i : ℕ) (xs : List A) → rows_at i xs ≡ 0 → All (λ x. has_key i x ≡ false) xs
  unfolding count_where
  All-absent i [] h = tt
  All-absent i (x ∷ xs) h = (ground arith, All-absent i xs (ground arith))

  own_later :
      (x : A) (xs : List A) (y : A)
      → ((i : ℕ) → rows_at i (x ∷ xs) ≤ 1)
      → row_at (key y) xs ≡ some y
      → row_at (key y) (x ∷ xs) ≡ some y
  unfolding first_where count_where
  own_later x xs y u h = ground (arith, u (key y), rows_at_pos (key y) xs y h)

  -- Where keys are unique, a row of the table is found under its own key.
  pub row_at_own :
      (xs : List A) → ((i : ℕ) → rows_at i xs ≤ 1) → All (λ x. row_at (key x) xs ≡ some x) xs
  unfolding first_where count_where
  row_at_own [] u = tt
  row_at_own (x ∷ xs) u = (
    ground arith,
    All-map _ _ xs (λ y h. own_later x xs y u h) (row_at_own xs (λ i. ground (arith, u i))),
  )

module _ {A : Type 0} (key : A → ℕ) (P : A → Type 0) where
  All-insert_by_key : (x : A) (ys : List A) → P x → All P ys → All P (insert_by_key key x ys)
  unfolding insert_by_key
  All-insert_by_key x [] p a = (p, tt)
  All-insert_by_key x (y ∷ ys) p a = elim (Bool-cases (leb (key x) (key y))) [
    | inl e ↦ rw e (p, a)
    | inr e ↦ rw e (a.0, All-insert_by_key x ys p a.1)
  ]

  pub All-by_key : (xs : List A) → All P xs → All P (by_key key xs)
  unfolding by_key
  All-by_key [] a = tt
  All-by_key (x ∷ xs) a = All-insert_by_key x (by_key key xs) a.0 (All-by_key xs a.1)

module _ {A : Type 0} (P : A → Type 0) where
  pub All-take : (n : ℕ) (xs : List A) → All P xs → All P (take n xs)
  All-take zero xs a = tt
  All-take (suc n) [] a = tt
  All-take (suc n) (x ∷ xs) a = (a.0, All-take n xs a.1)

  -- What holds of every row holds of those selected, with the test.
  pub All-select_where :
      (p : A → Bool) (xs : List A) → All P xs → All (λ x. P x × (p x ≡ true)) (select_where p xs)
  unfolding select_where
  All-select_where p [] a = tt
  All-select_where p (x ∷ xs) a = elim (Bool-cases (p x)) [
    | inl e ↦ rw e ((a.0, e), All-select_where p xs a.1)
    | inr e ↦ rw e (All-select_where p xs a.1)
  ]
