-- ===== src/Platform/Table.antt =====
-- SQL statements on one table, as the repositories use them: `UPDATE … WHERE`, `DELETE … WHERE`,
-- `SELECT … WHERE` and `count(*)`. A table is the list of its rows.
use backend_engineering_note.Prelude.{
  ℕ, ◌+◌, ◌≤◌, ◌<◌, ◌≡◌, refl, subst, inl, inr, Bool, true, false, Option, none, some, List, [],
  ◌∷◌, ◌++◌, arith, if◌then◌else◌, Bool-cases, All,
}

module _ {ℓ} {A : Type ℓ} where
  -- UPDATE … SET … WHERE
  unfoldable pub update_where : (A → Bool) → (A → A) → List A → List A
  update_where p f [] = []
  update_where p f (x ∷ xs) = (if p x then f x else x) ∷ update_where p f xs

  -- SELECT count(*) … WHERE, and the row count of an UPDATE
  unfoldable pub count_where : (A → Bool) → List A → ℕ
  count_where p [] = 0
  count_where p (x ∷ xs) = (if p x then 1 else 0) + count_where p xs

  -- SELECT … WHERE
  unfoldable pub select_where : (A → Bool) → List A → List A
  select_where p [] = []
  select_where p (x ∷ xs) = let rest = select_where p xs in if p x then x ∷ rest else rest

  -- DELETE … WHERE
  unfoldable pub delete_where : (A → Bool) → List A → List A
  delete_where p [] = []
  delete_where p (x ∷ xs) = let rest = delete_where p xs in if p x then rest else x ∷ rest

  -- The first row that a SELECT returns.
  unfoldable pub first_where : (A → Bool) → List A → Option A
  first_where p [] = none
  first_where p (x ∷ xs) = let rest = first_where p xs in if p x then some x else rest

  pub count_where-append :
      (p : A → Bool) (xs ys : List A)
      → count_where p (xs ++ ys) ≡ count_where p xs + count_where p ys
  unfolding count_where
  count_where-append p [] ys = omega arith
  count_where-append p (x ∷ xs) ys = omega (arith, count_where-append p xs ys)

  -- An UPDATE that does not turn a row into one counted does not raise the count.
  pub count_where-update_where_le :
      (q p : A → Bool) (f : A → A) (xs : List A)
      → ((x : A) → p x ≡ true → q (f x) ≡ true → q x ≡ true)
      → count_where q (update_where p f xs) ≤ count_where q xs
  unfolding count_where update_where
  count_where-update_where_le q p f [] h = omega arith
  count_where-update_where_le q p f (x ∷ xs) h =
      ground (arith, h x, count_where-update_where_le q p f xs h)

  -- An UPDATE that leaves the test of each row alone leaves the count alone.
  pub count_where-update_where :
      (q p : A → Bool) (f : A → A) (xs : List A)
      → ((x : A) → q (f x) ≡ q x)
      → count_where q (update_where p f xs) ≡ count_where q xs
  unfolding count_where update_where
  count_where-update_where q p f [] h = refl
  count_where-update_where q p f (x ∷ xs) h =
      ground (arith, h x, count_where-update_where q p f xs h)

  pub count_where-delete_where_le :
      (q p : A → Bool) (xs : List A) → count_where q (delete_where p xs) ≤ count_where q xs
  unfolding count_where delete_where
  count_where-delete_where_le q p [] = omega arith
  count_where-delete_where_le q p (x ∷ xs) = ground (arith, count_where-delete_where_le q p xs)

  -- The rows that an UPDATE matched satisfy what it set.
  pub count_where-le-update_where :
      (q p : A → Bool) (f : A → A) (xs : List A)
      → ((x : A) → p x ≡ true → q (f x) ≡ true)
      → count_where p xs ≤ count_where q (update_where p f xs)
  unfolding count_where update_where
  count_where-le-update_where q p f [] h = omega arith
  count_where-le-update_where q p f (x ∷ xs) h =
      ground (arith, h x, count_where-le-update_where q p f xs h)

  -- A DELETE divides the rows into those left and those that it matched.
  pub count_where_divided :
      (q p : A → Bool) (xs : List A)
      → count_where q xs ≡ count_where q (delete_where p xs) + count_where q (select_where p xs)
  unfolding count_where delete_where select_where
  count_where_divided q p [] = refl
  count_where_divided q p (x ∷ xs) = ground (arith, count_where_divided q p xs)

  -- What a DELETE does not match, it leaves.
  pub count_where-delete_where :
      (q p : A → Bool) (xs : List A)
      → ((x : A) → q x ≡ true → p x ≡ false)
      → count_where q (delete_where p xs) ≡ count_where q xs
  unfolding count_where delete_where
  count_where-delete_where q p [] h = refl
  count_where-delete_where q p (x ∷ xs) h = ground (arith, h x, count_where-delete_where q p xs h)

  pub select_where-delete_where :
      (q p : A → Bool) (xs : List A)
      → ((x : A) → q x ≡ true → p x ≡ false)
      → select_where q (delete_where p xs) ≡ select_where q xs
  unfolding select_where delete_where
  select_where-delete_where q p [] h = refl
  select_where-delete_where q p (x ∷ xs) h = ground (arith, h x, select_where-delete_where q p xs h)

  -- After a DELETE no row satisfies its test.
  pub All-delete_where_self :
      (p : A → Bool) (xs : List A) → All (λ x. p x ≡ false) (delete_where p xs)
  unfolding delete_where
  All-delete_where_self p [] = tt
  All-delete_where_self p (x ∷ xs) = elim (Bool-cases (p x)) [
    | inl e ↦ rw e (All-delete_where_self p xs)
    | inr e ↦ rw e (e, All-delete_where_self p xs)
  ]

  -- An UPDATE that matches no row changes nothing.
  pub update_where_none :
      (p : A → Bool) (f : A → A) (xs : List A) → count_where p xs ≡ 0 → update_where p f xs ≡ xs
  unfolding count_where update_where
  update_where_none p f [] h = refl
  update_where_none p f (x ∷ xs) h = ground (arith, update_where_none p f xs)

  -- A row that a SELECT returns satisfies its test.
  pub first_where-holds :
      (p : A → Bool) (xs : List A) (x : A) → first_where p xs ≡ some x → p x ≡ true
  unfolding first_where
  first_where-holds p [] x h = ground arith
  first_where-holds p (y ∷ ys) x h = ground (arith, first_where-holds p ys x)

  pub first_where-none :
      (p : A → Bool) (xs : List A) → first_where p xs ≡ none → count_where p xs ≡ 0
  unfolding first_where count_where
  first_where-none p [] h = refl
  first_where-none p (y ∷ ys) h = ground (arith, first_where-none p ys)

module _ {ℓ κ} {A : Type ℓ} (P : A → Type κ) where
  pub All-update_where :
      (p : A → Bool) (f : A → A) (xs : List A)
      → ((x : A) → P x → p x ≡ true → P (f x))
      → All P xs
      → All P (update_where p f xs)
  unfolding update_where
  All-update_where p f [] h a = a
  All-update_where p f (x ∷ xs) h a = elim (Bool-cases (p x)) [
    | inl e ↦ (rw e (h x a.0 e), All-update_where p f xs h a.1)
    | inr e ↦ (rw e a.0, All-update_where p f xs h a.1)
  ]

  pub All-delete_where : (p : A → Bool) (xs : List A) → All P xs → All P (delete_where p xs)
  unfolding delete_where
  All-delete_where p [] a = a
  All-delete_where p (x ∷ xs) a = elim (Bool-cases (p x)) [
    | inl e ↦ rw e (All-delete_where p xs a.1)
    | inr e ↦ rw e (a.0, All-delete_where p xs a.1)
  ]

  pub All-first_where :
      (p : A → Bool) (xs : List A) (x : A) → All P xs → first_where p xs ≡ some x → P x
  unfolding first_where
  All-first_where p [] x a h = absurd (ground arith)
  All-first_where p (y ∷ ys) x a h = elim (Bool-cases (p y)) [
    | inl e ↦ (let found : y ≡ x = ground arith in subst P found a.0)
    | inr e ↦ All-first_where p ys x a.1 (ground arith)
  ]

module _ {ℓ} {A : Type ℓ} (p : A → A → Bool) (reflexive : (x : A) → p x x ≡ true) where
  counted_more :
      (y : A) (ys xs : List A)
      → All (λ x. 0 < count_where (p x) ys) xs
      → All (λ x. 0 < count_where (p x) (y ∷ ys)) xs
  unfolding count_where
  counted_more y ys [] h = tt
  counted_more y ys (x ∷ xs) h = (omega (arith, h.0), counted_more y ys xs h.1)

  -- Each row of a table is counted where the rows like it are.
  pub All-count_where_self : (xs : List A) → All (λ x. 0 < count_where (p x) xs) xs
  unfolding count_where
  All-count_where_self [] = tt
  All-count_where_self (x ∷ xs) =
      (ground (arith, reflexive x), counted_more x xs xs (All-count_where_self xs))
