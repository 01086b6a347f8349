-- ===== src/Platform/Update.antt =====
-- UPDATE of the row with a given primary key under further conditions, seen as an operation on the
-- map from primary keys to rows.
use backend_engineering_note.Prelude.{
  ℕ, ◌≤◌, ◌≡◌, ◌≢◌, refl, String, Bool, true, false, ◌&&◌, Option, none, some, List, [], ◌∷◌, arith,
  str_eq, if◌then◌else◌, &&-eq_true,
}
use backend_engineering_note.Platform.Table.{
  count_where, update_where, delete_where, update_where_none, first_where, count_where-update_where,
  count_where-update_where_le, All-update_where, update_where_none,
}
use backend_engineering_note.Platform.Rows.{Investigation, has_id, is_active, is_active_for}
use backend_engineering_note.Platform.Consistency.{IsValid, IsConsistent}

-- SELECT … WHERE id = i
unfoldable pub get_row : ℕ → List Investigation → Option Investigation
unfolding first_where
get_row i rows = first_where (has_id i) rows

-- UPDATE … SET f WHERE id = i AND guard, with the number of rows that it matched
unfoldable pub update_row :
    ℕ
    → (Investigation → Bool)
    → (Investigation → Investigation)
    → List Investigation
    → List Investigation × ℕ
update_row i guard f rows = (
  update_where (λ r. has_id i r && guard r) f rows,
  count_where (λ r. has_id i r && guard r) rows,
)

-- What an update does to the row that it names.
abbrev pub guarded :
    (Investigation → Bool)
    → (Investigation → Investigation)
    → Option Investigation
    → Option Investigation
guarded guard f none = none
guarded guard f (some r) = some (if guard r then f r else r)

abbrev pub satisfies : (Investigation → Bool) → Option Investigation → Bool
satisfies guard none = false
satisfies guard (some r) = guard r

module _ (guard : Investigation → Bool) (f : Investigation → Investigation)
    (same_id : (r : Investigation) → (f r).id ≡ r.id) where
  pub get_row-update_row_self :
      (i : ℕ) (rows : List Investigation)
      → get_row i (update_row i guard f rows).0 ≡ guarded guard f (get_row i rows)
  unfolding get_row update_row update_where
  get_row-update_row_self i [] = refl
  get_row-update_row_self i (r ∷ rows) = ground (arith, same_id r, get_row-update_row_self i rows)

  pub get_row-update_row_ne :
      (i j : ℕ) (rows : List Investigation)
      → j ≢ i
      → get_row j (update_row i guard f rows).0 ≡ get_row j rows
  unfolding get_row update_row update_where
  get_row-update_row_ne i j [] h = refl
  get_row-update_row_ne i j (r ∷ rows) h =
      ground (arith, same_id r, get_row-update_row_ne i j rows h)

  -- No update of a row with a key that is kept adds to the rows of a key.
  pub count_id-update_row :
      (i j : ℕ) (rows : List Investigation)
      → count_where (has_id j) (update_row i guard f rows).0 ≡ count_where (has_id j) rows
  unfolding update_row
  count_id-update_row i j rows =
      count_where-update_where (has_id j) _ f rows (λ r. ground (arith, same_id r))

count_guarded_le :
    (i : ℕ) (guard : Investigation → Bool) (rows : List Investigation)
    → count_where (λ r. has_id i r && guard r) rows ≤ count_where (has_id i) rows
unfolding count_where
count_guarded_le i guard [] = omega arith
count_guarded_le i guard (r ∷ rows) = ground (arith, count_guarded_le i guard rows)

get_row_absent :
    (i : ℕ) (rows : List Investigation) → count_where (has_id i) rows ≡ 0 → get_row i rows ≡ none
unfolding count_where get_row
get_row_absent i [] h = refl
get_row_absent i (r ∷ rows) h = ground (arith, get_row_absent i rows)

-- With a unique key the row count says whether the row exists and satisfies the guard.
pub rowcount-update_row :
    (i : ℕ) (guard : Investigation → Bool) (f : Investigation → Investigation)
    (rows : List Investigation)
    → count_where (has_id i) rows ≤ 1
    → (update_row i guard f rows).1 ≡ (if satisfies guard (get_row i rows) then 1 else 0)
unfolding update_row count_where get_row
rowcount-update_row i guard f [] h = refl
rowcount-update_row i guard f (r ∷ rows) h = ground (
  arith,
  count_guarded_le i guard rows,
  get_row_absent i rows,
  rowcount-update_row i guard f rows,
)

-- An update keeps the table consistent if it keeps keys, activates nothing and keeps rows valid.
pub update_row-IsConsistent :
    (i : ℕ) (guard : Investigation → Bool) (f : Investigation → Investigation)
    (rows : List Investigation)
    → ((r : Investigation) → (f r).id ≡ r.id)
    → ((r : Investigation) → (f r).exception_id ≡ r.exception_id)
    → ((r : Investigation) → guard r ≡ true → is_active (f r) ≡ true → is_active r ≡ true)
    → ((r : Investigation) → IsValid r → guard r ≡ true → IsValid (f r))
    → IsConsistent rows
    → IsConsistent (update_row i guard f rows).0
unfolding update_row
update_row-IsConsistent i guard f rows same_id same_exception stays_closed keeps c = record {
  unique_id = λ j. omega (arith, c.unique_id j, count_id-update_row guard f same_id i j rows);
  unique_active = λ e. omega (
    arith,
    c.unique_active e,
    count_where-update_where_le (is_active_for e) (λ r. has_id i r && guard r) f rows
        (λ r p q. active_before e r p q),
  );
  valid =
      All-update_where IsValid _ f rows (λ r v p. keeps r v (&&-eq_true (has_id i r) (guard r) p).1)
        c.valid;
}
  where
    active_before :
        (e : String) (r : Investigation)
        → (has_id i r && guard r) ≡ true
        → is_active_for e (f r) ≡ true
        → is_active_for e r ≡ true
    active_before e r p q =
        let before = &&-eq_true (str_eq (f r).exception_id e) (is_active (f r)) q in
        let guarded_row = (&&-eq_true (has_id i r) (guard r) p).1 in
        let active = stays_closed r guarded_row before.1 in
        rw (← same_exception r) (rw (before.0) active)

-- An update that is refused leaves the table as it was.
pub update_row_refused :
    (i : ℕ) (guard : Investigation → Bool) (f : Investigation → Investigation)
    (rows : List Investigation)
    → count_where (has_id i) rows ≤ 1
    → satisfies guard (get_row i rows) ≡ false
    → update_row i guard f rows ≡ (rows, 0)
unfolding update_row
update_row_refused i guard f rows h refused = ground (
  arith,
  rowcount-update_row i guard f rows h,
  update_where_none (λ r. has_id i r && guard r) f rows,
)

-- With a unique key, a DELETE removes the row under the key if it matches that, and no other.
pub get_row-delete_where :
    (i : ℕ) (p : Investigation → Bool) (rows : List Investigation)
    → count_where (has_id i) rows ≤ 1
    → get_row i (delete_where p rows)
      ≡ (if satisfies p (get_row i rows) then none else get_row i rows)
unfolding get_row count_where delete_where
get_row-delete_where i p [] h = refl
get_row-delete_where i p (r ∷ rows) h =
    ground (arith, get_row_absent i rows, get_row-delete_where i p rows)

-- A row is found under its own key.
pub get_row-id :
    (i : ℕ) (rows : List Investigation) (r : Investigation) → get_row i rows ≡ some r → r.id ≡ i
unfolding get_row
get_row-id i [] r h = absurd (ground arith)
get_row-id i (x ∷ rows) r h = ground (arith, get_row-id i rows r)
