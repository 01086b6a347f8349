-- ===== src/Worker/Repository/Effects.antt =====
-- The repository's statements as operations on the map from keys to rows.
use backend_engineering_note.Prelude.{
  ℕ, ◌≤◌, ◌≡◌, ◌≢◌, refl, Option, none, if◌then◌else◌, Bool-cases, inl, inr,
}
use backend_engineering_note.Platform.Table.{count_where}
use backend_engineering_note.Platform.Rows.{Investigation, has_id}
use backend_engineering_note.Platform.Update.{
  get_row, guarded, satisfies, get_row-update_row_self, get_row-update_row_ne, rowcount-update_row,
}
use backend_engineering_note.Worker.Repository.{
  Rows, claimable, claim_values, claim, is_owned, owned_update,
}

module _ (i w : ℕ) (expected : Option ℕ) (f : Investigation → Investigation)
    (same_id : (r : Investigation) → (f r).id ≡ r.id) (rows : Rows) where
  -- The result tells whether the caller owns the row.
  pub owned_update_result :
      count_where (has_id i) rows ≤ 1
      → (owned_update i w expected f rows).1 ≡ satisfies (is_owned w expected) (get_row i rows)
  unfolding owned_update
  owned_update_result h = elim (Bool-cases (satisfies (is_owned w expected) (get_row i rows))) [
    | inl e ↦ rw (rowcount-update_row i (is_owned w expected) f rows h, e)
    | inr e ↦ rw (rowcount-update_row i (is_owned w expected) f rows h, e)
  ]

  -- The named row is updated if the caller owns it, and not otherwise.
  pub get_row-owned_update_self :
      get_row i (owned_update i w expected f rows).0
      ≡ guarded (is_owned w expected) f (get_row i rows)
  unfolding owned_update
  get_row-owned_update_self = get_row-update_row_self (is_owned w expected) f same_id i rows

  pub get_row-owned_update_ne :
      (j : ℕ) → j ≢ i → get_row j (owned_update i w expected f rows).0 ≡ get_row j rows
  unfolding owned_update
  get_row-owned_update_ne j h = get_row-update_row_ne (is_owned w expected) f same_id i j rows h

module _ (i w lease now : ℕ) (rows : Rows) where
  pub get_row-claim_self :
      get_row i (claim i w lease now rows).0
      ≡ guarded (claimable now) (claim_values w lease now) (get_row i rows)
  unfolding claim claim_values
  get_row-claim_self =
      get_row-update_row_self (claimable now) (claim_values w lease now) (λ r. refl) i rows

  pub get_row-claim_ne : (j : ℕ) → j ≢ i → get_row j (claim i w lease now rows).0 ≡ get_row j rows
  unfolding claim claim_values
  get_row-claim_ne j h =
      get_row-update_row_ne (claimable now) (claim_values w lease now) (λ r. refl) i j rows h

  pub claim_result :
      count_where (has_id i) rows ≤ 1
      → (claim i w lease now rows).1 ≡ (
          if satisfies (claimable now) (get_row i rows)
          then get_row i (claim i w lease now rows).0
          else none)
  unfolding claim
  claim_result h = elim (Bool-cases (satisfies (claimable now) (get_row i rows))) [
    | inl e ↦ rw (rowcount-update_row i (claimable now) (claim_values w lease now) rows h, e)
    | inr e ↦ rw (rowcount-update_row i (claimable now) (claim_values w lease now) rows h, e)
  ]
