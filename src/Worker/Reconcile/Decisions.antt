-- ===== src/Worker/Reconcile/Decisions.antt =====
-- What a reconciliation pass decides on each investigation, and what it does to its row.
use backend_engineering_note.Prelude.{
  ℕ, ◌≤◌, ◌≡◌, ◌≢◌, refl, Bool, true, not, ◌&&◌, Option, none, some, List, [], ◌∷◌, arith, ◌==◌,
  if◌then◌else◌, Option-cases, Bool-cases, ==_iff, inl, inr,
}
use backend_engineering_note.Platform.Table.{count_where, select_where}
use backend_engineering_note.Platform.Rows.{
  Investigation, InvestigationStatus, processing, status_eq, has_id, is_active,
}
use backend_engineering_note.Platform.Update.{
  get_row, rowcount-update_row, get_row-update_row_self, get_row-update_row_ne, count_id-update_row,
}
use backend_engineering_note.Worker.Repository.{Rows}
use backend_engineering_note.Worker.Reconciliation.{
  ObservedInvestigation, ReconciliationMutation, same_value, observe, contains, read_for_update,
  apply_mutation, is_expected, mutation_values,
}
use backend_engineering_note.Worker.Reconcile.{
  MaxDeliveryDecision, decide_max_delivery, lease_running, by_id, apply_decision,
}

abbrev pub observed_row : ℕ → Option Investigation → Option ObservedInvestigation
observed_row now none = none
observed_row now (some r) = some (observe now r)

-- An investigation is given up when it is active and no lease on it runs.
abbrev pub is_exhausted : ℕ → Investigation → Bool
is_exhausted now r =
    is_active r && not (status_eq r.status processing && lease_running r.lease_expires_at now)

abbrev pub given_up : ℕ → Option Investigation → Option Investigation
given_up now none = none
given_up now (some r) =
    if is_exhausted now r
    then some (record r {
      status = InvestigationStatus.failed;
      completed_at = some now;
      worker_id = none;
      lease_expires_at = none;
      last_error_code = some "MAX_DELIVER_EXCEEDED";
      last_error_message = some "JetStream maximum delivery count was exhausted";
    })
    else some r

pub by_id-read_for_update :
    (now i : ℕ) (ids : List ℕ) (rows : Rows)
    → contains ids i ≡ true
    → by_id i (read_for_update now ids rows) ≡ observed_row now (get_row i rows)
unfolding by_id read_for_update get_row select_where observe
by_id-read_for_update now i ids [] h = refl
by_id-read_for_update now i ids (r ∷ rows) h = elim (Bool-cases (r.id == i)) [
  | inl e ↦
      (let listed : contains ids r.id ≡ true = rw ((==_iff r.id i).0 e) h in
        ground (arith, by_id-read_for_update now i ids rows h))
  | inr e ↦ ground (arith, by_id-read_for_update now i ids rows h)
]

-- The mutation that gives a row up.
abbrev closing : ℕ → ℕ → Investigation → ReconciliationMutation
closing now i r = record {
  investigation_id = i;
  expected_status = r.status;
  expected_worker_id = r.worker_id;
  expected_lease_expires_at = r.lease_expires_at;
  target_status = InvestigationStatus.failed;
  completed_at = now;
  error_code = "MAX_DELIVER_EXCEEDED";
  error_message = "JetStream maximum delivery count was exhausted";
}

same_value_refl : (o : Option ℕ) → same_value o o ≡ true
same_value_refl none = refl
same_value_refl (some a) = ground arith

closing_expected : (now i : ℕ) (r : Investigation) → is_expected (closing now i r) r ≡ true
unfolding is_expected
closing_expected now i r =
    ground (arith, same_value_refl r.worker_id, same_value_refl r.lease_expires_at)

module _ (now i : ℕ) (rows : Rows) (unique : count_where (has_id i) rows ≤ 1) where
  closing_applied :
      (r : Investigation)
      → get_row i rows ≡ some r
      → ((apply_mutation (closing now i r) rows).1 ≡ true)
        × (get_row i (apply_mutation (closing now i r) rows).0
            ≡ some (mutation_values (closing now i r) r))
  unfolding apply_mutation mutation_values
  closing_applied r found = (
    ground (
      arith,
      closing_expected now i r,
      rowcount-update_row i (is_expected (closing now i r)) (mutation_values (closing now i r)) rows
          unique,
    ),
    ground (
      arith,
      closing_expected now i r,
      get_row-update_row_self (is_expected (closing now i r)) (mutation_values (closing now i r))
          (λ s. refl) i rows,
    ),
  )

  closing_elsewhere :
      (r : Investigation) (j : ℕ)
      → (count_where (has_id j) (apply_mutation (closing now i r) rows).0
          ≡ count_where (has_id j) rows)
        × (j ≢ i → get_row j (apply_mutation (closing now i r) rows).0 ≡ get_row j rows)
  unfolding apply_mutation mutation_values
  closing_elsewhere r j = (
    count_id-update_row (is_expected (closing now i r)) (mutation_values (closing now i r))
        (λ s. refl) i j rows,
    λ h.
        get_row-update_row_ne (is_expected (closing now i r)) (mutation_values (closing now i r))
          (λ s. refl) i j rows h,
  )

  abbrev pub verdict : MaxDeliveryDecision
  verdict = decide_max_delivery i (observed_row now (get_row i rows))

  -- A decision on the row as it stands is carried out.
  pub verdict_applied :
      ((apply_decision verdict verdict.mutation rows).1 ≡ verdict)
      × (get_row i (apply_decision verdict verdict.mutation rows).0 ≡ given_up now (get_row i rows))
  unfolding decide_max_delivery apply_decision mutation_values observe
  verdict_applied = elim (Option-cases (get_row i rows)) [
    | inl e ↦ rw e (refl, e)
    | inr (r, e) ↦ (ground (arith, closing_applied r e), ground (arith, closing_applied r e))
  ]

  pub verdict_elsewhere :
      (j : ℕ)
      → (count_where (has_id j) (apply_decision verdict verdict.mutation rows).0
          ≡ count_where (has_id j) rows)
        × (j ≢ i → get_row j (apply_decision verdict verdict.mutation rows).0 ≡ get_row j rows)
  unfolding decide_max_delivery apply_decision observe
  verdict_elsewhere j = elim (Option-cases (get_row i rows)) [
    | inl e ↦ rw e (refl, λ h. refl)
    | inr (r, e) ↦
        (ground (arith, closing_elsewhere r j), λ h. ground (arith, closing_elsewhere r j))
  ]
