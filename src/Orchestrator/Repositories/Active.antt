-- ===== src/Orchestrator/Repositories/Active.antt =====
-- The insert of an investigation into a consistent table, and the active row of an exception.
use backend_engineering_note.Prelude.{
  ℕ, ◌≤◌, ◌≡◌, refl, subst, String, Bool, true, Option, none, some, List, [], ◌∷◌, ◌++◌, arith,
  All-append, ltb, ◌==◌, str_eq, str_eq_iff, Bool-cases, inl, inr, &&-eq_true,
}
use backend_engineering_note.Platform.Table.{
  count_where, count_where-append, count_where-delete_where_le, All-delete_where, first_where,
  first_where-holds, delete_where,
}
use backend_engineering_note.Platform.Rows.{
  Investigation, Database, has_id, is_active, is_active_for, is_active_status,
}
use backend_engineering_note.Platform.Consistency.{IsValid, IsConsistent}
use backend_engineering_note.Orchestrator.Domain.{InvestigationRecord, record_of}
use backend_engineering_note.Orchestrator.Transaction.{Outcome, returned}
use backend_engineering_note.Orchestrator.Transaction.Rules.{returned-injective}
use backend_engineering_note.Orchestrator.Repositories.{
  queued_row, insert_unless_active, active_for_exception,
}

-- A record of an active row of the exception.
abbrev pub IsActiveFor : String → InvestigationRecord → Type 0
IsActiveFor e r = (r.exception_id ≡ e) × (is_active_status r.status ≡ true)

pub queued_row-IsValid :
    (id request_id client_id : ℕ) (e : String) (event_id now : ℕ)
    → IsValid (queued_row id request_id client_id e event_id now)
unfolding queued_row
queued_row-IsValid id request_id client_id e event_id now = record {
  owned = λ h. absurd (ground arith);
  leased = λ h. absurd (ground arith);
  started = λ h. absurd (ground arith);
  attempted = λ h. absurd (ground arith);
  released = λ h. (refl, refl);
  open_active = λ h. refl;
  closed_inactive = λ h. absurd (ground arith);
  checkpointed = refl;
}

add-IsConsistent :
    (r : Investigation) (rows : List Investigation)
    → IsValid r
    → count_where (has_id r.id) rows ≡ 0
    → count_where (is_active_for r.exception_id) rows ≡ 0
    → IsConsistent rows
    → IsConsistent (rows ++ (r ∷ []))
unfolding count_where
add-IsConsistent r rows v no_id no_active c = record {
  unique_id = λ j. elim (Bool-cases (r.id == j)) [
    | inl e ↦
        (let same : r.id ≡ j = ground arith in
          subst (λ k. count_where (has_id k) (rows ++ (r ∷ [])) ≤ 1) same
            (ground (arith, count_where-append (has_id r.id) rows (r ∷ []))))
    | inr e ↦ ground (arith, c.unique_id j, count_where-append (has_id j) rows (r ∷ []))
  ];
  unique_active = λ x. elim (Bool-cases (str_eq r.exception_id x)) [
    | inl e ↦
        (let same : r.exception_id ≡ x = (str_eq_iff r.exception_id x).0 e in
          subst (λ k. count_where (is_active_for k) (rows ++ (r ∷ [])) ≤ 1) same
            (ground (arith, count_where-append (is_active_for r.exception_id) rows (r ∷ []))))
    | inr e ↦ ground (arith, c.unique_active x, count_where-append (is_active_for x) rows (r ∷ []))
  ];
  valid = All-append IsValid rows (r ∷ []) c.valid (v, tt);
}

pub delete-IsConsistent :
    (p : Investigation → Bool) (rows : List Investigation)
    → IsConsistent rows
    → IsConsistent (delete_where p rows)
delete-IsConsistent p rows c = record {
  unique_id = λ j. omega (arith, c.unique_id j, count_where-delete_where_le (has_id j) p rows);
  unique_active =
      λ x. omega (arith, c.unique_active x, count_where-delete_where_le (is_active_for x) p rows);
  valid = All-delete_where IsValid p rows c.valid;
}

-- What the insert returns: a consistent table, and a record of the row if it was inserted.
abbrev pub Inserted : String → Option InvestigationRecord → Type 0
Inserted e none = Unit
Inserted e (some x) = IsActiveFor e x

pub insert_unless_active_lem :
    (r : Investigation) (db d : Database) (o : Option InvestigationRecord)
    → IsValid r
    → is_active r ≡ true
    → IsConsistent db.investigations
    → insert_unless_active r db ≡ returned (o, d)
    → IsConsistent d.investigations × Inserted r.exception_id o
unfolding insert_unless_active record_of
insert_unless_active_lem r db d o v active c h =
    elim (Bool-cases (ltb 0 (count_where (is_active_for r.exception_id) db.investigations))) [
      | inl e ↦
          (let same : ◌≡◌ {A = Outcome (Option InvestigationRecord × Database)}
                (returned (none, db)) (returned (o, d)) =
              ground arith in
            subst (λ q. IsConsistent q.1.investigations × Inserted r.exception_id q.0)
              (returned-injective _ _ same) (c, tt))
      | inr e ↦ elim (Bool-cases (ltb 0 (count_where (has_id r.id) db.investigations))) [
        | inl f ↦ absurd (ground arith)
        | inr f ↦
            (let same : ◌≡◌ {A = Outcome (Option InvestigationRecord × Database)}
                  (returned (
                    some (record_of r),
                    record db { investigations = db.investigations ++ (r ∷ []) },
                  ))
                  (returned (o, d)) =
                ground arith in
              subst (λ q. IsConsistent q.1.investigations × Inserted r.exception_id q.0)
                (returned-injective _ _ same)
                (
                  add-IsConsistent r db.investigations v (ground arith) (ground arith) c,
                  (refl, active),
                ))
      ]
    ]

found-IsActiveFor :
    (e : String) (rows : List Investigation) (r : Investigation)
    → first_where (is_active_for e) rows ≡ some r
    → IsActiveFor e (record_of r)
unfolding record_of
found-IsActiveFor e rows r h =
    let both =
      &&-eq_true (str_eq r.exception_id e) (is_active r)
        (first_where-holds (is_active_for e) rows r h) in
    ((str_eq_iff r.exception_id e).0 both.0, both.1)

pub active_for_exception_lem : (e : String) (db : Database) → Inserted e (active_for_exception e db)
unfolding active_for_exception
active_for_exception_lem e db = by (first_where (is_active_for e) db.investigations) refl
  where
    by :
        (o : Option Investigation)
        → first_where (is_active_for e) db.investigations ≡ o
        → Inserted e (elim o [ none ↦ none | some r ↦ some (record_of r) ])
    by none h = tt
    by (some r) h = found-IsActiveFor e db.investigations r h
