-- ===== src/Orchestrator/Status/Batch/Answers.antt =====
-- What a batch of statuses answers for each exception.
use backend_engineering_note.Prelude.{
  ℕ, ◌≤◌, ◌⊎◌, sym, str_eq_iff, ◌≡◌, refl, ap, subst, String, Bool, true, false, Option, none, some,
  List, [], ◌∷◌, map, option_map, arith, if◌then◌else◌, ltb, str_eq, strip, length, All, All-map,
  Bool-cases, inl, inr,
}
use backend_engineering_note.Platform.Rows.{Investigation}
use backend_engineering_note.Platform.Table.{count_where}
use backend_engineering_note.Orchestrator.Domain.{not_found, record_of, external_status}
use backend_engineering_note.Orchestrator.Accept.{has_empty}
use backend_engineering_note.Orchestrator.Status.{InvestigationStatusItem, item}
use backend_engineering_note.Orchestrator.Status.Batch.{
  investigations, later, most_recent, validate_size, exception_item, query_status,
}

abbrev pub is_for : String → Investigation → Bool
is_for e r = str_eq r.exception_id e

-- A row of the table.
abbrev pub IsIn : Investigation → List Investigation → Type 0
IsIn s [] = ⊥
IsIn s (r ∷ rows) = (s ≡ r) ⊎ IsIn s rows

-- No row of the exception, or its latest row.
abbrev pub IsLatest : String → List Investigation → Option Investigation → Type 0
IsLatest e rows none = count_where (is_for e) rows ≡ 0
IsLatest e rows (some s) =
    IsIn s rows
    × (is_for e s ≡ true)
    × All (λ (r : Investigation). (if is_for e r then r.created_at else 0) ≤ s.created_at) rows

none_later :
    (e : String) (t : ℕ) (rows : List Investigation)
    → count_where (is_for e) rows ≡ 0
    → All (λ (r : Investigation). (if is_for e r then r.created_at else 0) ≤ t) rows
unfolding count_where
none_later e t [] h = tt
none_later e t (r ∷ rows) h = (ground (arith, h), none_later e t rows (ground (arith, h)))

later-IsLatest :
    (e : String) (rows : List Investigation) (r s : Investigation)
    → is_for e r ≡ true
    → IsLatest e rows (some s)
    → IsLatest e (r ∷ rows) (some (later r (some s)))
later-IsLatest e rows r s t h = elim (Bool-cases (ltb r.created_at s.created_at)) [
  | inl c ↦
      let same : later r (some s) ≡ s = rw c refl in
      subst (λ x. IsLatest e (r ∷ rows) (some x)) (sym same)
        (inr h.0, h.1, (ground (arith, t, c), h.2))
  | inr c ↦
      let same : later r (some s) ≡ r = rw c refl in
      subst (λ x. IsLatest e (r ∷ rows) (some x)) (sym same)
        (
          inl refl,
          t,
          (
            ground (arith, t),
            All-map (λ (x : Investigation). (if is_for e x then x.created_at else 0) ≤ s.created_at)
                (λ (x : Investigation). (if is_for e x then x.created_at else 0) ≤ r.created_at)
                rows (λ x p. ground (arith, p, c)) h.2,
          ),
        )
]

most_recent-IsLatest :
    (e : String) (rows : List Investigation) → IsLatest e rows (most_recent e rows)
unfolding most_recent count_where
most_recent-IsLatest e [] = refl
most_recent-IsLatest e (r ∷ rows) =
    by (most_recent e rows) (Bool-cases (is_for e r)) (most_recent-IsLatest e rows)
  where
    by :
        (o : Option Investigation)
        → (is_for e r ≡ true) ⊎ (is_for e r ≡ false)
        → IsLatest e rows o
        → IsLatest e (r ∷ rows) (if is_for e r then some (later r o) else o)
    by none (inr f) h = rw f (ground (arith, f, h))
    by (some s) (inr f) h = rw f (inr h.0, h.1, (ground (arith, f), h.2))
    by none (inl t) h = rw t (inl refl, t, (ground (arith, t), none_later e r.created_at rows h))
    by (some s) (inl t) h = rw t (later-IsLatest e rows r s t h)

-- An item about an exception: that it is not found, and has no row, or the state of its latest row.
abbrev pub Tells : List Investigation → String → InvestigationStatusItem → Type 0
Tells rows e i =
    ((i.status ≡ not_found) × (i.exception_id ≡ some e) × (count_where (is_for e) rows ≡ 0))
    ⊎ ((s : Investigation) × (i.status ≡ external_status s.status)
        × (i.exception_id ≡ some e)
        × (i.investigation_id ≡ some s.id)
        × (i.attempt_count ≡ some s.attempt_count)
        × (i.created_at ≡ some s.created_at)
        × IsLatest e rows (some s))

abbrev pub AllTell : List Investigation → List String → List InvestigationStatusItem → Type 0
AllTell rows [] [] = Unit
AllTell rows [] (i ∷ is) = ⊥
AllTell rows (e ∷ es) [] = ⊥
AllTell rows (e ∷ es) (i ∷ is) = Tells rows e i × AllTell rows es is

item-Tells :
    (rows : List Investigation) (e : String) (o : Option Investigation)
    → IsLatest e rows o
    → Tells rows e (item (option_map record_of o) none (some e))
unfolding item record_of
item-Tells rows e none h = inl (refl, refl, h)
item-Tells rows e (some s) h =
    inr (s, refl, ap some ((str_eq_iff s.exception_id e).0 h.1), refl, refl, refl, h)

map-AllTell :
    (rows : List Investigation) (es : List String) → AllTell rows es (map (exception_item rows) es)
unfolding exception_item
map-AllTell rows [] = tt
map-AllTell rows (e ∷ es) =
    (item-Tells rows e (most_recent e rows) (most_recent-IsLatest e rows), map-AllTell rows es)

-- If a query by exceptions is answered, it asked for no more than the batch size, and the answer has
-- one item for each stripped identifier, in order: that it is not found, and then the table has no
-- row for it, or the state, the identifier, the attempts and the creation time of a row of the table
-- for it than which no row for it was created later.
pub query_status-AllTell :
    (max_batch_size : ℕ) (exception_ids : List String) (rows : List Investigation)
    (items : List InvestigationStatusItem)
    → query_status max_batch_size (some exception_ids) none rows ≡ investigations items
    → (length exception_ids ≤ max_batch_size) × AllTell rows (map strip exception_ids) items
unfolding query_status validate_size
query_status-AllTell max_batch_size [] rows items h = absurd (ground (arith, h))
query_status-AllTell max_batch_size (x ∷ xs) rows items h =
    elim (Bool-cases (ltb max_batch_size (length (x ∷ xs)))) [
      | inl big ↦ absurd (ground (arith, h, big))
      | inr fits ↦ elim (Bool-cases (has_empty (map strip (x ∷ xs)))) [
        | inl empty ↦ absurd (ground (arith, h, fits, empty))
        | inr whole ↦
            let same : map (exception_item rows) (map strip (x ∷ xs)) ≡ items =
              ground (arith, h, fits, whole) in
            (
              ground (arith, fits),
              subst (λ l. AllTell rows (map strip (x ∷ xs)) l) same
                  (map-AllTell rows (map strip (x ∷ xs))),
            )
      ]
    ]
