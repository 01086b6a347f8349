-- ===== src/Worker/Reconcile/Pass.antt =====
-- A whole pass: the decisions on all notified investigations, in the order of their keys.
use backend_engineering_note.Prelude.{
  ℕ, ◌-◌, ◌*◌, Option, none, some, ◌⊎◌, day, ◌≤◌, ◌<◌, ◌≡◌, ◌≢◌, refl, sym, ap, ◌∙◌, true, false,
  ◌||◌, List, [], ◌∷◌, map, arith, ◌==◌, if◌then◌else◌, ltb, Bool-cases, inl, inr, ==_iff,
}
use backend_engineering_note.Platform.Table.{count_where}
use backend_engineering_note.Platform.Rows.{Investigation, Database, is_active, has_id}
use backend_engineering_note.Platform.Update.{get_row, satisfies, get_row-delete_where}
use backend_engineering_note.Worker.Repository.{Rows}
use backend_engineering_note.Worker.Reconciliation.{
  ObservedInvestigation, contains, read_for_update, is_expired_investigation, delete_expired,
}
use backend_engineering_note.Worker.Reconcile.{
  MaxDeliveryDecision, is_failed, execute, decide_max_delivery, by_id, apply_decision,
  apply_decisions, insert_id, ordered_ids,
}
use backend_engineering_note.Worker.Reconcile.Decisions.{
  observed_row, given_up, verdict, by_id-read_for_update, verdict_applied, verdict_elsewhere,
}

abbrev pub Distinct : List ℕ → Type 0
Distinct [] = Unit
Distinct (i ∷ ids) = (contains ids i ≡ false) × Distinct ids

contains-insert_id :
    (i j : ℕ) (ids : List ℕ) → contains (insert_id i ids) j ≡ (j == i || contains ids j)
unfolding contains insert_id
contains-insert_id i j [] = refl
contains-insert_id i j (k ∷ ids) = ground (arith, contains-insert_id i j ids)

-- Sorting loses no key and adds none.
pub contains-ordered_ids : (j : ℕ) (ids : List ℕ) → contains (ordered_ids ids) j ≡ contains ids j
unfolding contains ordered_ids
contains-ordered_ids j [] = refl
contains-ordered_ids j (i ∷ ids) =
    ground (arith, contains-insert_id i j (ordered_ids ids), contains-ordered_ids j ids)

abbrev pub AllAbove : ℕ → List ℕ → Type 0
AllAbove i [] = Unit
AllAbove i (j ∷ js) = (i < j) × AllAbove i js

abbrev pub Ascending : List ℕ → Type 0
Ascending [] = Unit
Ascending (i ∷ ids) = AllAbove i ids × Ascending ids

AllAbove-trans : (i j : ℕ) (ks : List ℕ) → i < j → AllAbove j ks → AllAbove i ks
AllAbove-trans i j [] h k = tt
AllAbove-trans i j (x ∷ ks) h k = (omega arith, AllAbove-trans i j ks h k.1)

AllAbove-insert_id :
    (i j : ℕ) (ids : List ℕ) → i < j → AllAbove i ids → AllAbove i (insert_id j ids)
unfolding insert_id
AllAbove-insert_id i j [] h k = (h, tt)
AllAbove-insert_id i j (x ∷ ids) h k = ground (arith, AllAbove-insert_id i j ids h k.1)

insert_id-Ascending : (i : ℕ) (ids : List ℕ) → Ascending ids → Ascending (insert_id i ids)
unfolding insert_id
insert_id-Ascending i [] h = (tt, tt)
insert_id-Ascending i (j ∷ ids) h = elim (Bool-cases (i == j)) [
  | inl e ↦ rw e h
  | inr e ↦ elim (Bool-cases (ltb i j)) [
    | inl l ↦
        (let below : i < j = ground arith in
          rw (e, l) ((below, AllAbove-trans i j ids below h.0), h))
    | inr l ↦
        rw (e, l) (AllAbove-insert_id j i ids (ground arith) h.0, insert_id-Ascending i ids h.1)
  ]
]

pub ordered_ids-Ascending : (ids : List ℕ) → Ascending (ordered_ids ids)
unfolding ordered_ids
ordered_ids-Ascending [] = tt
ordered_ids-Ascending (i ∷ ids) =
    insert_id-Ascending i (ordered_ids ids) (ordered_ids-Ascending ids)

not_above : (i : ℕ) (ids : List ℕ) → AllAbove i ids → contains ids i ≡ false
unfolding contains
not_above i [] h = refl
not_above i (j ∷ ids) h = ground (arith, not_above i ids h.1)

Ascending-Distinct : (ids : List ℕ) → Ascending ids → Distinct ids
Ascending-Distinct [] h = tt
Ascending-Distinct (i ∷ ids) h = (not_above i ids h.0, Ascending-Distinct ids h.1)

map_congr :
    {A : Type 0} (f g : ℕ → A) (ids : List ℕ)
    → ((j : ℕ) → contains ids j ≡ true → f j ≡ g j)
    → map f ids ≡ map g ids
unfolding contains
map_congr f g [] h = refl
map_congr f g (i ∷ ids) h = ground (arith, h i, map_congr f g ids (λ j k. h j (ground arith)))

-- The decisions that the rows as they stand call for.
abbrev pub verdicts : ℕ → List ℕ → Rows → List MaxDeliveryDecision
verdicts now ids rows = map (λ i. decide_max_delivery i (observed_row now (get_row i rows))) ids

abbrev pub Carried : ℕ → List ℕ → Rows → Rows × List MaxDeliveryDecision → Type 0
Carried now ids rows result =
    (result.1 ≡ verdicts now ids rows)
    × ((j : ℕ)
        → get_row j result.0
          ≡ (if contains ids j then given_up now (get_row j rows) else get_row j rows))
    × ((j : ℕ) → count_where (has_id j) result.0 ≡ count_where (has_id j) rows)

apply_decisions-Carried :
    (now : ℕ) (ids : List ℕ) (observed : List ObservedInvestigation) (rows : Rows)
    → Distinct ids
    → ((j : ℕ) → count_where (has_id j) rows ≤ 1)
    → ((j : ℕ) → contains ids j ≡ true → by_id j observed ≡ observed_row now (get_row j rows))
    → Carried now ids rows (apply_decisions ids observed rows)
unfolding apply_decisions contains
apply_decisions-Carried now [] observed rows d u o = (refl, λ j. refl, λ j. refl)
apply_decisions-Carried now (i ∷ ids) observed rows d u o =
    let after =
      (apply_decision (verdict now i rows (u i)) (verdict now i rows (u i)).mutation rows).0 in
    let here = verdict_applied now i rows (u i) in
    let there = verdict_elsewhere now i rows (u i) in
    let other =
      λ (j : ℕ) (k : contains ids j ≡ true). let apart : j ≢ i = λ e. ground arith in apart in
    let rest =
      apply_decisions-Carried now ids observed after d.1 (λ j. omega (arith, u j, (there j).0))
        (λ j k. o j (ground arith) ∙ ap (observed_row now) (sym ((there j).1 (other j k)))) in
    rw (o i (ground arith)) (
      cc (
        here.0,
        rest.0,
        map_congr (λ j. decide_max_delivery j (observed_row now (get_row j after)))
            (λ j. decide_max_delivery j (observed_row now (get_row j rows))) ids
            (λ j k. ap (λ r. decide_max_delivery j (observed_row now r)) ((there j).1 (other j k))),
      ),
      λ j. rw (rest.1 j) (elim (Bool-cases (j == i)) [
        | inl e ↦ (let same : j ≡ i = (==_iff j i).0 e in rw (e, same) (rw d.0 here.1))
        | inr e ↦ (let apart : j ≢ i = λ same. ground arith in rw (e, (there j).1 apart))
      ]),
      λ j. rest.2 j ∙ (there j).0,
    )

-- What retention leaves of a row: an active row stays, and a finished one if it was not finished before
-- the cutoff.
abbrev pub retained : ℕ → Option Investigation → Option Investigation
retained cutoff none = none
retained cutoff (some r) =
    if is_active r
    then some r
    else elim r.completed_at [ none ↦ some r | some t ↦ if ltb t cutoff then none else some r ]

retained-delete_where :
    (cutoff : ℕ) (o : Option Investigation)
    → (if satisfies (is_expired_investigation cutoff) o then none else o) ≡ retained cutoff o
unfolding is_expired_investigation
retained-delete_where cutoff none = refl
retained-delete_where cutoff (some r) = by r.completed_at refl (Bool-cases (is_active r))
  where
    by :
        (o : Option ℕ)
        → r.completed_at ≡ o
        → (is_active r ≡ true) ⊎ (is_active r ≡ false)
        → (if satisfies (is_expired_investigation cutoff) (some r) then none else some r)
          ≡ retained cutoff (some r)
    by o e (inl a) = rw a refl
    by none e (inr a) = ground (arith, a, e)
    by (some t) e (inr a) = ground (arith, a, e)

-- Where keys are unique, one reconciliation pass decides each notified investigation once, in
-- ascending order of the keys, by its row as it was when the pass began, reports these decisions and
-- the number of failed ones, and carries every decision out: a notified row that is active, unless a
-- lease on it runs, is closed as failed. Of the rows as the decisions leave them the pass removes
-- those that were finished before the retention cutoff, and every other row keeps its contents.
pub reconcile_decisions :
    (retention_days clock now : ℕ) (notified : List ℕ) (db : Database)
    → ((j : ℕ) → count_where (has_id j) db.investigations ≤ 1)
    → let ids = ordered_ids notified in
      let (after, result) = execute retention_days clock now notified db in
      Ascending ids
      × (result.investigation_results ≡ verdicts now ids db.investigations)
      × (result.max_deliver_exhausted ≡ count_where is_failed (verdicts now ids db.investigations))
      × ((j : ℕ)
          → get_row j after.investigations
            ≡ retained (clock - retention_days * day) (
                if contains notified j
                then given_up now (get_row j db.investigations)
                else get_row j db.investigations))
unfolding execute delete_expired
reconcile_decisions retention_days clock now notified db unique =
    let rows = db.investigations in
    let ids = ordered_ids notified in
    let cutoff = clock - retention_days * day in
    let decided_rows = (apply_decisions ids (read_for_update now ids rows) rows).0 in
    let carried =
      apply_decisions-Carried now ids (read_for_update now ids rows) rows
        (Ascending-Distinct ids (ordered_ids-Ascending notified)) unique
        (λ j k. by_id-read_for_update now j ids rows k) in
    (
      ordered_ids-Ascending notified,
      carried.0,
      ap (count_where is_failed) carried.0,
      λ j.
          get_row-delete_where j (is_expired_investigation cutoff) decided_rows
            (omega (arith, unique j, carried.2 j))
          ∙ retained-delete_where cutoff (get_row j decided_rows)
          ∙ ap (retained cutoff) (rw (← contains-ordered_ids j notified) (carried.1 j)),
    )
