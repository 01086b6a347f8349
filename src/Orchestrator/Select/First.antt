-- ===== src/Orchestrator/Select/First.antt =====
-- What one page adds: the first exceptions, each once, that have no completed investigation.
use backend_engineering_note.Prelude.{
  ℕ, zero, suc, ◌+◌, ◌<◌, ◌≡◌, refl, sym, ap, ◌∙◌, String, Bool, true, false, not, List, [], ◌∷◌,
  ◌++◌, map, arith, if◌then◌else◌, ◌==◌, str_eq, str_eq_iff, length, length-append, take,
  Bool-cases, inl, inr,
}
use backend_engineering_note.Platform.Table.{
  count_where, count_where-append, delete_where, select_where,
}
use backend_engineering_note.Orchestrator.Accept.{from_keys}
use backend_engineering_note.Orchestrator.Select.{CandidateCursor, holds, take_page}

-- The exceptions of a page that have no completed investigation.
abbrev pub open_ids : (String → Bool) → List CandidateCursor → List String
open_ids history page =
    map (λ (c : CandidateCursor). c.external_id)
      (select_where (λ (c : CandidateCursor). not (history c.external_id)) page)

-- What is not chosen yet.
abbrev pub beyond : List String → List String → List String
beyond chosen es = delete_where (λ y. holds y chosen) es

pub append_nil : {A : Type 0} (xs : List A) → (xs ++ []) ≡ xs
append_nil [] = refl
append_nil (x ∷ xs) = ap (λ l. x ∷ l) (append_nil xs)

append_assoc : {A : Type 0} (xs ys zs : List A) → ((xs ++ ys) ++ zs) ≡ (xs ++ (ys ++ zs))
append_assoc [] ys zs = refl
append_assoc (x ∷ xs) ys zs = ap (λ l. x ∷ l) (append_assoc xs ys zs)

-- A chosen exception need not be deleted again.
beyond-delete_chosen :
    (chosen : List String) (e : String) (es : List String)
    → holds e chosen ≡ true
    → beyond chosen (delete_where (λ y. str_eq y e) es) ≡ beyond chosen es
unfolding delete_where
beyond-delete_chosen chosen e [] h = refl
beyond-delete_chosen chosen e (x ∷ xs) h = elim (Bool-cases (str_eq x e)) [
  | inl s ↦
      let same : holds x chosen ≡ true = ap (λ y. holds y chosen) ((str_eq_iff x e).0 s) ∙ h in
      ground (arith, s, same, beyond-delete_chosen chosen e xs h)
  | inr s ↦ ground (arith, s, beyond-delete_chosen chosen e xs h)
]

holds-append :
    (y e : String) (chosen : List String)
    → holds y (chosen ++ (e ∷ [])) ≡ (if str_eq e y then true else holds y chosen)
unfolding count_where
holds-append y e chosen = ground (arith, count_where-append (λ x. str_eq x y) chosen (e ∷ []))

-- To choose one more is to delete it from what is left.
beyond-append :
    (chosen : List String) (e : String) (es : List String)
    → beyond (chosen ++ (e ∷ [])) es ≡ beyond chosen (delete_where (λ y. str_eq y e) es)
unfolding delete_where
beyond-append chosen e [] = refl
beyond-append chosen e (x ∷ xs) =
    ground
      (arith, holds-append x e chosen, beyond-append chosen e xs, str_eq_iff x e, str_eq_iff e x)

take_nil : (k : ℕ) → take {A = String} k [] ≡ []
take_nil zero = refl
take_nil (suc k) = refl

-- A page adds the first of its open exceptions that are not chosen yet, as far as there is room.
pub take_page_lem :
    (maximum k : ℕ) (history : String → Bool) (page : List CandidateCursor) (chosen : List String)
    → length chosen + suc k ≡ maximum
    → take_page maximum history page chosen
      ≡ chosen ++ take (suc k) (beyond chosen (from_keys (open_ids history page)))
unfolding take_page select_where from_keys delete_where
take_page_lem maximum k history [] chosen h = sym (append_nil chosen)
take_page_lem maximum k history (row ∷ rows) chosen h =
    elim (Bool-cases (history row.external_id)) [
      | inl c ↦
          let room : (length chosen == maximum) ≡ false = ground (arith, h) in
          rw (c, room) (take_page_lem maximum k history rows chosen h)
      | inr c ↦ elim (Bool-cases (holds row.external_id chosen)) [
        | inl d ↦
            let room : (length chosen == maximum) ≡ false = ground (arith, h) in
            rw
              (
                c,
                d,
                room,
                beyond-delete_chosen chosen row.external_id (from_keys (open_ids history rows)) d,
              )
              (take_page_lem maximum k history rows chosen h)
        | inr d ↦
            rw (c, d)
              (by_room maximum k history rows chosen row.external_id h
                (λ l. take_page_lem maximum l history rows (chosen ++ (row.external_id ∷ []))))
      ]
    ]
  where
    by_room :
        (maximum k : ℕ) (history : String → Bool) (rows : List CandidateCursor)
        (chosen : List String) (e : String)
        → length chosen + suc k ≡ maximum
        → ((l : ℕ)
            → length (chosen ++ (e ∷ [])) + suc l ≡ maximum
            → take_page maximum history rows (chosen ++ (e ∷ []))
              ≡ (chosen ++ (e ∷ []))
                ++ take (suc l) (beyond (chosen ++ (e ∷ [])) (from_keys (open_ids history rows))))
        → (if length (chosen ++ (e ∷ [])) == maximum
            then chosen ++ (e ∷ [])
            else take_page maximum history rows (chosen ++ (e ∷ [])))
          ≡ chosen
            ++ (e
                ∷ take k (
                    beyond chosen
                      (delete_where (λ y. str_eq y e) (from_keys (open_ids history rows)))))
    by_room maximum zero history rows chosen e h ih =
        let full : (length (chosen ++ (e ∷ [])) == maximum) ≡ true =
          ground (arith, length-append chosen (e ∷ []), h) in
        rw full refl
    by_room maximum (suc l) history rows chosen e h ih =
        let room : (length (chosen ++ (e ∷ [])) == maximum) ≡ false =
          ground (arith, length-append chosen (e ∷ []), h) in
        let rest = from_keys (open_ids history rows) in
        rw (room, sym (beyond-append chosen e rest))
          (ih l (omega (arith, length-append chosen (e ∷ []), h))
            ∙ append_assoc chosen (e ∷ []) (take (suc l) (beyond (chosen ++ (e ∷ [])) rest)))

beyond_nothing : (es : List String) → beyond [] es ≡ es
unfolding delete_where count_where
beyond_nothing [] = refl
beyond_nothing (e ∷ es) = ap (λ l. e ∷ l) (beyond_nothing es)

-- From nothing chosen, a page chooses the first of its open exceptions.
pub take_page_first :
    (maximum : ℕ) (history : String → Bool) (page : List CandidateCursor)
    → 0 < maximum
    → take_page maximum history page [] ≡ take maximum (from_keys (open_ids history page))
take_page_first zero history page h = absurd (omega arith)
take_page_first (suc k) history page h =
    take_page_lem (suc k) k history page [] (omega arith)
    ∙ ap (take (suc k)) (beyond_nothing (from_keys (open_ids history page)))
