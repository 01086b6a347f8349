-- ===== src/Orchestrator/Select/Split.antt =====
-- A list of candidates cut after a page.
use backend_engineering_note.Prelude.{
  ℕ, zero, suc, ◌-◌, ◌<◌, ◌≡◌, refl, sym, ap, ◌∙◌, true, Option, none, some, List, [], ◌∷◌, ◌++◌,
  arith, length, take, &&-eq_true,
}
use backend_engineering_note.Orchestrator.Select.{CandidateCursor, key_lt, advances, last_of}

module _ {A : Type 0} where
  abbrev pub drop : ℕ → List A → List A
  drop zero xs = xs
  drop (suc n) [] = []
  drop (suc n) (x ∷ xs) = drop n xs

  pub take-drop : (n : ℕ) (xs : List A) → xs ≡ take n xs ++ drop n xs
  take-drop zero xs = refl
  take-drop (suc n) [] = refl
  take-drop (suc n) (x ∷ xs) = ap (λ l. x ∷ l) (take-drop n xs)

  pub length-drop : (n : ℕ) (xs : List A) → length (drop n xs) ≡ length xs - n
  length-drop zero xs = omega arith
  length-drop (suc n) [] = omega arith
  length-drop (suc n) (x ∷ xs) = omega (arith, length-drop n xs)

  pub drop-short : (n : ℕ) (xs : List A) → length (take n xs) < n → drop n xs ≡ []
  drop-short zero xs h = absurd (omega arith)
  drop-short (suc n) [] h = refl
  drop-short (suc n) (x ∷ xs) h = drop-short n xs (omega (arith, h))

-- The rest of an ordered list is ordered from the last row of its first part.
pub advances-append :
    (cursor : Option CandidateCursor) (row : CandidateCursor) (xs ys : List CandidateCursor)
    → advances cursor (row ∷ (xs ++ ys)) ≡ true
    → (advances cursor (row ∷ xs) ≡ true) × (advances (some (last_of row xs)) ys ≡ true)
unfolding advances
advances-append none row [] ys h = (refl, h)
advances-append (some c) row [] ys h =
    let (a, b) = &&-eq_true (key_lt c row) (advances (some row) ys) h in (ground (arith, a), b)
advances-append none row (x ∷ xs) ys h = advances-append (some row) x xs ys h
advances-append (some c) row (x ∷ xs) ys h =
    let (a, b) = &&-eq_true (key_lt c row) (advances (some row) (x ∷ (xs ++ ys))) h in
    let (u, v) = advances-append (some row) x xs ys b in (ground (arith, a, u), v)

pub append_one :
    (zs : List CandidateCursor) (row : CandidateCursor) (ws : List CandidateCursor)
    → ((zs ++ (row ∷ [])) ++ ws) ≡ (zs ++ (row ∷ ws))
append_one [] row ws = refl
append_one (z ∷ zs) row ws = ap (λ l. z ∷ l) (append_one zs row ws)

pub split-last :
    (zs : List CandidateCursor) (row : CandidateCursor) (xs ys : List CandidateCursor)
    → (front : List CandidateCursor) × (zs ++ (row ∷ (xs ++ ys)) ≡ front ++ (last_of row xs ∷ ys))
split-last zs row [] ys = (zs, refl)
split-last zs row (x ∷ xs) ys =
    let (front, e) = split-last (zs ++ (row ∷ [])) x xs ys in
    (front, sym (append_one zs row (x ∷ (xs ++ ys))) ∙ e)
