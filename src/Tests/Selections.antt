-- ===== src/Tests/Selections.antt =====
-- The theorem on selection, on two candidates in pages of one, the first with a completed
-- investigation.
use backend_engineering_note.Prelude.{
  ℕ, ◌≡◌, refl, arith, String, Option, none, some, List, [], ◌∷◌, ◌++◌, take, if◌then◌else◌, str_eq,
}
use backend_engineering_note.Orchestrator.Accept.{from_keys}
use backend_engineering_note.Orchestrator.Select.{
  CandidateCursor, selected, advances, key_lt, is_completed, select,
}
use backend_engineering_note.Orchestrator.Select.First.{open_ids}
use backend_engineering_note.Orchestrator.Select.Pages.{IsSource, select_first}
use backend_engineering_note.Tests.{two_rows}

abbrev early : CandidateCursor
early = record { created_at = 3; external_id = "E-9"; pk = "01" }

abbrev late : CandidateCursor
late = record { created_at = 4; external_id = "E-2"; pk = "02" }

abbrev candidates : List CandidateCursor
candidates = early ∷ late ∷ []

abbrev past : String → List CandidateCursor → List CandidateCursor
past e [] = []
past e (c ∷ cs) = if str_eq c.external_id e then cs else past e cs

abbrev read_page : ℕ → Option CandidateCursor → Option (List CandidateCursor)
read_page n none = some (take 1 candidates)
read_page n (some c) = some (take 1 (past c.external_id candidates))

source_next :
    (n : ℕ) (xs ys : List CandidateCursor) (c : CandidateCursor)
    → candidates ≡ xs ++ (c ∷ ys)
    → read_page n (some c) ≡ some (take 1 ys)
source_next n [] ys c h =
    let key : c.external_id ≡ "E-9" = ground (arith, h) in
    let rest : ys ≡ late ∷ [] = ground (arith, h) in rw (key, rest) refl
source_next n (x ∷ []) ys c h =
    let key : c.external_id ≡ "E-2" = ground (arith, h) in
    let rest : ys ≡ [] = ground (arith, h) in rw (key, rest) refl
source_next n (x ∷ y ∷ []) ys c h = absurd (ground (arith, h))
source_next n (x ∷ y ∷ z ∷ xs) ys c h = absurd (ground (arith, h))

candidates-IsSource : IsSource 1 read_page candidates
unfolding advances key_lt
candidates-IsSource = record { ascending = refl; first = λ n. refl; next = source_next }

select_first_example :
    select 1 read_page (λ n. two_rows) 1 3 0 none []
    ≡ selected (take 1 (from_keys (open_ids (is_completed two_rows) candidates)))
select_first_example =
    select_first 0 read_page two_rows 1 candidates candidates-IsSource 3 (omega arith) (omega arith)
