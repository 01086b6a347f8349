-- ===== src/Worker/Analysis.antt =====
-- The validated result of an investigation and its guard: domain/analysis.py of the worker.
use backend_engineering_note.Prelude.{
  String, Bool, false, not, ◌||◌, List, [], ◌∷◌, ◌++◌, if◌then◌else◌, str_eq,
}

pub data Confidence : Type 0 where
  high medium low : Confidence

pub record ExceptionAnalysis : Type 0 where
  pub explanation : String
  pub reasoning : String
  pub reason_code : String
  pub resolution_code : String
  pub short_analysis : String
  pub confidence : Confidence

-- `value in codes`
unfoldable pub has_code : List String → String → Bool
has_code [] value = false
has_code (c ∷ cs) value = str_eq c value || has_code cs value

-- `len(set(codes)) != len(codes)`
unfoldable pub has_duplicates : List String → Bool
unfolding has_code
has_duplicates [] = false
has_duplicates (c ∷ cs) = has_code cs c || has_duplicates cs

-- `CodeVocabulary.__post_init__`
unfoldable pub is_vocabulary : List String → Bool
unfolding has_duplicates
is_vocabulary [] = false
is_vocabulary (c ∷ cs) = not (has_duplicates (c ∷ cs))

pub data CodeError : Type 0 where
  reason_code_unknown resolution_code_unknown : CodeError

-- The errors that `validate_codes` joins in one exception; none is raised if there are none.
unfoldable pub validate_codes : ExceptionAnalysis → List String → List String → List CodeError
unfolding has_code
validate_codes analysis reason_codes resolution_codes =
    (if has_code reason_codes analysis.reason_code then [] else reason_code_unknown ∷ [])
    ++ (if has_code resolution_codes analysis.resolution_code
        then []
        else resolution_code_unknown ∷ [])
