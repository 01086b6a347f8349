-- ===== src/Worker/Report.antt =====
-- The Markdown report: domain/report.py of the worker. `timestamp` is the text of `generated_at` in UTC.
use backend_engineering_note.Prelude.{String, List, [], ◌∷◌, append_text}
use backend_engineering_note.Worker.Analysis.{ExceptionAnalysis}
use backend_engineering_note.Worker.Comment.{confidence_label}

unfoldable pub concat : List String → String
concat [] = ""
concat (s ∷ rest) = append_text s (concat rest)

unfoldable pub render_report : String → ExceptionAnalysis → String → String
unfolding concat
render_report exception_id analysis timestamp = concat (
    "# Exception Analysis Report\n\n| Field | Value |\n|---|---|\n| Exception ID | `"
    ∷ exception_id
    ∷ "` |\n| Analysis timestamp | "
    ∷ timestamp
    ∷ " |\n| Reason code | `"
    ∷ analysis.reason_code
    ∷ "` |\n| Resolution code | `"
    ∷ analysis.resolution_code
    ∷ "` |\n| Confidence | "
    ∷ confidence_label analysis.confidence
    ∷ " |\n\n## Short analysis\n\n"
    ∷ analysis.short_analysis
    ∷ "\n\n## Reasoning\n\n"
    ∷ analysis.reasoning
    ∷ "\n\n## Explanation\n\n"
    ∷ analysis.explanation
    ∷ "\n"
    ∷ [])
