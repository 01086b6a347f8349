-- ===== src/Worker/Comment.antt =====
-- The record comment and its length budget: domain/comment.py of the worker. A negative length
-- raises `ValueError`, which is `none`.
pub mod Length
use backend_engineering_note.Prelude.{
  ℕ, ◌-◌, ℤ, pos, negsuc, sub_ℕ, String, Bool, Option, none, some, if◌then◌else◌, leb, ltb, max,
  text_length, take_text, append_text, rstrip,
}
use backend_engineering_note.Worker.Analysis.{Confidence, high, medium, low, ExceptionAnalysis}

abbrev pub confidence_label : Confidence → String
confidence_label high = "High"
confidence_label medium = "Medium"
confidence_label low = "Low"

abbrev pub confidence_prefix : Confidence → String
confidence_prefix c = append_text "Confidence: " (append_text (confidence_label c) "\n")

abbrev pub max_confidence_prefix_length : ℕ
max_confidence_prefix_length =
    max (text_length (confidence_prefix high))
      (max (text_length (confidence_prefix medium)) (text_length (confidence_prefix low)))

unfoldable pub short_analysis_budget : ℕ → Option ℕ
short_analysis_budget record_comment_limit =
    if leb record_comment_limit max_confidence_prefix_length
    then none
    else some (record_comment_limit - max_confidence_prefix_length)

pub data CommentCheck : Type 0 where
  -- the limit itself is too small (`ValueError`), the text exceeds the budget
  -- (`InvalidAnalysisOutputError`), or it fits
  no_budget too_long fits : CommentCheck

abbrev pub check_against : ℕ → Option ℕ → CommentCheck
check_against size none = no_budget
check_against size (some budget) = if ltb budget size then too_long else fits

unfoldable pub validate_comment_length : ExceptionAnalysis → ℕ → CommentCheck
unfolding short_analysis_budget
validate_comment_length analysis record_comment_limit =
    check_against (text_length analysis.short_analysis) (short_analysis_budget record_comment_limit)

unfoldable pub truncate_text : String → ℤ → Option String
truncate_text text (negsuc n) = none
truncate_text text (pos max_length) =
    if leb (text_length text) max_length
    then some text
    else if leb max_length 3
    then some (take_text max_length text)
    else some (append_text (rstrip (take_text (max_length - 3) text)) "...")

abbrev pub prefixed : String → Option String → Option String
prefixed prefix none = none
prefixed prefix (some text) = some (append_text prefix text)

unfoldable pub render_comment : ExceptionAnalysis → ℕ → Option String
unfolding truncate_text
render_comment analysis record_comment_limit =
    let prefix = confidence_prefix analysis.confidence in
    prefixed prefix
      (truncate_text analysis.short_analysis (sub_ℕ record_comment_limit (text_length prefix)))
