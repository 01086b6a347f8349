-- ===== src/Worker/Comment/Length.antt =====
-- Comments never exceed their limit, and a validated one is not cut.
use backend_engineering_note.Prelude.{
  ℕ, ◌-◌, ◌≤◌, ◌≡◌, pos, sub_ℕ, String, some, arith, leb, text_length, append_text,
  text_length-append_text, text_length-take_text_le, text_length-rstrip_le, take_text, rstrip,
  Bool-cases, inl, inr,
}
use backend_engineering_note.Worker.Analysis.{Confidence, high, medium, low, ExceptionAnalysis}
use backend_engineering_note.Worker.Comment.{
  confidence_prefix, max_confidence_prefix_length, truncate_text, render_comment,
  validate_comment_length, fits,
}

prefix_bound : (c : Confidence) → text_length (confidence_prefix c) ≤ 19
prefix_bound high = omega arith
prefix_bound medium = omega arith
prefix_bound low = omega arith

-- A text cut to a length is no longer than that length, and a text that fits is left alone.
pub truncate_text_bound :
    (text : String) (max_length : ℕ)
    → (t : String) × (truncate_text text (pos max_length) ≡ some t) × (text_length t ≤ max_length)
unfolding truncate_text
truncate_text_bound text n = elim (Bool-cases (leb (text_length text) n)) [
  | inl e ↦ (text, rw e, ground arith)
  | inr e ↦ elim (Bool-cases (leb n 3)) [
    | inl l ↦ (take_text n text, rw (e, l), text_length-take_text_le n text)
    | inr l ↦ (
      append_text (rstrip (take_text (n - 3) text)) "...",
      rw (e, l),
      ground (
        arith,
        text_length-append_text (rstrip (take_text (n - 3) text)) "...",
        text_length-rstrip_le (take_text (n - 3) text),
        text_length-take_text_le (n - 3) text,
      ),
    )
  ]
]

-- Whatever the analysis, a comment is rendered for every limit that has room for the longest
-- confidence prefix, and it keeps within the limit.
pub render_comment_bound :
    (analysis : ExceptionAnalysis) (limit : ℕ)
    → max_confidence_prefix_length ≤ limit
    → (c : String) × (render_comment analysis limit ≡ some c) × (text_length c ≤ limit)
unfolding render_comment
render_comment_bound analysis limit h =
    let prefix = confidence_prefix analysis.confidence in
    let small : text_length prefix ≤ limit = omega (arith, prefix_bound analysis.confidence) in
    let room : sub_ℕ limit (text_length prefix) ≡ pos (limit - text_length prefix) = ground arith in
    let (t, cut, short) =
      truncate_text_bound analysis.short_analysis (limit - text_length prefix) in
    (append_text prefix t, rw (room, cut), omega (arith, text_length-append_text prefix t))

-- A comment whose analysis passed the length check for the limit carries the confidence prefix and
-- the whole short analysis.
pub render_comment_complete :
    (analysis : ExceptionAnalysis) (limit : ℕ)
    → validate_comment_length analysis limit ≡ fits
    → render_comment analysis limit
      ≡ some (append_text (confidence_prefix analysis.confidence) analysis.short_analysis)
unfolding render_comment validate_comment_length
render_comment_complete analysis limit h =
    let prefix = confidence_prefix analysis.confidence in
    let small : text_length prefix ≤ 19 = prefix_bound analysis.confidence in
    let room : sub_ℕ limit (text_length prefix) ≡ pos (limit - text_length prefix) = ground arith in
    rw room (ground arith)
