-- ===== src/Tests/Comments.antt =====
-- The theorems on comments and checkpoints, on one analysis.
use backend_engineering_note.Prelude.{
  ◌≤◌, ◌≡◌, refl, String, pos, some, arith, append_text, text_length,
}
use backend_engineering_note.Platform.Rows.{Investigation}
use backend_engineering_note.Worker.Exec.{ok}
use backend_engineering_note.Worker.Analysis.{ExceptionAnalysis, medium}
use backend_engineering_note.Worker.Comment.{
  render_comment, confidence_prefix, validate_comment_length,
}
use backend_engineering_note.Worker.Comment.Length.{render_comment_bound, render_comment_complete}
use backend_engineering_note.Worker.Checkpoints.{
  checkpoint_of, analysis_from_checkpoint, checkpoint_exception_version,
}
use backend_engineering_note.Worker.Checkpoints.RoundTrip.{checkpoint_round_trip}
use backend_engineering_note.Tests.{new_row}

abbrev late_fill : ExceptionAnalysis
late_fill = record {
  explanation = "The fill arrived after the cut-off.";
  reasoning = "The trade time is later.";
  reason_code = "TIMING";
  resolution_code = "WAIT";
  short_analysis = "Late fill.";
  confidence = medium;
}

render_comment_bound_example :
    (c : String) × (render_comment late_fill 26 ≡ some c) × (text_length c ≤ 26)
render_comment_bound_example = render_comment_bound late_fill 26 (omega arith)

render_comment_complete_example :
    render_comment late_fill 80
    ≡ some (append_text (confidence_prefix late_fill.confidence) late_fill.short_analysis)
unfolding validate_comment_length
render_comment_complete_example = render_comment_complete late_fill 80 refl

abbrev saved_row : Investigation
saved_row = record (new_row 7 "E-1") {
  analysis = some (checkpoint_of late_fill (pos 4));
  analysis_persisted_at = some 12;
}

checkpoint_round_trip_example :
    (analysis_from_checkpoint saved_row.analysis ≡ ok late_fill)
    × (checkpoint_exception_version saved_row (pos 9) ≡ pos 4)
checkpoint_round_trip_example = checkpoint_round_trip late_fill (pos 4) (pos 9) saved_row refl refl
