-- ===== src/Worker/Checkpoints/RoundTrip.antt =====
-- What is persisted is what a later attempt reads.
use backend_engineering_note.Prelude.{ℤ, ◌≡◌, refl, true, some, is_some}
use backend_engineering_note.Platform.Rows.{Investigation}
use backend_engineering_note.Worker.Exec.{ok}
use backend_engineering_note.Worker.Analysis.{ExceptionAnalysis, Confidence, high, medium, low}
use backend_engineering_note.Worker.Checkpoints.{
  analysis_from_checkpoint, checkpoint_of, checkpoint_exception_version, confidence_value,
  confidence_of,
}
use backend_engineering_note.Platform.Rows.{text}

confidence_of_value : (c : Confidence) → confidence_of (some (text (confidence_value c))) ≡ ok c
unfolding confidence_of
confidence_of_value high = refl
confidence_of_value medium = refl
confidence_of_value low = refl

-- An analysis that was persisted as a checkpoint with its time is read back whole, and with the
-- version of the exception that it was made for, whatever the version is by then.
pub checkpoint_round_trip :
    (analysis : ExceptionAnalysis) (version current : ℤ) (state : Investigation)
    → state.analysis ≡ some (checkpoint_of analysis version)
    → is_some state.analysis_persisted_at ≡ true
    → (analysis_from_checkpoint state.analysis ≡ ok analysis)
      × (checkpoint_exception_version state current ≡ version)
unfolding analysis_from_checkpoint checkpoint_of checkpoint_exception_version
checkpoint_round_trip analysis version current state h p =
    (rw (h, confidence_of_value analysis.confidence), rw (h, checkpoint_exception_version, p))
