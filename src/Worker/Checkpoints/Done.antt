-- ===== src/Worker/Checkpoints/Done.antt =====
-- A checkpoint that counts as done holds the value of an outcome that is allowed.
use backend_engineering_note.Prelude.{
  ◌≡◌, String, Bool, true, Option, none, some, arith, str_eq_iff,
}
use backend_engineering_note.Worker.Exec.{ok}
use backend_engineering_note.Worker.Checkpoints.{
  WriteBackOutcome, outcome_value, outcome_of, completed_checkpoint,
}

outcome_of-eq_some :
    (v : String) (o : WriteBackOutcome) → outcome_of v ≡ some o → v ≡ outcome_value o
unfolding outcome_of
outcome_of-eq_some v o h = ground (
  arith,
  str_eq_iff v "written",
  str_eq_iff v "skipped_version_conflict",
  str_eq_iff v "skipped_disabled",
  str_eq_iff v "failed",
)

-- What `completed_checkpoint` returns was recorded under its value, and is allowed.
pub completed_checkpoint-eq_some :
    (value : Option String) (allowed : WriteBackOutcome → Bool) (o : WriteBackOutcome)
    → completed_checkpoint value allowed ≡ ok (some o)
    → (value ≡ some (outcome_value o)) × (allowed o ≡ true)
unfolding completed_checkpoint
completed_checkpoint-eq_some none allowed o h = absurd (ground arith)
completed_checkpoint-eq_some (some v) allowed o h =
    (ground (arith, outcome_of-eq_some v o), ground arith)
