-- ===== src/Tests/Deliveries.antt =====
-- The theorems on deliveries, on one that is claimed and carried out.
use backend_engineering_note.Prelude.{
  Option, ℕ, ◌+◌, ◌≡◌, refl, arith, true, some, none, List, [], ◌∷◌, if◌then◌else◌,
}
use backend_engineering_note.Platform.Table.{update_where, count_where, first_where}
use backend_engineering_note.Platform.Update.{get_row, update_row}
use backend_engineering_note.Worker.Exec.{World, lift, pure, read, require_update, send, ◌>>=◌}
use backend_engineering_note.Worker.Analysis.{
  validate_codes, is_vocabulary, has_duplicates, has_code,
}
use backend_engineering_note.Worker.Comment.{validate_comment_length, render_comment}
use backend_engineering_note.Worker.Context.{codes_of}
use backend_engineering_note.Worker.Report.{render_report}
use backend_engineering_note.Worker.Repository.{
  is_owned, owned_update, persist_analysis, record_write_back_step, step_values, complete,
  complete_values,
}
use backend_engineering_note.Worker.Checkpoints.{
  completed_checkpoint, checkpoint_outcome, require_successful_outcome, write_back_complete,
  checkpoint_of, checkpoint_exception_version,
}
use backend_engineering_note.Worker.Investigate.{
  require_owned, post_validate, conclude, or_existing, load_owned, new_analysis, resolve_by,
  resolve_analysis, record_outcome, send_codes, write_codes, send_comment, write_comment, finish,
  proceed, run, execute,
}
use backend_engineering_note.Worker.Repository.{claim, claimable, claim_values}
use backend_engineering_note.Worker.Handler.{
  ack, nak, Handled, handled, action_ends, transact, remaining, unclaimed_reply, run_owned,
  owned_reply, handle_claim, handle,
}
use backend_engineering_note.Worker.Handler.Final.{handle_settles}
use backend_engineering_note.Worker.Handler.Recorded.{closed_row}
use backend_engineering_note.Worker.Handler.Delays.{handle_total, unclaimed_comes_back}
use backend_engineering_note.Worker.Handler.Heartbeat.{
  Round, extended, unreachable, heartbeat, within_lease, last_renewal, heartbeat-eq-within_lease,
}
use backend_engineering_note.Tests.{held_row, held_row-IsValid, two_rows, two_rows-IsConsistent}
use backend_engineering_note.Tests.Attempts.{services, settings, session, session-IsLeased}

abbrev start : World
start = record { rows = two_rows; sent = []; tick = 0 }

abbrev retry_delays : List ℕ
retry_delays = 1000000 ∷ 5000000 ∷ []

-- The action runs to its end, and nothing is cancelled.
abbrev delivered : Option Handled × World
delivered =
    handle session services settings 300 30 3 20 7 3 retry_delays (λ t. t) action_ends (λ w. w)
      start

acknowledged : delivered ≡ (some (handled ack "completed" "_NONE"), delivered.1)
unfolding execute run load_owned proceed finish write_codes write_comment send_codes send_comment
    record_outcome resolve_analysis resolve_by new_analysis or_existing conclude post_validate
    require_owned read require_update send lift pure ◌>>=◌ get_row update_row update_where
    count_where first_where is_owned owned_update persist_analysis record_write_back_step
    step_values complete complete_values completed_checkpoint checkpoint_outcome
    require_successful_outcome write_back_complete checkpoint_of checkpoint_exception_version
    validate_codes is_vocabulary has_duplicates has_code validate_comment_length render_comment
    codes_of render_report handle handle_claim transact claim claimable claim_values run_owned
    owned_reply
acknowledged = refl

handle_settles_example : closed_row (get_row 7 delivered.1.rows) ≡ true
handle_settles_example =
    handle_settles session services settings 300 30 3 20 7 3 retry_delays (λ t. t) session-IsLeased
      action_ends (λ w. w) start delivered.1 (handled ack "completed" "_NONE")
      (two_rows-IsConsistent.unique_id 7) acknowledged refl

handle_total_example : (h : Handled) × (delivered.0 ≡ some h)
handle_total_example =
    handle_total session services settings 300 30 3 20 7 3 retry_delays (λ t. t) (omega arith)
      action_ends (λ w. w) start

unclaimed_comes_back_example :
    (unclaimed_reply 15 (some (held_row 7 4)) ≡ nak (remaining 15 (some 40)))
    × (claimable 41 (held_row 7 4) ≡ true)
unclaimed_comes_back_example =
    unclaimed_comes_back 15 41 (held_row 7 4) (held_row-IsValid 7 4) refl (omega arith)

abbrev rounds : List Round
rounds = record { answer = extended; time = 20 } ∷ record { answer = unreachable; time = 45 } ∷ []

heartbeat-eq-within_lease_example :
    heartbeat 30 (10 + 30) rounds
    ≡ (if within_lease 30 10 rounds then some (last_renewal 10 rounds + 30) else none)
heartbeat-eq-within_lease_example = heartbeat-eq-within_lease 30 10 rounds
