-- ===== src/Tests/Attempts.antt =====
-- The theorems on one attempt, on a run that writes the codes and the comment.
use backend_engineering_note.Prelude.{some, ◌+◌, ◌≡◌, refl, true, false, pos, none, [], ◌∷◌}
use backend_engineering_note.Platform.Table.{update_where, count_where, first_where}
use backend_engineering_note.Platform.Update.{get_row, update_row}
use backend_engineering_note.Worker.Exec.{
  ok, World, Session, committed, lift, pure, read, require_update, send, ◌>>=◌,
}
use backend_engineering_note.Worker.Exec.Rules.{Sends}
use backend_engineering_note.Worker.Analysis.{
  ExceptionAnalysis, high, validate_codes, is_vocabulary, has_duplicates, has_code,
}
use backend_engineering_note.Worker.Comment.{validate_comment_length, render_comment}
use backend_engineering_note.Worker.Context.{ControlContext, ControlManual, codes_of}
use backend_engineering_note.Worker.Report.{render_report}
use backend_engineering_note.Worker.Repository.{
  is_owned, owned_update, persist_analysis, record_write_back_step, step_values, complete,
  complete_values,
}
use backend_engineering_note.Worker.Checkpoints.{
  written, completed_checkpoint, checkpoint_outcome, require_successful_outcome,
  write_back_complete, checkpoint_of, checkpoint_exception_version,
}
use backend_engineering_note.Worker.Investigate.{
  Services, WriteBackSettings, require_owned, post_validate, conclude, or_existing, load_owned,
  new_analysis, resolve_by, resolve_analysis, record_outcome, send_codes, write_codes, send_comment,
  write_comment, finish, proceed, run, execute,
}
use backend_engineering_note.Worker.Investigate.Sending.{proceed-Sends, column_budget}
use backend_engineering_note.Worker.Investigate.Steps.{IsLeased, Known}
use backend_engineering_note.Worker.Investigate.Completes.{Completed, execute_completes}
use backend_engineering_note.Tests.{held_row, held_rows, held_rows-IsConsistent}

abbrev manual : ControlManual
manual = record { control_name = "positions"; config_md5 = "d41d8"; content = "manual" }

abbrev pub context : ControlContext
context = record {
  generation = 3;
  positions = manual;
  reference = manual;
  reason_codes = record { code = "TIMING"; name = "Timing"; description = none } ∷ [];
  resolution_codes = record { code = "WAIT"; name = "Wait"; description = none } ∷ [];
  positions_rec_schema = "positions";
  positions_tenant_schema = "tenant";
  reference_rec_schema = "reference";
  reference_tenant_schema = "tenant";
  reason_code_feature_id = "11";
  resolution_code_feature_id = "12";
}

abbrev late_fill : ExceptionAnalysis
late_fill = record {
  explanation = "The fill arrived after the cut-off.";
  reasoning = "The trade time is later.";
  reason_code = "TIMING";
  resolution_code = "WAIT";
  short_analysis = "Late fill.";
  confidence = high;
}

abbrev pub services : Services
services = record {
  resolve = ok context;
  fetch = λ e s. ok (record {
    exception_pk = 1 ∷ [];
    exception_version = pos 4;
    exception_view = [];
    records = [];
  });
  analyze = λ e d c. ok late_fill;
  store_report = λ i report. ok "s3://reports/7.md";
  write_codes = λ d c a v. ok (record { outcome = written; detail = none });
  write_comment = λ c r. ok (record { outcome = written; detail = none });
  timestamp = "2026-01-01T00:00:00Z";
  encoded_length = λ report. 400;
}

abbrev pub settings : WriteBackSettings
settings = record { record_comment_limit = 200; comment_enabled = true; codes_enabled = true }

abbrev pub session : Session
session = record { others = λ n rows. rows; now = λ n. 12 + n; commit = λ n. committed }

abbrev world : World
world = record { rows = held_rows; sent = []; tick = 0 }

pub session-IsLeased : IsLeased session 7 3
session-IsLeased = record {
  quiet = λ n rows r e h. (r.lease_expires_at, r.last_heartbeat_at, e);
  keyed = λ n rows h. h;
}

world-Known : Known 7 3 (held_row 7 3) world
unfolding get_row first_where
world-Known = record {
  unique = held_rows-IsConsistent.unique_id 7;
  found = (some 40, some 10, refl);
  held = refl;
}

attempt_succeeds : (execute session services settings 300 7 3 world).0 ≡ none
unfolding execute run load_owned proceed finish write_codes write_comment send_codes send_comment
    record_outcome resolve_analysis resolve_by new_analysis or_existing conclude post_validate
    require_owned read require_update send lift pure ◌>>=◌ get_row update_row update_where
    count_where first_where is_owned owned_update persist_analysis record_write_back_step
    step_values complete complete_values completed_checkpoint checkpoint_outcome
    require_successful_outcome write_back_complete checkpoint_of checkpoint_exception_version
    validate_codes is_vocabulary has_duplicates has_code validate_comment_length render_comment
    codes_of render_report
attempt_succeeds = refl

execute_completes_example : Completed 7 (execute session services settings 300 7 3 world).1
execute_completes_example =
    execute_completes session services settings 300 7 3 session-IsLeased (held_row 7 3) world
      world-Known attempt_succeeds

proceed-Sends_example :
    Sends
      (column_budget (held_row 7 3).codes_outcome)
      (column_budget (held_row 7 3).comment_outcome)
      (proceed session services settings 300 7 3 (held_row 7 3) false)
proceed-Sends_example = proceed-Sends session services settings 300 7 3 (held_row 7 3) false
