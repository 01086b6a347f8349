-- ===== src/Tests/Queries.antt =====
-- The theorem on a batch of statuses, on an exception that has a row and one that has none.
use backend_engineering_note.Prelude.{
  ◌≡◌, ◌≤◌, refl, some, none, String, List, [], ◌∷◌, map, length, strip,
}
use backend_engineering_note.Orchestrator.Domain.{record_of}
use backend_engineering_note.Orchestrator.Accept.{has_empty}
use backend_engineering_note.Orchestrator.Status.{InvestigationStatusItem, item}
use backend_engineering_note.Orchestrator.Status.Batch.{
  investigations, most_recent, validate_size, exception_item, query_status,
}
use backend_engineering_note.Orchestrator.Status.Batch.Answers.{AllTell, query_status-AllTell}
use backend_engineering_note.Tests.{held_row, held_rows}

abbrev asked : List String
asked = " E-1" ∷ "E-7" ∷ []

abbrev items : List InvestigationStatusItem
items = item (some (record_of (held_row 7 3))) none (some "E-1") ∷ item none none (some "E-7") ∷ []

told : query_status 5 (some asked) none held_rows ≡ investigations items
unfolding query_status validate_size has_empty strip exception_item most_recent
told = refl

query_status-AllTell_example : (length asked ≤ 5) × AllTell held_rows (map strip asked) items
query_status-AllTell_example = query_status-AllTell 5 asked held_rows items told
