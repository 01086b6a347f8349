-- ===== src/Platform/Consistency.antt =====
-- What holds of the rows of `investigations` between two transactions.
use backend_engineering_note.Prelude.{
  ℕ, ◌≤◌, ◌<◌, ◌≡◌, ◌≢◌, String, true, false, none, List, All, is_some,
}
use backend_engineering_note.Platform.Table.{count_where}
use backend_engineering_note.Platform.Rows.{
  Investigation, processing, has_id, is_active, is_active_for,
}

-- A lease is held exactly while a row is being processed, by a worker that has started it; a row is
-- stamped as completed exactly when it is no longer active.
pub record IsValid (r : Investigation) : Type 0 where
  pub owned : r.status ≡ processing → is_some r.worker_id ≡ true
  pub leased : r.status ≡ processing → is_some r.lease_expires_at ≡ true
  pub started : r.status ≡ processing → is_some r.started_at ≡ true
  pub attempted : r.status ≡ processing → 0 < r.attempt_count
  pub released : r.status ≢ processing → (r.worker_id ≡ none) × (r.lease_expires_at ≡ none)
  pub open_active : is_active r ≡ true → r.completed_at ≡ none
  pub closed_inactive : is_active r ≡ false → is_some r.completed_at ≡ true
  pub checkpointed : is_some r.analysis_persisted_at ≡ is_some r.analysis

-- The primary key, the unique key on the active rows of an exception, and valid rows.
pub record IsConsistent (rows : List Investigation) : Type 0 where
  pub unique_id : (i : ℕ) → count_where (has_id i) rows ≤ 1
  pub unique_active : (e : String) → count_where (is_active_for e) rows ≤ 1
  pub valid : All IsValid rows
