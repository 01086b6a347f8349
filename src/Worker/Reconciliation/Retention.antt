-- ===== src/Worker/Reconciliation/Retention.antt =====
-- Retention removes finished data only, and no row that another row refers to.
use backend_engineering_note.Prelude.{
  ℕ, ◌<◌, ◌≡◌, Bool, false, not, List, arith, All, All-map, All-both, ◌==◌, is_some, ==_iff,
}
use backend_engineering_note.Platform.Table.{
  count_where, count_where_divided, select_where, delete_where, select_where-delete_where,
  count_where-delete_where, All-delete_where, All-delete_where_self, All-count_where_self,
}
use backend_engineering_note.Platform.Rows.{
  Investigation, OutboxEvent, ApiRequest, ApiRequestInvestigation, Database, is_active,
}
use backend_engineering_note.Worker.Repository.{Rows}
use backend_engineering_note.Worker.Reconciliation.{
  is_expired_event, is_expired_investigation, is_expired_request, references, is_cascaded,
  delete_expired,
}

abbrev pub is_unpublished : OutboxEvent → Bool
is_unpublished e = not (is_some e.published_at)

-- A retention pass leaves every active investigation and every unpublished event as it is, whatever
-- the cutoff.
pub delete_expired_keeps_pending :
    (cutoff : ℕ) (db : Database)
    → (select_where is_active (delete_expired cutoff db).0.investigations
        ≡ select_where is_active db.investigations)
      × (select_where is_unpublished (delete_expired cutoff db).0.outbox_events
          ≡ select_where is_unpublished db.outbox_events)
unfolding delete_expired is_expired_event is_expired_investigation
delete_expired_keeps_pending cutoff db = (
  select_where-delete_where is_active _ db.investigations (λ r h. ground arith),
  select_where-delete_where is_unpublished _ db.outbox_events (λ e h. ground arith),
)

abbrev pub is_request : ℕ → ApiRequest → Bool
is_request i q = q.id == i

abbrev pub is_investigation : ℕ → Investigation → Bool
is_investigation i r = r.id == i

-- The foreign keys: an investigation's request exists, and so do both ends of a membership.
pub record IsReferential (db : Database) : Type 0 where
  pub owners :
      All
        (λ (r : Investigation). 0 < count_where (is_request r.request_id) db.api_requests)
        db.investigations
  pub members :
      All
        (λ (m : ApiRequestInvestigation).
          (0 < count_where (is_investigation m.investigation_id) db.investigations)
          × (0 < count_where (is_request m.request_id) db.api_requests))
        db.memberships

kept_owner :
    (cutoff : ℕ) (rows : Rows) (requests : List ApiRequest) (i : ℕ)
    → 0 < count_where (references i) rows
    → count_where (is_request i) (delete_where (is_expired_request cutoff rows) requests)
      ≡ count_where (is_request i) requests
unfolding is_expired_request
kept_owner cutoff rows requests i h =
    count_where-delete_where (is_request i) _ requests
      λ q e. let same : q.id ≡ i = (==_iff q.id i).0 e in rw same (ground arith)

kept_owners :
    (cutoff : ℕ) (rows : Rows) (requests : List ApiRequest)
    → All (λ (r : Investigation). 0 < count_where (is_request r.request_id) requests) rows
    → All
        (λ (r : Investigation).
          0
          < count_where
              (is_request r.request_id)
              (delete_where (is_expired_request cutoff rows) requests))
        rows
kept_owners cutoff rows requests h =
    All-map _ _ rows (λ r k. omega (arith, k.1, kept_owner cutoff rows requests r.request_id k.0))
      (All-both _ _ rows
        (All-count_where_self (λ (r s : Investigation). references r.request_id s)
          (unfold references in λ r. ground arith) rows)
        h)

-- Both ends of a membership that no delete takes along are left if they existed.
not_cascaded :
    (p : Investigation → Bool) (q : ApiRequest → Bool) (rows : Rows) (requests : List ApiRequest)
    (m : ApiRequestInvestigation)
    → (0 < count_where (is_investigation m.investigation_id) rows)
      × (0 < count_where (is_request m.request_id) requests)
    → is_cascaded (select_where p rows) (select_where q requests) m ≡ false
    → (0 < count_where (is_investigation m.investigation_id) (delete_where p rows))
      × (0 < count_where (is_request m.request_id) (delete_where q requests))
unfolding is_cascaded
not_cascaded p q rows requests m there h = (
  ground (arith, there.0, count_where_divided (is_investigation m.investigation_id) p rows),
  ground (arith, there.1, count_where_divided (is_request m.request_id) q requests),
)

-- A retention pass keeps the foreign keys of investigations and memberships satisfied if they were,
-- whatever the cutoff.
pub delete_expired-IsReferential :
    (cutoff : ℕ) (db : Database) → IsReferential db → IsReferential (delete_expired cutoff db).0
unfolding delete_expired
delete_expired-IsReferential cutoff db h = record {
  owners =
      kept_owners cutoff (delete_where (is_expired_investigation cutoff) db.investigations)
        db.api_requests
        (All-delete_where _ (is_expired_investigation cutoff) db.investigations h.owners);
  members =
      All-map _ _ _
        (λ m k.
          not_cascaded (is_expired_investigation cutoff)
            (is_expired_request cutoff
              (delete_where (is_expired_investigation cutoff) db.investigations))
            db.investigations db.api_requests m k.0 k.1)
        (All-both _ _ _ (All-delete_where _ _ db.memberships h.members)
          (All-delete_where_self _ db.memberships));
}
