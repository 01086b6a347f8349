-- ===== src/Worker/Investigate/Steps.antt =====
-- What the steps of an attempt leave in the row that the worker has in hand.
use backend_engineering_note.Prelude.{
  ℕ, ◌≤◌, ◌≡◌, refl, sym, subst, ap, ◌∙◌, String, true, Option, none, some, arith,
}
use backend_engineering_note.Platform.Table.{count_where}
use backend_engineering_note.Platform.Rows.{Investigation, has_id}
use backend_engineering_note.Platform.Update.{get_row, count_id-update_row}
use backend_engineering_note.Worker.Exec.{World, Session, read, require_update}
use backend_engineering_note.Worker.Exec.Rules.{Returns, Returns-bind, Returns-pure, Returns-raise}
use backend_engineering_note.Worker.Failure.{in_hand}
use backend_engineering_note.Worker.Repository.{
  Rows, WriteBackStep, is_owned, owned_update, record_write_back_step, step_values,
}
use backend_engineering_note.Worker.Repository.Effects.{
  owned_update_result, get_row-owned_update_self,
}
use backend_engineering_note.Worker.Checkpoints.{
  WriteBackOutcome, written, skipped_version_conflict, skipped_disabled, outcome_value, codes_done,
  comment_done,
}
use backend_engineering_note.Worker.Investigate.{
  Services, WriteBackSettings, conclude, record_outcome,
}

-- The row with another lease and heartbeat.
abbrev pub renewed : Option ℕ → Option ℕ → Investigation → Investigation
renewed expires beat r = record r { lease_expires_at = expires; last_heartbeat_at = beat }

-- What the lease gives a worker: while it has a row in hand, other sessions, the worker's heartbeat
-- among them, change no more than the lease and the heartbeat of that row; and they keep the primary
-- key.
pub record IsLeased (session : Session) (i w : ℕ) : Type 0 where
  pub quiet :
      (n : ℕ) (rows : Rows) (r : Investigation)
      → get_row i rows ≡ some r
      → in_hand w r ≡ true
      → (e : Option ℕ) × (b : Option ℕ) × (get_row i (session.others n rows) ≡ some (renewed e b r))
  pub keyed :
      (n : ℕ) (rows : Rows)
      → count_where (has_id i) rows ≤ 1
      → count_where (has_id i) (session.others n rows) ≤ 1

-- The row of the investigation is `r`, but for its lease and heartbeat, and the worker has it in hand.
pub record Known (i w : ℕ) (r : Investigation) (world : World) : Type 0 where
  pub unique : count_where (has_id i) world.rows ≤ 1
  pub found : (e : Option ℕ) × (b : Option ℕ) × (get_row i world.rows ≡ some (renewed e b r))
  pub held : in_hand w r ≡ true

abbrev pub Updated : ℕ → (ℕ → Option ℕ → Option ℕ → Investigation) → World → Type 0
Updated i f world =
    (now : ℕ) × (e : Option ℕ) × (b : Option ℕ) × (get_row i world.rows ≡ some (f now e b))
    × (count_where (has_id i) world.rows ≤ 1)

pub count_id-owned_update :
    (i w : ℕ) (f : Investigation → Investigation) (rows : Rows)
    → ((s : Investigation) → (f s).id ≡ s.id)
    → count_where (has_id i) (owned_update i w none f rows).0 ≡ count_where (has_id i) rows
unfolding owned_update
count_id-owned_update i w f rows same = count_id-update_row (is_owned w none) f same i i rows

in_hand-is_owned : (w : ℕ) (r : Investigation) → in_hand w r ≡ true → is_owned w none r ≡ true
unfolding is_owned
in_hand-is_owned w r h = ground arith

module _ (session : Session) (i w : ℕ) (leased : IsLeased session i w) where
  quiet-renewed :
      (n : ℕ) (rows : Rows) (r : Investigation)
      → in_hand w r ≡ true
      → ((e : Option ℕ) × (b : Option ℕ) × (get_row i rows ≡ some (renewed e b r)))
      → (e : Option ℕ) × (b : Option ℕ) × (get_row i (session.others n rows) ≡ some (renewed e b r))
  quiet-renewed n rows r held (e, b, found) = leased.quiet n rows (renewed e b r) found held

  pub read-Known :
      (r : Investigation)
      → Returns
          (Known i w r)
          (λ o world. (s : Investigation) × Known i w s world × (o ≡ some s))
          (read session (get_row i))
  unfolding read
  read-Known r = record {
    at = λ world o k t.
        let (e, b, still) = quiet-renewed world.tick world.rows r k.held k.found in
        (
          renewed e b r,
          record {
            unique = ground (arith, leased.keyed world.tick world.rows k.unique);
            found = (e, b, ground (arith, still));
            held = k.held;
          },
          ground (arith, still),
        );
  }

  -- An update that keeps the key is accepted, and leaves the row as updated.
  pub update-Known :
      (r : Investigation) (f : ℕ → Investigation → Investigation)
      → ((now : ℕ) (s : Investigation) → (f now s).id ≡ s.id)
      → Returns
          (Known i w r)
          (λ _ world. Updated i (λ now e b. f now (renewed e b r)) world)
          (require_update session (λ now. owned_update i w none (f now)))
  unfolding require_update
  update-Known r f same = record {
    at = λ world o k t.
        let now = session.now world.tick in
        let before = session.others world.tick world.rows in
        let (e, b, still) = quiet-renewed world.tick world.rows r k.held k.found in
        let one = leased.keyed world.tick world.rows k.unique in
        let owned = in_hand-is_owned w (renewed e b r) k.held in
        let accepted : (owned_update i w none (f now) before).1 ≡ true =
          owned_update_result i w none (f now) (same now) before one ∙ (rw still owned) in
        let stored : get_row i (owned_update i w none (f now) before).0
            ≡ some (f now (renewed e b r)) =
          get_row-owned_update_self i w none (f now) (same now) before ∙ (rw (still, owned)) in
        (
          now,
          e,
          b,
          ground (arith, accepted, stored),
          ground (arith, accepted, count_id-owned_update i w (f now) before (same now)),
        );
  }

abbrev pub CodesDone : Investigation → Type 0
CodesDone s =
    (o : WriteBackOutcome) × (s.codes_outcome ≡ some (outcome_value o)) × (codes_done o ≡ true)

abbrev pub CommentDone : Investigation → Type 0
CommentDone s =
    (o : WriteBackOutcome) × (s.comment_outcome ≡ some (outcome_value o)) × (comment_done o ≡ true)

-- The row in hand, with the write-back steps as they were loaded; with the codes written; with both.
abbrev pub Loaded : ℕ → ℕ → Investigation → World → Type 0
Loaded i w state world =
    (s : Investigation) × Known i w s world
    × (s.codes_outcome ≡ state.codes_outcome)
    × (s.comment_outcome ≡ state.comment_outcome)

abbrev pub Coded : ℕ → ℕ → Investigation → World → Type 0
Coded i w state world =
    (s : Investigation) × Known i w s world
    × CodesDone s
    × (s.comment_outcome ≡ state.comment_outcome)

abbrev pub Commented : ℕ → ℕ → World → Type 0
Commented i w world = (s : Investigation) × Known i w s world × CodesDone s × CommentDone s

pub Returns-conclude :
    (P : World → Type 0) (outcome : WriteBackOutcome) (detail : Option String)
    → Returns P (λ o w. P w × (o ≡ outcome)) (conclude outcome detail)
unfolding conclude
Returns-conclude P WriteBackOutcome.failed detail = Returns-raise _ _ _
Returns-conclude P written detail = Returns-pure _ _ _ (λ w p. (p, refl))
Returns-conclude P skipped_version_conflict detail = Returns-pure _ _ _ (λ w p. (p, refl))
Returns-conclude P skipped_disabled detail = Returns-pure _ _ _ (λ w p. (p, refl))

abbrev pub Stepped :
    ℕ → ℕ → Investigation → WriteBackStep → WriteBackOutcome → Option String → World → Type 0
Stepped i w s step outcome detail world =
    (now : ℕ) × Known i w (step_values step (outcome_value outcome) detail now s) world

step_keeps_id :
    (step : WriteBackStep) (outcome : String) (detail : Option String) (now : ℕ) (r : Investigation)
    → (step_values step outcome detail now r).id ≡ r.id
unfolding step_values
step_keeps_id WriteBackStep.comment outcome detail now r = refl
step_keeps_id WriteBackStep.codes outcome detail now r = refl

step_commutes :
    (step : WriteBackStep) (outcome : String) (detail : Option String) (now : ℕ) (e b : Option ℕ)
    (r : Investigation)
    → step_values step outcome detail now (renewed e b r)
      ≡ renewed e b (step_values step outcome detail now r)
unfolding step_values
step_commutes WriteBackStep.comment outcome detail now e b r = refl
step_commutes WriteBackStep.codes outcome detail now e b r = refl

step_keeps_hand :
    (w : ℕ) (step : WriteBackStep) (outcome : String) (detail : Option String) (now : ℕ)
    (r : Investigation)
    → in_hand w r ≡ true
    → in_hand w (step_values step outcome detail now r) ≡ true
unfolding step_values
step_keeps_hand w WriteBackStep.comment outcome detail now r h = h
step_keeps_hand w WriteBackStep.codes outcome detail now r h = h

module _ (session : Session) (services : Services) (settings : WriteBackSettings)
    (report_inline_limit i w : ℕ) (leased : IsLeased session i w) where
  pub Returns-step :
      (s : Investigation) (step : WriteBackStep) (outcome : WriteBackOutcome)
      (detail : Option String)
      → Returns
          (Known i w s)
          (λ _ world. Stepped i w s step outcome detail world)
          (require_update session
            (λ now. record_write_back_step i w step (outcome_value outcome) detail now))
  unfolding record_write_back_step
  Returns-step s step outcome detail = record {
    at = λ world x k e.
        let (now, expires, beat, stored, one) =
          (update-Known session i w leased s (step_values step (outcome_value outcome) detail)
              (step_keeps_id step (outcome_value outcome) detail)).at
            world x k e in
        (
          now,
          record {
            unique = one;
            found = (
              expires,
              beat,
              stored
                  ∙ ap some (step_commutes step (outcome_value outcome) detail now expires beat s),
            );
            held = step_keeps_hand w step (outcome_value outcome) detail now s k.held;
          },
        );
  }

  -- A recorded step stands in the row under its value.
  pub Returns-record :
      (state s : Investigation) (step : WriteBackStep) (outcome : WriteBackOutcome)
      (detail : Option String)
      → state.id ≡ i
      → Returns
          (Known i w s)
          (λ o world. Stepped i w s step outcome detail world × (o ≡ outcome))
          (record_outcome session services settings report_inline_limit i w state step outcome
            detail)
  unfolding record_outcome
  Returns-record state s step outcome detail named =
      Returns-bind (Known i w s) (λ _ world. Stepped i w s step outcome detail world) _ _
        (subst
          (λ k.
            Returns (Known i w s) (λ _ world. Stepped i w s step outcome detail world)
              (require_update session
                (λ now. record_write_back_step k w step (outcome_value outcome) detail now)))
          (sym named) (Returns-step s step outcome detail))
        λ _. Returns-conclude (Stepped i w s step outcome detail) outcome detail
