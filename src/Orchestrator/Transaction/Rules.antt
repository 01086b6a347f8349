-- ===== src/Orchestrator/Transaction/Rules.antt =====
-- What holds after a transaction's steps, if they return.
use backend_engineering_note.Prelude.{
  ℕ, suc, ◌≡◌, refl, subst, Bool, true, false, if◌then◌else◌, arith,
}
use backend_engineering_note.Platform.Rows.{Database}
use backend_engineering_note.Orchestrator.Transaction.{
  Outcome, returned, invalid_batch, batch_too_large, integrity_error, lookup_error, runtime_error,
  assertion_error, Session, Transaction, after, pure, statement, ◌>>=◌,
}

-- If `P` holds before `m` and `m` returns, `Q` holds of what it returns and of the transaction then.
pub record Ensures {A : Type 0} (P : Transaction → Type 0) (Q : A → Transaction → Type 0)
    (m : Transaction → Outcome (A × Transaction)) : Type 0 where
  pub at : (t : Transaction) (x : A) (t' : Transaction) → P t → m t ≡ returned (x, t') → Q x t'

pub returned-injective : {A : Type 0} (x y : A) → returned x ≡ returned y → x ≡ y
returned-injective x y e = ground arith

module _ {A B : Type 0} where
  after_returned :
      (o : Outcome A) (f : A → Outcome B) (y : B)
      → after o f ≡ returned y
      → (x : A) × (o ≡ returned x) × (f x ≡ returned y)
  after_returned (returned x) f y h = (x, refl, h)
  after_returned (invalid_batch m) f y h = absurd (ground arith)
  after_returned (batch_too_large n) f y h = absurd (ground arith)
  after_returned integrity_error f y h = absurd (ground arith)
  after_returned lookup_error f y h = absurd (ground arith)
  after_returned (runtime_error m) f y h = absurd (ground arith)
  after_returned assertion_error f y h = absurd (ground arith)

module _ {A B : Type 0} where
  pub Ensures-bind :
      (P : Transaction → Type 0) (Q : A → Transaction → Type 0) (R : B → Transaction → Type 0)
      (m : Transaction → Outcome (A × Transaction))
      (f : A → Transaction → Outcome (B × Transaction))
      → Ensures P Q m
      → ((x : A) → Ensures (Q x) R (f x))
      → Ensures P R (m >>= f)
  unfolding ◌>>=◌
  Ensures-bind P Q R m f h k = record {
    at = λ t y t' p e.
        let (x, first, rest) = after_returned (m t) (λ q. f q.0 q.1) (y, t') e in
        (k x.0).at x.1 y t' (h.at t x.0 x.1 p first) rest;
  }

module _ {A : Type 0} where
  pub Ensures-pure :
      (P : Transaction → Type 0) (Q : A → Transaction → Type 0) (x : A)
      → ((t : Transaction) → P t → Q x t)
      → Ensures P Q (pure x)
  unfolding pure
  Ensures-pure P Q x h = record {
    at = λ t y t' p e. subst (λ q. Q q.0 q.1) (returned-injective (x, t) (y, t') e) (h t p);
  }

  pub Ensures-weaken :
      (P P' : Transaction → Type 0) (Q Q' : A → Transaction → Type 0)
      (m : Transaction → Outcome (A × Transaction))
      → ((t : Transaction) → P' t → P t)
      → ((x : A) (t : Transaction) → Q x t → Q' x t)
      → Ensures P Q m
      → Ensures P' Q' m
  Ensures-weaken P P' Q Q' m f g h = record { at = λ t x t' p e. g x t' (h.at t x t' (f t p) e) }

  pub Ensures-if :
      (P : Transaction → Type 0) (Q : A → Transaction → Type 0) (b : Bool)
      (m n : Transaction → Outcome (A × Transaction))
      → Ensures P Q m
      → Ensures P Q n
      → Ensures P Q (if b then m else n)
  Ensures-if P Q true m n h k = h
  Ensures-if P Q false m n h k = k

  -- A statement takes the database that others have left to the one that it returns.
  pub Ensures-statement :
      (session : Session) (P : Transaction → Type 0) (Q : A → Transaction → Type 0)
      (f : ℕ → Database → Outcome (A × Database))
      → ((t : Transaction) (x : A) (d : Database)
          → P t
          → f t.tick (session.others t.tick t.database) ≡ returned (x, d)
          → Q x (record { database = d; tick = suc t.tick }))
      → Ensures P Q (statement session f)
  unfolding statement
  Ensures-statement session P Q f h = record {
    at = λ t x t' p e.
        let (q, first, rest) =
          after_returned (f t.tick (session.others t.tick t.database)) _ (x, t') e in
        subst (λ r. Q r.0 r.1) (returned-injective _ (x, t') rest) (h t q.0 q.1 p first);
  }
