-- ===== src/Orchestrator/Transaction.antt =====
-- A READ COMMITTED transaction: a sequence of statements, each of which sees what this transaction
-- wrote and what other transactions committed before it. An exception rolls back, so a transaction
-- that raises leaves no database.
pub mod Rules
use backend_engineering_note.Prelude.{ℕ, suc, String, Bool, true, false, Option, none, some}
use backend_engineering_note.Platform.Rows.{Database}

pub data Outcome {ℓ} (A : Type ℓ) : Type ℓ where
  returned : A → Outcome A
  invalid_batch : String → Outcome A
  batch_too_large : ℕ → Outcome A
  -- a unique key that the statement does not name
  integrity_error : Outcome A
  lookup_error : Outcome A
  runtime_error : String → Outcome A
  assertion_error : Outcome A

-- What a transaction meets at its n-th statement: the commits of others before it, the time, fresh
-- UUIDs, and the next number of a sequence. The texts of a UUID, a client and a time are opaque.
pub record Session : Type 0 where
  pub others : ℕ → Database → Database
  pub now : ℕ → ℕ
  pub uuid : ℕ → ℕ
  pub event_uuid : ℕ → ℕ
  pub serial : ℕ → ℕ
  pub uuid_text : ℕ → String
  pub client_text : ℕ → String
  pub time_text : ℕ → String

-- `tick` counts the statements executed.
pub record Transaction : Type 0 where
  pub database : Database
  pub tick : ℕ

abbrev pub Action {ℓ} : Type ℓ → Type ℓ
Action A = Transaction → Outcome (A × Transaction)

module _ {ℓ κ} {A : Type ℓ} {B : Type κ} where
  abbrev pub after : Outcome A → (A → Outcome B) → Outcome B
  after (returned a) f = f a
  after (invalid_batch m) f = invalid_batch m
  after (batch_too_large n) f = batch_too_large n
  after integrity_error f = integrity_error
  after lookup_error f = lookup_error
  after (runtime_error m) f = runtime_error m
  after assertion_error f = assertion_error

module _ {ℓ κ} {A : Type ℓ} {B : Type κ} where
  infixl 10 ◌>>=◌ ◌>>◌
  unfoldable pub ◌>>=◌ :
      (Transaction → Outcome (A × Transaction))
      → (A → Transaction → Outcome (B × Transaction))
      → Transaction
      → Outcome (B × Transaction)
  ◌>>=◌ m f t = after (m t) λ p. f p.0 p.1

  abbrev pub ◌>>◌ :
      (Transaction → Outcome (A × Transaction))
      → (Transaction → Outcome (B × Transaction))
      → Transaction
      → Outcome (B × Transaction)
  m >> n = m >>= λ _. n

module _ {ℓ} {A : Type ℓ} where
  unfoldable pub pure : A → Action A
  pure a t = returned (a, t)

  unfoldable pub raise : Outcome (A × Transaction) → Action A
  raise e t = e

  abbrev pub stored : ℕ → Outcome (A × Database) → Outcome (A × Transaction)
  stored n o = after o λ p. returned (p.0, record { database = p.1; tick = suc n })

  unfoldable pub statement : Session → (ℕ → Database → Outcome (A × Database)) → Action A
  statement session f t = stored t.tick (f t.tick (session.others t.tick t.database))
