-- ===== src/Worker/Exec.antt =====
-- Steps of an investigation that read and write the platform database and call other systems. What
-- was committed or sent before an exception stays, so the world comes back beside the exception too.

pub mod Rules
pub mod Keeps
use backend_engineering_note.Prelude.{
  ℕ, suc, ℤ, String, Bool, true, false, Option, none, some, List, [], ◌∷◌, ◌++◌, if◌then◌else◌,
}
use backend_engineering_note.Worker.Errors.{
  Failure, Exception, failure, unavailable, investigation_store_unavailable,
}
use backend_engineering_note.Worker.Repository.{Rows}

pub data Result {ℓ} (A : Type ℓ) : Type ℓ where
  ok : A → Result A
  raised : Exception → Result A

-- A call of the port that writes back to the CTC API. Its adapter may replay a request once after a
-- 401, which is not counted here.
pub data Sent : Type 0 where
  codes_sent : String → String → ℤ → Sent
  comment_sent : String → Sent

-- `tick` counts the transactions begun.
pub record World : Type 0 where
  pub rows : Rows
  pub sent : List Sent
  pub tick : ℕ

-- How a transaction ends: committed; not committed; or committed with the reply lost.
pub data Commit : Type 0 where
  committed refused unacknowledged : Commit

-- The database as one worker meets it: what other sessions have committed before each of its
-- transactions, the time of each, and how it ends.
pub record Session : Type 0 where
  pub others : ℕ → Rows → Rows
  pub now : ℕ → ℕ
  pub commit : ℕ → Commit

abbrev pub Exec {ℓ} : Type ℓ → Type ℓ
Exec A = World → Result A × World

module _ {ℓ} {A : Type ℓ} where
  unfoldable pub pure : A → Exec A
  pure a w = (ok a, w)

  unfoldable pub raise : Exception → Exec A
  raise e w = (raised e, w)

  unfoldable pub lift : Result A → Exec A
  lift r w = (r, w)

module _ {ℓ κ} {A : Type ℓ} {B : Type κ} where
  abbrev pub continue : Result A → (A → World → Result B × World) → World → Result B × World
  continue (ok a) f w = f a w
  continue (raised e) f w = (raised e, w)

  infixl 10 ◌>>=◌ ◌>>◌
  unfoldable pub ◌>>=◌ :
      (World → Result A × World) → (A → World → Result B × World) → World → Result B × World
  ◌>>=◌ m f w = let (r, w') = m w in continue r f w'

  abbrev pub ◌>>◌ :
      (World → Result A × World) → (World → Result B × World) → World → Result B × World
  m >> n = m >>= λ _. n

unfoldable pub send : Sent → Exec (Unit {0})
send s w = (ok tt, record w { sent = w.sent ++ (s ∷ []) })

module _ (session : Session) where
  -- The world when the next transaction begins.
  abbrev pub begun : World → World
  begun w = record w { rows = session.others w.tick w.rows; tick = suc w.tick }

  abbrev pub store_error : Exception
  store_error = unavailable investigation_store_unavailable "The platform database is unavailable"

  -- A transaction that only reads.
  unfoldable pub read {ℓ} : {A : Type ℓ} → (Rows → A) → World → Result A × World
  read f w = elim (session.commit w.tick) [
    | committed ↦ (ok (f (begun w).rows), begun w)
    | _ ↦ (raised store_error, begun w)
  ]

  -- `_require_update` and `commit`: a refused update raises and rolls back.
  unfoldable pub require_update : (ℕ → Rows → Rows × Bool) → World → Result (Unit {0}) × World
  require_update update w =
      let (after, updated) = update (session.now w.tick) (begun w).rows in
      if updated
      then elim (session.commit w.tick) [
        | committed ↦ (ok tt, record (begun w) { rows = after })
        | refused ↦ (raised store_error, begun w)
        | unacknowledged ↦ (raised store_error, record (begun w) { rows = after })
      ]
      else (raised (failure Failure.ownership_lost), begun w)
