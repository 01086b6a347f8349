-- ===== src/Worker/Exec/Keeps.antt =====
-- Rules for what the actions of an attempt keep, whether they return or raise.
use backend_engineering_note.Prelude.{ℕ, Bool, true, false, arith, if◌then◌else◌}
use backend_engineering_note.Worker.Errors.{Exception}
use backend_engineering_note.Worker.Repository.{Rows}
use backend_engineering_note.Worker.Exec.{
  Result, ok, raised, World, Session, pure, raise, lift, read, require_update, send, Sent, continue,
  ◌>>=◌,
}

-- `m` keeps a property of the table.
pub record Keeps {A : Type 0} (P : Rows → Type 0) (m : World → Result A × World) : Type 0 where
  pub at : (w : World) → P w.rows → P (m w).1.rows

module _ {P : Rows → Type 0} where
  pub Keeps-send : (s : Sent) → Keeps P (send s)
  unfolding send
  Keeps-send s = record { at = λ w p. p }

  module _ {A : Type 0} where
    pub Keeps-pure : (x : A) → Keeps P (pure x)
    unfolding pure
    Keeps-pure x = record { at = λ w p. p }

    pub Keeps-raise : (e : Exception) → Keeps P (raise {A = A} e)
    unfolding raise
    Keeps-raise e = record { at = λ w p. p }

    pub Keeps-lift : (r : Result A) → Keeps P (lift r)
    unfolding lift
    Keeps-lift r = record { at = λ w p. p }

    pub Keeps-if :
        (t : Bool) (m n : World → Result A × World)
        → Keeps P m
        → Keeps P n
        → Keeps P (if t then m else n)
    Keeps-if true m n h k = h
    Keeps-if false m n h k = k

    pub Keeps-read :
        (session : Session) (f : Rows → A)
        → ((n : ℕ) (rows : Rows) → P rows → P (session.others n rows))
        → Keeps P (read session f)
    unfolding read
    Keeps-read session f h = record { at = λ w p. ground (arith, h w.tick w.rows p) }

  pub Keeps-require_update :
      (session : Session) (update : ℕ → Rows → Rows × Bool)
      → ((n : ℕ) (rows : Rows) → P rows → P (session.others n rows))
      → ((now : ℕ) (rows : Rows) → P rows → P (update now rows).0)
      → Keeps P (require_update session update)
  unfolding require_update
  Keeps-require_update session update h k = record {
    at = λ w p.
        let before = h w.tick w.rows p in
        ground (arith, before, k (session.now w.tick) (session.others w.tick w.rows) before);
  }

  module _ {A B : Type 0} where
    continued :
        (r : Result A) (f : A → World → Result B × World)
        → ((x : A) → Keeps P (f x))
        → Keeps P (continue r f)
    continued (ok x) f h = h x
    continued (raised e) f h = record { at = λ w p. p }

    pub Keeps-bind :
        (m : World → Result A × World) (f : A → World → Result B × World)
        → Keeps P m
        → ((x : A) → Keeps P (f x))
        → Keeps P (m >>= f)
    unfolding ◌>>=◌
    Keeps-bind m f h k = record { at = λ w p. (continued (m w).0 f k).at (m w).1 (h.at w p) }
