-- ===== src/Worker/Exec/Rules.antt =====
-- Rules for the actions of an attempt: how often they call the write-back port, and what holds
-- if they return.
use backend_engineering_note.Prelude.{
  ℕ, suc, ◌+◌, ◌≤◌, ◌≡◌, refl, subst, Bool, true, false, String, ℤ, List, [], ◌∷◌, ◌++◌, arith,
  if◌then◌else◌,
}
use backend_engineering_note.Worker.Errors.{Exception}
use backend_engineering_note.Worker.Repository.{Rows}
use backend_engineering_note.Worker.Exec.{
  Result, ok, raised, World, Session, pure, raise, lift, read, require_update, send, Sent,
  codes_sent, comment_sent, continue, ◌>>=◌,
}

abbrev pub codes_count : List Sent → ℕ
codes_count [] = 0
codes_count (codes_sent reason resolution version ∷ rest) = suc (codes_count rest)
codes_count (comment_sent comment ∷ rest) = codes_count rest

abbrev pub comment_count : List Sent → ℕ
comment_count [] = 0
comment_count (codes_sent reason resolution version ∷ rest) = comment_count rest
comment_count (comment_sent comment ∷ rest) = suc (comment_count rest)

codes_count-append : (xs ys : List Sent) → codes_count (xs ++ ys) ≡ codes_count xs + codes_count ys
codes_count-append [] ys = omega arith
codes_count-append (codes_sent a b c ∷ xs) ys = omega (arith, codes_count-append xs ys)
codes_count-append (comment_sent c ∷ xs) ys = omega (arith, codes_count-append xs ys)

comment_count-append :
    (xs ys : List Sent) → comment_count (xs ++ ys) ≡ comment_count xs + comment_count ys
comment_count-append [] ys = omega arith
comment_count-append (codes_sent a b c ∷ xs) ys = omega (arith, comment_count-append xs ys)
comment_count-append (comment_sent c ∷ xs) ys = omega (arith, comment_count-append xs ys)

-- `m` calls the port at most `a` times for codes and `b` times for a comment, whether it returns or raises.
pub record Sends {A : Type 0} (a b : ℕ) (m : World → Result A × World) : Type 0 where
  pub at :
      (w : World)
      → (codes_count (m w).1.sent ≤ codes_count w.sent + a)
        × (comment_count (m w).1.sent ≤ comment_count w.sent + b)

pub Sends-send-codes_sent : (r s : String) (v : ℤ) → Sends 1 0 (send (codes_sent r s v))
unfolding send
Sends-send-codes_sent r s v = record {
  at = λ w. omega (
    arith,
    codes_count-append w.sent (codes_sent r s v ∷ []),
    comment_count-append w.sent (codes_sent r s v ∷ []),
  );
}

pub Sends-send-comment_sent : (c : String) → Sends 0 1 (send (comment_sent c))
unfolding send
Sends-send-comment_sent c = record {
  at = λ w. omega (
    arith,
    codes_count-append w.sent (comment_sent c ∷ []),
    comment_count-append w.sent (comment_sent c ∷ []),
  );
}

module _ {A : Type 0} where
  pub Sends-pure : (x : A) → Sends 0 0 (pure x)
  unfolding pure
  Sends-pure x = record { at = λ w. omega arith }

  pub Sends-raise : (e : Exception) → Sends {A = A} 0 0 (raise e)
  unfolding raise
  Sends-raise e = record { at = λ w. omega arith }

  pub Sends-lift : (r : Result A) → Sends 0 0 (lift r)
  unfolding lift
  Sends-lift r = record { at = λ w. omega arith }

  pub Sends-if :
      (a b : ℕ) (t : Bool) (m n : World → Result A × World)
      → Sends a b m
      → Sends a b n
      → Sends a b (if t then m else n)
  Sends-if a b true m n h k = h
  Sends-if a b false m n h k = k

  pub Sends-more :
      (a b a' b' : ℕ) (m : World → Result A × World) → a ≤ a' → b ≤ b' → Sends a b m → Sends a' b' m
  Sends-more a b a' b' m h k s = record { at = λ w. omega (arith, s.at w) }

  pub Sends-read : (session : Session) (f : Rows → A) → Sends 0 0 (read session f)
  unfolding read
  Sends-read session f = record { at = λ w. ground arith }

pub Sends-require_update :
    (session : Session) (update : ℕ → Rows → Rows × Bool)
    → Sends 0 0 (require_update session update)
unfolding require_update
Sends-require_update session update = record { at = λ w. ground arith }

module _ {A B : Type 0} where
  continued :
      (a b : ℕ) (r : Result A) (f : A → World → Result B × World)
      → ((x : A) → Sends a b (f x))
      → Sends a b (continue r f)
  continued a b (ok x) f h = h x
  continued a b (raised e) f h = record { at = λ w. omega arith }

  pub Sends-bind :
      (a b a' b' : ℕ) (m : World → Result A × World) (f : A → World → Result B × World)
      → Sends a b m
      → ((x : A) → Sends a' b' (f x))
      → Sends (a + a') (b + b') (m >>= f)
  unfolding ◌>>=◌
  Sends-bind a b a' b' m f h k = record {
    at = λ w. omega (arith, h.at w, (continued a' b' (m w).0 f k).at (m w).1);
  }

-- If `m` returns, `Q` holds of what it returns and of the world then.
pub record Returns {A : Type 0} (P : World → Type 0) (Q : A → World → Type 0)
    (m : World → Result A × World) : Type 0 where
  pub at : (w : World) (x : A) → P w → (m w).0 ≡ ok x → Q x (m w).1

module _ {A B : Type 0} {R : B → World → Type 0} where
  continued_returns :
      (Q : A → World → Type 0) (r : Result A) (f : A → World → Result B × World) (w : World) (y : B)
      → ((x : A) → r ≡ ok x → Q x w)
      → ((x : A) → Returns (Q x) R (f x))
      → (continue r f w).0 ≡ ok y
      → R y (continue r f w).1
  continued_returns Q (ok x) f w y q k e = (k x).at w y (q x refl) e
  continued_returns Q (raised x) f w y q k e = absurd (ground arith)

  pub Returns-bind :
      (P : World → Type 0) (Q : A → World → Type 0) (m : World → Result A × World)
      (f : A → World → Result B × World)
      → Returns P Q m
      → ((x : A) → Returns (Q x) R (f x))
      → Returns P R (m >>= f)
  unfolding ◌>>=◌
  Returns-bind P Q m f h k = record {
    at = λ w y p e. continued_returns Q (m w).0 f (m w).1 y (λ x o. h.at w x p o) k e;
  }

module _ {A : Type 0} where
  -- What a step that changes nothing returns, beside what holds before it.
  pub Returns-lift :
      (P : World → Type 0) (r : Result A) → Returns P (λ x w. P w × (r ≡ ok x)) (lift r)
  unfolding lift
  Returns-lift P r = record { at = λ w x p e. (p, e) }

  pub Returns-pure :
      (P : World → Type 0) (Q : A → World → Type 0) (x : A)
      → ((w : World) → P w → Q x w)
      → Returns P Q (pure x)
  unfolding pure
  Returns-pure P Q x h = record {
    at = λ w y p e. let same : x ≡ y = ground arith in subst (λ z. Q z w) same (h w p);
  }

  pub Returns-raise :
      (P : World → Type 0) (Q : A → World → Type 0) (e : Exception) → Returns P Q (raise e)
  unfolding raise
  Returns-raise P Q x = record { at = λ w y p e. absurd (ground arith) }

  pub Returns-weaken :
      (P P' : World → Type 0) (Q Q' : A → World → Type 0) (m : World → Result A × World)
      → ((w : World) → P' w → P w)
      → ((x : A) (w : World) → Q x w → Q' x w)
      → Returns P Q m
      → Returns P' Q' m
  Returns-weaken P P' Q Q' m f g h = record { at = λ w x p e. g x (m w).1 (h.at w x (f w p) e) }

  -- What holds of every witness holds of some.
  pub Returns-some :
      {S : Type 0} (P : S → World → Type 0) (Q : A → World → Type 0) (m : World → Result A × World)
      → ((s : S) → Returns (P s) Q m)
      → Returns (λ w. (s : S) × P s w) Q m
  Returns-some P Q m h = record { at = λ w x p e. (h p.0).at w x p.1 e }

  pub Returns-if :
      (P : World → Type 0) (Q : A → World → Type 0) (t : Bool) (m n : World → Result A × World)
      → Returns P Q m
      → Returns P Q n
      → Returns P Q (if t then m else n)
  Returns-if P Q true m n h k = h
  Returns-if P Q false m n h k = k
