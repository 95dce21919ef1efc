-- ===== src/Platform/Frame.antt =====
-- What a method leaves alone: rules for each way in which methods are built, and for the methods
-- that never return.
use cicd_demo.Base.{
  ℕ, Bool, true, false, Option, none, some, ◌≡◌, ◌≢◌, refl, ◌∙◌, ap, if◌then◌else◌, arith,
}
use cicd_demo.Platform.Environment.{Env}
use cicd_demo.Platform.Monad.{
  Db, World, Error, Panic, Outcome, ok, err, panic, M, pure, raise, panics, or_raise, deref, logged,
  log_error, continue, ◌>>=◌, raise_if, call, query, execute, time_now, new_object_id, next_serial,
  outside_call,
}

-- `m` leaves alone what `f` shows of the database, however it ends.
pub record Keeps {X A : Type 0} (f : Db → X) (m : M A) : Type 0 where
  pub at : (w : World) → f (m w).1.db ≡ f w.db

-- `m` does not return a value.
pub record NeverOk {A : Type 0} (m : M A) : Type 0 where
  pub at : (w : World) (a : A) → (m w).0 ≢ ok a

logged_end : {A : Type 0} (a : A) (r : Outcome A × World) → (log_error a r).1 ≡ r.1
logged_end a (ok b, w) = refl
logged_end a (err x, w) = refl
logged_end a (panic p, w) = refl

module _ {X A : Type 0} {f : Db → X} where
  pub Keeps-pure : (a : A) → Keeps f (pure a)
  Keeps-pure a = record { at = λ w. refl }

  pub Keeps-raise : (x : Error) → Keeps f (raise {A = A} x)
  Keeps-raise x = record { at = λ w. refl }

  pub Keeps-panics : (p : Panic) → Keeps f (panics {A = A} p)
  Keeps-panics p = record { at = λ w. refl }

  pub Keeps-or_raise : (o : Option A) (x : Error) → Keeps f (or_raise o x)
  Keeps-or_raise none x = record { at = λ w. refl }
  Keeps-or_raise (some a) x = record { at = λ w. refl }

  pub Keeps-deref : (o : Option A) → Keeps f (deref o)
  Keeps-deref none = record { at = λ w. refl }
  Keeps-deref (some a) = record { at = λ w. refl }

  pub Keeps-if : (b : Bool) (m n : M A) → Keeps f m → Keeps f n → Keeps f (if b then m else n)
  Keeps-if true m n km kn = km
  Keeps-if false m n km kn = kn

  pub Keeps-logged : (a : A) (m : M A) → Keeps f m → Keeps f (logged a m)
  Keeps-logged a m k = record { at = λ w. rw (logged_end a (m w)) (k.at w) }

  module _ ⦃e : Env⦄ where
    pub Keeps-call : (g : Db → A × Db) → ((d : Db) → f (g d).1 ≡ f d) → Keeps f (call g)
    unfolding call
    Keeps-call g h = record { at = λ w. ground (arith, h w.db) }

    pub Keeps-query : (g : Db → A) → Keeps f (query g)
    unfolding query
    Keeps-query g = record { at = λ w. ground arith }

module _ {X : Type 0} {f : Db → X} where
  pub Keeps-raise_if : (b : Bool) (x : Error) → Keeps f (raise_if b x)
  Keeps-raise_if true x = record { at = λ w. refl }
  Keeps-raise_if false x = record { at = λ w. refl }

  module _ ⦃e : Env⦄ where
    pub Keeps-execute : (g : Db → Db) → ((d : Db) → f (g d) ≡ f d) → Keeps f (execute g)
    unfolding execute
    Keeps-execute g h = record { at = λ w. ground (arith, h w.db) }

    pub Keeps-time_now : Keeps f time_now
    unfolding time_now
    Keeps-time_now = record { at = λ w. refl }

    pub Keeps-new_object_id : Keeps f new_object_id
    unfolding new_object_id
    Keeps-new_object_id = record { at = λ w. refl }

    pub Keeps-next_serial : Keeps f next_serial
    unfolding next_serial
    Keeps-next_serial = record { at = λ w. ground arith }

    pub Keeps-outside_call : {A : Type 0} (g : ℕ → A) → Keeps f (outside_call g)
    unfolding outside_call
    Keeps-outside_call g = record { at = λ w. refl }

module _ {X A B : Type 0} {f : Db → X} where
  continue-Keeps :
      (k : A → M B) (r : Outcome A × World)
      → ((a : A) → Keeps f (k a))
      → f (continue k r).1.db ≡ f r.1.db
  continue-Keeps k (ok a, w) h = (h a).at w
  continue-Keeps k (err x, w) h = refl
  continue-Keeps k (panic p, w) h = refl

  pub Keeps-bind :
      (m : M A) (k : A → M B) → Keeps f m → ((a : A) → Keeps f (k a)) → Keeps f (m >>= k)
  Keeps-bind m k km kk = record { at = λ w. continue-Keeps k (m w) kk ∙ km.at w }

module _ {A B : Type 0} where
  -- The two calls of a bind that returns, and the state after it.
  abbrev pub Stages : M A → (A → M B) → World → B → Type 0
  Stages m k w b =
      (a : A) × ((m w).0 ≡ ok a) × ((k a (m w).1).0 ≡ ok b) × (((m >>= k) w).1 ≡ (k a (m w).1).1)

  continue_ok :
      (k : A → M B) (r : Outcome A × World) (b : B)
      → (continue k r).0 ≡ ok b
      → (a : A) × (r.0 ≡ ok a) × ((k a r.1).0 ≡ ok b) × ((continue k r).1 ≡ (k a r.1).1)
  continue_ok k (ok a, w) b h = (a, refl, h, refl)
  continue_ok k (err x, w) b h = cc
  continue_ok k (panic p, w) b h = cc

  pub bind-eq-ok :
      (m : M A) (k : A → M B) (w : World) (b : B) → ((m >>= k) w).0 ≡ ok b → Stages m k w b
  bind-eq-ok m k w b h = continue_ok k (m w) b h

  never_after :
      (k : A → M B) (r : Outcome A × World)
      → ((a : A) → NeverOk (k a))
      → (b : B) → (continue k r).0 ≢ ok b
  never_after k (ok a, w) h b = (h a).at w b
  never_after k (err x, w) h b = λ p. cc
  never_after k (panic p, w) h b = λ q. cc

  continue_at : (k : A → M B) (r : Outcome A × World) (a : A) → r.0 ≡ ok a → continue k r ≡ k a r.1
  continue_at k (ok b, w) a h = let same : b ≡ a = cc in ap (λ c. k c w) same
  continue_at k (err x, w) a h = cc
  continue_at k (panic p, w) a h = cc

  -- A bind whose first call is known to return.
  pub bind-eq :
      (m : M A) (k : A → M B) (w : World) (a : A) → (m w).0 ≡ ok a → (m >>= k) w ≡ k a (m w).1
  bind-eq m k w a h = continue_at k (m w) a h

  continue_err :
      (k : A → M B) (r : Outcome A × World) (x : Error) → r.0 ≡ err x → continue k r ≡ (err x, r.1)
  continue_err k (ok b, w) x h = cc
  continue_err k (err y, w) x h = let same : y ≡ x = cc in ap (λ z. (err z, w)) same
  continue_err k (panic p, w) x h = cc

  -- A bind whose first call is known to fail.
  pub bind-eq-err :
      (m : M A) (k : A → M B) (w : World) (x : Error)
      → (m w).0 ≡ err x
      → (m >>= k) w ≡ (err x, (m w).1)
  bind-eq-err m k w x h = continue_err k (m w) x h

  -- What never returns at its end never returns.
  pub NeverOk-bind : (m : M A) (k : A → M B) → ((a : A) → NeverOk (k a)) → NeverOk (m >>= k)
  NeverOk-bind m k h = record { at = λ w b. never_after k (m w) h b }

-- A guard that is passed.
pub raise_if-ok :
    (b : Bool) (x : Error) (w : World) (a : Unit)
    → (raise_if b x w).0 ≡ ok a
    → (b ≡ false) × ((raise_if b x w).1 ≡ w)
raise_if-ok true x w a h = cc
raise_if-ok false x w a h = (refl, refl)

pub ruleset frame_rules = (
  Keeps-pure, Keeps-raise, Keeps-panics, Keeps-or_raise, Keeps-deref, Keeps-if, Keeps-logged,
  Keeps-query, Keeps-raise_if, Keeps-time_now, Keeps-new_object_id, Keeps-next_serial,
  Keeps-outside_call, Keeps-bind,
)
