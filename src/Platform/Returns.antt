-- ===== src/Platform/Returns.antt =====
-- Methods that return a value on a server that never fails: a rule for each way in which methods
-- are built.
use cicd_demo.Base.{ℕ, Bool, true, false, some, ◌≡◌, refl, ap, ◌∙◌, if◌then◌else◌}
use cicd_demo.Platform.Environment.{Env}
use cicd_demo.Platform.Monad.{
  Db, World, Outcome, ok, err, panic, M, pure, deref, logged, log_error, ◌>>=◌, call, execute,
  time_now, new_object_id,
}
use cicd_demo.Platform.Frame.{bind-eq}

-- From data that pass a test the method returns a value, and leaves data that pass it.
pub record Returns {A : Type 0} (P : Db → Bool) (action : M A) : Type 0 where
  pub at :
      (w : World) → P w.db ≡ true → (a : A) × ((action w).0 ≡ ok a) × (P (action w).1.db ≡ true)

log_error-ok : {A : Type 0} (a b : A) (r : Outcome A × World) → r.0 ≡ ok b → log_error a r ≡ r
log_error-ok a b (ok c, w) h = refl
log_error-ok a b (err x, w) h = cc
log_error-ok a b (panic p, w) h = cc

module _ {A : Type 0} {P : Db → Bool} where
  pub Returns-pure : (a : A) → Returns P (pure a)
  Returns-pure a = record { at = λ w p. (a, refl, p) }

  pub Returns-deref : (a : A) → Returns P (deref (some a))
  Returns-deref a = record { at = λ w p. (a, refl, p) }

  pub Returns-if :
      (b : Bool) (m n : M A) → Returns P m → Returns P n → Returns P (if b then m else n)
  Returns-if true m n hm hn = hm
  Returns-if false m n hm hn = hn

  pub Returns-logged : (a : A) (m : M A) → Returns P m → Returns P (logged a m)
  Returns-logged a m h = record {
    at = λ w p.
        let (b, one, q) = h.at w p in
        let same = log_error-ok a b (m w) one in
        (
          b,
          ap (λ (r : Outcome A × World). r.0) same ∙ one,
          ap (λ (r : Outcome A × World). P r.1.db) same ∙ q,
        );
  }

  module _ ⦃e : Env⦄ (never : (n : ℕ) → e.fails n ≡ false) where
    pub Returns-call :
        (g : Db → A × Db) → ((d : Db) → P d ≡ true → P (g d).1 ≡ true) → Returns P (call g)
    unfolding call
    Returns-call g h = record { at = λ w p. rw (never w.step) ((g w.db).0, refl, h w.db p) }

module _ {P : Db → Bool} ⦃e : Env⦄ where
  pub Returns-execute :
      ((n : ℕ) → e.fails n ≡ false)
      → (g : Db → Db) → ((d : Db) → P d ≡ true → P (g d) ≡ true)
      → Returns P (execute g)
  unfolding execute
  Returns-execute never g h = Returns-call never (λ d. (tt, g d)) h

  pub Returns-time_now : Returns P time_now
  unfolding time_now
  Returns-time_now = record { at = λ w p. (e.now w.step, refl, p) }

  pub Returns-new_object_id : Returns P new_object_id
  unfolding new_object_id
  Returns-new_object_id = record { at = λ w p. (e.new_object_id w.step, refl, p) }

module _ {A B : Type 0} {P : Db → Bool} where
  pub Returns-bind :
      (m : M A) (k : A → M B) → Returns P m → ((a : A) → Returns P (k a)) → Returns P (m >>= k)
  Returns-bind m k hm hk = record {
    at = λ w p.
        let (a, one, q) = hm.at w p in
        let (b, two, r) = (hk a).at (m w).1 q in
        let same = bind-eq m k w a one in
        (
          b,
          ap (λ (v : Outcome B × World). v.0) same ∙ two,
          ap (λ (v : Outcome B × World). P v.1.db) same ∙ r,
        );
  }

pub ruleset return_rules = (
  Returns-pure, Returns-deref, Returns-if, Returns-logged, Returns-time_now, Returns-new_object_id,
  Returns-bind,
)
