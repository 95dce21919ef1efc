-- ===== src/Service/Safe.antt =====
-- internal/service: steps of a handler that change nothing, and handlers that change nothing unless
-- they answer with success, with a rule for each way in which handlers are built.
use cicd_demo.Base.{Bool, true, false, Option, none, some, ◌≡◌, ◌≢◌, refl, ◌∙◌, ap}
use cicd_demo.Platform.{Mongo, Env, IsDocumented, Db, Error, Outcome, ok, err, panic, World, M}
use cicd_demo.Platform.Frame.{Keeps}
use cicd_demo.Consumer.{with_transaction}
use cicd_demo.Consumer.Atomicity.{with_transaction-IsAtomic, IsAtomic, whole, nothing}
use cicd_demo.Service.{
  Code, Answer, success, failed, Rpc, succeed, respond_error, respond_if, parsed_or, answered,
  attempt_by, continue_rpc, ◌>>=◌,
}

abbrev pub all_data : Db → Db
all_data d = d

-- Unless the handler answers with success, the data are as before.
pub record IsSafe {A : Type 0} (action : Rpc A) : Type 0 where
  pub at : (w : World) → ((a : A) → (action w).0 ≢ ok (success a)) → (action w).1.db ≡ w.db

module _ {A B : Type 0} where
  after_step :
      (k : A → Rpc B) (r : Outcome (Answer A) × World)
      → ((a : A) → IsSafe (k a))
      → ((b : B) → (continue_rpc k r).0 ≢ ok (success b))
      → (continue_rpc k r).1.db ≡ r.1.db
  after_step k (ok (success a), w) h other = (h a).at w other
  after_step k (ok (failed c x), w) h other = refl
  after_step k (err x, w) h other = refl
  after_step k (panic p, w) h other = refl

  -- a step that changes nothing, and then a safe one
  pub IsSafe-bind :
      (m : Rpc A) (k : A → Rpc B) → Keeps all_data m → ((a : A) → IsSafe (k a)) → IsSafe (m >>= k)
  IsSafe-bind m k km hk = record { at = λ w other. after_step k (m w) hk other ∙ km.at w }

  reply_only :
      (f : A → B) (before : Db) (r : Outcome (Answer A) × World)
      → (((a : A) → r.0 ≢ ok (success a)) → r.1.db ≡ before)
      → ((b : B) → (continue_rpc (λ a. succeed (f a)) r).0 ≢ ok (success b))
      → (continue_rpc (λ a. succeed (f a)) r).1.db ≡ before
  reply_only f before (ok (success a), w) h other = absurd (other (f a) refl)
  reply_only f before (ok (failed c x), w) h other = h (λ a q. cc)
  reply_only f before (err x, w) h other = h (λ a q. cc)
  reply_only f before (panic p, w) h other = h (λ a q. cc)

  -- a safe step whose result is made into the reply
  pub IsSafe-reply : (m : Rpc A) (f : A → B) → IsSafe m → IsSafe (m >>= λ a. succeed (f a))
  IsSafe-reply m f h = record { at = λ w other. reply_only f w.db (m w) (h.at w) other }

module _ {A : Type 0} where
  pub Keeps-parsed_or : (o : Option A) (c : Code) (x : Error) → Keeps all_data (parsed_or o c x)
  Keeps-parsed_or none c x = record { at = λ w. refl }
  Keeps-parsed_or (some a) c x = record { at = λ w. refl }

  answered_end : (code : Error → Code) (r : Outcome A × World) → (answered code r).1 ≡ r.1
  answered_end code (ok a, w) = refl
  answered_end code (err x, w) = refl
  answered_end code (panic p, w) = refl

  pub Keeps-attempt :
      (code : Error → Code) (m : M A) → Keeps all_data m → Keeps all_data (attempt_by code m)
  Keeps-attempt code m k = record {
    at = λ w. ap (λ (v : World). v.db) (answered_end code (m w)) ∙ k.at w;
  }

  pub Keeps-succeed : (a : A) → Keeps all_data (succeed a)
  Keeps-succeed a = record { at = λ w. refl }

  pub Keeps-respond_error : (c : Code) (x : Error) → Keeps all_data (respond_error {A = A} c x)
  Keeps-respond_error c x = record { at = λ w. refl }

pub Keeps-respond_if : (b : Bool) (c : Code) (x : Error) → Keeps all_data (respond_if b c x)
Keeps-respond_if true c x = record { at = λ w. refl }
Keeps-respond_if false c x = record { at = λ w. refl }

module _ {A B : Type 0} where
  after_keeping :
      (k : A → Rpc B) (r : Outcome (Answer A) × World)
      → ((a : A) → Keeps all_data (k a))
      → (continue_rpc k r).1.db ≡ r.1.db
  after_keeping k (ok (success a), w) h = (h a).at w
  after_keeping k (ok (failed c x), w) h = refl
  after_keeping k (err x, w) h = refl
  after_keeping k (panic p, w) h = refl

  pub Keeps-step :
      (m : Rpc A) (k : A → Rpc B)
      → Keeps all_data m
      → ((a : A) → Keeps all_data (k a))
      → Keeps all_data (m >>= k)
  Keeps-step m k km kk = record { at = λ w. after_keeping k (m w) kk ∙ km.at w }

module _ {A : Type 0} where
  transaction_end :
      (before : Db) (body : Outcome A × World) (code : Error → Code) (r : Outcome A × World)
      → IsAtomic before body r
      → ((a : A) → (answered code r).0 ≢ ok (success a))
      → r.1.db ≡ before
  transaction_end before body code r (whole a done _ _) other =
      absurd (other a (ap (λ (q : Outcome A). (answered code (q, r.1)).0) done))
  transaction_end before body code r (nothing _ same) other = same

  pub IsSafe-transaction :
      ⦃m : Mongo⦄ ⦃e : Env⦄
      → IsDocumented m
      → (code : Error → Code) (body : M A) → IsSafe (attempt_by code (with_transaction body))
  IsSafe-transaction d code body = record {
    at = λ w other.
        ap (λ (v : World). v.db) (answered_end code (with_transaction body w))
        ∙ transaction_end w.db _ code (with_transaction body w) (with_transaction-IsAtomic d body w)
            other;
  }

pub ruleset step_rules = (
  Keeps-parsed_or, Keeps-attempt, Keeps-succeed, Keeps-respond_error, Keeps-respond_if, Keeps-step,
)
