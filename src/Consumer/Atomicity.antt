-- ===== src/Consumer/Atomicity.antt =====
-- internal/dao/mongodb/mongo.go and cmd/consumer/handlers: a transaction happens as a whole.
use cicd_demo.Base.{suc, Bool, true, false, ◌≡◌, ◌≢◌, refl, inl, inr, Bool-cases}
use cicd_demo.Platform.{
  Mongo, Env, IsDocumented, lists, Outcome, ok, err, panic, Db, World, M, call,
}
use cicd_demo.Consumer.{settle, settle_db, with_transaction}

-- The state after the start of the session.
abbrev pub begun : World → World
begun w = record w { step = suc w.step }

-- How a run may end that began with the data `before`: it returns, and the data are those that its
-- body left when it returned; or it does not return, and the data are as before.
pub data IsAtomic {A : Type 0} (before : Db) (body r : Outcome A × World) : Type 0 where
  whole : (a : A) → r.0 ≡ ok a → body.0 ≡ ok a → r.1.db ≡ body.1.db → IsAtomic before body r
  nothing : ((a : A) → r.0 ≢ ok a) → r.1.db ≡ before → IsAtomic before body r

settle-IsAtomic :
    ⦃m : Mongo⦄ ⦃e : Env⦄
    → {A : Type 0} → IsDocumented m
    → (b : Bool) (w : World) (r : Outcome A × World) → IsAtomic w.db r (settle b w r)
unfolding settle settle_db
settle-IsAtomic (lists s p) true w (ok a, v) = nothing (λ b q. cc) refl
settle-IsAtomic (lists s p) false w (ok a, v) = whole a refl refl refl
settle-IsAtomic (lists s p) true w (err x, v) = nothing (λ b q. cc) refl
settle-IsAtomic (lists s p) false w (err x, v) = nothing (λ b q. cc) refl
settle-IsAtomic (lists s p) true w (panic x, v) = nothing (λ b q. cc) refl
settle-IsAtomic (lists s p) false w (panic x, v) = nothing (λ b q. cc) refl

module _ ⦃m : Mongo⦄ ⦃e : Env⦄ where
  -- WithTransaction, on a documented server, either returns what its body returned, with the data
  -- that the body left, or returns no value and leaves the data as they were, also when the body
  -- panics and when the session or the commit fails.
  pub with_transaction-IsAtomic :
      {A : Type 0}
      → IsDocumented m
      → (body : M A) (w : World) → IsAtomic w.db (body (begun w)) (with_transaction body w)
  unfolding with_transaction call
  with_transaction-IsAtomic d body w = elim (Bool-cases (e.fails w.step)) [
    | inl failed ↦ rw failed (nothing (λ b q. cc) refl)
    | inr started ↦ rw started (settle-IsAtomic d _ (begun w) (body (begun w)))
  ]
