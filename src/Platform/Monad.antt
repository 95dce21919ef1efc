-- ===== src/Platform/Monad.antt =====
-- The collections of the database, and the state and error monad of a method.
use cicd_demo.Base.{ℕ, suc, String, Bool, true, false, List, Option, none, some}
use cicd_demo.Models.{
  ObjectId, Time, Order, OrderItem, Bill, TicketType, TicketStock, Ticket, OutboxMessage,
}
use cicd_demo.Platform.Environment.{Env}
use cicd_demo.Platform.AuditTrail.{AuditLog}

pub record Db : Type 0 where
  pub orders : List Order
  pub order_items : List OrderItem
  pub bills : List Bill
  pub ticket_types : List TicketType
  pub ticket_stock : List TicketStock
  pub tickets : List Ticket
  pub outbox : List OutboxMessage
  pub audit_logs : List AuditLog

-- The errors that callers tell apart, and `refused` for one that a method makes up itself.
pub data Error : Type 0 where
  driver_error no_documents not_found insufficient_stock already_processed permanent
        ticket_not_found invalid_token permission_denied :
      Error
  -- with the ticket that is returned beside the error
  not_within_validity : Ticket → Error
  refused : String → Error

-- A run-time panic of Go.
pub data Panic : Type 0 where
  nil_dereference unhandled_default_case index_out_of_range : Panic

pub data Outcome (A : Type 0) : Type 0 where
  ok : A → Outcome A
  err : Error → Outcome A
  panic : Panic → Outcome A

-- The database, and the number of outside calls so far.
pub record World : Type 0 where
  pub db : Db
  pub step : ℕ

-- A method: what it changed stays changed when it ends with an error, up to the transaction.
abbrev pub M : Type 0 → Type 0
M A = World → Outcome A × World

module _ {A : Type 0} where
  abbrev pub pure : A → M A
  pure a w = (ok a, w)

  abbrev pub raise : Error → M A
  raise e w = (err e, w)

  abbrev pub panics : Panic → M A
  panics p w = (panic p, w)

  -- an error value made into an action
  abbrev pub or_raise : Option A → Error → M A
  or_raise none e = raise e
  or_raise (some a) e = pure a

  -- a pointer that is dereferenced
  abbrev pub deref : Option A → M A
  deref none = panics nil_dereference
  deref (some a) = pure a

  -- The result of an action whose error the caller only logs.
  abbrev pub log_error : A → Outcome A × World → Outcome A × World
  log_error a (ok b, w) = (ok b, w)
  log_error a (err e, w) = (ok a, w)
  log_error a (panic p, w) = (panic p, w)

  -- `if err := m; err != nil { log }`
  abbrev pub logged : A → M A → M A
  logged a m w = log_error a (m w)

module _ {A B : Type 0} where
  abbrev pub continue : (A → M B) → Outcome A × World → Outcome B × World
  continue f (ok a, w) = f a w
  continue f (err e, w) = (err e, w)
  continue f (panic p, w) = (panic p, w)

  infixl 5 ◌>>=◌ ◌>>◌
  abbrev pub ◌>>=◌ : M A → (A → M B) → M B
  ◌>>=◌ m f w = continue f (m w)

  abbrev pub ◌>>◌ : M A → M B → M B
  m >> k = m >>= λ _. k

abbrev pub raise_if : Bool → Error → M Unit
raise_if true e = raise e
raise_if false e = pure tt

-- One call of the database: it fails, or it acts on the collections.
module _ ⦃e : Env⦄ {A : Type 0} where
  abbrev pub answer : Bool → A × Db → World → Outcome A × World
  answer true r w = (err driver_error, record w { step = suc w.step })
  answer false (a, d) w = (ok a, record { db = d; step = suc w.step })

  unfoldable pub call : (Db → A × Db) → M A
  call f w = answer (e.fails w.step) (f w.db) w

  unfoldable pub query : (Db → A) → M A
  unfolding call
  query f = call (λ d. (f d, d))

unfoldable pub execute : ⦃e : Env⦄ → (Db → Db) → M Unit
unfolding call
execute f = call (λ d. (tt, f d))

module _ ⦃e : Env⦄ where
  -- `time.Now()`
  unfoldable pub time_now : M Time
  time_now w = (ok (e.now w.step), record w { step = suc w.step })

  -- `primitive.NewObjectID()`
  unfoldable pub new_object_id : M ObjectId
  new_object_id w = (ok (e.new_object_id w.step), record w { step = suc w.step })

  -- `idGenerator.GetID()`
  unfoldable pub next_serial : M ℕ
  next_serial w = or_raise (e.serial w.step) (refused "snowflake") (record w { step = suc w.step })

  -- an answer of another service
  unfoldable pub outside_call : {A : Type 0} → (ℕ → A) → M A
  outside_call f w = (ok (f w.step), record w { step = suc w.step })
