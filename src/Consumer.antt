-- ===== src/Consumer.antt =====
-- cmd/consumer/handlers: the messages of the queues, each handled in one transaction. A nil error
-- acknowledges the message, and an error puts it back into the queue.
pub mod Atomicity
pub mod Delivery
use cicd_demo.Base.{String, Bool, true, false, Option, none, some, str_eq, if◌then◌else◌}
use cicd_demo.Constants.{bill_type_refund}
use cicd_demo.Constants.OrderItemStatus
use cicd_demo.Constants.OrderItemStatus.{OrderItemStatus}
use cicd_demo.Models.{ObjectId, system_user, Bill}
use cicd_demo.Platform.{
  Mongo, Env, Ending, committed, aborted, Error, Outcome, ok, err, panic, Db, World, M, pure, ◌>>=◌,
  ◌>>◌, driver_error, call,
}
use cicd_demo.Logic.Publisher.{TicketEventPublisher}
use cicd_demo.Logic.Orders.{
  change_order_item_status, handle_payment_success, mark_order_items_as_fulfilled,
}
use cicd_demo.Logic.Bills.{process_payment_update}
use cicd_demo.Logic.Refunds.{find_refundable_item_for_bill}
use cicd_demo.Logic.Tickets.{generate_tickets_for_order, void_ticket_by_order_item}

-- The message of the payment service, after the JSON decoding.
pub record BillStatusUpdate : Type 0 where
  pub bill_id : String
  pub payment_id : String
  pub is_successful : Bool

module _ ⦃m : Mongo⦄ ⦃e : Env⦄ where
  settle_db : Ending → World → World → World
  settle_db ending before after = record after { db = m.settle Db ending before.db after.db }

  -- The end of a transaction: the commit may fail, and then nothing has happened.
  settle : {A : Type 0} → Bool → World → Outcome A × World → Outcome A × World
  unfolding settle_db
  settle true before (ok a, w) = (err driver_error, settle_db aborted before w)
  settle false before (ok a, w) = (ok a, settle_db committed before w)
  settle _ before (err x, w) = (err x, settle_db aborted before w)
  settle _ before (panic p, w) = (panic p, settle_db aborted before w)

  -- MongoTransactionManager.WithTransaction: the session starts, and the body runs in it.
  unfoldable pub with_transaction : {A : Type 0} → M A → M A
  unfolding settle call
  with_transaction body = do
    call (λ d. (tt, d))
    (λ w. let r = body w in settle (e.fails r.1.step) w r)

  -- `errors.Is(err, …)` with a nil error in its place.
  abbrev ignore_error :
      {A : Type 0} → (Error → Bool) → (A → M Unit) → Outcome A × World → Outcome Unit × World
  ignore_error ignored next (ok a, w) = next a w
  ignore_error ignored next (err x, w) = if ignored x then (ok tt, w) else (err x, w)
  ignore_error ignored next (panic p, w) = (panic p, w)

  abbrev is_already_processed : Error → Bool
  is_already_processed Error.already_processed = true
  is_already_processed _ = false

  abbrev is_permanent : Error → Bool
  is_permanent Error.permanent = true
  is_permanent _ = false

  -- Step 3b of the bill handler: the successful refund, and the successful payment.
  unfoldable pub finish_refund : Bill → M Unit
  finish_refund bill = do
    item ← find_refundable_item_for_bill bill
    change_order_item_status (record {
      order_item_id = item.id;
      order_id = bill.order;
      new_status = OrderItemStatus.to_string OrderItemStatus.returned;
      reason = "Refund processed successfully";
      operator = some system_user;
    })
    void_ticket_by_order_item item.id

  unfoldable pub after_payment_update : Option TicketEventPublisher → Bool → Bill → M Unit
  after_payment_update publisher is_successful bill =
      if is_successful
      then (if str_eq bill.bill_type bill_type_refund
          then finish_refund bill
          else handle_payment_success bill.order publisher)
      else pure tt

  unfoldable pub update_bill_in_transaction :
      Option TicketEventPublisher → ObjectId → BillStatusUpdate → M Unit
  update_bill_in_transaction publisher bill_id d w =
      ignore_error is_already_processed (after_payment_update publisher d.is_successful)
        (process_payment_update bill_id d.payment_id d.is_successful w)

  -- `BillStatusUpdateHandler.Handle`; `none` is a body that is no JSON.
  unfoldable pub handle_bill_status_update :
      Option TicketEventPublisher → Option BillStatusUpdate → M Unit
  handle_bill_status_update publisher none = pure tt
  handle_bill_status_update publisher (some d) = elim (e.object_id_from_hex d.bill_id) [
    | none ↦ pure tt
    | some bill_id ↦ with_transaction (update_bill_in_transaction publisher bill_id d)
  ]

  unfoldable pub fulfil_in_transaction : ObjectId → M Unit
  fulfil_in_transaction order_id w =
      ignore_error is_permanent (λ _. mark_order_items_as_fulfilled order_id)
        (generate_tickets_for_order order_id w)

  -- `TicketHandler.Handle`
  unfoldable pub handle_generate_tickets : Option String → M Unit
  handle_generate_tickets none = pure tt
  handle_generate_tickets (some text) = elim (e.object_id_from_hex text) [
    | none ↦ pure tt
    | some order_id ↦ with_transaction (fulfil_in_transaction order_id)
  ]
