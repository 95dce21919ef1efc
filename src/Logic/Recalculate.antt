-- ===== src/Logic/Recalculate.antt =====
-- internal/logic/orders.go: `recalculateOrderStatus`, the state machine of an order, one function
-- for each case of its `switch`.
pub mod Transition
pub mod Statuses
pub mod Settling
pub mod Machine
pub mod Panics
pub mod Steps
pub mod Returning
pub mod Liveness
use cicd_demo.Base.{
  ℕ, String, Bool, true, false, Option, none, List, [], ◌∷◌, ◌++◌, ◌||◌, all, any, keep, length,
  ltb, ◌==◌, str_eq, if◌then◌else◌,
}
use cicd_demo.Constants.{bill_type_refund}
use cicd_demo.Constants.BillStatus
use cicd_demo.Constants.BillStatus.{BillStatus}
use cicd_demo.Constants.OrderItemStatus
use cicd_demo.Constants.OrderItemStatus.{OrderItemStatus}
use cicd_demo.Constants.OrderStatus
use cicd_demo.Constants.OrderStatus.{OrderStatus}
use cicd_demo.Models.{ObjectId, User, Order, OrderItem, OrderWithItems, zero_time}
use cicd_demo.Helper.{Checked, good, bad, compare_decimal128, sub_decimal128, decimal128_to_int64}
use cicd_demo.Platform.{
  Mongo, Env, Comparison, M, pure, raise, panics, ◌>>=◌, ◌>>◌, logged, refused,
  unhandled_default_case, new_object_id, time_now,
}
use cicd_demo.Repository.{
  UpdateOption, with_status, with_items_count, with_updated_by, with_updated_at,
}
use cicd_demo.Dao.Orders.{get_order_with_items_by_id, update_order, update_items_status_by_order}
use cicd_demo.Dao.Bills.{create_bill, create_audit_log}
use cicd_demo.Logic.Audit.{build_order_status_change_audit_log}
use cicd_demo.Logic.Publisher.{TicketEventPublisher, publish_ticket_generation_task}

abbrev pub checked : {A : Type 0} → Checked A → M A
checked (good a) = pure a
checked (bad x) = raise x

abbrev pub has_status : OrderItemStatus → OrderItem → Bool
has_status s i = str_eq i.status (OrderItemStatus.to_string s)

abbrev pub is_return_in_progress : OrderItem → Bool
is_return_in_progress i =
    has_status OrderItemStatus.return_approved i || has_status OrderItemStatus.return_requested i

-- Whether an int64, given by its sign and its size, is above 0.
abbrev is_positive : Bool × ℕ → Bool
is_positive (true, n) = false
is_positive (false, n) = ltb 0 n

module _ ⦃m : Mongo⦄ ⦃e : Env⦄ where
  -- `if oldStatus != newStatus` the change is put into the audit log, whose error is only logged.
  unfoldable pub audit_status_change : Option User → ObjectId → String → String → String → M Unit
  audit_status_change operator order_id old_status new_status reason =
      if str_eq old_status new_status then pure tt else do
        log ← build_order_status_change_audit_log operator order_id old_status new_status reason
        logged tt (create_audit_log log)

  -- The new status of the order is written, with other options, and audited.
  unfoldable pub change_status :
      Option User → ObjectId → String → String → List UpdateOption → String → M Unit
  change_status operator order_id old_status new_status options reason = do
    update_order order_id (with_status new_status ∷ (options ++ with_updated_by operator ∷ []))
    audit_status_change operator order_id old_status new_status reason

  unfoldable pub update_order_to_paid_with_audit :
      ObjectId → Option User → String → Option TicketEventPublisher → M Unit
  update_order_to_paid_with_audit order_id operator old_status publisher = do
    now ← time_now
    update_order order_id (
        with_status (OrderStatus.to_string OrderStatus.paid)
        ∷ with_updated_by operator
        ∷ with_updated_at now
        ∷ [])
    audit_status_change operator order_id old_status (OrderStatus.to_string OrderStatus.paid)
        "Payment completed, order fully paid"
    update_items_status_by_order order_id
        (OrderItemStatus.to_string OrderItemStatus.pending_payment)
        (OrderItemStatus.to_string OrderItemStatus.paid) operator
    logged tt (publish_ticket_generation_task publisher order_id)

  -- Of an unpaid order that keeps an item: paid, partially paid, or no change.
  unfoldable pub settle_unpaid :
      ObjectId → Order → Comparison → Option User → Option TicketEventPublisher → M Unit
  settle_unpaid order_id o Comparison.equal operator publisher =
      update_order_to_paid_with_audit order_id operator o.status publisher
  settle_unpaid order_id o _ operator publisher = do
    paid ← checked (decimal128_to_int64 o.paid)
    if is_positive paid
        then change_status operator order_id o.status
            (OrderStatus.to_string OrderStatus.partially_paid) [] "Partial payment received"
        else pure tt

  unfoldable pub recalculate_unpaid :
      ObjectId → OrderWithItems → Option User → Option TicketEventPublisher → M Unit
  recalculate_unpaid order_id w operator publisher =
      if all (has_status OrderItemStatus.canceled) w.items
      then change_status operator order_id w.order.status
          (OrderStatus.to_string OrderStatus.canceled) [] "All order items were canceled"
      else do
        c ← checked (compare_decimal128 w.order.total w.order.paid)
        settle_unpaid order_id w.order c operator publisher

  -- More was paid than the total: the difference is to be refunded.
  unfoldable pub refund_overpayment : ObjectId → Order → Option User → M Unit
  refund_overpayment order_id o operator = do
    change_status operator order_id o.status (OrderStatus.to_string OrderStatus.pending_refund) []
        "Overpayment detected, pending refund"
    difference ← checked (sub_decimal128 o.paid o.total)
    id ← new_object_id
    create_bill (record {
      id = id;
      order = order_id;
      order_item_id = none;
      customer = o.user;
      amount = difference;
      bill_type = bill_type_refund;
      status = BillStatus.to_string BillStatus.pending;
      payment_method = none;
      created_at = zero_time;
      updated_at = zero_time;
      payment = none;
      refunding_payment_id = none;
      note = "";
    })
    pure tt

  unfoldable pub settle_partially_paid :
      ObjectId → Order → Comparison → Option User → Option TicketEventPublisher → M Unit
  settle_partially_paid order_id o Comparison.equal operator publisher =
      update_order_to_paid_with_audit order_id operator o.status publisher
  settle_partially_paid order_id o Comparison.less operator publisher =
      refund_overpayment order_id o operator
  settle_partially_paid order_id o Comparison.greater operator publisher = do
    c ← checked (compare_decimal128 o.returned o.paid)
    elim c [
      | Comparison.equal ↦
          change_status operator order_id o.status (OrderStatus.to_string OrderStatus.canceled) []
            "Full refund completed, order canceled"
      | _ ↦ pure tt
    ]

  unfoldable pub recalculate_partially_paid :
      ObjectId → OrderWithItems → Option User → Option TicketEventPublisher → M Unit
  recalculate_partially_paid order_id w operator publisher = do
    c ← checked (compare_decimal128 w.order.total w.order.paid)
    settle_partially_paid order_id w.order c operator publisher

  unfoldable pub recalculate_pending_refund :
      ObjectId → OrderWithItems → Option User → Option TicketEventPublisher → M Unit
  recalculate_pending_refund order_id w operator publisher = do
    net_paid ← checked (sub_decimal128 w.order.paid w.order.returned)
    c ← checked (compare_decimal128 net_paid w.order.total)
    elim c [
      | Comparison.equal ↦
          update_order_to_paid_with_audit order_id operator w.order.status publisher
      | _ ↦ pure tt
    ]

  unfoldable pub recalculate_paid : ObjectId → OrderWithItems → Option User → M Unit
  recalculate_paid order_id w operator =
      if any (has_status OrderItemStatus.pending_payment) w.items
      then pure tt
      else change_status operator order_id w.order.status
          (OrderStatus.to_string OrderStatus.completed)
          (with_items_count (length (keep (has_status OrderItemStatus.fulfilled) w.items)) ∷ [])
          "All items processed, order completed"

  unfoldable pub recalculate_completed : ObjectId → OrderWithItems → Option User → M Unit
  recalculate_completed order_id w operator =
      if any is_return_in_progress w.items
      then change_status operator order_id w.order.status
          (OrderStatus.to_string OrderStatus.return_in_progress) [] "Return request initiated"
      else pure tt

  -- No item is on its way back any more: the status that the counts of items give.
  unfoldable pub finish_returns : ObjectId → Order → Option User → M Unit
  finish_returns order_id o operator =
      if o.returned_items_count == 0
      then change_status operator order_id o.status (OrderStatus.to_string OrderStatus.completed) []
          "Return process completed, back to completed"
      else if o.items_count == o.returned_items_count
      then change_status operator order_id o.status (OrderStatus.to_string OrderStatus.returned) []
          "All returns processed, order status finalized."
      else if ltb o.returned_items_count o.items_count
      then change_status operator order_id o.status
          (OrderStatus.to_string OrderStatus.partially_returned) []
          "All returns processed, order status finalized."
      else raise (refused "data inconsistency: returned items count")

  unfoldable pub recalculate_return_in_progress : ObjectId → OrderWithItems → Option User → M Unit
  recalculate_return_in_progress order_id w operator =
      if any is_return_in_progress w.items
      then pure tt
      else finish_returns order_id w.order operator

  -- The second of the two tests of a partially returned order.
  unfoldable pub settle_returned : ObjectId → Order → Option User → M Unit
  settle_returned order_id o operator =
      if o.returned_items_count == o.items_count
      then change_status operator order_id o.status (OrderStatus.to_string OrderStatus.returned) []
          "All items returned"
      else pure tt

  -- Both tests are made, one after the other, on the order as it was read.
  unfoldable pub recalculate_partially_returned : ObjectId → OrderWithItems → Option User → M Unit
  recalculate_partially_returned order_id w operator = do
    (if any is_return_in_progress w.items
        then change_status operator order_id w.order.status
            (OrderStatus.to_string OrderStatus.return_in_progress) []
            "Additional return request initiated"
        else pure tt)
    settle_returned order_id w.order operator

  -- The `switch` on the stored status.
  unfoldable pub recalculate_by_status :
      ObjectId → OrderWithItems → Option User → Option TicketEventPublisher → M Unit
  recalculate_by_status order_id w operator publisher =
      let s = w.order.status in
      if str_eq s (OrderStatus.to_string OrderStatus.unpaid)
      then recalculate_unpaid order_id w operator publisher
      else if str_eq s (OrderStatus.to_string OrderStatus.partially_paid)
      then recalculate_partially_paid order_id w operator publisher
      else if str_eq s (OrderStatus.to_string OrderStatus.pending_refund)
      then recalculate_pending_refund order_id w operator publisher
      else if str_eq s (OrderStatus.to_string OrderStatus.paid)
      then recalculate_paid order_id w operator
      else if str_eq s (OrderStatus.to_string OrderStatus.completed)
      then recalculate_completed order_id w operator
      else if str_eq s (OrderStatus.to_string OrderStatus.return_in_progress)
      then recalculate_return_in_progress order_id w operator
      else if str_eq s (OrderStatus.to_string OrderStatus.partially_returned)
      then recalculate_partially_returned order_id w operator
      else panics unhandled_default_case

  unfoldable pub recalculate_order_status :
      ObjectId → Option User → Option TicketEventPublisher → M Unit
  recalculate_order_status order_id operator publisher = do
    w ← get_order_with_items_by_id order_id
    recalculate_by_status order_id w operator publisher
