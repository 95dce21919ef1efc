-- ===== src/Logic/Orders/PaidRefund.antt =====
-- internal/logic/orders.go: the refund of a whole paid order and `canUpdateStatus`, which nothing
-- calls.
use cicd_demo.Base.{String, Bool, false, Option, none, ◌∷◌, [], not, if◌then◌else◌}
use cicd_demo.Constants.{bill_type_refund, PaymentAction}
use cicd_demo.Constants.BillStatus
use cicd_demo.Constants.BillStatus.{BillStatus}
use cicd_demo.Constants.OrderItemStatus
use cicd_demo.Constants.OrderItemStatus.{OrderItemStatus}
use cicd_demo.Constants.OrderStatus
use cicd_demo.Constants.OrderStatus.{OrderStatus}
use cicd_demo.Models.{User, Order, Bill}
use cicd_demo.Platform.{
  Mongo, Env, M, pure, or_raise, refused, logged, new_object_id, time_now, ◌>>=◌, ◌>>◌,
}
use cicd_demo.Repository.{with_status, with_updated_by}
use cicd_demo.Dao.Orders.{update_order, update_items_status_by_order}
use cicd_demo.Dao.Bills.{create_bill, create_audit_log}
use cicd_demo.Logic.Audit.{build_cancel_order_audit_log}
use cicd_demo.Logic.Publisher.{PaymentEventPublisher, publish_payment_event}
use cicd_demo.Logic.Orders.{void_unpaid_order}

-- `canUpdateStatus o new`, on the parsed statuses.
abbrev follows : OrderStatus → OrderStatus → Bool
follows o OrderStatus.unpaid = false
follows o OrderStatus.partially_paid = OrderStatus.same o OrderStatus.unpaid
follows o OrderStatus.paid = OrderStatus.same o OrderStatus.partially_paid
follows o OrderStatus.partially_returned = not (OrderStatus.same o OrderStatus.paid)
follows o OrderStatus.returned = OrderStatus.same o OrderStatus.paid
follows o _ = false

unfoldable pub can_update_status : String → String → Bool
can_update_status o new = follows (OrderStatus.parse o) (OrderStatus.parse new)

module _ ⦃m : Mongo⦄ ⦃e : Env⦄ where
  -- The refund bill for the amount that is paid; it names no payment method.
  unfoldable pub bill_full_refund : Order → M Bill
  bill_full_refund o = do
    id ← new_object_id
    created_at ← time_now
    updated_at ← time_now
    pure (record {
      id = id;
      order = o.id;
      order_item_id = none;
      customer = o.user;
      amount = o.paid;
      bill_type = bill_type_refund;
      status = BillStatus.to_string BillStatus.pending;
      payment_method = none;
      created_at = created_at;
      updated_at = updated_at;
      payment = none;
      refunding_payment_id = none;
      note = "Full order cancellation refund";
    })

  -- After the bill: the items, the order and the audit log.
  unfoldable pub finish_full_refund : Order → Option User → String → M Unit
  finish_full_refund o operator reason = do
    update_items_status_by_order o.id (OrderItemStatus.to_string OrderItemStatus.paid)
        (OrderItemStatus.to_string OrderItemStatus.return_approved) operator
    update_order o.id (
        with_status (OrderStatus.to_string OrderStatus.pending_refund)
        ∷ with_updated_by operator
        ∷ [])
    log ← build_cancel_order_audit_log operator o reason
    logged tt (create_audit_log (record log { action = "REQUEST_REFUND" }))

  unfoldable pub refund_paid_amount : PaymentEventPublisher → Order → Option User → String → M Unit
  refund_paid_amount p o operator reason = do
    bill ← bill_full_refund o
    create_bill bill
    publish_payment_event p PaymentAction.refund bill o.merchant_id
    finish_full_refund o operator reason

  unfoldable pub request_refund_for_paid_order :
      PaymentEventPublisher → Order → Option User → String → M Unit
  request_refund_for_paid_order p o operator reason = do
    positive ←
        or_raise (e.float64_is_positive (e.decimal_string o.paid))
          (refused "invalid paid amount format")
    (if positive
        then refund_paid_amount p o operator reason
        else void_unpaid_order p o operator reason)
