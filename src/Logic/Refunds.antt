-- ===== src/Logic/Refunds.antt =====
-- internal/logic/orders.go: refund bills of single items, and the refund of a paid order.
pub mod Limits
use cicd_demo.Base.{String, Bool, true, false, Option, none, some, [], ◌∷◌, ◌||◌, not, any, str_eq}
use cicd_demo.Constants.{bill_type_refund, PaymentAction}
use cicd_demo.Constants.BillStatus
use cicd_demo.Constants.BillStatus.{BillStatus}
use cicd_demo.Constants.OrderItemStatus
use cicd_demo.Constants.OrderItemStatus.{OrderItemStatus}
use cicd_demo.Constants.OrderStatus
use cicd_demo.Constants.OrderStatus.{OrderStatus}
use cicd_demo.Models.{ObjectId, User, Time, Decimal128, PaymentMethodInfo, Order, OrderItem, Bill}
use cicd_demo.Helper.{Checked, good, compare_decimal128}
use cicd_demo.Platform.{
  Mongo, Env, Comparison, M, pure, raise_if, or_raise, ◌>>=◌, ◌>>◌, logged, refused, new_object_id,
  time_now,
}
use cicd_demo.Repository.{with_status, with_updated_by, with_updated_at}
use cicd_demo.Dao.Orders.{
  get_order_by_id, get_order_item_by_id, update_order, update_order_item_status,
}
use cicd_demo.Dao.Bills.{create_bill, get_refunds_by_order_item_id, create_audit_log}
use cicd_demo.Logic.Audit.{build_create_refund_bill_audit_log}
use cicd_demo.Logic.Publisher.{PaymentEventPublisher, publish_payment_event}

-- dto.CreateRefundBillRequest
pub record CreateRefundBillRequest : Type 0 where
  pub order_item_id : ObjectId
  pub amount : Decimal128
  pub payment_method : PaymentMethodInfo
  pub operator : Option User
  pub reason : String

-- A refund that is being processed or is completed.
abbrev pub blocks_refund : Bill → Bool
blocks_refund b =
    BillStatus.same (BillStatus.parse b.status) BillStatus.pending
    || BillStatus.same (BillStatus.parse b.status) BillStatus.refunded

-- `cmp, _ := CompareDecimal128(…); cmp > 0`: an error of the comparison counts as 0.
abbrev pub is_above : Checked Comparison → Bool
is_above (good Comparison.greater) = true
is_above _ = false

module _ ⦃m : Mongo⦄ ⦃e : Env⦄ where
  unfoldable pub find_refundable_item_for_bill : Bill → M OrderItem
  find_refundable_item_for_bill bill = do
    raise_if (not (str_eq bill.bill_type bill_type_refund)) (refused "not a refund bill")
    item_id ← or_raise bill.order_item_id (refused "no associated order item ID")
    get_order_item_by_id item_id

  -- Steps 3 to 5 of `CreateRefundBill`.
  unfoldable pub check_refundable : CreateRefundBillRequest → OrderItem → M Unit
  check_refundable d i = do
    raise_if
        (not
          (OrderItemStatus.same (OrderItemStatus.parse i.status) OrderItemStatus.return_requested))
        (refused "order item status: cannot be refunded")
    refunds ← get_refunds_by_order_item_id i.id
    raise_if (any blocks_refund refunds) (refused "has a pending or successful refund")
    raise_if (is_above (compare_decimal128 d.amount i.price))
        (refused "refund amount exceeds item price")

  -- Step 6 and on: the bill, its message and audit log, and the new statuses.
  unfoldable pub issue_refund :
      PaymentEventPublisher → CreateRefundBillRequest → Time → OrderItem → Order → M ObjectId
  issue_refund p d now i o = do
    id ← new_object_id
    let bill : Bill = record {
      id = id;
      order = i.order;
      order_item_id = some i.id;
      customer = o.user;
      amount = d.amount;
      bill_type = bill_type_refund;
      status = BillStatus.to_string BillStatus.pending;
      payment_method = some d.payment_method;
      created_at = now;
      updated_at = now;
      payment = none;
      refunding_payment_id = none;
      note = "";
    }
    bill_id ← create_bill bill
    publish_payment_event p PaymentAction.refund bill o.merchant_id
    log ← build_create_refund_bill_audit_log d.operator bill d.reason
    logged tt (create_audit_log log)
    update_order_item_status (record {
      item_id = i.id;
      status = OrderItemStatus.to_string OrderItemStatus.return_approved;
      return_info = none;
    })
    update_order o.id (
        with_status (OrderStatus.to_string OrderStatus.return_in_progress)
        ∷ with_updated_by d.operator
        ∷ with_updated_at now
        ∷ [])
    pure bill_id

  unfoldable pub create_refund_bill : PaymentEventPublisher → CreateRefundBillRequest → M ObjectId
  create_refund_bill p d = do
    now ← time_now
    i ← get_order_item_by_id d.order_item_id
    o ← get_order_by_id i.order
    check_refundable d i
    issue_refund p d now i o
