-- ===== src/Logic/Orders.antt =====
-- internal/logic/orders.go: the status of an item, the fulfilment and the cancellation of an order.
pub mod Items
pub mod Cancellation
pub mod PaidRefund
use cicd_demo.Base.{
  String, Bool, true, Option, none, some, List, [], ◌∷◌, ◌&&◌, not, ◌==◌, str_eq, if◌then◌else◌,
}
use cicd_demo.Constants.{bill_type_refund, PaymentAction}
use cicd_demo.Constants.BillStatus
use cicd_demo.Constants.BillStatus.{BillStatus}
use cicd_demo.Constants.OrderItemStatus
use cicd_demo.Constants.OrderItemStatus.{OrderItemStatus}
use cicd_demo.Constants.OrderStatus
use cicd_demo.Constants.OrderStatus.{OrderStatus}
use cicd_demo.Models.{
  ObjectId, User, system_user, Order, OrderItem, OrderItemWithOrder, Bill, ReturnInfo,
}
use cicd_demo.Helper.{negate_decimal128}
use cicd_demo.Platform.{
  Mongo, Env, M, pure, raise, raise_if, ◌>>=◌, ◌>>◌, logged, refused, new_object_id, time_now,
}
use cicd_demo.Repository.{with_status, with_updated_by, with_inc_total, with_inc_subtotal}
use cicd_demo.Dao.Orders.{
  get_order_by_id, get_order_item_with_order, get_order_items_by_order_id, update_order,
  update_order_item_status, update_items_status_by_order,
}
use cicd_demo.Dao.Bills.{create_bill, get_bills_by_order_id, update_bill, create_audit_log}
use cicd_demo.Dao.Tickets.{release_tickets}
use cicd_demo.Logic.Audit.{build_update_order_item_status_audit_log, build_cancel_order_audit_log}
use cicd_demo.Logic.Publisher.{PaymentEventPublisher, TicketEventPublisher, publish_payment_event}
use cicd_demo.Logic.Recalculate.{checked, recalculate_order_status}

-- dto.UpdateOrderItemStatusRequest
pub record UpdateOrderItemStatusRequest : Type 0 where
  pub order_item_id : ObjectId
  pub order_id : ObjectId
  pub new_status : String
  pub reason : String
  pub operator : Option User

-- dto.CancelOrderRequest
pub record CancelOrderRequest : Type 0 where
  pub order_id : ObjectId
  pub user : Option User
  pub reason : String

-- `canUpdateOrderItemStatus o n`, from the old status to the new one.
unfoldable pub can_update_order_item_status : OrderItemStatus → OrderItemStatus → Bool
can_update_order_item_status o OrderItemStatus.canceled =
    OrderItemStatus.same o OrderItemStatus.pending_payment
can_update_order_item_status o OrderItemStatus.return_requested =
    OrderItemStatus.same o OrderItemStatus.fulfilled
can_update_order_item_status o OrderItemStatus.return_approved =
    OrderItemStatus.same o OrderItemStatus.return_requested
can_update_order_item_status o OrderItemStatus.returned =
    OrderItemStatus.same o OrderItemStatus.return_approved
can_update_order_item_status o OrderItemStatus.fulfilled = not (
    not (OrderItemStatus.same o OrderItemStatus.return_requested)
    && not (OrderItemStatus.same o OrderItemStatus.paid))
can_update_order_item_status o _ = true

module _ ⦃m : Mongo⦄ ⦃e : Env⦄ where
  -- The details of a return, where one is requested.
  unfoldable pub return_info_for : OrderItemStatus → String → M (Option ReturnInfo)
  return_info_for OrderItemStatus.return_requested reason = do
    now ← time_now
    pure (some (record { reason = reason; requested_at = now }))
  return_info_for _ reason = pure none

  -- A canceled item goes back into the stock, and its price comes off the order.
  unfoldable pub release_canceled_item : UpdateOrderItemStatusRequest → OrderItem → M Unit
  release_canceled_item d i = do
    release_tickets (i ∷ [])
    minus_price ← checked (negate_decimal128 i.price)
    update_order d.order_id (
        with_inc_total minus_price
        ∷ with_inc_subtotal minus_price
        ∷ with_updated_by d.operator
        ∷ [])

  -- An approved return gets a refund bill; an error of its creation is only logged.
  unfoldable pub bill_approved_return : OrderItemWithOrder → M Unit
  bill_approved_return w = do
    id ← new_object_id
    created ← time_now
    updated ← time_now
    logged id (
        create_bill (record {
          id = id;
          order = w.order_item.order;
          order_item_id = none;
          customer = w.order_info.user;
          amount = w.order_item.price;
          bill_type = bill_type_refund;
          status = BillStatus.to_string BillStatus.pending;
          payment_method = none;
          created_at = created;
          updated_at = updated;
          payment = none;
          refunding_payment_id = none;
          note = "";
        }))
    pure tt

  -- Step 4 of `_updateOrderItemStatus`: what the new status brings with it.
  unfoldable pub after_item_status :
      OrderItemStatus → UpdateOrderItemStatusRequest → OrderItemWithOrder → M Unit
  after_item_status OrderItemStatus.canceled d w = release_canceled_item d w.order_item
  after_item_status OrderItemStatus.return_approved d w = bill_approved_return w
  after_item_status _ d w = pure tt

  -- Steps 3 and on of `_updateOrderItemStatus`, for a new status that the item may take.
  unfoldable pub set_order_item_status : UpdateOrderItemStatusRequest → OrderItemWithOrder → M Unit
  set_order_item_status d w = do
    let new_status = OrderItemStatus.parse d.new_status
    return_info ← return_info_for new_status d.reason
    update_order_item_status
        (record { item_id = d.order_item_id; status = d.new_status; return_info = return_info })
    after_item_status new_status d w
    recalculate_order_status d.order_id d.operator none
    log ← build_update_order_item_status_audit_log d.operator d.reason w.order_item d.new_status
    logged tt (create_audit_log log)

  -- Its steps 1 and 2: the item belongs to the order, and it may take the new status.
  unfoldable pub check_order_item_status :
      UpdateOrderItemStatusRequest → OrderItemWithOrder → M Unit
  check_order_item_status d w = do
    raise_if (not (w.order_item.order == d.order_id))
        (refused "order and order item's order matched failed")
    raise_if
        (not (
          can_update_order_item_status (OrderItemStatus.parse w.order_item.status)
            (OrderItemStatus.parse d.new_status)))
        (refused "invalid status transition")
    set_order_item_status d w

  unfoldable pub change_order_item_status : UpdateOrderItemStatusRequest → M Unit
  change_order_item_status d = do
    w ← get_order_item_with_order d.order_item_id
    check_order_item_status d w

  -- `RequestOrderItemRefund` and `RejectOrderItemRefund`
  unfoldable pub request_order_item_refund : ObjectId → ObjectId → Option User → String → M Unit
  request_order_item_refund order_id order_item_id operator reason =
      change_order_item_status (record {
        order_item_id = order_item_id;
        order_id = order_id;
        new_status = OrderItemStatus.to_string OrderItemStatus.return_requested;
        reason = reason;
        operator = operator;
      })

  unfoldable pub reject_order_item_refund : ObjectId → ObjectId → Option User → String → M Unit
  reject_order_item_refund order_id order_item_id operator reason =
      change_order_item_status (record {
        order_item_id = order_item_id;
        order_id = order_id;
        new_status = OrderItemStatus.to_string OrderItemStatus.fulfilled;
        reason = reason;
        operator = operator;
      })

  unfoldable pub mark_order_items_as_fulfilled : ObjectId → M Unit
  mark_order_items_as_fulfilled order_id = do
    update_items_status_by_order order_id (OrderItemStatus.to_string OrderItemStatus.paid)
        (OrderItemStatus.to_string OrderItemStatus.fulfilled) (some system_user)
    recalculate_order_status order_id (some system_user) none

  unfoldable pub handle_payment_success : ObjectId → Option TicketEventPublisher → M Unit
  handle_payment_success order_id publisher =
      recalculate_order_status order_id (some system_user) publisher

  -- The body of the loop over the bills: a pending one is canceled, and its payment.
  unfoldable pub cancel_pending_bill :
      PaymentEventPublisher → ObjectId → Option User → Bill → M Unit
  cancel_pending_bill p merchant_id operator b =
      if str_eq b.status (BillStatus.to_string BillStatus.pending)
      then (do
        update_bill b.id
            (with_status (BillStatus.to_string BillStatus.canceled) ∷ with_updated_by operator ∷ [])
        publish_payment_event p PaymentAction.cancel b merchant_id)
      else pure tt

  unfoldable pub cancel_pending_bills :
      PaymentEventPublisher → ObjectId → Option User → List Bill → M Unit
  cancel_pending_bills p merchant_id operator [] = pure tt
  cancel_pending_bills p merchant_id operator (b ∷ bills) = do
    cancel_pending_bill p merchant_id operator b
    cancel_pending_bills p merchant_id operator bills

  unfoldable pub void_unpaid_order : PaymentEventPublisher → Order → Option User → String → M Unit
  void_unpaid_order p o operator reason = do
    items ← get_order_items_by_order_id o.id
    bills ← get_bills_by_order_id o.id
    cancel_pending_bills p o.merchant_id operator bills
    update_items_status_by_order o.id (OrderItemStatus.to_string OrderItemStatus.pending_payment)
        (OrderItemStatus.to_string OrderItemStatus.canceled) operator
    release_tickets items
    update_order o.id
        (with_status (OrderStatus.to_string OrderStatus.canceled) ∷ with_updated_by operator ∷ [])
    log ← build_cancel_order_audit_log operator o reason
    logged tt (create_audit_log log)

  -- Step 2 of `CancelOrder` and on.
  unfoldable pub cancel_read : PaymentEventPublisher → CancelOrderRequest → Order → M Unit
  cancel_read p d o =
      if str_eq o.status (OrderStatus.to_string OrderStatus.unpaid)
      then void_unpaid_order p o d.user d.reason
      else raise (refused "order cannot be cancelled in status")

  unfoldable pub cancel_order : PaymentEventPublisher → CancelOrderRequest → M Unit
  cancel_order p d = do o ← get_order_by_id d.order_id; cancel_read p d o
