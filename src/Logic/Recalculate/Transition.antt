-- ===== src/Logic/Recalculate/Transition.antt =====
-- internal/logic/orders.go: the statuses of orders as `recalculateOrderStatus` may change them. A
-- specification of its own: which status an order may take, and on which condition.
use cicd_demo.Base.{ℕ, ◌<◌, String, true, false, List, map, ◌≡◌, ◌⊎◌, all, any, change_first, ◌==◌}
use cicd_demo.Constants.OrderStatus
use cicd_demo.Constants.OrderStatus.{OrderStatus}
use cicd_demo.Constants.OrderItemStatus.{OrderItemStatus}
use cicd_demo.Models.{ObjectId, Decimal128, Order, OrderWithItems}
use cicd_demo.Helper.{good, compare_decimal128, sub_decimal128, decimal128_to_int64}
use cicd_demo.Platform.{Env, Comparison, Db}
use cicd_demo.Logic.Recalculate.{has_status, is_return_in_progress}

-- What an observer sees of the orders: their IDs and statuses.
abbrev pub status_of : Order → ObjectId × String
status_of o = (o.id, o.status)

abbrev pub statuses : Db → List (ObjectId × String)
statuses d = map status_of d.orders

abbrev pub set_status : ObjectId → String → List (ObjectId × String) → List (ObjectId × String)
set_status id s l = change_first (λ p. p.0 == id) (λ p. (p.0, s)) l

module _ ⦃e : Env⦄ where
  -- The status that an order with its items may take next.
  pub data Transition (w : OrderWithItems) : OrderStatus → Type 0 where
    -- every item of an unpaid order is canceled
    void :
        w.order.status ≡ "unpaid"
        → all (has_status OrderItemStatus.canceled) w.items ≡ true
        → Transition w OrderStatus.canceled
    -- the whole total of an unpaid or a partially paid order is paid
    pay :
        (w.order.status ≡ "unpaid") ⊎ (w.order.status ≡ "partially_paid")
        → compare_decimal128 w.order.total w.order.paid ≡ good Comparison.equal
        → Transition w OrderStatus.paid
    -- a part of it is, of at least 1
    pay_part :
        (n : ℕ)
        → w.order.status ≡ "unpaid"
        → decimal128_to_int64 w.order.paid ≡ good (false, n)
        → 0 < n
        → Transition w OrderStatus.partially_paid
    -- more than the total is
    overpay :
        w.order.status ≡ "partially_paid"
        → compare_decimal128 w.order.total w.order.paid ≡ good Comparison.less
        → Transition w OrderStatus.pending_refund
    -- all that was paid has been returned
    refund_all :
        w.order.status ≡ "partially_paid"
        → compare_decimal128 w.order.returned w.order.paid ≡ good Comparison.equal
        → Transition w OrderStatus.canceled
    -- the refund brings the paid amount to the total
    refund_difference :
        (net : Decimal128)
        → w.order.status ≡ "pending_refund"
        → sub_decimal128 w.order.paid w.order.returned ≡ good net
        → compare_decimal128 net w.order.total ≡ good Comparison.equal
        → Transition w OrderStatus.paid
    -- no item of a paid order waits for its payment
    complete :
        w.order.status ≡ "paid"
        → any (has_status OrderItemStatus.pending_payment) w.items ≡ false
        → Transition w OrderStatus.completed
    -- an item of a completed or a partially returned order is on its way back
    start_return :
        (w.order.status ≡ "completed") ⊎ (w.order.status ≡ "partially_returned")
        → any is_return_in_progress w.items ≡ true
        → Transition w OrderStatus.return_in_progress
    -- no item is any more, and none, some or all have been returned
    return_none :
        w.order.status ≡ "return_in_progress"
        → any is_return_in_progress w.items ≡ false
        → w.order.returned_items_count ≡ 0
        → Transition w OrderStatus.completed
    return_some :
        w.order.status ≡ "return_in_progress"
        → any is_return_in_progress w.items ≡ false
        → 0 < w.order.returned_items_count
        → w.order.returned_items_count < w.order.items_count
        → Transition w OrderStatus.partially_returned
    return_all :
        w.order.status ≡ "return_in_progress"
        → any is_return_in_progress w.items ≡ false
        → w.order.items_count ≡ w.order.returned_items_count
        → Transition w OrderStatus.returned
    return_rest :
        w.order.status ≡ "partially_returned"
        → w.order.returned_items_count ≡ w.order.items_count
        → Transition w OrderStatus.returned

  -- How the observer's view may differ after the method: not at all, or in the status of the one
  -- order, by a transition.
  pub data Settles (w : OrderWithItems) (order_id : ObjectId) (before after : Db) : Type 0 where
    stays : statuses after ≡ statuses before → Settles w order_id before after
    moves :
        (s : OrderStatus)
        → Transition w s
        → statuses after ≡ set_status order_id (OrderStatus.to_string s) (statuses before)
        → Settles w order_id before after
