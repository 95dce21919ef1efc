-- ===== src/Logic/Recalculate/Panics.antt =====
-- internal/logic/orders.go: where `recalculateOrderStatus` panics.
use cicd_demo.Base.{String, false, Option, none, ◌≡◌, ◌≢◌, ◌⊎◌, inl, inr, all, subst}
use cicd_demo.Constants.OrderItemStatus.{OrderItemStatus}
use cicd_demo.Models.{Decimal128, ObjectId, User, Order, OrderWithItems}
use cicd_demo.Helper.{good, compare_decimal128, sub_decimal128}
use cicd_demo.Platform.{Mongo, Env, Comparison, World, ok, ◌>>=◌, logged, new_object_id}
use cicd_demo.Platform.Frame.{NeverOk, NeverOk-bind, bind-eq-ok}
use cicd_demo.Dao.Orders.{get_order_with_items_by_id}
use cicd_demo.Logic.Publisher.{publish_ticket_generation_task}
use cicd_demo.Logic.Recalculate.{
  checked, has_status, update_order_to_paid_with_audit, settle_unpaid, recalculate_unpaid,
  settle_partially_paid, recalculate_partially_paid, recalculate_pending_refund,
  recalculate_by_status, recalculate_order_status,
}

module _ ⦃m : Mongo⦄ ⦃e : Env⦄ where
  no_publisher : (id : ObjectId) → NeverOk (logged tt (publish_ticket_generation_task none id))
  unfolding publish_ticket_generation_task new_object_id
  no_publisher id = record { at = λ w a p. cc }

  to_paid :
      (id : ObjectId) (u : Option User) (old : String)
      → NeverOk (update_order_to_paid_with_audit id u old none)
  unfolding update_order_to_paid_with_audit
  to_paid id u old = search (NeverOk-bind, no_publisher)

  settled_unpaid :
      (id : ObjectId) (o : Order) (u : Option User) (W : World)
      → compare_decimal128 o.total o.paid ≡ good Comparison.equal
      → (a : Unit)
      → ((do c ← checked (compare_decimal128 o.total o.paid); settle_unpaid id o c u none) W).0
        ≢ ok a
  unfolding settle_unpaid
  settled_unpaid id o u W same a = rw same ((to_paid id u o.status).at W a)

  settled_partially_paid :
      (id : ObjectId) (o : Order) (u : Option User) (W : World)
      → compare_decimal128 o.total o.paid ≡ good Comparison.equal
      → (a : Unit)
      → ((do c ← checked (compare_decimal128 o.total o.paid); settle_partially_paid id o c u none)
          W).0
        ≢ ok a
  unfolding settle_partially_paid
  settled_partially_paid id o u W same a = rw same ((to_paid id u o.status).at W a)

  -- An order that is to become paid: its whole total is paid; or it waits for a refund, and what is
  -- left of the payments is the total.
  abbrev IsSettled : OrderWithItems → Type 0
  IsSettled w =
      ((compare_decimal128 w.order.total w.order.paid ≡ good Comparison.equal)
        × (((w.order.status ≡ "unpaid")
              × (all (has_status OrderItemStatus.canceled) w.items ≡ false))
            ⊎ (w.order.status ≡ "partially_paid")))
      ⊎ ((w.order.status ≡ "pending_refund")
          × ((net : Decimal128) × (sub_decimal128 w.order.paid w.order.returned ≡ good net)
              × (compare_decimal128 net w.order.total ≡ good Comparison.equal)))

  settled_pending_refund :
      (id : ObjectId) (w : OrderWithItems) (u : Option User) (W : World) (net : Decimal128)
      → sub_decimal128 w.order.paid w.order.returned ≡ good net
      → compare_decimal128 net w.order.total ≡ good Comparison.equal
      → (a : Unit) → (recalculate_pending_refund id w u none W).0 ≢ ok a
  unfolding recalculate_pending_refund
  settled_pending_refund id w u W net left same a =
      rw left (rw same ((to_paid id u w.order.status).at W a))

  by_status_panics :
      (id : ObjectId) (w : OrderWithItems) (u : Option User) (W : World)
      → IsSettled w
      → (a : Unit) → (recalculate_by_status id w u none W).0 ≢ ok a
  unfolding recalculate_by_status recalculate_unpaid recalculate_partially_paid
  by_status_panics id w u W (inl (same, inl (st, left))) a =
      simp (st, left) (settled_unpaid id w.order u W same a)
  by_status_panics id w u W (inl (same, inr st)) a =
      simp st (settled_partially_paid id w.order u W same a)
  by_status_panics id w u W (inr (st, (net, left, same))) a =
      simp st (settled_pending_refund id w u W net left same a)

  -- With a nil publisher recalculateOrderStatus does not return a nil error, when the order that it
  -- reads is to become paid: its whole total is paid, and it is unpaid, with an item that is not
  -- canceled, or partially paid; or it waits for a refund, and what was paid less what was returned
  -- compares as equal to the total.
  pub recalculate_order_status-no_publisher :
      (id : ObjectId) (u : Option User) (W : World) (w : OrderWithItems)
      → (get_order_with_items_by_id id W).0 ≡ ok w
      → IsSettled w
      → (recalculate_order_status id u none W).0 ≢ ok tt
  unfolding recalculate_order_status
  recalculate_order_status-no_publisher id u W w read settled h =
      let (w', first, second, final) =
        bind-eq-ok (get_order_with_items_by_id id) (λ w. recalculate_by_status id w u none) W tt
          h in
      let W' = (get_order_with_items_by_id id W).1 in
      let same : w' ≡ w = cc in
      by_status_panics id w u W' settled tt
        (subst (λ v. (recalculate_by_status id v u none W').0 ≡ ok tt) same second)
