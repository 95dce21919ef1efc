-- ===== src/Examples/Statuses.antt =====
-- The statuses of orders and items, at concrete arguments.
use cicd_demo.Base.{some, none, ◌≡◌, ◌≢◌, refl, [], ◌∷◌, inl}
use cicd_demo.Constants.OrderItemStatus
use cicd_demo.Models.{Order, OrderWithItems, OrderItemWithOrder}
use cicd_demo.Platform.{World, ok, call, query, execute, time_now, new_object_id}
use cicd_demo.Helper.{compare_decimal128}
use cicd_demo.Dao.Orders.{
  get_order_by_id, get_order_with_items_by_id, get_order_item_with_order, update_order,
  get_order_items_by_order_id,
}
use cicd_demo.Dao.Bills.{create_audit_log, get_bills_by_order_id}
use cicd_demo.Logic.Audit.{build_order_status_change_audit_log, new_audit_log}
use cicd_demo.Logic.Orders.{
  CancelOrderRequest, UpdateOrderItemStatusRequest, cancel_order, change_order_item_status,
}
use cicd_demo.Logic.Orders.Items.{change_order_item_status-IsLegal, IsLegal}
use cicd_demo.Logic.Orders.Cancellation.{cancel_order-set}
use cicd_demo.Logic.Recalculate.{
  recalculate_order_status, recalculate_by_status, recalculate_paid, change_status,
  audit_status_change,
}
use cicd_demo.Logic.Recalculate.Transition.{Settles, statuses, set_status}
use cicd_demo.Logic.Recalculate.Machine.{recalculate_order_status-Settles}
use cicd_demo.Logic.Recalculate.Panics.{recalculate_order_status-no_publisher}
use cicd_demo.Examples.Data.{
  server, server-IsDocumented, env, buyer, order_in, item_in, world, payments_publisher,
}

abbrev paid_world : World
paid_world = world "paid" "delivered" "payment" "paid"

abbrev unpaid_world : World
unpaid_world = world "unpaid" "pending_payment" "payment" "pending"

recalculate_order_status-Settles_example :
    (w : OrderWithItems) × ((get_order_with_items_by_id ⦃m = server⦄ ⦃e = env⦄ 1 paid_world).0
      ≡ ok w)
    × Settles ⦃e = env⦄ w 1 paid_world.db
        (recalculate_order_status ⦃m = server⦄ ⦃e = env⦄ 1 (some buyer) none paid_world).1.db
unfolding recalculate_order_status get_order_with_items_by_id query call recalculate_by_status
    recalculate_paid change_status update_order audit_status_change
    build_order_status_change_audit_log new_audit_log new_object_id time_now create_audit_log
    execute
recalculate_order_status-Settles_example =
    recalculate_order_status-Settles ⦃m = server⦄ ⦃e = env⦄ server-IsDocumented 1 (some buyer) none
      paid_world refl

recalculate_order_status-no_publisher_example :
    (recalculate_order_status ⦃m = server⦄ ⦃e = env⦄ 1 (some buyer) none unpaid_world).0 ≢ ok tt
unfolding get_order_with_items_by_id query call compare_decimal128
recalculate_order_status-no_publisher_example =
    recalculate_order_status-no_publisher ⦃m = server⦄ ⦃e = env⦄ 1 (some buyer) unpaid_world
      (record { order = order_in "unpaid"; items = item_in "pending_payment" ∷ [] }) refl
      (inl (refl, inl (refl, refl)))

abbrev cancellation : CancelOrderRequest
cancellation = record { order_id = 1; user = some buyer; reason = "changed plans" }

cancel_order-set_example :
    (o : Order) × ((get_order_by_id ⦃m = server⦄ ⦃e = env⦄ 1 unpaid_world).0 ≡ ok o)
    × (o.status ≡ "unpaid")
    × (statuses
          (cancel_order ⦃m = server⦄ ⦃e = env⦄ payments_publisher cancellation unpaid_world).1.db
        ≡ set_status o.id "canceled" (statuses unpaid_world.db))
unfolding cancel_order get_order_by_id query cicd_demo.Logic.Orders.cancel_read
    cicd_demo.Logic.Orders.void_unpaid_order get_order_items_by_order_id get_bills_by_order_id
    cicd_demo.Logic.Orders.cancel_pending_bills cicd_demo.Logic.Orders.cancel_pending_bill
    cicd_demo.Dao.Bills.update_bill time_now cicd_demo.Logic.Publisher.publish_payment_event
    new_object_id cicd_demo.Dao.Outbox.create execute
    cicd_demo.Dao.Orders.update_items_status_by_order cicd_demo.Dao.Tickets.release_tickets
    update_order create_audit_log cicd_demo.Logic.Audit.build_cancel_order_audit_log new_audit_log
    call cicd_demo.Dao.Bills.write_bill
cancel_order-set_example =
    cancel_order-set ⦃m = server⦄ ⦃e = env⦄ server-IsDocumented payments_publisher cancellation
      unpaid_world refl

-- The order is completed, so that no publisher is asked for.
abbrev return_request : UpdateOrderItemStatusRequest
return_request = record {
  order_item_id = 11;
  order_id = 1;
  new_status = "return_requested";
  reason = "cannot come";
  operator = some buyer;
}

abbrev completed_world : World
completed_world = world "completed" "delivered" "payment" "paid"

change_order_item_status-IsLegal_example :
    (w : OrderItemWithOrder) × ((get_order_item_with_order ⦃m = server⦄ ⦃e = env⦄ 11
        completed_world).0
      ≡ ok w)
    × IsLegal ⦃m = server⦄ ⦃e = env⦄ return_request w
unfolding change_order_item_status get_order_item_with_order query
    cicd_demo.Logic.Orders.check_order_item_status
    cicd_demo.Logic.Orders.can_update_order_item_status OrderItemStatus.parse
    cicd_demo.Logic.Orders.set_order_item_status cicd_demo.Logic.Orders.return_info_for time_now
    cicd_demo.Dao.Orders.update_order_item_status cicd_demo.Logic.Orders.after_item_status
    recalculate_order_status get_order_with_items_by_id recalculate_by_status
    cicd_demo.Logic.Recalculate.recalculate_completed change_status update_order audit_status_change
    create_audit_log cicd_demo.Dao.Bills.create_bill
    cicd_demo.Dao.Orders.update_items_status_by_order cicd_demo.Dao.Outbox.create
    cicd_demo.Dao.Tickets.release_tickets compare_decimal128 cicd_demo.Helper.decimal128_to_int64
    cicd_demo.Helper.negate_decimal128 cicd_demo.Helper.sub_decimal128
    build_order_status_change_audit_log
    cicd_demo.Logic.Audit.build_update_order_item_status_audit_log new_audit_log
    cicd_demo.Logic.Orders.bill_approved_return cicd_demo.Logic.Orders.release_canceled_item
    cicd_demo.Logic.Publisher.publish_ticket_generation_task
    cicd_demo.Logic.Recalculate.finish_returns recalculate_paid
    cicd_demo.Logic.Recalculate.recalculate_partially_paid
    cicd_demo.Logic.Recalculate.recalculate_partially_returned
    cicd_demo.Logic.Recalculate.recalculate_pending_refund
    cicd_demo.Logic.Recalculate.recalculate_return_in_progress
    cicd_demo.Logic.Recalculate.recalculate_unpaid cicd_demo.Logic.Recalculate.refund_overpayment
    cicd_demo.Logic.Recalculate.settle_partially_paid cicd_demo.Logic.Recalculate.settle_returned
    cicd_demo.Logic.Recalculate.settle_unpaid
    cicd_demo.Logic.Recalculate.update_order_to_paid_with_audit call execute new_object_id
change_order_item_status-IsLegal_example =
    change_order_item_status-IsLegal ⦃m = server⦄ ⦃e = env⦄ return_request completed_world refl
