-- ===== src/Examples/Bills.antt =====
-- Bills and the messages about them, at concrete arguments.
use cicd_demo.Base.{str_eq, true, some, none, ◌≡◌, ◌≢◌, refl}
use cicd_demo.Constants.OrderStatus
use cicd_demo.Models.{Bill, Order, OrderItem}
use cicd_demo.Platform.{World, ok, call, query, execute, time_now, new_object_id}
use cicd_demo.Helper.{compare_decimal128}
use cicd_demo.Dao.Orders.{get_order_by_id, get_order_item_by_id}
use cicd_demo.Dao.Bills.{get_bill_by_id}
use cicd_demo.Logic.Bills.{CreateBillRequest, create_bill, process_payment_update}
use cicd_demo.Logic.Bills.Limits.{IsCovered, create_bill-IsCovered}
use cicd_demo.Logic.Bills.Processing.{IsOutcome, process_payment_update-IsOutcome}
use cicd_demo.Logic.Refunds.{CreateRefundBillRequest, create_refund_bill}
use cicd_demo.Logic.Refunds.Limits.{IsRefundable, create_refund_bill-IsRefundable}
use cicd_demo.Consumer.{BillStatusUpdate, handle_bill_status_update}
use cicd_demo.Consumer.Delivery.{
  handle_bill_status_update-settled, handle_bill_status_update-no_item,
}
use cicd_demo.Examples.Data.{
  server, server-IsDocumented, env, buyer, amount, bill_in, world, tickets_publisher,
  payments_publisher,
}

-- The order is unpaid, and its one bill has failed.
abbrev unpaid_world : World
unpaid_world = world "unpaid" "pending_payment" "payment" "failed"

abbrev payment : CreateBillRequest
payment = record {
  order_id = 1;
  amount = amount 10;
  payment_method = record { id = 8; name = "Card" };
  operator = some buyer;
}

create_bill-IsCovered_example :
    (o : Order) × ((get_order_by_id ⦃m = server⦄ ⦃e = env⦄ 1 unpaid_world).0 ≡ ok o)
    × IsCovered ⦃m = server⦄ ⦃e = env⦄ payment o
        (get_order_by_id ⦃m = server⦄ ⦃e = env⦄ 1 unpaid_world).1
unfolding create_bill get_order_by_id query cicd_demo.Logic.Bills.check_amount OrderStatus.parse
    cicd_demo.Dao.Bills.get_bills_by_order_id cicd_demo.Logic.Bills.committed_amount
    cicd_demo.Helper.sub_decimal128 compare_decimal128 cicd_demo.Logic.Bills.issue_bill
    new_object_id time_now execute cicd_demo.Logic.Audit.build_create_bill_audit_log
    cicd_demo.Logic.Audit.new_audit_log cicd_demo.Dao.Bills.create_audit_log
    cicd_demo.Dao.Outbox.create cicd_demo.Helper.add_decimal128
    cicd_demo.Logic.Publisher.publish_payment_event call cicd_demo.Constants.BillStatus.parse
    cicd_demo.Dao.Bills.create_bill
create_bill-IsCovered_example =
    create_bill-IsCovered ⦃m = server⦄ ⦃e = env⦄ payments_publisher payment unpaid_world 102 refl

abbrev returning_world : World
returning_world = world "return_in_progress" "return_requested" "payment" "paid"

abbrev refund : CreateRefundBillRequest
refund = record {
  order_item_id = 11;
  amount = amount 10;
  payment_method = record { id = 8; name = "Card" };
  operator = some buyer;
  reason = "cannot come";
}

create_refund_bill-IsRefundable_example :
    (i : OrderItem) × (w : World) × ((get_order_item_by_id ⦃m = server⦄ ⦃e = env⦄ 11
        (time_now ⦃e = env⦄ returning_world).1).0
      ≡ ok i)
    × (w.db ≡ returning_world.db)
    × IsRefundable ⦃m = server⦄ ⦃e = env⦄ refund i w
unfolding create_refund_bill time_now get_order_item_by_id query get_order_by_id
    cicd_demo.Logic.Refunds.check_refundable cicd_demo.Constants.OrderItemStatus.parse
    cicd_demo.Dao.Bills.get_refunds_by_order_item_id compare_decimal128
    cicd_demo.Logic.Refunds.issue_refund new_object_id cicd_demo.Dao.Bills.create_bill execute
    cicd_demo.Logic.Publisher.publish_payment_event cicd_demo.Dao.Outbox.create
    cicd_demo.Logic.Audit.build_create_refund_bill_audit_log cicd_demo.Logic.Audit.new_audit_log
    cicd_demo.Dao.Bills.create_audit_log cicd_demo.Dao.Orders.update_order
    cicd_demo.Dao.Orders.update_order_item_status call
create_refund_bill-IsRefundable_example =
    create_refund_bill-IsRefundable ⦃m = server⦄ ⦃e = env⦄ payments_publisher refund returning_world
      104 refl

abbrev success : BillStatusUpdate
success = record { bill_id = "7"; payment_id = ""; is_successful = true }

abbrev settled_world : World
settled_world = world "paid" "paid" "payment" "paid"

abbrev refund_world : World
refund_world = world "return_in_progress" "return_approved" "refund" "pending"

handle_bill_status_update-settled_example :
    (handle_bill_status_update ⦃m = server⦄ ⦃e = env⦄
      (some tickets_publisher)
      (some success)
      settled_world).1.db
    ≡ settled_world.db
unfolding get_bill_by_id query call
handle_bill_status_update-settled_example =
    handle_bill_status_update-settled ⦃m = server⦄ ⦃e = env⦄ server-IsDocumented
      (some tickets_publisher) 7 success settled_world (bill_in "payment" "paid") refl refl refl

handle_bill_status_update-no_item_example :
    ((handle_bill_status_update ⦃m = server⦄ ⦃e = env⦄ none (some success) refund_world).0 ≢ ok tt)
    × ((handle_bill_status_update ⦃m = server⦄ ⦃e = env⦄ none (some success) refund_world).1.db
        ≡ refund_world.db)
unfolding process_payment_update get_bill_by_id query cicd_demo.Logic.Bills.process_bill time_now
    cicd_demo.Logic.Bills.settle_order cicd_demo.Dao.Orders.update_order
    cicd_demo.Dao.Bills.update_bill cicd_demo.Dao.Bills.write_bill
handle_bill_status_update-no_item_example =
    handle_bill_status_update-no_item ⦃m = server⦄ ⦃e = env⦄ server-IsDocumented none 7 success
      refund_world (record (bill_in "refund" "refunded") { updated_at = 4 }) refl refl refl refl
      refl

process_payment_update-IsOutcome_example :
    (bill : Bill) × ((get_bill_by_id ⦃m = server⦄ ⦃e = env⦄ 7 refund_world).0 ≡ ok bill)
    × (str_eq bill.status "pending" ≡ true)
    × IsOutcome ⦃m = server⦄ ⦃e = env⦄ true "refunded"
unfolding process_payment_update get_bill_by_id query cicd_demo.Logic.Bills.process_bill time_now
    cicd_demo.Logic.Bills.settle_order cicd_demo.Dao.Orders.update_order
    cicd_demo.Dao.Bills.update_bill cicd_demo.Dao.Bills.write_bill
process_payment_update-IsOutcome_example =
    process_payment_update-IsOutcome ⦃m = server⦄ ⦃e = env⦄ server-IsDocumented 7 "" true
      refund_world (record (bill_in "refund" "refunded") { updated_at = 3 }) refl
