-- ===== src/Examples/Services.antt =====
-- The calls of the server, at concrete arguments.
use cicd_demo.Base.{some, [], ◌∷◌, ◌≡◌, refl}
use cicd_demo.Models.{Ticket}
use cicd_demo.Platform.{Env, World, ok, err, refused, driver_error}
use cicd_demo.Consumer.{with_transaction}
use cicd_demo.Logic.Orders.{request_order_item_refund as request_refund}
use cicd_demo.Logic.Tickets.{check_in_ticket as check_in_now}
use cicd_demo.Service.{Context, internal, attempt, success, full_user}
use cicd_demo.Service.Orders.{cancel_order, request_order_item_refund}
use cicd_demo.Service.Orders.Ownership.{Owns, cancel_order-Owns}
use cicd_demo.Service.Interceptors.{Validation}
use cicd_demo.Service.Server.{Call, serve}
use cicd_demo.Service.Server.Safety.{serve-IsSafe}
use cicd_demo.Examples.Data.{
  server, server-IsDocumented, env, buyer, ticket, payments_publisher, world,
}

abbrev paid_world : World
paid_world = world "paid" "paid" "payment" "paid"

abbrev unpaid_world : World
unpaid_world = world "unpaid" "pending_payment" "payment" "pending"

-- A call of the buyer.
abbrev call_of_buyer : Context
call_of_buyer =
    some
      (record { user_id = "5" ∷ []; user_email = []; user_name = "Buyer" ∷ []; user_avatar = [] })

cancel_order-Owns_example : Owns ⦃m = server⦄ ⦃e = env⦄ call_of_buyer "1" unpaid_world
unfolding cancel_order cicd_demo.Service.Orders.authorize_order_consumer
    cicd_demo.Logic.Listing.get_order cicd_demo.Dao.Orders.get_order_by_id cicd_demo.Platform.query
    with_transaction cicd_demo.Logic.Orders.cancel_order cicd_demo.Logic.Orders.cancel_read
    cicd_demo.Logic.Orders.void_unpaid_order cicd_demo.Dao.Orders.get_order_items_by_order_id
    cicd_demo.Dao.Bills.get_bills_by_order_id cicd_demo.Logic.Orders.cancel_pending_bills
    cicd_demo.Logic.Orders.cancel_pending_bill cicd_demo.Dao.Bills.update_bill
    cicd_demo.Platform.time_now cicd_demo.Dao.Bills.write_bill
    cicd_demo.Logic.Publisher.publish_payment_event cicd_demo.Platform.new_object_id
    cicd_demo.Dao.Outbox.create cicd_demo.Platform.execute
    cicd_demo.Dao.Orders.update_items_status_by_order cicd_demo.Dao.Tickets.release_tickets
    cicd_demo.Dao.Orders.update_order cicd_demo.Logic.Audit.build_cancel_order_audit_log
    cicd_demo.Logic.Audit.new_audit_log cicd_demo.Dao.Bills.create_audit_log
cancel_order-Owns_example =
    cancel_order-Owns ⦃m = server⦄ ⦃e = env⦄ payments_publisher call_of_buyer "1" "changed plans"
      unpaid_world refl

serve-IsSafe_example :
    (serve ⦃m = server⦄ ⦃e = env⦄
      (λ call. Validation.passes)
      payments_publisher
      call_of_buyer
      (Call.admin_cancel_order "1" "mistake")
      paid_world).1.db
    ≡ paid_world.db
unfolding serve cicd_demo.Service.Server.handle cicd_demo.Service.OrdersAdmin.cancel_order
    with_transaction cicd_demo.Logic.Orders.cancel_order cicd_demo.Dao.Orders.get_order_by_id
    cicd_demo.Platform.query cicd_demo.Logic.Orders.cancel_read
serve-IsSafe_example =
    serve-IsSafe ⦃m = server⦄ ⦃e = env⦄ server-IsDocumented payments_publisher call_of_buyer
      (λ call. Validation.passes) (Call.admin_cancel_order "1" "mistake") paid_world internal
      (refused "order cannot be cancelled in status") refl

abbrev checked_in : Ticket
checked_in = record ticket {
  status = "used";
  used_at = some 2;
  checked_in_by = some buyer;
  updated_at = 3;
}
