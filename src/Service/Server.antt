-- ===== src/Service/Server.antt =====
-- internal/app/router.go and internal/middleware/grpc/middleware.go: the calls of the gRPC server that change
-- data, each dispatched to its handler and behind the interceptors.
pub mod Steps
pub mod Safety
use cicd_demo.Base.{String, List}
use cicd_demo.Platform.{Mongo, Env}
use cicd_demo.Logic.Publisher.{PaymentEventPublisher}
use cicd_demo.Service.{Rpc, Context, succeed, unary_panic_interceptor, ◌>>=◌, ◌>>◌}
use cicd_demo.Service.Interceptors.{Validation, auth_interceptor, unary_validator_interceptor}
use cicd_demo.Service.Orders
use cicd_demo.Service.Orders.{AddOrderMessage}
use cicd_demo.Service.OrdersAdmin
use cicd_demo.Service.OrdersAdmin.{ItemStatusMessage}
use cicd_demo.Service.Bills
use cicd_demo.Service.Bills.{CreateBillMessage, CreateRefundBillMessage}
use cicd_demo.Service.Tickets
use cicd_demo.Service.Tickets.{TicketTypeMessage}
use cicd_demo.Service.Tickets.CheckIn

pub data Call : Type 0 where
  -- OrderService
  add_order : AddOrderMessage → Call
  cancel_order : String → String → Call
  request_order_item_refund : String → String → String → Call
  -- OrdersAdminService
  change_order_item_status : String → String → ItemStatusMessage → String → Call
  admin_cancel_order : String → String → Call
  reject_order_item_refund : String → String → String → Call
  -- BillAdminService
  create_bill : CreateBillMessage → Call
  cancel_bill : String → String → Call
  create_refund_bill : CreateRefundBillMessage → Call
  -- TicketsAdminService
  check_in_ticket : String → Call
  add_ticket_type : String → TicketTypeMessage → Call
  update_ticket_type : String → TicketTypeMessage → Call
  delete_ticket_type : String → Call
  update_ticket_types_order : String → List String → Call

module _ ⦃m : Mongo⦄ ⦃e : Env⦄ where
  -- The handler of a call; what it responds with is left out.
  unfoldable pub handle : PaymentEventPublisher → Context → Call → Rpc Unit
  handle p c (add_order msg) = do Orders.add_order p c msg; succeed tt
  handle p c (cancel_order order reason) = Orders.cancel_order p c order reason
  handle p c (request_order_item_refund order item reason) =
      Orders.request_order_item_refund c order item reason
  handle p c (change_order_item_status order item status reason) =
      OrdersAdmin.change_order_item_status c order item status reason
  handle p c (admin_cancel_order order reason) = OrdersAdmin.cancel_order p c order reason
  handle p c (reject_order_item_refund order item reason) =
      OrdersAdmin.reject_order_item_refund c order item reason
  handle p c (create_bill msg) = do Bills.create_bill p c msg; succeed tt
  handle p c (cancel_bill bill reason) = Bills.cancel_bill p c bill reason
  handle p c (create_refund_bill msg) = do Bills.create_refund_bill p c msg; succeed tt
  handle p c (check_in_ticket code) = do CheckIn.check_in_ticket c code; succeed tt
  handle p c (add_ticket_type event msg) = do Tickets.add_ticket_type c event msg; succeed tt
  handle p c (update_ticket_type ticket msg) = Tickets.update_ticket_type c ticket msg
  handle p c (delete_ticket_type ticket) = Tickets.delete_ticket_type c ticket
  handle p c (update_ticket_types_order event order) =
      Tickets.update_ticket_types_order c event order

  -- `NewUnaryInterceptors`, outermost first, over what protovalidate says of a call. The timeout
  -- between the first two only makes calls to the outside fail.
  unfoldable pub serve : (Call → Validation) → PaymentEventPublisher → Context → Call → Rpc Unit
  serve validate p c call =
      auth_interceptor c
        (unary_panic_interceptor (unary_validator_interceptor (validate call) (handle p c call)))
