-- ===== src/Service/Server/Safety.antt =====
-- internal/service: a call that is not answered with success changes nothing.
use cicd_demo.Base.{String, Option, none, some, head?, List, refl, ◌≡◌, ◌≢◌}
use cicd_demo.Models.{ObjectId}
use cicd_demo.Platform.{Mongo, Env, IsDocumented, Db, Error, Outcome, ok, err, panic, World}
use cicd_demo.Logic.Publisher.{PaymentEventPublisher}
use cicd_demo.Service.{Code, Answer, success, failed, Context, Rpc, recovered}
use cicd_demo.Service.Safe.{IsSafe, IsSafe-bind, IsSafe-reply, IsSafe-transaction, step_rules}
use cicd_demo.Service.Orders
use cicd_demo.Service.Orders.{
  ItemMessage, AddOrderMessage, compare_owner, check_owner, authorize, authorize_order_consumer,
  order_lines, owner_or_denied, unless_denied,
}
use cicd_demo.Service.OrdersAdmin
use cicd_demo.Service.OrdersAdmin.{ItemStatusMessage}
use cicd_demo.Service.Bills
use cicd_demo.Service.Bills.{CreateBillMessage, CreateRefundBillMessage}
use cicd_demo.Service.Tickets
use cicd_demo.Service.Tickets.{SessionMessage, TicketTypeMessage, request_sessions, ids_or_error}
use cicd_demo.Service.Tickets.CheckIn
use cicd_demo.Service.Tickets.CheckIn.{
  CheckInReply, claimed_id, read_code, check_in_by_id, check_in_reply, body_result, respond,
}
use cicd_demo.Service.Server.Steps.{
  authorize_order_consumer-Keeps, owner_or_denied-Keeps, unless_denied-Keeps, order_lines-Keeps,
  request_sessions-Keeps, ids_or_error-Keeps, read_code-Keeps, check_in_by_id-IsSafe,
}
use cicd_demo.Service.Interceptors.{
  Validation, known_id, known_user, auth_interceptor, unary_validator_interceptor,
}
use cicd_demo.Service.Server.{Call, handle, serve}

module _ ⦃m : Mongo⦄ ⦃e : Env⦄ (d : IsDocumented m) (p : PaymentEventPublisher) (c : Context) where
  add_order-IsSafe : (msg : AddOrderMessage) → IsSafe (Orders.add_order p c msg)
  unfolding Orders.add_order
  add_order-IsSafe msg =
      search (step_rules, IsSafe-bind, IsSafe-reply, IsSafe-transaction d, order_lines-Keeps) depth
        14

  cancel_order-IsSafe : (order reason : String) → IsSafe (Orders.cancel_order p c order reason)
  unfolding Orders.cancel_order
  cancel_order-IsSafe order reason = search (
    step_rules,
    IsSafe-bind,
    IsSafe-transaction d,
    authorize_order_consumer-Keeps,
    owner_or_denied-Keeps,
  )

  request_order_item_refund-IsSafe :
      (order item reason : String) → IsSafe (Orders.request_order_item_refund c order item reason)
  unfolding Orders.request_order_item_refund
  request_order_item_refund-IsSafe order item reason =
      search
        (
          step_rules,
          IsSafe-bind,
          IsSafe-transaction d,
          authorize_order_consumer-Keeps,
          unless_denied-Keeps,
        )
        depth 14

  check_in_ticket-IsSafe : (code : String) → IsSafe (CheckIn.check_in_ticket c code)
  unfolding CheckIn.check_in_ticket
  check_in_ticket-IsSafe code =
      search (step_rules, IsSafe-bind, read_code-Keeps, check_in_by_id-IsSafe d)

  change_order_item_status-IsSafe :
      (order item : String) (status : ItemStatusMessage) (reason : String)
      → IsSafe (OrdersAdmin.change_order_item_status c order item status reason)
  unfolding OrdersAdmin.change_order_item_status
  change_order_item_status-IsSafe order item status reason =
      search (step_rules, IsSafe-bind, IsSafe-transaction d) depth 14

  admin_cancel_order-IsSafe :
      (order reason : String) → IsSafe (OrdersAdmin.cancel_order p c order reason)
  unfolding OrdersAdmin.cancel_order
  admin_cancel_order-IsSafe order reason =
      search (step_rules, IsSafe-bind, IsSafe-transaction d) depth 14

  reject_order_item_refund-IsSafe :
      (order item reason : String)
      → IsSafe (OrdersAdmin.reject_order_item_refund c order item reason)
  unfolding OrdersAdmin.reject_order_item_refund
  reject_order_item_refund-IsSafe order item reason =
      search (step_rules, IsSafe-bind, IsSafe-transaction d) depth 14

  create_bill-IsSafe : (msg : CreateBillMessage) → IsSafe (Bills.create_bill p c msg)
  unfolding Bills.create_bill
  create_bill-IsSafe msg =
      search (step_rules, IsSafe-bind, IsSafe-reply, IsSafe-transaction d) depth 14

  cancel_bill-IsSafe : (bill reason : String) → IsSafe (Bills.cancel_bill p c bill reason)
  unfolding Bills.cancel_bill
  cancel_bill-IsSafe bill reason = search (step_rules, IsSafe-bind, IsSafe-transaction d) depth 14

  create_refund_bill-IsSafe :
      (msg : CreateRefundBillMessage) → IsSafe (Bills.create_refund_bill p c msg)
  unfolding Bills.create_refund_bill
  create_refund_bill-IsSafe msg =
      search (step_rules, IsSafe-bind, IsSafe-reply, IsSafe-transaction d) depth 14

  add_ticket_type-IsSafe :
      (event : String) (msg : TicketTypeMessage) → IsSafe (Tickets.add_ticket_type c event msg)
  unfolding Tickets.add_ticket_type
  add_ticket_type-IsSafe event msg =
      search (step_rules, IsSafe-bind, IsSafe-reply, IsSafe-transaction d, request_sessions-Keeps)
        depth 14

  update_ticket_type-IsSafe :
      (ticket : String) (msg : TicketTypeMessage) → IsSafe (Tickets.update_ticket_type c ticket msg)
  unfolding Tickets.update_ticket_type
  update_ticket_type-IsSafe ticket msg =
      search (step_rules, IsSafe-bind, IsSafe-transaction d, request_sessions-Keeps) depth 14

  delete_ticket_type-IsSafe : (ticket : String) → IsSafe (Tickets.delete_ticket_type c ticket)
  unfolding Tickets.delete_ticket_type
  delete_ticket_type-IsSafe ticket =
      search (step_rules, IsSafe-bind, IsSafe-reply, IsSafe-transaction d) depth 14

  update_ticket_types_order-IsSafe :
      (event : String) (order : List String)
      → IsSafe (Tickets.update_ticket_types_order c event order)
  unfolding Tickets.update_ticket_types_order
  update_ticket_types_order-IsSafe event order =
      search (step_rules, IsSafe-bind, IsSafe-transaction d, ids_or_error-Keeps) depth 14

  handle-IsSafe : (call : Call) → IsSafe (handle p c call)
  unfolding handle
  handle-IsSafe (Call.add_order msg) = IsSafe-reply _ (λ _. tt) (add_order-IsSafe msg)
  handle-IsSafe (Call.cancel_order order reason) = cancel_order-IsSafe order reason
  handle-IsSafe (Call.request_order_item_refund order item reason) =
      request_order_item_refund-IsSafe order item reason
  handle-IsSafe (Call.change_order_item_status order item status reason) =
      change_order_item_status-IsSafe order item status reason
  handle-IsSafe (Call.admin_cancel_order order reason) = admin_cancel_order-IsSafe order reason
  handle-IsSafe (Call.reject_order_item_refund order item reason) =
      reject_order_item_refund-IsSafe order item reason
  handle-IsSafe (Call.create_bill msg) = IsSafe-reply _ (λ _. tt) (create_bill-IsSafe msg)
  handle-IsSafe (Call.cancel_bill bill reason) = cancel_bill-IsSafe bill reason
  handle-IsSafe (Call.create_refund_bill msg) =
      IsSafe-reply _ (λ _. tt) (create_refund_bill-IsSafe msg)
  handle-IsSafe (Call.check_in_ticket code) = IsSafe-reply _ (λ _. tt) (check_in_ticket-IsSafe code)
  handle-IsSafe (Call.add_ticket_type event msg) =
      IsSafe-reply _ (λ _. tt) (add_ticket_type-IsSafe event msg)
  handle-IsSafe (Call.update_ticket_type ticket msg) = update_ticket_type-IsSafe ticket msg
  handle-IsSafe (Call.delete_ticket_type ticket) = delete_ticket_type-IsSafe ticket
  handle-IsSafe (Call.update_ticket_types_order event order) =
      update_ticket_types_order-IsSafe event order

  recovered-failed :
      (before : Db) (r : Outcome (Answer Unit) × World) (code : Code) (x : Error)
      → (((a : Unit) → r.0 ≢ ok (success a)) → r.1.db ≡ before)
      → (recovered r).0 ≡ ok (failed code x)
      → (recovered r).1.db ≡ before
  recovered-failed before (ok (success a), w) code x h k = cc
  recovered-failed before (ok (failed c' y), w) code x h k = h (λ a q. cc)
  recovered-failed before (err y, w) code x h k = h (λ a q. cc)
  recovered-failed before (panic y, w) code x h k = h (λ a q. cc)

  validator-IsSafe :
      {A : Type 0} (v : Validation) (next : Rpc A)
      → IsSafe next
      → IsSafe (unary_validator_interceptor v next)
  validator-IsSafe Validation.passes next h = h
  validator-IsSafe Validation.unavailable next h = record { at = λ w other. refl }
  validator-IsSafe (Validation.violates x) next h = record { at = λ w other. refl }

  known_id-failed :
      (o : Option ObjectId) (next : Rpc Unit) (w : World) (code : Code) (x : Error)
      → ((next w).0 ≡ ok (failed code x) → (next w).1.db ≡ w.db)
      → (known_id o next w).0 ≡ ok (failed code x)
      → (known_id o next w).1.db ≡ w.db
  known_id-failed none next w code x h k = refl
  known_id-failed (some uid) next w code x h k = h k

  known_user-failed :
      (o : Option String) (next : Rpc Unit) (w : World) (code : Code) (x : Error)
      → ((next w).0 ≡ ok (failed code x) → (next w).1.db ≡ w.db)
      → (known_user o next w).0 ≡ ok (failed code x)
      → (known_user o next w).1.db ≡ w.db
  known_user-failed none next w code x h k = refl
  known_user-failed (some hex) next w code x h k =
      known_id-failed (e.object_id_from_hex hex) next w code x h k

  authenticated-failed :
      (c' : Context) (next : Rpc Unit) (w : World) (code : Code) (x : Error)
      → ((next w).0 ≡ ok (failed code x) → (next w).1.db ≡ w.db)
      → (auth_interceptor c' next w).0 ≡ ok (failed code x)
      → (auth_interceptor c' next w).1.db ≡ w.db
  authenticated-failed none next w code x h k = refl
  authenticated-failed (some md) next w code x h k =
      known_user-failed (head? md.user_id) next w code x h k

  -- A call to the server, of those that change data, that is answered with a status error,
  -- whatever goes wrong in its handler or before it, a panic included, leaves the data as they
  -- were, on a documented server.
  pub serve-IsSafe :
      (validate : Call → Validation) (call : Call) (w : World) (code : Code) (x : Error)
      → (serve validate p c call w).0 ≡ ok (failed code x)
      → (serve validate p c call w).1.db ≡ w.db
  unfolding serve
  serve-IsSafe validate call w code x = authenticated-failed c _ w code x (
      recovered-failed w.db (unary_validator_interceptor (validate call) (handle p c call) w) code x
        ((validator-IsSafe (validate call) (handle p c call) (handle-IsSafe call)).at w))
