-- ===== src/Logic/Audit.antt =====
-- internal/logic/audit_builder.go: the entries of the audit log.
use cicd_demo.Base.{String, Option, List, [], ◌∷◌, map, str_eq, if◌then◌else◌}
use cicd_demo.Constants.OrderStatus
use cicd_demo.Constants.OrderStatus.{OrderStatus}
use cicd_demo.Models.{ObjectId, User, Order, OrderItem, Bill, Ticket, TicketType}
use cicd_demo.Platform.{
  Env, M, pure, deref, ◌>>=◌, new_object_id, time_now, Snapshot, Changes, StockChange, AuditLog,
}
use cicd_demo.Dao.Tickets.{negate_uint32}

abbrev pub AuditLogOption : Type 0
AuditLogOption = AuditLog → AuditLog

abbrev pub with_reason : String → AuditLogOption
with_reason reason log = if str_eq reason "" then log else record log { reason = reason }

abbrev apply_all : List AuditLogOption → AuditLog → AuditLog
apply_all [] log = log
apply_all (opt ∷ opts) log = apply_all opts (opt log)

-- The entry for one of the unrolled items of a new order.
abbrev stock_change : OrderItem → StockChange
stock_change i = record {
  ticket_id = i.ticket_stock;
  ticket_name = i.name;
  quantity = negate_uint32 i.quantity;
}

module _ ⦃e : Env⦄ where
  unfoldable pub new_audit_log :
      Option User
      → String
      → String
      → ObjectId
      → Snapshot
      → Snapshot
      → List AuditLogOption
      → M AuditLog
  new_audit_log user action entity_type entity_id before after opts = do
    id ← new_object_id
    u ← deref user
    now ← time_now
    pure (
        apply_all opts (record {
          id = id;
          user_id = u.user_id;
          action = action;
          entity_type = entity_type;
          entity_id = entity_id;
          changes = Changes.change before after;
          reason = "";
          timestamp = now;
        }))

  unfoldable pub build_create_order_audit_log : Order → List OrderItem → M AuditLog
  build_create_order_audit_log order items = do
    log ←
        new_audit_log order.user "CREATE_ORDER" "order" order.id Snapshot.nothing
          (Snapshot.of_order order) []
    pure (record log { changes = Changes.with_stock log.changes (map stock_change items) })

  unfoldable pub build_update_order_status_audit_log : Option User → Order → Order → M AuditLog
  build_update_order_status_audit_log operator before after =
      new_audit_log operator "UPDATE_ORDER_STATUS" "order" before.id (Snapshot.of_order before)
        (Snapshot.of_order after) []

  unfoldable pub build_update_order_item_status_audit_log :
      Option User → String → OrderItem → String → M AuditLog
  build_update_order_item_status_audit_log operator reason before new_status =
      new_audit_log operator "UPDATE_ORDER_ITEM_STATUS" "order_item" before.id
        (Snapshot.of_item before) (Snapshot.of_item (record before { status = new_status }))
        (with_reason reason ∷ [])

  unfoldable pub build_add_ticket_type_audit_log : Option User → TicketType → M AuditLog
  build_add_ticket_type_audit_log operator t =
      new_audit_log operator "CREATE_TICKET_TYPE" "ticket_type" t.id Snapshot.nothing
        (Snapshot.of_ticket_type t) []

  unfoldable pub build_delete_ticket_type_audit_log : Option User → TicketType → M AuditLog
  build_delete_ticket_type_audit_log operator t =
      new_audit_log operator "DELETE_TICKET_TYPE" "ticket_type" t.id (Snapshot.of_ticket_type t)
        Snapshot.nothing []

  unfoldable pub build_update_ticket_type_audit_log :
      Option User → TicketType → TicketType → M AuditLog
  build_update_ticket_type_audit_log operator before after =
      new_audit_log operator "UPDATE_TICKET_TYPE" "ticket_type" before.id
        (Snapshot.of_ticket_type before) (Snapshot.of_ticket_type after) []

  unfoldable pub build_update_ticket_types_order_audit_log :
      Option User → ObjectId → List ObjectId → List ObjectId → M AuditLog
  build_update_ticket_types_order_audit_log operator event_id before after =
      new_audit_log operator "UPDATE_TICKET_TYPES_ORDER" "ticket_type" event_id
        (Snapshot.of_ordered_ids before) (Snapshot.of_ordered_ids after) []

  unfoldable pub build_check_in_ticket_audit_log : Option User → Ticket → Ticket → M AuditLog
  build_check_in_ticket_audit_log operator before after =
      new_audit_log operator "CHECK_IN_TICKET" "ticket" before.id (Snapshot.of_ticket before)
        (Snapshot.of_ticket after) []

  unfoldable pub build_order_status_change_audit_log :
      Option User → ObjectId → String → String → String → M AuditLog
  build_order_status_change_audit_log operator order_id old_status new_status reason =
      new_audit_log operator "UPDATE_ORDER_STATUS" "order" order_id (Snapshot.of_status old_status)
        (Snapshot.of_status new_status) (with_reason reason ∷ [])

  unfoldable pub build_cancel_order_audit_log : Option User → Order → String → M AuditLog
  build_cancel_order_audit_log operator before reason =
      let after = record before { status = OrderStatus.to_string OrderStatus.canceled } in
      new_audit_log operator "CANCEL_ORDER" "order" before.id (Snapshot.of_order before)
        (Snapshot.of_order after) (with_reason reason ∷ [])

  -- bill.go, and CREATE_REFUND_BILL of orders.go
  unfoldable pub build_create_bill_audit_log : Option User → Bill → M AuditLog
  build_create_bill_audit_log operator bill =
      new_audit_log operator "CREATE_BILL" "bill" bill.id Snapshot.nothing (Snapshot.of_bill bill)
        []

  unfoldable pub build_cancel_bill_audit_log : Option User → Bill → String → M AuditLog
  build_cancel_bill_audit_log operator bill reason =
      new_audit_log operator "CANCEL_BILL" "bill" bill.id (Snapshot.of_reason reason)
        Snapshot.nothing []

  unfoldable pub build_create_refund_bill_audit_log : Option User → Bill → String → M AuditLog
  build_create_refund_bill_audit_log operator bill reason = do
    item_id ← deref bill.order_item_id
    new_audit_log operator "CREATE_REFUND_BILL" "bill" bill.id
        (Snapshot.of_refund reason (e.decimal_string bill.amount) item_id) (Snapshot.of_bill bill)
        []
