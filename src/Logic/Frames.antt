-- ===== src/Logic/Frames.antt =====
-- internal/logic and internal/dao/mongodb: methods that leave the orders alone.
use cicd_demo.Base.{String, Option, List, refl, arith}
use cicd_demo.Models.{ObjectId, User, Order, Bill, OutboxMessage}
use cicd_demo.Repository.{UpdateOrderItemStatusParams}
use cicd_demo.Platform.{Snapshot, call, execute, Mongo, Env, Db, AuditLog}
use cicd_demo.Platform.Frame.{Keeps, Keeps-call, Keeps-execute, Keeps-logged, frame_rules}
use cicd_demo.Dao.Orders.{update_items_status_by_order, update_order_item_status}
use cicd_demo.Dao.Bills.{create_bill, create_audit_log}
use cicd_demo.Dao.Outbox
use cicd_demo.Logic.Audit.{AuditLogOption, new_audit_log, build_order_status_change_audit_log}
use cicd_demo.Logic.Publisher.{TicketEventPublisher, publish_ticket_generation_task}

abbrev pub orders_of : Db → List Order
orders_of d = d.orders

module _ ⦃m : Mongo⦄ ⦃e : Env⦄ where
  pub create_audit_log-Keeps : (log : AuditLog) → Keeps orders_of (create_audit_log log)
  unfolding create_audit_log
  create_audit_log-Keeps log = Keeps-logged _ _ (Keeps-execute _ (λ d. refl))

  pub create_bill-Keeps : (b : Bill) → Keeps orders_of (create_bill b)
  unfolding create_bill call execute
  create_bill-Keeps b = record { at = λ w. ground arith }

  pub update_items_status_by_order-Keeps :
      (id : ObjectId) (current new : String) (u : Option User)
      → Keeps orders_of (update_items_status_by_order id current new u)
  unfolding update_items_status_by_order
  update_items_status_by_order-Keeps id current new u = search (frame_rules, Keeps-call)

  pub update_order_item_status-Keeps :
      (p : UpdateOrderItemStatusParams) → Keeps orders_of (update_order_item_status p)
  unfolding update_order_item_status
  update_order_item_status-Keeps p = search (frame_rules, Keeps-call)

  pub new_audit_log-Keeps :
      (u : Option User) (action kind : String) (id : ObjectId) (before after : Snapshot)
      (opts : List AuditLogOption)
      → Keeps orders_of (new_audit_log u action kind id before after opts)
  unfolding new_audit_log
  new_audit_log-Keeps u action kind id before after opts = search frame_rules

  pub build_order_status_change_audit_log-Keeps :
      (u : Option User) (id : ObjectId) (old new reason : String)
      → Keeps orders_of (build_order_status_change_audit_log u id old new reason)
  unfolding build_order_status_change_audit_log
  build_order_status_change_audit_log-Keeps u id old new reason = new_audit_log-Keeps _ _ _ _ _ _ _

  create-Keeps : (x : OutboxMessage) → Keeps orders_of (Outbox.create x)
  unfolding Outbox.create
  create-Keeps x = Keeps-execute _ (λ d. refl)

  pub publish_ticket_generation_task-Keeps :
      (p : Option TicketEventPublisher) (id : ObjectId)
      → Keeps orders_of (publish_ticket_generation_task p id)
  unfolding publish_ticket_generation_task
  publish_ticket_generation_task-Keeps p id = search (frame_rules, create-Keeps)
