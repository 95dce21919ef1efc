-- ===== src/Platform/AuditTrail.antt =====
-- models.AuditLog, with the values that the code puts into its map of changes.
use cicd_demo.Base.{ℕ, String, List}
use cicd_demo.Models.{ObjectId, Time, Order, OrderItem, Bill, TicketType, Ticket}

pub data Snapshot : Type 0 where
  nothing : Snapshot
  of_order : Order → Snapshot
  of_item : OrderItem → Snapshot
  of_bill : Bill → Snapshot
  of_ticket : Ticket → Snapshot
  of_ticket_type : TicketType → Snapshot
  of_status : String → Snapshot
  of_reason : String → Snapshot
  of_ordered_ids : List ObjectId → Snapshot
  of_refund : String → String → ObjectId → Snapshot  -- reason, amount, order item

pub record StockChange : Type 0 where
  pub ticket_id : ObjectId
  pub ticket_name : String
  pub quantity : ℕ  -- uint32

pub data Changes : Type 0 where
  change : Snapshot → Snapshot → Changes
  with_stock : Changes → List StockChange → Changes

pub record AuditLog : Type 0 where
  pub id : ObjectId
  pub user_id : ObjectId
  pub action : String
  pub entity_type : String
  pub entity_id : ObjectId
  pub changes : Changes
  pub reason : String
  pub timestamp : Time
