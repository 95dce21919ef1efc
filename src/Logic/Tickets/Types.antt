-- ===== src/Logic/Tickets/Types.antt =====
-- internal/logic/tickets.go: the listings, the update and the order of ticket types.
pub mod Resync
use cicd_demo.Base.{ℕ, Bool, true, Option, none, some, String, List, [], ◌∷◌, map}
use cicd_demo.Models.{
  ObjectId, Time, Decimal128, User, empty_decimal, TicketType, TicketTypeWithStock,
  TicketStockWithType,
}
use cicd_demo.Platform.{Mongo, Env, M, pure, deref, ◌>>=◌, ◌>>◌, time_now}
use cicd_demo.Repository.{with_display, with_is_showing}
use cicd_demo.Dao.Bills.{create_audit_log}
use cicd_demo.Dao.Tickets.{get_ticket_type_by_id, delete_ticket_stock_by_type}
use cicd_demo.Dao.Tickets.Types.{
  get_ticket_types_with_stock_by_event, get_ticket_stock_with_type_by_session,
  update_ticket_type as write_type, update_ticket_types_order as write_order,
}
use cicd_demo.Logic.Audit.{
  build_update_ticket_type_audit_log, build_update_ticket_types_order_audit_log,
}
use cicd_demo.Logic.Tickets.{SessionSale, is_always_displayed, add_stock_for}

-- dto.UpdateTicketTypeRequest
pub record UpdateTicketTypeRequest : Type 0 where
  pub id : ObjectId
  pub name : String
  pub description : String
  pub quantity : ℕ  -- uint32
  pub price : Decimal128
  pub visibility : Bool
  pub start_showing_on : Option Time
  pub stop_showing_on : Option Time
  pub updated_by : Option User
  pub min_quantity_per_order : ℕ  -- uint32
  pub max_quantity_per_order : ℕ  -- uint32
  pub due_duration : Option ℕ
  pub sessions : List SessionSale
  pub sale_time_setting : String
  pub enable : Bool

-- dto.UpdateTicketTypesOrderRequest
pub record UpdateTicketTypesOrderRequest : Type 0 where
  pub event : ObjectId
  pub ids : List ObjectId
  pub updated_by : Option User

-- `User{}`, and the ticket type that is written: what the request does not name is a zero value.
abbrev empty_user : User
empty_user = record { user_id = 0; name = ""; email = ""; avatar = "" }

abbrev pub type_of_request : UpdateTicketTypeRequest → Time → TicketType
type_of_request d now = record {
  id = d.id;
  event = 0;
  name = d.name;
  quantity = d.quantity;
  price = d.price;
  desc = d.description;
  visible = d.visibility;
  always_display = is_always_displayed d.visibility d.start_showing_on d.stop_showing_on;
  start_show_at = d.start_showing_on;
  pick = 0;
  stop_show_at = d.stop_showing_on;
  updated_at = some now;
  created_at = 0;
  created_by = empty_user;
  updated_by = d.updated_by;
  min_quantity_per_order = d.min_quantity_per_order;
  max_quantity_per_order = d.max_quantity_per_order;
  due_duration = d.due_duration;
  enable = d.enable;
  sale_setting = d.sale_time_setting;
}

module _ ⦃m : Mongo⦄ ⦃e : Env⦄ where
  unfoldable pub get_ticket_types_by_event : ObjectId → M (List TicketTypeWithStock)
  get_ticket_types_by_event id = get_ticket_types_with_stock_by_event id []

  unfoldable pub get_valid_ticket_types_by_event : ObjectId → M (List TicketTypeWithStock)
  get_valid_ticket_types_by_event event_id =
      get_ticket_types_with_stock_by_event event_id (with_display true ∷ with_is_showing true ∷ [])

  unfoldable pub get_ticket_stock_by_session : ObjectId → M (List TicketStockWithType)
  get_ticket_stock_by_session session_id = get_ticket_stock_with_type_by_session session_id

  -- The stock is dropped and made again, one for each session.
  unfoldable pub sync_sessions : UpdateTicketTypeRequest → Time → M Unit
  sync_sessions d now = do
    delete_ticket_stock_by_type d.id
    user ← deref d.updated_by
    add_stock_for d.id d.quantity now user d.sessions

  -- The ticket type is read again for the audit log.
  unfoldable pub finish_update : UpdateTicketTypeRequest → TicketType → M Unit
  finish_update d before = do
    after ← get_ticket_type_by_id d.id
    log ← build_update_ticket_type_audit_log d.updated_by before after
    create_audit_log log

  unfoldable pub update_ticket_type : UpdateTicketTypeRequest → M Unit
  update_ticket_type d = do
    before ← get_ticket_type_by_id d.id
    now ← time_now
    write_type (type_of_request d now)
    sync_sessions d now
    finish_update d before

  unfoldable pub update_ticket_types_order : UpdateTicketTypesOrderRequest → M Unit
  update_ticket_types_order r = do
    before ← get_ticket_types_with_stock_by_event r.event []
    let ids_before = map (λ (t : TicketTypeWithStock). t.ticket_type.id) before
    write_order r.event r.ids r.updated_by
    log ← build_update_ticket_types_order_audit_log r.updated_by r.event ids_before r.ids
    create_audit_log log
