-- ===== src/Service/Tickets.antt =====
-- internal/service/tickets_admin.go and tickets_public.go: the handlers of TicketsAdminService and
-- TicketsService.
pub mod CheckIn
pub mod Commit
use cicd_demo.Base.{
  ℕ, Bool, true, false, Option, none, some, String, List, [], ◌∷◌, map, ◌||◌, str_eq, if◌then◌else◌,
}
use cicd_demo.Models.{ObjectId, Time, Decimal128, User, TicketType, Ticket}
use cicd_demo.Helper.{Checked, good, bad, convert_strings_to_object_id}
use cicd_demo.Platform.{Mongo, Env, Outcome, ok, World, refused}
use cicd_demo.Consumer.{with_transaction}
use cicd_demo.Logic.Tickets.{
  SessionSale, add_ticket_type as create_type, delete_ticket_type as delete_type,
}
use cicd_demo.Logic.Tickets.Types.{
  UpdateTicketTypeRequest, update_ticket_type as change_type,
  update_ticket_types_order as change_order, get_ticket_types_by_event,
  get_valid_ticket_types_by_event, get_ticket_stock_by_session,
}
use cicd_demo.Service.{
  Code, invalid_argument, already_exists, internal, Rpc, succeed, respond_error, respond_if,
  parsed_or, attempt, Context, authenticated, parse_object_id, addressed_user, full_user, ◌>>=◌,
  ◌>>◌,
}
use cicd_demo.Service.Replies.{
  TicketTypeReply, SessionTicketReply, ticket_type_reply, public_ticket_type_reply,
  session_ticket_reply,
}

-- A session of a request; a time that is left out is the beginning of 1970.
pub record SessionMessage : Type 0 where
  pub session : String
  pub sale_start_at : Time
  pub sale_end_at : Time

-- What tickets.AddTicketTypeRequest and UpdateTicketTypeRequest have in common
pub record TicketTypeMessage : Type 0 where
  pub name : String
  pub desc : String
  pub quantity : ℕ  -- uint32
  pub price : String
  pub pick : ℕ  -- uint32
  pub sessions : List SessionMessage
  pub visibility : Bool
  pub start_showing_on : Option Time
  pub stop_showing_on : Option Time
  pub min_quantity_per_order : ℕ  -- uint32
  pub max_quantity_per_order : ℕ  -- uint32
  pub due_duration : ℕ
  pub enable : Bool
  pub sale_time_setting : String

abbrev pub seen : String → List String → Bool
seen s [] = false
seen s (t ∷ ts) = str_eq t s || seen s ts

-- The request for a new ticket type: what the logic layer sets itself is left at zero.
abbrev pub type_of_message : TicketTypeMessage → ObjectId → Decimal128 → User → TicketType
type_of_message msg event_id price u = record {
  id = 0;
  event = event_id;
  name = msg.name;
  quantity = msg.quantity;
  price = price;
  desc = msg.desc;
  visible = msg.visibility;
  always_display = false;
  start_show_at = msg.start_showing_on;
  pick = msg.pick;
  stop_show_at = msg.stop_showing_on;
  updated_at = none;
  created_at = 0;
  created_by = u;
  updated_by = none;
  min_quantity_per_order = msg.min_quantity_per_order;
  max_quantity_per_order = msg.max_quantity_per_order;
  due_duration = some msg.due_duration;
  enable = msg.enable;
  sale_setting = msg.sale_time_setting;
}

abbrev pub update_of_message :
    TicketTypeMessage → ObjectId → Decimal128 → List SessionSale → User → UpdateTicketTypeRequest
update_of_message msg id price sessions u = record {
  id = id;
  name = msg.name;
  description = msg.desc;
  quantity = msg.quantity;
  price = price;
  visibility = msg.visibility;
  start_showing_on = msg.start_showing_on;
  stop_showing_on = msg.stop_showing_on;
  updated_by = some u;
  min_quantity_per_order = msg.min_quantity_per_order;
  max_quantity_per_order = msg.max_quantity_per_order;
  due_duration = some msg.due_duration;
  sessions = sessions;
  sale_time_setting = msg.sale_time_setting;
  enable = msg.enable;
}

-- The IDs that the helper converts, or its error.
abbrev pub ids_or_error : Checked (List ObjectId) → Rpc (List ObjectId)
ids_or_error (good ids) = succeed ids
ids_or_error (bad x) = respond_error invalid_argument x

module _ ⦃m : Mongo⦄ ⦃e : Env⦄ where
  -- The loop over the sessions: every ID parses, and no text comes twice.
  unfoldable pub request_sessions : List String → List SessionMessage → Rpc (List SessionSale)
  request_sessions before [] = succeed []
  request_sessions before (s ∷ ss) = do
    sid ← parse_object_id s.session
    respond_if (seen s.session before) already_exists (refused "session can not duplicate")
    rest ← request_sessions (s.session ∷ before) ss
    succeed
        (record { id = sid; sale_start_at = s.sale_start_at; sale_end_at = s.sale_end_at } ∷ rest)

  unfoldable pub add_ticket_type : Context → String → TicketTypeMessage → Rpc String
  add_ticket_type c event msg = do
    uid ← authenticated c
    event_id ← parse_object_id event
    sessions ← request_sessions [] msg.sessions
    price ← parsed_or (e.parse_decimal128 msg.price) invalid_argument (refused "invalid price")
    id ← attempt internal (
        with_transaction
          (create_type (type_of_message msg event_id price (full_user uid c)) sessions))
    succeed (e.object_id_hex id)

  unfoldable pub update_ticket_type : Context → String → TicketTypeMessage → Rpc Unit
  update_ticket_type c ticket msg = do
    uid ← authenticated c
    id ← parse_object_id ticket
    sessions ← request_sessions [] msg.sessions
    price ← parsed_or (e.parse_decimal128 msg.price) invalid_argument (refused "invalid price")
    attempt internal
        (with_transaction (change_type (update_of_message msg id price sessions (full_user uid c))))

  unfoldable pub delete_ticket_type : Context → String → Rpc Unit
  delete_ticket_type c ticket = do
    id ← parse_object_id ticket
    uid ← authenticated c
    _ ← attempt internal (with_transaction (delete_type id (some (addressed_user uid c))))
    succeed tt

  unfoldable pub update_ticket_types_order : Context → String → List String → Rpc Unit
  update_ticket_types_order c event order = do
    uid ← authenticated c
    event_id ← parse_object_id event
    ids ← ids_or_error (convert_strings_to_object_id order)
    attempt internal (
        with_transaction (
          change_order
            (record { event = event_id; ids = ids; updated_by = some (full_user uid c) })))

  unfoldable pub get_event_ticket_types : String → Rpc (List TicketTypeReply)
  get_event_ticket_types event = do
    event_id ← parse_object_id event
    found ← attempt internal (get_ticket_types_by_event event_id)
    succeed (map ticket_type_reply found)

  unfoldable pub get_event_tickets : String → Rpc (List TicketTypeReply)
  get_event_tickets event = do
    event_id ← parse_object_id event
    found ← attempt internal (get_valid_ticket_types_by_event event_id)
    succeed (map public_ticket_type_reply found)

  unfoldable pub get_session_tickets : String → Rpc (List SessionTicketReply)
  get_session_tickets session = do
    session_id ← parse_object_id session
    found ← attempt internal (get_ticket_stock_by_session session_id)
    succeed (map session_ticket_reply found)
