-- ===== src/Logic/Tickets.antt =====
-- internal/logic/tickets.go: the issue, the check-in, the voiding and the expiry of tickets, and
-- the ticket types.
pub mod CheckIn
pub mod Issue
pub mod Types
use cicd_demo.Base.{
  ℕ, Bool, true, false, Option, none, some, List, [], ◌∷◌, ◌||◌, not, ltb, str_eq, if◌then◌else◌,
}
use cicd_demo.Constants.OrderStatus
use cicd_demo.Constants.OrderStatus.{OrderStatus}
use cicd_demo.Constants.TicketStatus
use cicd_demo.Constants.TicketStatus.{TicketStatus}
use cicd_demo.Models.{ObjectId, Time, User, Order, OrderItem, OrderWithItems, TicketType, Ticket}
use cicd_demo.Platform.{
  Mongo, Env, SessionReply, Error, Outcome, ok, err, panic, World, M, pure, raise, raise_if,
  or_raise, deref, ◌>>=◌, ◌>>◌, refused, permanent, ticket_not_found, not_within_validity,
  new_object_id, time_now, outside_call,
}
use cicd_demo.Dao.Orders.{get_order_with_items_by_id}
use cicd_demo.Dao.Bills.{create_audit_log}
use cicd_demo.Dao.Tickets.{
  count_tickets_by_order, create_many_tickets, add_ticket_stock, add_ticket_type as insert_type,
  delete_ticket_type_by_id, delete_ticket_stock_by_type, release_tickets,
  get_ticket_by_order_item_id, update_ticket_status, get_ticket_by_id, mark_ticket_as_used,
  expire_tickets,
}
use cicd_demo.Logic.Audit.{
  build_add_ticket_type_audit_log, build_delete_ticket_type_audit_log,
  build_check_in_ticket_audit_log,
}

-- `errors.Is(err, mongo.ErrNoDocuments)`: one way on where a document is missing, another where
-- there is one; other errors are passed on.
abbrev pub if_missing : {A B : Type 0} → M B → (A → M B) → Outcome A × World → Outcome B × World
if_missing absent present (ok a, w) = present a w
if_missing absent present (err Error.no_documents, w) = absent w
if_missing absent present (err x, w) = (err x, w)
if_missing absent present (panic p, w) = (panic p, w)

abbrev pub found_or : {A B : Type 0} → M A → M B → (A → M B) → M B
found_or m absent present w = if_missing absent present (m w)

-- dto.TicketTypeSession
pub record SessionSale : Type 0 where
  pub id : ObjectId
  pub sale_start_at : Time
  pub sale_end_at : Time

-- `now.Before(ValidFrom) || now.After(ValidUntil)`
abbrev pub is_outside : Time → Ticket → Bool
is_outside now t = ltb now t.valid_from || ltb t.valid_until now

-- Visible, with no period: always displayed.
abbrev pub is_always_displayed : Bool → Option Time → Option Time → Bool
is_always_displayed true none none = true
is_always_displayed _ _ _ = false

-- What the answer of the event service means for the message.
abbrev session_times : SessionReply → M (Time × Time)
session_times (SessionReply.session (some start) (some end)) = pure (start, end)
session_times (SessionReply.session _ _) = raise (refused "failed to parse time")
session_times SessionReply.missing = raise permanent
session_times SessionReply.unavailable = raise (refused "failed to get session")

abbrev without_avatar : User → User
without_avatar u = record u { avatar = "" }

module _ ⦃m : Mongo⦄ ⦃e : Env⦄ where
  -- The body of the loop over the items.
  unfoldable pub generate_ticket : Order → OrderItem → M Ticket
  generate_ticket o i = do
    id ← new_object_id
    now ← time_now
    reply ← outside_call (λ n. e.session_by_id n i.session)
    (valid_from, valid_until) ← session_times reply
    qr_code ←
        or_raise (e.qr_code id o.event i.session i.name valid_from valid_until)
          (refused "failed to generate QR code")
    customer ← deref o.user
    pure (record {
      id = id;
      order_item = record { id = i.id; price = i.price; name = i.name };
      order = o.serial;
      customer = without_avatar customer;
      event = o.event;
      session = i.session;
      ticket_stock = i.ticket_stock;
      status = TicketStatus.to_string TicketStatus.valid;
      qr_code_data = qr_code;
      valid_from = valid_from;
      valid_until = valid_until;
      used_at = none;
      checked_in_by = none;
      created_at = now;
      updated_at = now;
    })

  unfoldable pub generate_tickets : Order → List OrderItem → M (List Ticket)
  generate_tickets o [] = pure []
  generate_tickets o (i ∷ is) = do
    t ← generate_ticket o i
    ts ← generate_tickets o is
    pure (t ∷ ts)

  -- Steps 2 to 5 of `GenerateTicketsForOrder`.
  unfoldable pub generate_for : ObjectId → OrderWithItems → M Unit
  generate_for order_id w =
      if not (str_eq w.order.status (OrderStatus.to_string OrderStatus.paid)) then pure tt else do
        count ← count_tickets_by_order order_id
        (if ltb 0 count
            then pure tt
            else do tickets ← generate_tickets w.order w.items; create_many_tickets tickets)

  unfoldable pub generate_tickets_for_order : ObjectId → M Unit
  generate_tickets_for_order order_id =
      found_or (get_order_with_items_by_id order_id) (pure tt) (generate_for order_id)

  -- The stock of a new ticket type, one for each session.
  unfoldable pub add_stock_for : ObjectId → ℕ → Time → User → List SessionSale → M Unit
  add_stock_for type_id quantity updated_at user [] = pure tt
  add_stock_for type_id quantity updated_at user (s ∷ ss) = do
    id ← new_object_id
    add_ticket_stock (record {
      id = id;
      session = s.id;
      stock_type = type_id;
      sale_start_at = s.sale_start_at;
      sale_end_at = s.sale_end_at;
      quantity = quantity;
      updated_at = updated_at;
      updated_by = user;
    })
    add_stock_for type_id quantity updated_at user ss

  -- `AddTicketType`; the request is the ticket type that it describes.
  unfoldable pub add_ticket_type : TicketType → List SessionSale → M ObjectId
  add_ticket_type d sessions = do
    id ← new_object_id
    now ← time_now
    let t : TicketType = record d {
      id = id;
      always_display = is_always_displayed d.visible d.start_show_at d.stop_show_at;
      updated_at = none;
      created_at = now;
      updated_by = none;
    }
    type_id ← insert_type t
    add_stock_for type_id t.quantity t.created_at t.created_by sessions
    log ← build_add_ticket_type_audit_log (some t.created_by) t
    create_audit_log log
    pure t.id

  unfoldable pub delete_ticket_type : ObjectId → Option User → M (Option TicketType)
  delete_ticket_type type_id operator = do
    deleted ← delete_ticket_type_by_id type_id
    elim deleted [
      | none ↦ pure none
      | some t ↦ do
        delete_ticket_stock_by_type type_id
        log ← build_delete_ticket_type_audit_log operator t
        create_audit_log log
        pure (some t)
    ]

  -- The stock goes back, and the ticket is invalidated.
  unfoldable pub void_ticket : Ticket → M Unit
  void_ticket t = do
    release_tickets (
        record {
          id = 0;
          order = 0;
          ticket_stock = t.ticket_stock;
          session = 0;
          name = "";
          price = record { high = 0; low = 0 };
          quantity = 1;
          status = "";
          created_at = 0;
          updated_at = 0;
          updated_by = none;
          return_info = none;
        }
        ∷ [])
    update_ticket_status t.id (TicketStatus.to_string TicketStatus.invalidated)

  unfoldable pub void_ticket_by_order_item : ObjectId → M Unit
  void_ticket_by_order_item item_id =
      found_or (get_ticket_by_order_item_id item_id) (pure tt) void_ticket

  -- After the mark: the ticket is read again, and the check-in is put into the audit log.
  unfoldable pub finish_check_in : ObjectId → Option User → Ticket → M (Ticket × Bool)
  finish_check_in id operator before = do
    after ← get_ticket_by_id id
    log ← build_check_in_ticket_audit_log operator before after
    create_audit_log log
    pure (after, true)

  -- Step 3 and on of `CheckInTicket`, for a ticket that was read as valid.
  unfoldable pub use_ticket : ObjectId → Option User → Ticket → M (Ticket × Bool)
  use_ticket id operator t = do
    now ← time_now
    raise_if (is_outside now t) (not_within_validity t)
    found_or (mark_ticket_as_used id now operator)
        (do latest ← get_ticket_by_id id; pure (latest, false)) (λ _. finish_check_in id operator t)

  unfoldable pub check_in : ObjectId → Option User → Ticket → M (Ticket × Bool)
  check_in id operator t =
      if not (str_eq t.status (TicketStatus.to_string TicketStatus.valid))
      then pure (t, false)
      else use_ticket id operator t

  -- The ticket, and whether it was checked in just now.
  unfoldable pub check_in_ticket : ObjectId → Option User → M (Ticket × Bool)
  check_in_ticket id operator =
      found_or (get_ticket_by_id id) (raise ticket_not_found) (check_in id operator)

  unfoldable pub expire_overdue_tickets : M ℕ
  expire_overdue_tickets = do now ← time_now; expire_tickets now
