-- ===== src/Logic/Checkout.antt =====
-- internal/logic/orders.go: `AddOrder` and `validateAndBuildOrderItems`. The grants of roles by
-- the relation service, whose errors are only logged, are left out.
pub mod Items
use cicd_demo.Base.{
  ℕ, zero, suc, String, Bool, true, false, Option, none, some, List, [], ◌∷◌, ◌++◌, ◌||◌, not, map,
  length, ltb, ◌==◌, if◌then◌else◌,
}
use cicd_demo.Constants.{bill_type_payment, PaymentAction}
use cicd_demo.Constants.BillStatus
use cicd_demo.Constants.BillStatus.{BillStatus}
use cicd_demo.Constants.OrderItemStatus
use cicd_demo.Constants.OrderItemStatus.{OrderItemStatus}
use cicd_demo.Constants.OrderStatus
use cicd_demo.Constants.OrderStatus.{OrderStatus}
use cicd_demo.Models.{
  ObjectId, nil_object_id, Time, User, Decimal128, PaymentMethodInfo, Order, OrderItem, Bill,
  TicketStockWithType, empty_decimal,
}
use cicd_demo.Helper.{compare_decimal128, max_precision}
use cicd_demo.Platform.{
  Mongo, Env, Comparison, M, pure, raise, raise_if, or_raise, panics, ◌>>=◌, ◌>>◌, refused,
  index_out_of_range, new_object_id, time_now, next_serial,
}
use cicd_demo.Dao.Orders.{create_order, create_order_items}
use cicd_demo.Dao.Bills.{create_bill, create_audit_log}
use cicd_demo.Dao.Tickets.{get_valid_tickets_by_ids, reserve_tickets}
use cicd_demo.Logic.Audit.{build_create_order_audit_log}
use cicd_demo.Logic.Publisher.{PaymentEventPublisher, publish_payment_event}
use cicd_demo.Logic.Recalculate.{checked}

-- dto.OrderItem: a stock and how many of it
pub record OrderLine : Type 0 where
  pub ticket_stock : ObjectId
  pub quantity : ℕ  -- uint32

-- dto.AddOrderRequest
pub record AddOrderRequest : Type 0 where
  pub event : ObjectId
  pub merchant_id : ObjectId
  pub subtotal : String
  pub total : String
  pub details : List OrderLine
  pub user : Option User
  pub payment_method : PaymentMethodInfo

pub record AddOrderResponse : Type 0 where
  pub order_id : ObjectId
  pub bill_id : ObjectId

-- `itemsByTicketID[id]`, where the last of the lines with one stock has been put last.
abbrev pub line_for : ObjectId → List OrderLine → Option OrderLine
line_for id [] = none
line_for id (l ∷ ls) = elim (line_for id ls) [
  | some k ↦ some k
  | none ↦ if l.ticket_stock == id then some l else none
]

abbrev pub of_event : ObjectId → TicketStockWithType → Bool
of_event event_id t = t.ticket_type.event == event_id

abbrev pub of_session : ObjectId → TicketStockWithType → Bool
of_session session_id t = t.stock.session == session_id

-- The loop that compares the other tickets with the first one.
abbrev pub check_same : ObjectId → ObjectId → List TicketStockWithType → M Unit
check_same event_id session_id [] = pure tt
check_same event_id session_id (t ∷ ts) = do
  raise_if (not (of_event event_id t)) (refused "all tickets must belong to the same event")
  raise_if (not (of_session session_id t)) (refused "all tickets must belong to the same session")
  check_same event_id session_id ts

abbrev pub is_equal : Comparison → Bool
is_equal Comparison.equal = true
is_equal _ = false

module _ ⦃e : Env⦄ where
  -- The inner loop, which unrolls a quantity into single items.
  unfoldable pub unroll : TicketStockWithType → Time → Option User → ℕ → M (List OrderItem)
  unroll t now user zero = pure []
  unroll t now user (suc k) = do
    id ← new_object_id
    rest ← unroll t now user k
    pure (
        record {
          id = id;
          order = nil_object_id;
          ticket_stock = t.stock.id;
          session = t.stock.session;
          name = t.ticket_type.name;
          price = t.ticket_type.price;
          quantity = 1;
          status = OrderItemStatus.to_string OrderItemStatus.pending_payment;
          created_at = now;
          updated_at = now;
          updated_by = user;
          return_info = none;
        }
        ∷ rest)

  -- The checks of one ticket against its line of the request.
  unfoldable pub check_line : TicketStockWithType → OrderLine → M Unit
  check_line t l = do
    raise_if (ltb t.stock.quantity l.quantity) (refused "not enough stock")
    raise_if
        (ltb t.ticket_type.max_quantity_per_order l.quantity
          || ltb l.quantity t.ticket_type.min_quantity_per_order)
        (refused "break the ticket config rule")

  -- The loop over the tickets, with the subtotal so far.
  unfoldable pub build_items :
      List OrderLine
      → Time
      → Option User
      → e.Float
      → List TicketStockWithType
      → M (List OrderItem × e.Float)
  build_items lines now user subtotal [] = pure ([], subtotal)
  build_items lines now user subtotal (t ∷ ts) = do
    l ← or_raise (line_for t.stock.id lines) (refused "fetched ticket not in original request")
    check_line t l
    price ←
        or_raise (e.float_parse max_precision (e.decimal_string t.ticket_type.price))
          (refused "failed to parse ticket price")
    items ← unroll t now user l.quantity
    (rest, sum) ←
        build_items lines now user
          (e.float_add subtotal (e.float_mul price (e.float_of l.quantity))) ts
    pure (items ++ rest, sum)

-- What `validateAndBuildOrderItems` returns; the total is the subtotal.
pub record BuiltItems : Type 0 where
  pub items : List OrderItem
  pub subtotal : Decimal128
  pub total : Decimal128
  pub event_id : ObjectId
  pub session_id : ObjectId

module _ ⦃m : Mongo⦄ ⦃e : Env⦄ where
  -- From the tickets on, of which the first gives the event and the session.
  unfoldable pub build_from :
      List OrderLine → Time → Option User → List TicketStockWithType → M BuiltItems
  build_from lines now user [] = panics index_out_of_range
  build_from lines now user (t ∷ ts) = do
    check_same t.ticket_type.event t.stock.session ts
    (items, sum) ← build_items lines now user (e.float_of 0) (t ∷ ts)
    subtotal ←
        or_raise (e.parse_decimal128 (e.float_string sum))
          (refused "failed to convert calculated subtotal to Decimal128")
    pure (record {
      items = items;
      subtotal = subtotal;
      total = subtotal;
      event_id = t.ticket_type.event;
      session_id = t.stock.session;
    })

  unfoldable pub validate_and_build_order_items : List OrderLine → Time → Option User → M BuiltItems
  validate_and_build_order_items [] now user = raise (refused "order cannot be empty")
  validate_and_build_order_items (l ∷ ls) now user = do
    tickets ← get_valid_tickets_by_ids (map (λ (k : OrderLine). k.ticket_stock) (l ∷ ls))
    raise_if (not (length tickets == length (l ∷ ls)))
        (refused "one or more tickets are invalid or not found")
    build_from (l ∷ ls) now user tickets

  -- The amounts that the client confirmed, against those of the server.
  unfoldable pub check_amounts : AddOrderRequest → BuiltItems → M Unit
  check_amounts d b = do
    client_subtotal ←
        or_raise (e.parse_decimal128 d.subtotal) (refused "invalid client subtotal format")
    client_total ← or_raise (e.parse_decimal128 d.total) (refused "invalid client total format")
    c ← checked (compare_decimal128 client_subtotal b.subtotal)
    raise_if (not (is_equal c)) (refused "subtotal mismatch")
    c' ← checked (compare_decimal128 client_total b.total)
    raise_if (not (is_equal c')) (refused "total mismatch")

  unfoldable pub new_order : AddOrderRequest → BuiltItems → Time → ℕ → ObjectId → Order
  new_order d b now serial id = record {
    id = id;
    event = b.event_id;
    session = b.session_id;
    serial = serial;
    subtotal = b.subtotal;
    total = b.total;
    original_total = b.total;
    user = d.user;
    status = OrderStatus.to_string OrderStatus.unpaid;
    note = "";
    created_at = now;
    updated_at = now;
    updated_by = none;
    paid = empty_decimal;
    returned = empty_decimal;
    items_count = 0;
    returned_items_count = 0;
    merchant_id = d.merchant_id;
    invoice = none;
  }

  -- The bill of the whole amount, and the event that asks for its payment.
  unfoldable pub bill_new_order : PaymentEventPublisher → AddOrderRequest → Order → M ObjectId
  bill_new_order p d o = do
    id ← new_object_id
    created ← time_now
    updated ← time_now
    let bill : Bill = record {
      id = id;
      order = o.id;
      order_item_id = none;
      customer = o.user;
      amount = o.total;
      bill_type = bill_type_payment;
      status = BillStatus.to_string BillStatus.pending;
      payment_method = some d.payment_method;
      created_at = created;
      updated_at = updated;
      payment = none;
      refunding_payment_id = none;
      note = "";
    }
    create_bill bill
    publish_payment_event p PaymentAction.create bill d.merchant_id
    pure bill.id

  unfoldable pub add_order : PaymentEventPublisher → AddOrderRequest → M AddOrderResponse
  add_order p d = do
    now ← time_now
    b ← validate_and_build_order_items d.details now d.user
    raise_if (not (b.event_id == d.event)) (refused "event mismatch")
    check_amounts d b
    serial ← next_serial
    id ← new_object_id
    let o = new_order d b now serial id
    create_order o
    create_order_items o.id b.items
    reserve_tickets b.items d.user
    log ← build_create_order_audit_log o b.items
    create_audit_log log
    bill_id ← bill_new_order p d o
    pure (record { order_id = o.id; bill_id = bill_id })
