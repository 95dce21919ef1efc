-- ===== src/Service/Replies.antt =====
-- internal/service: the messages of the protocol that the handlers make of documents. An ObjectID is
-- its hexadecimal text, a decimal its text, and a zero time is left out.
mod Messages
pub use Messages.*
use cicd_demo.Base.{ℕ, String, Bool, Option, none, some, List, [], ◌∷◌, map}
use cicd_demo.Models.{
  ObjectId, Time, User, Order, OrderItem, ReturnInfo, OrderWithItems, Bill, PaymentMethodInfo,
  TicketStock, TicketTypeWithStock, TicketStockWithType,
}
use cicd_demo.Platform.{Env, M, pure, deref, ◌>>=◌}
use cicd_demo.Service.{convert_time_to_proto_timestamp, convert_pointer_to_proto_timestamp}

module _ ⦃e : Env⦄ where
  abbrev pub user_reply : User → UserReply
  user_reply u = record {
    user_id = e.object_id_hex u.user_id;
    name = u.name;
    email = u.email;
    avatar = u.avatar;
  }

  abbrev return_request_reply : Option ReturnInfo → Option ReturnRequestReply
  return_request_reply none = none
  return_request_reply (some r) =
      some (record {
        reason = r.reason;
        requested_at = convert_time_to_proto_timestamp r.requested_at;
      })

  -- With its ID in GetOrderResponse, and without in GetOrdersResponse.
  abbrev pub item_reply : OrderItem → ItemReply
  item_reply i = record {
    id = e.object_id_hex i.id;
    ticket_stock = e.object_id_hex i.ticket_stock;
    session = e.object_id_hex i.session;
    quantity = i.quantity;
    price = e.decimal_string i.price;
    name = i.name;
    status = i.status;
    return_request = return_request_reply i.return_info;
  }

  abbrev pub listed_item_reply : OrderItem → ItemReply
  listed_item_reply i = record (item_reply i) { id = "" }

  -- The user of the order is dereferenced.
  abbrev pub order_reply : Order → List ItemReply → M OrderReply
  order_reply o items = do
    u ← deref o.user
    pure (record {
      id = e.object_id_hex o.id;
      items = items;
      subtotal = e.decimal_string o.subtotal;
      total = e.decimal_string o.total;
      event = e.object_id_hex o.event;
      status = o.status;
      note = o.note;
      user = user_reply u;
      created_at = convert_time_to_proto_timestamp o.created_at;
      updated_at = convert_time_to_proto_timestamp o.updated_at;
      serial = e.format_uint o.serial;
    })

  unfoldable pub convert_orders_to_response_form : List OrderWithItems → M (List OrderReply)
  convert_orders_to_response_form [] = pure []
  convert_orders_to_response_form (w ∷ ws) = do
    r ← order_reply w.order (map listed_item_reply w.items)
    rest ← convert_orders_to_response_form ws
    pure (r ∷ rest)

  abbrev user_item_reply : OrderItem → UserItemReply
  user_item_reply i = record {
    ticket_stock = e.object_id_hex i.ticket_stock;
    session = e.object_id_hex i.session;
    quantity = i.quantity;
    price = e.decimal_string i.price;
    name = i.name;
  }

  abbrev pub user_order_reply : OrderWithItems → UserOrderReply
  user_order_reply w = record {
    id = e.object_id_hex w.order.id;
    items = map user_item_reply w.items;
    total = e.decimal_string w.order.total;
    event = e.object_id_hex w.order.event;
    status = w.order.status;
    created_at = convert_time_to_proto_timestamp w.order.created_at;
    serial = e.format_uint w.order.serial;
  }

  abbrev payment_method_reply : Option PaymentMethodInfo → Option PaymentMethodReply
  payment_method_reply none = none
  payment_method_reply (some p) = some (record { id = e.object_id_hex p.id; name = p.name })

  abbrev payment_method_name : Option PaymentMethodInfo → String
  payment_method_name none = ""
  payment_method_name (some p) = p.name

  abbrev payment_text : Option ObjectId → String
  payment_text none = ""
  payment_text (some id) = e.object_id_hex id

  abbrev pub bill_reply : Bill → BillReply
  bill_reply b = record {
    id = e.object_id_hex b.id;
    amount = e.decimal_string b.amount;
    bill_type = b.bill_type;
    status = b.status;
    created_at = convert_time_to_proto_timestamp b.created_at;
    note = b.note;
    payment_method = payment_method_reply b.payment_method;
    payment_id = payment_text b.payment;
  }

  abbrev pub transaction_reply : Bill → TransactionReply
  transaction_reply b = record {
    id = e.object_id_hex b.id;
    amount = e.decimal_string b.amount;
    bill_type = b.bill_type;
    status = b.status;
    timestamp = convert_time_to_proto_timestamp b.created_at;
    payment_method = payment_method_reply b.payment_method;
  }

  abbrev pub order_bill_reply : Bill → OrderBillReply
  order_bill_reply b = record {
    id = e.object_id_hex b.id;
    amount = e.decimal_string b.amount;
    bill_type = b.bill_type;
    status = b.status;
    payment = payment_method_name b.payment_method;
    created_at = convert_time_to_proto_timestamp b.created_at;
  }

  abbrev optional_user_reply : Option User → Option UserReply
  optional_user_reply none = none
  optional_user_reply (some u) = some (user_reply u)

  abbrev session_info_reply : TicketStock → SessionInfoReply
  session_info_reply s = record { session = e.object_id_hex s.session; quantity = s.quantity }

  abbrev pub ticket_type_reply : TicketTypeWithStock → TicketTypeReply
  ticket_type_reply v = record {
    id = e.object_id_hex v.ticket_type.id;
    name = v.ticket_type.name;
    quantity = v.ticket_type.quantity;
    price = e.decimal_string v.ticket_type.price;
    desc = v.ticket_type.desc;
    visibility = v.ticket_type.visible;
    start_showing_on = convert_pointer_to_proto_timestamp v.ticket_type.start_show_at;
    stop_showing_on = convert_pointer_to_proto_timestamp v.ticket_type.stop_show_at;
    created_at = convert_time_to_proto_timestamp v.ticket_type.created_at;
    updated_at = convert_pointer_to_proto_timestamp v.ticket_type.updated_at;
    created_by = user_reply v.ticket_type.created_by;
    updated_by = optional_user_reply v.ticket_type.updated_by;
    pick = v.ticket_type.pick;
    min_quantity_per_order = v.ticket_type.min_quantity_per_order;
    max_quantity_per_order = v.ticket_type.max_quantity_per_order;
    sessions_info = map session_info_reply v.stocks;
    enable = v.ticket_type.enable;
    sale_time_setting = v.ticket_type.sale_setting;
  }

  -- GetEventTickets leaves the setting of the sale out.
  abbrev pub public_ticket_type_reply : TicketTypeWithStock → TicketTypeReply
  public_ticket_type_reply v = record (ticket_type_reply v) { sale_time_setting = "" }

  abbrev pub session_ticket_reply : TicketStockWithType → SessionTicketReply
  session_ticket_reply v = record {
    id = e.object_id_hex v.stock.id;
    name = v.ticket_type.name;
    total_quantity = v.ticket_type.quantity;
    price = e.decimal_string v.ticket_type.price;
    desc = v.ticket_type.desc;
    pick = v.ticket_type.pick;
    min_per_order = v.ticket_type.min_quantity_per_order;
    max_per_order = v.ticket_type.max_quantity_per_order;
    quantity = v.stock.quantity;
  }
