-- ===== src/Service/OrdersAdmin.antt =====
-- internal/service/orders_admin.go and order_export_handler.go: the handlers of OrdersAdminService, and
-- the export over HTTP.
use cicd_demo.Base.{
  ℕ, Bool, Option, none, some, String, List, map, ◌==◌, ◌||◌, not, str_eq, ltb, leb, ◌&&◌, ◌%◌, ◌^◌,
  ◌-◌, if◌then◌else◌,
}
use cicd_demo.Constants.OrderItemStatus
use cicd_demo.Constants.OrderItemStatus.{OrderItemStatus}
use cicd_demo.Models.{ObjectId, OrderWithItems}
use cicd_demo.Platform.{Mongo, Env, Error, Outcome, ok, err, panic, World, M, deref, refused}
use cicd_demo.Pagination.{ℤ, pos, negsuc, PageResult, new_page_request}
use cicd_demo.Consumer.{with_transaction}
use cicd_demo.Logic.Publisher.{PaymentEventPublisher}
use cicd_demo.Logic.Orders.{
  cancel_order as void_order, change_order_item_status as change_item,
  reject_order_item_refund as reject_refund,
}
use cicd_demo.Logic.Listing.{
  Schedule, OrderDetails, get_order_details, export_event_orders_by_month,
  get_orders_by_event as list_by_event, get_orders_by_session as list_by_session,
  is_event_has_open_orders as has_open_orders,
}
use cicd_demo.Service.{
  Code, invalid_argument, internal, not_found, Rpc, succeed, respond_if, parsed_or, attempt,
  attempt_by, Context, authenticated, parse_object_id, named_user, ◌>>=◌, ◌>>◌,
}
use cicd_demo.Service.Replies.{
  OrderReply, OrderBillReply, order_reply, item_reply, order_bill_reply,
  convert_orders_to_response_form,
}

-- GetOrdersResponse: the orders and api.PageInfo, whose numbers are int32
pub record PageInfo : Type 0 where
  pub total : ℕ
  pub page : ℤ
  pub page_size : ℤ
  pub total_pages : ℤ

pub record GetOrdersReply : Type 0 where
  pub orders : List OrderReply
  pub page_info : PageInfo

-- GetOrderResponse, with the items beside the order
pub record GetOrderReply : Type 0 where
  pub order : OrderReply
  pub bills : List OrderBillReply

-- ChangeOrderItemStatusRequest_OrderItemStatus; `unknown` is any other number
pub data ItemStatusMessage : Type 0 where
  canceled return_requested return_approved unknown : ItemStatusMessage

unfoldable pub convert_proto_order_item_status_to_app_status : ItemStatusMessage → Option String
convert_proto_order_item_status_to_app_status canceled =
    some (OrderItemStatus.to_string OrderItemStatus.canceled)
convert_proto_order_item_status_to_app_status return_requested =
    some (OrderItemStatus.to_string OrderItemStatus.return_requested)
convert_proto_order_item_status_to_app_status return_approved =
    some (OrderItemStatus.to_string OrderItemStatus.return_approved)
convert_proto_order_item_status_to_app_status unknown = none

-- `int32` of a number that is not negative
abbrev wrap32 : ℕ → ℤ
wrap32 n = let r = n % 2 ^ 32 in if ltb r (2 ^ 31) then pos r else negsuc (2 ^ 32 - 1 - r)

abbrev admin_page_size : ℤ
admin_page_size = pos 10

-- GetOrderByID: a missing order has a code of its own
abbrev details_code : Error → Code
details_code Error.no_documents = not_found
details_code _ = internal

-- An answer over HTTP: a status with a message, or the file.
pub data HttpReply : Type 0 where
  http_error : ℕ → String → HttpReply
  csv_file : String → String → HttpReply

abbrev empty_or : String → String → Bool
empty_or s t = str_eq s "" || str_eq t ""

-- `month < 1 || month > 12`
abbrev is_month : ℤ → Bool
is_month (pos n) = leb 1 n && leb n 12
is_month (negsuc n) = Bool.false

module _ ⦃m : Mongo⦄ ⦃e : Env⦄ where
  unfoldable pub is_event_has_open_orders : String → Rpc Bool
  is_event_has_open_orders event = do
    event_id ← parse_object_id event
    attempt internal (has_open_orders event_id)

  unfoldable pub orders_page : PageResult (List OrderWithItems) → Rpc GetOrdersReply
  orders_page r = do
    replies ← attempt internal (convert_orders_to_response_form r.rows)
    succeed (record {
      orders = replies;
      page_info = record {
        total = r.total;
        page = wrap32 r.page;
        page_size = wrap32 r.page_size;
        total_pages = wrap32 r.total_pages;
      };
    })

  unfoldable pub get_orders_by_event : String → ℤ → Rpc GetOrdersReply
  get_orders_by_event event page = do
    event_id ← parse_object_id event
    r ← attempt internal (list_by_event event_id (new_page_request page admin_page_size))
    orders_page r

  unfoldable pub get_orders_by_session : String → ℤ → Rpc GetOrdersReply
  get_orders_by_session session page = do
    session_id ← parse_object_id session
    r ← attempt internal (list_by_session session_id (new_page_request page admin_page_size))
    orders_page r

  unfoldable pub change_order_item_status :
      Context → String → String → ItemStatusMessage → String → Rpc Unit
  change_order_item_status c order item status reason = do
    uid ← authenticated c
    oid ← parse_object_id order
    iid ← parse_object_id item
    new_status ←
        parsed_or (convert_proto_order_item_status_to_app_status status) invalid_argument
          (refused "invalid order item status")
    attempt internal (
        with_transaction (
          change_item (record {
            order_item_id = iid;
            order_id = oid;
            new_status = new_status;
            reason = reason;
            operator = some (named_user uid c);
          })))

  -- `convertOrderDetailsToProto`
  unfoldable pub convert_order_details_to_proto : OrderDetails → Rpc GetOrderReply
  convert_order_details_to_proto details = do
    order ← attempt internal (order_reply details.order (map item_reply details.items))
    succeed (record { order = order; bills = map order_bill_reply details.bills })

  -- The order of another user is answered as one that is not there.
  unfoldable pub show_to_owner : ObjectId → OrderDetails → Rpc GetOrderReply
  show_to_owner uid details = do
    owner ← attempt internal (deref details.order.user)
    respond_if (not (owner.user_id == uid)) not_found (refused "order not found")
    convert_order_details_to_proto details

  unfoldable pub get_order_by_id : Schedule → Context → String → Rpc GetOrderReply
  get_order_by_id schedule c order = do
    uid ← authenticated c
    oid ← parse_object_id order
    details ← attempt_by details_code (get_order_details schedule oid)
    show_to_owner uid details

  unfoldable pub cancel_order : PaymentEventPublisher → Context → String → String → Rpc Unit
  cancel_order p c order reason = do
    uid ← authenticated c
    oid ← parse_object_id order
    attempt internal (
        with_transaction (
          void_order p
            (record { order_id = oid; user = some (named_user uid c); reason = reason })))

  unfoldable pub reject_order_item_refund : Context → String → String → String → Rpc Unit
  reject_order_item_refund c order item reason = do
    uid ← authenticated c
    oid ← parse_object_id order
    iid ← parse_object_id item
    attempt internal (with_transaction (reject_refund oid iid (some (named_user uid c)) reason))

  -- What the logic layer makes of the export, as an answer over HTTP.
  abbrev export_reply : Outcome (String × String) × World → Outcome HttpReply × World
  export_reply (ok (name, text), w) = (ok (csv_file name text), w)
  export_reply (err x, w) = (ok (http_error 500 "Failed to generate export"), w)
  export_reply (panic p, w) = (panic p, w)

  abbrev bad_request : String → M HttpReply
  bad_request s w = (ok (http_error 400 s), w)

  abbrev month_number : ℤ → ℕ
  month_number (pos n) = n
  month_number (negsuc n) = 0

  -- `ServeHTTP`; the numbers are what strconv.Atoi reads of the two texts, the year not below 0.
  unfoldable pub export_month : String → ℕ → Option ℤ → M HttpReply
  export_month event year none = bad_request "Invalid month format"
  export_month event year (some month) =
      if not (is_month month)
      then bad_request "Invalid month format"
      else elim (e.object_id_from_hex event) [
        | none ↦ bad_request "Invalid event_id format"
        | some event_id ↦
            λ w. export_reply (export_event_orders_by_month event_id year (month_number month) w)
      ]

  unfoldable pub serve_export : String → String → String → Option ℕ → Option ℤ → M HttpReply
  serve_export event year_text month_text year month =
      if str_eq event "" || empty_or year_text month_text
      then bad_request "Missing required parameters: event_id, year, month"
      else elim year [
        | none ↦ bad_request "Invalid year format"
        | some y ↦ export_month event y month
      ]
