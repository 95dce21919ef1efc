-- ===== src/Service/Orders.antt =====
-- internal/service/order_public.go: the handlers of OrderService, for the buyers.
pub mod Ownership
use cicd_demo.Base.{
  ℕ, Bool, true, false, Option, none, some, String, List, [], ◌∷◌, map, ◌||◌, ◌==◌, not,
  if◌then◌else◌,
}
use cicd_demo.Models.{ObjectId, User, Order}
use cicd_demo.Platform.{
  Mongo, Env, Error, Outcome, ok, err, panic, World, M, pure, refused, nil_dereference,
  permission_denied as not_permitted,
}
use cicd_demo.Pagination.Cursor.{Codec}
use cicd_demo.Consumer.{with_transaction}
use cicd_demo.Logic.Publisher.{PaymentEventPublisher}
use cicd_demo.Logic.Checkout.{
  OrderLine, AddOrderRequest, AddOrderResponse, add_order as place_order,
}
use cicd_demo.Logic.Orders.{
  CancelOrderRequest, cancel_order as void_order, request_order_item_refund as request_refund,
}
use cicd_demo.Logic.Listing.{get_order, get_orders_by_user}
use cicd_demo.Service.{
  Code, permission_denied, invalid_argument, failed_precondition, internal, Answer, Rpc, succeed,
  respond_error, respond_if, attempt, attempt_by, Context, get_user_id, authenticated,
  parse_object_id, full_user, ◌>>=◌, ◌>>◌,
}
use cicd_demo.Service.Replies.{UserOrderReply, user_order_reply}

-- orders.AddOrderRequest; a payment method that is left out has empty texts
pub record ItemMessage : Type 0 where
  pub ticket : String
  pub quantity : ℕ  -- uint32

pub record AddOrderMessage : Type 0 where
  pub items : List ItemMessage
  pub subtotal : String
  pub total : String
  pub event : String
  pub merchant_id : String
  pub payment_method_id : String
  pub payment_method_name : String

pub record AddOrderReply : Type 0 where
  pub order_id : String
  pub bill_id : String

abbrev contains : ObjectId → List ObjectId → Bool
contains id [] = false
contains id (x ∷ xs) = x == id || contains id xs

-- GetUserOrders: the code for an error of the logic layer
abbrev listing_code : Error → Code
listing_code Error.invalid_token = invalid_argument
listing_code _ = internal

-- `errors.Is(authErr, ErrPermissionDenied)`
abbrev pub is_denied : Error → Bool
is_denied Error.permission_denied = true
is_denied _ = false

module _ ⦃m : Mongo⦄ ⦃e : Env⦄ where
  -- The user of the order is dereferenced and compared.
  abbrev pub compare_owner :
      ObjectId → Option User → World → Outcome (ObjectId × Option Error) × World
  compare_owner uid none w = (panic nil_dereference, w)
  compare_owner uid (some u) w =
      if u.user_id == uid then (ok (uid, none), w) else (ok (uid, some not_permitted), w)

  abbrev pub check_owner :
      ObjectId → Outcome Order × World → Outcome (ObjectId × Option Error) × World
  check_owner uid (ok o, w) = compare_owner uid o.user w
  check_owner uid (err x, w) = (ok (uid, some x), w)
  check_owner uid (panic p, w) = (panic p, w)

  -- The user of the call, with an error beside it unless the order is that user's.
  abbrev pub authorize : ObjectId → Option ObjectId → M (ObjectId × Option Error)
  authorize oid none = pure (0, some (refused "unauthenticated"))
  authorize oid (some uid) = λ w. check_owner uid (get_order oid w)

  unfoldable pub authorize_order_consumer : Context → ObjectId → M (ObjectId × Option Error)
  authorize_order_consumer c oid = authorize oid (get_user_id c)

  -- The loop over the items: every ID parses, and none comes twice.
  unfoldable pub order_lines : List ObjectId → List ItemMessage → Rpc (List OrderLine)
  order_lines seen [] = succeed []
  order_lines seen (i ∷ is) = do
    tid ← parse_object_id i.ticket
    respond_if (contains tid seen) failed_precondition (refused "duplicate ticket")
    rest ← order_lines (tid ∷ seen) is
    succeed (record { ticket_stock = tid; quantity = i.quantity } ∷ rest)

  unfoldable pub add_order : PaymentEventPublisher → Context → AddOrderMessage → Rpc AddOrderReply
  add_order p c msg = do
    uid ← authenticated c
    event ← parse_object_id msg.event
    merchant ← parse_object_id msg.merchant_id
    method ← parse_object_id msg.payment_method_id
    lines ← order_lines [] msg.items
    placed ← attempt internal (
        with_transaction (
          place_order p (record {
            event = event;
            merchant_id = merchant;
            subtotal = msg.subtotal;
            total = msg.total;
            details = lines;
            user = some (full_user uid c);
            payment_method = record { id = method; name = msg.payment_method_name };
          })))
    succeed (record {
      order_id = e.object_id_hex placed.order_id;
      bill_id = e.object_id_hex placed.bill_id;
    })

  -- Whoever is not known to own the order is denied.
  abbrev pub owner_or_denied : ObjectId × Option Error → Rpc ObjectId
  owner_or_denied (uid, none) = succeed uid
  owner_or_denied (uid, some x) = respond_error permission_denied x

  unfoldable pub cancel_order : PaymentEventPublisher → Context → String → String → Rpc Unit
  cancel_order p c order reason = do
    oid ← parse_object_id order
    authorized ← attempt internal (authorize_order_consumer c oid)
    uid ← owner_or_denied authorized
    attempt internal (
        with_transaction (
          void_order p (record { order_id = oid; user = some (full_user uid c); reason = reason })))

  -- Only the one error that says so is answered; with any other the handler goes on.
  abbrev pub unless_denied : ObjectId × Option Error → Rpc ObjectId
  unless_denied (uid, none) = succeed uid
  unless_denied (uid, some x) =
      if is_denied x then respond_error permission_denied x else succeed uid

  unfoldable pub request_order_item_refund : Context → String → String → String → Rpc Unit
  request_order_item_refund c order item reason = do
    user ← authenticated c
    oid ← parse_object_id order
    iid ← parse_object_id item
    authorized ← attempt internal (authorize_order_consumer c oid)
    uid ← unless_denied authorized
    attempt internal (with_transaction (request_refund oid iid (some (full_user uid c)) reason))

module _ ⦃k : Codec⦄ ⦃m : Mongo⦄ ⦃e : Env⦄ where
  unfoldable pub get_user_orders : Context → String → Rpc (List UserOrderReply × String)
  get_user_orders c after = do
    uid ← authenticated c
    (found, next) ← attempt_by listing_code (get_orders_by_user uid after)
    succeed (map user_order_reply found, next)
