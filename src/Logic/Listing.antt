-- ===== src/Logic/Listing.antt =====
-- internal/logic/orders.go: the methods that only read orders.
pub mod Details
pub mod UserOrders
use cicd_demo.Base.{
  ℕ, Bool, Option, none, some, String, List, [], ◌∷◌, ◌++◌, map, length, ◌==◌, if◌then◌else◌,
}
use cicd_demo.Models.{ObjectId, Time, User, Order, OrderItem, Bill, OrderWithItems}
use cicd_demo.Platform.{
  Mongo, Env, Db, ok, M, pure, or_raise, deref, ◌>>=◌, ◌>>◌, invalid_token, refused,
}
use cicd_demo.Pagination.{
  ℤ, pos, negsuc, PageRequest, PageResult, new_page_result, get_limit, get_offset,
}
use cicd_demo.Pagination.Cursor.{Page, Codec, decode, generate_token, from_unix}
use cicd_demo.Dao.Orders as Orders
use cicd_demo.Dao.Orders.{get_order_by_id, get_order_items_by_order_id, get_orders_between}
use cicd_demo.Dao.Bills.{get_bills_by_order_id}

-- dto.OrderDetails
pub record OrderDetails : Type 0 where
  pub order : Order
  pub items : List OrderItem
  pub bills : List Bill

-- `$skip`, which is left out where the offset is not positive.
abbrev skipped : ℤ → ℕ
skipped (pos n) = n
skipped (negsuc n) = 0

abbrev pub user_page_size : ℕ
user_page_size = 5

abbrev pub last? {ℓ} : {A : Type ℓ} → List A → Option A
last? [] = none
last? (x ∷ xs) = elim xs [ [] ↦ some x | _ ∷ _ ↦ last? xs ]

-- The order in which the three reads of `GetOrderDetails` take place, and what other writers do to
-- the data after the first and after the second of them.
pub data ReadOrder : Type 0 where
  order_items_bills order_bills_items items_order_bills items_bills_order bills_order_items
        bills_items_order :
      ReadOrder

pub record Schedule : Type 0 where
  pub reads : ReadOrder
  pub after_first : Db → Db
  pub after_second : Db → Db

abbrev pub others_write : (Db → Db) → M Unit
others_write g w = (ok tt, record w { db = g w.db })

abbrev csv_header : List String
csv_header = "訂單編號" ∷ "訂單狀態" ∷ "建立日期" ∷ "消費者姓名" ∷ "電子信箱" ∷ "購買票券" ∷ "票券價格" ∷ "繳費狀態" ∷ []

module _ ⦃m : Mongo⦄ ⦃e : Env⦄ where
  unfoldable pub get_order : ObjectId → M Order
  get_order id = get_order_by_id id

  unfoldable pub is_event_has_open_orders : ObjectId → M Bool
  is_event_has_open_orders event_id = Orders.is_event_has_open_orders event_id

  unfoldable pub get_orders_by_event : ObjectId → PageRequest → M (PageResult (List OrderWithItems))
  get_orders_by_event event_id p = do
    (orders, total) ← Orders.get_orders_by_event event_id (get_limit p) (skipped (get_offset p))
    pure (new_page_result orders total p)

  unfoldable pub get_orders_by_session :
      ObjectId → PageRequest → M (PageResult (List OrderWithItems))
  get_orders_by_session session_id p = do
    (orders, total) ← Orders.get_orders_by_session session_id (get_limit p) (skipped (get_offset p))
    pure (new_page_result orders total p)

  unfoldable pub read_details : ReadOrder → (Db → Db) → (Db → Db) → ObjectId → M OrderDetails
  read_details order_items_bills g h id = do
    order ← get_order_by_id id
    others_write g
    items ← get_order_items_by_order_id id
    others_write h
    bills ← get_bills_by_order_id id
    pure (record { order = order; items = items; bills = bills })
  read_details order_bills_items g h id = do
    order ← get_order_by_id id
    others_write g
    bills ← get_bills_by_order_id id
    others_write h
    items ← get_order_items_by_order_id id
    pure (record { order = order; items = items; bills = bills })
  read_details items_order_bills g h id = do
    items ← get_order_items_by_order_id id
    others_write g
    order ← get_order_by_id id
    others_write h
    bills ← get_bills_by_order_id id
    pure (record { order = order; items = items; bills = bills })
  read_details items_bills_order g h id = do
    items ← get_order_items_by_order_id id
    others_write g
    bills ← get_bills_by_order_id id
    others_write h
    order ← get_order_by_id id
    pure (record { order = order; items = items; bills = bills })
  read_details bills_order_items g h id = do
    bills ← get_bills_by_order_id id
    others_write g
    order ← get_order_by_id id
    others_write h
    items ← get_order_items_by_order_id id
    pure (record { order = order; items = items; bills = bills })
  read_details bills_items_order g h id = do
    bills ← get_bills_by_order_id id
    others_write g
    items ← get_order_items_by_order_id id
    others_write h
    order ← get_order_by_id id
    pure (record { order = order; items = items; bills = bills })

  -- The reads run at the same time, outside a transaction, so that others may write between them;
  -- the first error cancels the others and is returned.
  unfoldable pub get_order_details : Schedule → ObjectId → M OrderDetails
  unfolding read_details
  get_order_details s id = read_details s.reads s.after_first s.after_second id

  -- The row for an item of an order.
  abbrev item_row : Order → User → OrderItem → List String
  item_row o u i =
      e.format_uint o.serial
      ∷ o.status
      ∷ e.format_time o.created_at
      ∷ u.name
      ∷ u.email
      ∷ i.name
      ∷ e.decimal_string i.price
      ∷ i.status
      ∷ []

  -- The inner loop: the user of the order is read for every item.
  unfoldable pub item_rows : Order → List OrderItem → M (List (List String))
  item_rows o [] = pure []
  item_rows o (i ∷ is) = do u ← deref o.user; rest ← item_rows o is; pure (item_row o u i ∷ rest)

  unfoldable pub order_rows : List OrderWithItems → M (List (List String))
  order_rows [] = pure []
  order_rows (w ∷ ws) = do
    rows ← item_rows w.order w.items
    rest ← order_rows ws
    pure (rows ++ rest)

  unfoldable pub export_event_orders_by_month : ObjectId → ℕ → ℕ → M (String × String)
  export_event_orders_by_month event_id year month = do
    orders ← get_orders_between event_id (e.month_start year month) (e.month_end year month)
    rows ← order_rows orders
    pure (e.export_name year month, e.csv_text (csv_header ∷ rows))

module _ ⦃c : Codec⦄ ⦃m : Mongo⦄ ⦃e : Env⦄ where
  -- Where the token says that the page begins; a zero cursor is none.
  unfoldable pub cursor_of : Option Page → M (ObjectId × Time)
  cursor_of none = pure (0, 0)
  cursor_of (some p) = do
    id ← or_raise (e.object_id_from_hex p.cursor_id) invalid_token
    pure (id, from_unix p.cursor_timestamp)

  -- A token for the next page, where this one is full.
  unfoldable pub next_token : List OrderWithItems → M String
  next_token found =
      if length found == user_page_size
      then (do last ← deref (last? found); generate_token last.order.id last.order.created_at)
      else pure ""

  -- The steps of `GetOrdersByUser` behind the decoding of the token, and behind its cursor.
  unfoldable pub page_behind : ObjectId → ObjectId × Time → M (List OrderWithItems × String)
  page_behind uid (cursor_id, cursor_created_at) = do
    found ← Orders.get_orders_by_user uid user_page_size cursor_id cursor_created_at
    next ← next_token found
    pure (found, next)

  unfoldable pub page_from : ObjectId → Option Page → M (List OrderWithItems × String)
  page_from uid page = do cursor ← cursor_of page; page_behind uid cursor

  unfoldable pub get_orders_by_user : ObjectId → String → M (List OrderWithItems × String)
  get_orders_by_user uid token = do page ← decode token; page_from uid page
