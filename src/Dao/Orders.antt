-- ===== src/Dao/Orders.antt =====
-- internal/dao/mongodb/orders.go: orders and their items.
pub mod Pages
use cicd_demo.Base.{
  ℕ, String, Bool, Option, none, some, List, [], ◌∷◌, ◌++◌, ◌&&◌, ◌||◌, not, map, length, head?,
  any, take, drop, leb, ltb, ◌==◌, str_eq, if◌then◌else◌,
}
use cicd_demo.Constants.OrderStatus
use cicd_demo.Constants.OrderStatus.{OrderStatus}
use cicd_demo.Models.{ObjectId, Time, User, Order, OrderItem, OrderWithItems, OrderItemWithOrder}
use cicd_demo.Platform.{
  Mongo, Env, Db, M, pure, raise, or_raise, ◌>>=◌, ◌>>◌, no_documents, call, query, execute,
  time_now,
}
use cicd_demo.Repository.{
  UpdateOption, UpdateOrderItemStatusParams, new_update_options, apply_options, has_set, has_inc,
  update_order_fields,
}

-- The statuses that `IsEventHasOpenOrders` lists under `$nin`.
abbrev is_closed : String → Bool
is_closed s =
    str_eq s (OrderStatus.to_string OrderStatus.completed)
    || (str_eq s (OrderStatus.to_string OrderStatus.returned)
        || (str_eq s (OrderStatus.to_string OrderStatus.canceled)
            || str_eq s (OrderStatus.to_string OrderStatus.partially_returned)))

abbrev is_open : ObjectId → Order → Bool
is_open event_id o = o.event == event_id && not (is_closed o.status)

-- `item.Order = orderID`
abbrev pub set_order : ObjectId → OrderItem → OrderItem
set_order order_id i = record i { order = order_id }

-- The sort keys: newest first, oldest first, and newest first with the ID to break ties.
abbrev newest_first : Order → Order → Bool
newest_first a b = leb b.created_at a.created_at

abbrev oldest_first : Order → Order → Bool
oldest_first a b = leb a.created_at b.created_at

abbrev pub newest_first_by_id : Order → Order → Bool
newest_first_by_id a b =
    ltb b.created_at a.created_at || (a.created_at == b.created_at && leb b.id a.id)

-- The second stage of `GetOrdersByUser`: behind the cursor, where there is one.
abbrev pub behind_cursor : ObjectId → Time → Order → Bool
behind_cursor cursor_id cursor_created_at o =
    if not (cursor_id == 0) && not (cursor_created_at == 0)
    then ltb o.created_at cursor_created_at
      || (o.created_at == cursor_created_at && ltb o.id cursor_id)
    else Bool.true

abbrev pub by_user : ObjectId → Order → Bool
by_user uid o = elim o.user [ none ↦ Bool.false | some u ↦ u.user_id == uid ]

module _ ⦃m : Mongo⦄ ⦃e : Env⦄ where
  unfoldable pub create_order : Order → M ObjectId
  create_order o = do
    execute (λ d. record d { orders = m.insert_many Order (o ∷ []) d.orders })
    pure o.id

  unfoldable pub create_order_items : ObjectId → List OrderItem → M Unit
  create_order_items order_id [] = pure tt
  create_order_items order_id (i ∷ items) =
      let docs = map (set_order order_id) (i ∷ items) in
      execute (λ d. record d { order_items = m.insert_many OrderItem docs d.order_items })

  unfoldable pub is_event_has_open_orders : ObjectId → M Bool
  unfolding query
  is_event_has_open_orders event_id =
      query (λ d. any (λ _. Bool.true) (m.find Order (is_open event_id) d.orders))

  unfoldable pub get_order_by_id : ObjectId → M Order
  get_order_by_id id = do
    found ← query (λ d. head? (m.find Order (λ o. o.id == id) d.orders))
    or_raise found no_documents

  unfoldable pub get_order_item_by_id : ObjectId → M OrderItem
  get_order_item_by_id id = do
    found ← query (λ d. head? (m.find OrderItem (λ i. i.id == id) d.order_items))
    or_raise found no_documents

  unfoldable pub get_order_items_by_order_id : ObjectId → M (List OrderItem)
  get_order_items_by_order_id order_id =
      query (λ d. m.find OrderItem (λ i. i.order == order_id) d.order_items)

  unfoldable pub update_order_item_status : UpdateOrderItemStatusParams → M Unit
  update_order_item_status params = do
    now ← time_now
    let set = λ (i : OrderItem). record i {
      status = params.status;
      updated_at = now;
      return_info = params.return_info;
    }
    matched ← call (λ d.
        let mine = λ (i : OrderItem). i.id == params.item_id in
        (
          any (λ _. Bool.true) (m.find OrderItem mine d.order_items),
          record d { order_items = m.update_one OrderItem mine set d.order_items },
        ))
    if matched then pure tt else raise no_documents

  -- FindOneAndUpdate, which returns the order as it was before.
  unfoldable pub update_order_status : ObjectId → String → Option User → M Order
  update_order_status order_id status user = do
    now ← time_now
    let set = λ (o : Order). record o { status = status; updated_at = now; updated_by = user }
    before ← call (λ d.
        let mine = λ (o : Order). o.id == order_id in
        (
          head? (m.find Order mine d.orders),
          record d { orders = m.update_one Order mine set d.orders },
        ))
    or_raise before no_documents

  -- `$lookup` of the items of an order
  abbrev pub with_items : Db → Order → OrderWithItems
  with_items d o = record {
    order = o;
    items = m.find OrderItem (λ i. i.order == o.id) d.order_items;
  }

  -- The stages of `GetOrdersByUser`.
  abbrev pub user_page : ObjectId → ℕ → ObjectId → Time → Db → List OrderWithItems
  user_page uid limit cursor_id cursor_created_at d =
      let mine = m.find Order (by_user uid) d.orders in
      let behind = m.find Order (behind_cursor cursor_id cursor_created_at) mine in
      map (with_items d) (take limit (m.sort Order newest_first_by_id behind))

  unfoldable pub get_orders_by_user : ObjectId → ℕ → ObjectId → Time → M (List OrderWithItems)
  get_orders_by_user uid limit cursor_id cursor_created_at =
      query (user_page uid limit cursor_id cursor_created_at)

  unfoldable pub get_order_with_items_by_id : ObjectId → M OrderWithItems
  get_order_with_items_by_id order_id = do
    found ← query (λ d. head? (map (with_items d) (m.find Order (λ o. o.id == order_id) d.orders)))
    or_raise found no_documents

  -- The count, and then the page, unless the count is zero.
  unfoldable pub get_paginated_orders_with_items :
      (Order → Bool) → ℕ → ℕ → M (List OrderWithItems × ℕ)
  get_paginated_orders_with_items filter limit offset = do
    total ← query (λ d. length (m.find Order filter d.orders))
    if total == 0 then pure ([], 0) else do
      results ← query (λ d.
          let sorted = m.sort Order newest_first (m.find Order filter d.orders) in
          map (with_items d) (take limit (drop offset sorted)))
      pure (results, total)

  unfoldable pub get_orders_by_event : ObjectId → ℕ → ℕ → M (List OrderWithItems × ℕ)
  get_orders_by_event event_id limit offset =
      get_paginated_orders_with_items (λ o. o.event == event_id) limit offset

  unfoldable pub get_orders_by_session : ObjectId → ℕ → ℕ → M (List OrderWithItems × ℕ)
  get_orders_by_session session_id limit offset =
      get_paginated_orders_with_items (λ o. o.session == session_id) limit offset

  unfoldable pub update_order : ObjectId → List UpdateOption → M Unit
  update_order order_id opts =
      let u = apply_options opts new_update_options in
      if not (has_set u || has_inc u) then pure tt else do
        matched ← call (λ d.
            let mine = λ (o : Order). o.id == order_id in
            (
              any (λ _. Bool.true) (m.find Order mine d.orders),
              record d { orders = m.update_one Order mine (update_order_fields u) d.orders },
            ))
        if matched then pure tt else raise no_documents

  unfoldable pub update_items_status_by_order : ObjectId → String → String → Option User → M ℕ
  update_items_status_by_order order_id current new operator = do
    now ← time_now
    let set = λ (i : OrderItem). record i { status = new; updated_at = now; updated_by = operator }
    call (λ d.
        let mine = λ (i : OrderItem). i.order == order_id && str_eq i.status current in
        (
          length (m.find OrderItem mine d.order_items),
          record d { order_items = m.update_many OrderItem mine set d.order_items },
        ))

  -- `$lookup` of the order and `$unwind`: an item without an order is no result.
  abbrev with_order : Db → OrderItem → List OrderItemWithOrder
  with_order d i =
      map (λ o. record { order_item = i; order_info = o })
        (m.find Order (λ o. o.id == i.order) d.orders)

  abbrev flat_with_order : Db → List OrderItem → List OrderItemWithOrder
  flat_with_order d [] = []
  flat_with_order d (i ∷ is) = with_order d i ++ flat_with_order d is

  unfoldable pub get_order_item_with_order : ObjectId → M OrderItemWithOrder
  get_order_item_with_order id = do
    found ←
        query (λ d. head? (flat_with_order d (m.find OrderItem (λ i. i.id == id) d.order_items)))
    or_raise found no_documents

  -- `start` and `end` are the first instants of the month and of the next one.
  unfoldable pub get_orders_between : ObjectId → Time → Time → M (List OrderWithItems)
  get_orders_between event_id start end = query (λ d.
      let inside =
        λ (o : Order). o.event == event_id && (leb start o.created_at && ltb o.created_at end) in
      map (with_items d) (m.sort Order oldest_first (m.find Order inside d.orders)))
