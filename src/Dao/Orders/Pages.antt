-- ===== src/Dao/Orders/Pages.antt =====
-- internal/dao/mongodb/orders.go: the orders of a user, page by page.
use mathlib.Core.List.{Perm}
use cicd_demo.Base.{
  ℕ, ◌≤◌, Bool, true, List, [], ◌∷◌, ◌≡◌, refl, ◌∙◌, ◌&&◌, sym, subst, arith, all, all-Perm,
  all-take, all-map, length, length-map, length-take, keep, take,
}
use cicd_demo.Models.{ObjectId, Time, Order, OrderWithItems}
use cicd_demo.Platform.{Mongo, Env, IsDocumented, lists, on_lists, Db, ok, World, query, call}
use cicd_demo.Dao.Orders.{
  by_user, behind_cursor, newest_first_by_id, with_items, user_page, get_orders_by_user,
}

-- An order of the user, behind the cursor.
abbrev pub is_wanted : ObjectId → ObjectId → Time → OrderWithItems → Bool
is_wanted uid cursor_id cursor_created_at r =
    by_user uid r.order && behind_cursor cursor_id cursor_created_at r.order

wanted_orders :
    (p q : Order → Bool) (orders : List Order)
    → all (λ o. p o && q o) (keep q (keep p orders)) ≡ true
wanted_orders p q [] = refl
wanted_orders p q (o ∷ os) = ground (arith, wanted_orders p q os)

module _ ⦃e : Env⦄ where
  paged :
      ⦃m : Mongo⦄
      → IsDocumented m
      → (uid : ObjectId) (limit : ℕ) (cursor_id : ObjectId) (cursor_created_at : Time) (d : Db)
      → (all
            (is_wanted uid cursor_id cursor_created_at)
            (user_page uid limit cursor_id cursor_created_at d)
          ≡ true)
        × (length (user_page uid limit cursor_id cursor_created_at d) ≤ limit)
  paged (lists order p) uid limit cursor_id cursor_created_at d =
      let mine = by_user uid in
      let behind = behind_cursor cursor_id cursor_created_at in
      let wanted = λ (o : Order). mine o && behind o in
      let found = keep behind (keep mine d.orders) in
      let sorted = order Order newest_first_by_id found in
      let same : Perm sorted found = p Order newest_first_by_id found in
      (
        all-map (is_wanted uid cursor_id cursor_created_at) (with_items ⦃m = on_lists order⦄ d)
              (take limit sorted)
            ∙ all-take wanted limit sorted
                (all-Perm wanted same ∙ wanted_orders mine behind d.orders),
        subst (λ (n : ℕ). n ≤ limit)
            (sym (length-map (with_items ⦃m = on_lists order⦄ d) (take limit sorted)))
            (length-take limit sorted),
      )

  -- A page of the orders of a user, on a documented server: its orders are the user's, they stand
  -- behind the cursor, and they are at most as many as the limit.
  pub get_orders_by_user-IsPage :
      ⦃m : Mongo⦄
      → IsDocumented m
      → (uid : ObjectId) (limit : ℕ) (cursor_id : ObjectId) (cursor_created_at : Time) (w : World)
        (found : List OrderWithItems)
      → (get_orders_by_user uid limit cursor_id cursor_created_at w).0 ≡ ok found
      → (all (is_wanted uid cursor_id cursor_created_at) found ≡ true) × (length found ≤ limit)
  unfolding get_orders_by_user query call
  get_orders_by_user-IsPage d uid limit cursor_id cursor_created_at w found h =
      let good = paged d uid limit cursor_id cursor_created_at w.db in
      (ground (arith, good.0), ground (arith, good.1))
