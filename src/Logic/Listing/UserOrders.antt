-- ===== src/Logic/Listing/UserOrders.antt =====
-- internal/logic/orders.go: the pages of `GetOrdersByUser`, and the tokens between them.
use cicd_demo.Base.{
  ◌+◌, ◌*◌, ◌/◌, ◌≤◌, ◌<◌, Bool, true, false, Option, some, String, List, ◌≡◌, ◌≢◌, ap, subst, ◌&&◌,
  ◌||◌, ◌==◌, ltb, all, length, arith, fun_ext, ◌⊎◌, Bool-cases, ==→eq, inl, inr, if◌then◌else◌,
}
use cicd_demo.Models.{ObjectId, Time, OrderWithItems}
use cicd_demo.Platform.{
  Mongo, Env, IsDocumented, World, Outcome, ok, err, pure, ◌>>=◌, invalid_token,
}
use cicd_demo.Platform.Frame.{bind-eq-ok, bind-eq-err}
use cicd_demo.Pagination.Cursor.{Codec, Page, unix, decode, generate_token, second, day}
use cicd_demo.Pagination.Cursor.Token.{IsCodec, decode-generate_token}
use cicd_demo.Dao.Orders as Orders
use cicd_demo.Dao.Orders.{by_user}
use cicd_demo.Dao.Orders.Pages.{is_wanted, get_orders_by_user-IsPage}
use cicd_demo.Logic.Listing.{
  last?, next_token, cursor_of, page_behind, page_from, get_orders_by_user, user_page_size,
}

-- Behind an order with the ID `id`, in the order of the pages: created before the time, or at the
-- time with a smaller ID.
abbrev pub is_behind : ObjectId → Time → OrderWithItems → Bool
is_behind id at r = ltb r.order.created_at at || (r.order.created_at == at && ltb r.order.id id)

abbrev pub owned_behind : ObjectId → ObjectId → Time → OrderWithItems → Bool
owned_behind uid id at r = by_user uid r.order && is_behind id at r

module _ ⦃c : Codec⦄ ⦃m : Mongo⦄ ⦃e : Env⦄ where
  -- The token of a full page is that of its last order.
  next_token-ok :
      (found : List OrderWithItems) (last : OrderWithItems) (w : World) (token : String)
      → length found ≡ user_page_size
      → last? found ≡ some last
      → (next_token found w).0 ≡ ok token
      → (generate_token last.order.id last.order.created_at w).0 ≡ ok token
  unfolding next_token
  next_token-ok found last w token full is_last h = ground (arith, full, is_last)

  -- What a call that returns has read: the cursor of its token, the orders behind it, and the token
  -- for the next page.
  abbrev Read : ObjectId → ObjectId × Time → World → List OrderWithItems → String → Type 0
  Read uid cursor v found next =
      (w : World) × ((Orders.get_orders_by_user uid user_page_size cursor.0 cursor.1 v).0
        ≡ ok found)
      × ((next_token found w).0 ≡ ok next)

  page_behind-Read :
      (uid : ObjectId) (cursor : ObjectId × Time) (v : World) (found : List OrderWithItems)
      (next : String)
      → (page_behind uid cursor v).0 ≡ ok (found, next)
      → Read uid cursor v found next
  unfolding page_behind
  page_behind-Read uid (cursor_id, at) v found next h =
      let read = Orders.get_orders_by_user uid user_page_size cursor_id at in
      let (rows, one, h1, _) =
        bind-eq-ok read (λ rows. next_token rows >>= λ t. pure (rows, t)) v (found, next) h in
      let (t, two, h2, _) =
        bind-eq-ok (next_token rows) (λ t. pure (rows, t)) (read v).1 (found, next) h1 in
      let same_rows : rows ≡ found = cc in
      let same_next : t ≡ next = cc in
      (
        (read v).1,
        subst (λ r. (read v).0 ≡ ok r) same_rows one,
        subst (λ r. (next_token r (read v).1).0 ≡ ok next) same_rows
            (subst (λ s. (next_token rows (read v).1).0 ≡ ok s) same_next two),
      )

  get_orders_by_user-Read :
      (uid : ObjectId) (token next : String) (w : World) (found : List OrderWithItems)
      → (get_orders_by_user uid token w).0 ≡ ok (found, next)
      → (page : Option Page) × (cursor : ObjectId × Time) × (v : World) × ((decode token w).0
          ≡ ok page)
        × ((cursor_of page (decode token w).1).0 ≡ ok cursor)
        × Read uid cursor v found next
  unfolding get_orders_by_user page_from
  get_orders_by_user-Read uid token next w found h =
      let (page, one, h1, _) = bind-eq-ok (decode token) (page_from uid) w (found, next) h in
      let w1 = (decode token w).1 in
      let (cursor, two, h2, _) =
        bind-eq-ok (cursor_of page) (page_behind uid) w1 (found, next) h1 in
      let v = (cursor_of page w1).1 in
      (page, cursor, v, one, two, page_behind-Read uid cursor v found next h2)

  -- A full page whose last order was created more than a day before the clock shows has a token
  -- with which GetOrdersByUser returns ErrInvalidToken, though the token was handed out by it.
  get_orders_by_user-expired :
      IsCodec c
      → (uid uid' : ObjectId) (token next : String) (w w' : World) (found : List OrderWithItems)
        (last : OrderWithItems)
      → (get_orders_by_user uid token w).0 ≡ ok (found, next)
      → length found ≡ user_page_size
      → last? found ≡ some last
      → last.order.created_at / second * second + day < e.now w'.step
      → (get_orders_by_user uid' next w').0 ≡ err invalid_token
  unfolding get_orders_by_user
  get_orders_by_user-expired h uid uid' token next w w' found last read full is_last old =
      let (_, _, _, _, _, (v, _, made)) = get_orders_by_user-Read uid token next w found read in
      let made_of = next_token-ok found last v next full is_last made in
      let decoded = decode-generate_token h last.order.id last.order.created_at v w' next made_of in
      let invalid : (decode next w').0 ≡ err invalid_token = ground (arith, decoded) in
      ap (λ (r : Outcome (List OrderWithItems × String) × World). r.0)
        (bind-eq-err (decode next) (page_from uid') w' invalid_token invalid)

  -- Where the page behind an order begins.
  abbrev cursor_page : ObjectId → Time → Page
  cursor_page id ts = record { cursor_id = e.object_id_hex id; cursor_timestamp = unix ts }

  cursor_of_page :
      (id : ObjectId) (ts : Time) (v : World) (cursor : ObjectId × Time)
      → e.object_id_from_hex (e.object_id_hex id) ≡ some id
      → (cursor_of (some (cursor_page id ts)) v).0 ≡ ok cursor
      → cursor ≡ (id, ts / second * second)
  unfolding cursor_of
  cursor_of_page id ts v cursor hex h = ground (arith, hex)

  decoded_page :
      (r : Outcome (Option Page)) (old : Bool) (page : Option Page) (p : Page)
      → r ≡ ok page
      → r ≡ (if old then err invalid_token else ok (some p))
      → page ≡ some p
  decoded_page r true page p h k = cc
  decoded_page r false page p h k = cc

  second_ne_zero : (ts : Time) → second ≤ ts → ts / second * second ≢ 0
  second_ne_zero ts h = λ k. omega arith

  -- A page that is not full has no token for a next one.
  next_token-none :
      (found : List OrderWithItems) (w : World) (token : String)
      → (next_token found w).0 ≡ ok token
      → (length found ≡ 5) ⊎ (token ≡ "")
  unfolding next_token
  next_token-none found w token h = elim (Bool-cases (length found == 5)) [
    | inl full ↦ inl (==→eq _ _ full)
    | inr short ↦ inr (ground (arith, short))
  ]

  wanted_behind :
      (uid id : ObjectId) (at : Time)
      → id ≢ 0
      → at ≢ 0
      → is_wanted uid id at ≡ owned_behind uid id at
  wanted_behind uid id at h k = fun_ext (λ r. ground (arith, h, k))

  -- The page that GetOrdersByUser returns, on a documented server, for a token of an order with the
  -- ID `id` that was created at `ts`, a second or more after the beginning of 1970: its orders are
  -- the user's and at most five, there is a token for the next page only with five of them, and
  -- each of them was created before the second of `ts`, or exactly at its beginning and with a
  -- smaller ID. So none that was created later in that second is among them.
  pub get_orders_by_user-IsNextPage :
      IsDocumented m
      → IsCodec c
      → (uid id : ObjectId) (ts : Time) (token next : String) (w w' : World)
        (found : List OrderWithItems)
      → e.object_id_from_hex (e.object_id_hex id) ≡ some id
      → id ≢ 0
      → second ≤ ts
      → (generate_token id ts w).0 ≡ ok token
      → (get_orders_by_user uid token w').0 ≡ ok (found, next)
      → (all (owned_behind uid id (ts / second * second)) found ≡ true)
        × (length found ≤ 5)
        × ((length found ≡ 5) ⊎ (next ≡ ""))
  get_orders_by_user-IsNextPage d h uid id ts token next w w' found hex nonzero late made read =
      let (page, cursor, v, decoded, at, (v', listed, ended)) =
        get_orders_by_user-Read uid token next w' found read in
      let token_read = decode-generate_token h id ts w w' token made in
      let at_start = ts / second * second in
      let same_page : page ≡ some (cursor_page id ts) =
        decoded_page _ (ltb (at_start + day) (e.now w'.step)) page (cursor_page id ts) decoded
          token_read in
      let found_at : (cursor_of (some (cursor_page id ts)) (decode token w').1).0 ≡ ok cursor =
        subst (λ p. (cursor_of p (decode token w').1).0 ≡ ok cursor) same_page at in
      let same_cursor = cursor_of_page id ts (decode token w').1 cursor hex found_at in
      let listed_at =
        subst
          (λ (k : ObjectId × Time).
            (Orders.get_orders_by_user uid user_page_size k.0 k.1 v).0 ≡ ok found)
          same_cursor listed in
      let (wanted, few) =
        get_orders_by_user-IsPage d uid user_page_size id at_start v found listed_at in
      (
        subst (λ p. all p found ≡ true)
            (wanted_behind uid id at_start nonzero (second_ne_zero ts late)) wanted,
        few,
        next_token-none found v' next ended,
      )
