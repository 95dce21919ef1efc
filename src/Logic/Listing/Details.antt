-- ===== src/Logic/Listing/Details.antt =====
-- internal/logic/orders.go: `GetOrderDetails`, whose three reads run at the same time, outside a transaction.
use mathlib.Core.List.{Perm}
use cicd_demo.Base.{
  some, List, ◌≡◌, refl, ◌∙◌, inl, inr, ◌⊎◌, ap, subst, sym, keep, head?, ◌==◌, arith,
}
use cicd_demo.Models.{ObjectId, Order, OrderItem, Bill}
use cicd_demo.Platform.{
  Mongo, Env, IsDocumented, lists, Db, Outcome, ok, World, M, pure, ◌>>=◌, query, call,
}
use cicd_demo.Platform.Frame.{bind-eq-ok}
use cicd_demo.Dao.Orders.{get_order_by_id, get_order_items_by_order_id}
use cicd_demo.Dao.Bills.{get_bills_by_order_id, oldest_first}
use cicd_demo.Logic.Listing.{
  OrderDetails, Schedule, ReadOrder, others_write, read_details, order_items_bills,
  order_bills_items, items_order_bills, items_bills_order, bills_order_items, bills_items_order,
  get_order_details,
}

-- A method that changes nothing, and whose result is in a relation to the data.
record Observes {A : Type 0} (P : Db → A → Type 0) (action : M A) : Type 0 where
  at : (w : World) (a : A) → (action w).0 ≡ ok a → P w.db a × ((action w).1.db ≡ w.db)

ok-injective : {A : Type 0} {a b : A} → Outcome.ok a ≡ ok b → b ≡ a
ok-injective h = cc

abbrev OrderRead : ObjectId → Db → Order → Type 0
OrderRead id d o = head? (keep (λ (x : Order). x.id == id) d.orders) ≡ some o

abbrev ItemsRead : ObjectId → Db → List OrderItem → Type 0
ItemsRead id d items = items ≡ keep (λ (i : OrderItem). i.order == id) d.order_items

abbrev BillsRead : ObjectId → Db → List Bill → Type 0
BillsRead id d bills = Perm bills (keep (λ (b : Bill). b.order == id) d.bills)

-- A state of the data that GetOrderDetails reads in: the first, or one after a write of others.
abbrev pub IsVisited : Schedule → Db → Db → Type 0
IsVisited s before d =
    (d ≡ before) ⊎ ((d ≡ s.after_first before) ⊎ (d ≡ s.after_second (s.after_first before)))

-- The details of an order, each part of them in a state that is visited.
pub record AreDetails (s : Schedule) (id : ObjectId) (before : Db) (details : OrderDetails)
    : Type 0 where
  pub order_at : Db
  pub items_at : Db
  pub bills_at : Db
  pub order_visited : IsVisited s before order_at
  pub items_visited : IsVisited s before items_at
  pub bills_visited : IsVisited s before bills_at
  pub order_read : OrderRead id order_at details.order
  pub items_read : ItemsRead id items_at details.items
  pub bills_read : BillsRead id bills_at details.bills

module _ ⦃e : Env⦄ where
  order_seen :
      ⦃m : Mongo⦄ → IsDocumented m → (id : ObjectId) → Observes (OrderRead id) (get_order_by_id id)
  unfolding get_order_by_id query call
  order_seen (lists s p) id = record { at = λ w o h. (ground arith, ground arith) }

  items_seen :
      ⦃m : Mongo⦄
      → IsDocumented m
      → (id : ObjectId) → Observes (ItemsRead id) (get_order_items_by_order_id id)
  unfolding get_order_items_by_order_id query call
  items_seen (lists s p) id = record { at = λ w o h. (ground arith, ground arith) }

  Observes-query : {A : Type 0} (f : Db → A) → Observes (λ d a. a ≡ f d) (query f)
  unfolding query call
  Observes-query f = record { at = λ w a h. (ground arith, ground arith) }

  bills_seen :
      ⦃m : Mongo⦄
      → IsDocumented m
      → (id : ObjectId) → Observes (BillsRead id) (get_bills_by_order_id id)
  unfolding get_bills_by_order_id
  bills_seen (lists s p) id = record {
    at = λ w bills h.
        let mine = λ (d : Db). keep (λ (b : Bill). b.order == id) d.bills in
        let (read, kept) = (Observes-query (λ d. s Bill oldest_first (mine d))).at w bills h in
        (
          subst (λ (l : List Bill). Perm l (mine w.db)) (sym read)
              (p Bill oldest_first (mine w.db)),
          kept,
        );
  }

put_together :
    {id : ObjectId} (s : Schedule) (before : Db) (details : OrderDetails) (o : Order)
    (i : List OrderItem) (b : List Bill) {od id' bd : Db}
    → details ≡ record { order = o; items = i; bills = b }
    → IsVisited s before od
    → IsVisited s before id'
    → IsVisited s before bd
    → OrderRead id od o
    → ItemsRead id id' i
    → BillsRead id bd b
    → AreDetails s id before details
put_together {id} s before details o i b {od} {id'} {bd} same vo vi vb ro ri rb =
    subst (AreDetails s id before) (sym same) (record {
      order_at = od;
      items_at = id';
      bills_at = bd;
      order_visited = vo;
      items_visited = vi;
      bills_visited = vb;
      order_read = ro;
      items_read = ri;
      bills_read = rb;
    })

-- What three reads have returned, with the writes of others between them.
gathered :
    {A B C D : Type 0} {P : Db → A → Type 0} {Q : Db → B → Type 0} {R : Db → C → Type 0} (one : M A)
    (two : M B) (three : M C) (make : A → B → C → D) (g h : Db → Db)
    → Observes P one
    → Observes Q two
    → Observes R three
    → (w : World) (r : D)
    → ((one >>= λ x. others_write g >>= λ _.
          two >>= λ y. others_write h >>= λ _. three >>= λ z. pure (make x y z))
        w).0
      ≡ ok r
    → (x : A) × (y : B) × (z : C) × P w.db x × Q (g w.db) y × R (h (g w.db)) z × (r ≡ make x y z)
gathered {A = A} {B = B} {C = C} {D = D} {P = P} {Q = Q} {R = R} one two three make g h h1 h2 h3 w r
      returned =
    let last : A → B → C → M D = λ x y z. pure (make x y z) in
    let later : A → B → M D = λ x y. others_write h >>= λ _. three >>= last x y in
    let (x, p, e1, _) =
      bind-eq-ok one (λ x. others_write g >>= λ _. two >>= later x) w r returned in
    let w2 = (others_write g (one w).1).1 in
    let (y, q, e2, _) = bind-eq-ok two (later x) w2 r e1 in
    let w4 = (others_write h (two w2).1).1 in
    let (z, s, e3, _) = bind-eq-ok three (last x y) w4 r e2 in
    let (px, kept1) = h1.at w x p in
    let (qy, kept2) = h2.at w2 y q in
    let (rz, _) = h3.at w4 z s in
    (
      x,
      y,
      z,
      px,
      subst (λ d. Q (g d) y) kept1 qy,
      subst (λ d. R (h d) z) (kept2 ∙ ap g kept1) rz,
      ok-injective e3,
    )

module _ ⦃m : Mongo⦄ ⦃e : Env⦄ (d : IsDocumented m) (id : ObjectId) where
  read_details-AreDetails :
      (reads : ReadOrder) (g h : Db → Db) (w : World) (details : OrderDetails)
      → (read_details reads g h id w).0 ≡ ok details
      → AreDetails (record { reads = reads; after_first = g; after_second = h }) id w.db details
  unfolding read_details
  read_details-AreDetails order_items_bills g h w details r =
      let (o, i, b, po, pi, pb, same) =
        gathered (get_order_by_id id) (get_order_items_by_order_id id) (get_bills_by_order_id id)
          (λ o i b. record { order = o; items = i; bills = b }) g h (order_seen d id)
          (items_seen d id) (bills_seen d id) w details r in
      put_together _ w.db details o i b same (inl refl) (inr (inl refl)) (inr (inr refl)) po pi pb
  read_details-AreDetails order_bills_items g h w details r =
      let (o, b, i, po, pb, pi, same) =
        gathered (get_order_by_id id) (get_bills_by_order_id id) (get_order_items_by_order_id id)
          (λ o b i. record { order = o; items = i; bills = b }) g h (order_seen d id)
          (bills_seen d id) (items_seen d id) w details r in
      put_together _ w.db details o i b same (inl refl) (inr (inr refl)) (inr (inl refl)) po pi pb
  read_details-AreDetails items_order_bills g h w details r =
      let (i, o, b, pi, po, pb, same) =
        gathered (get_order_items_by_order_id id) (get_order_by_id id) (get_bills_by_order_id id)
          (λ i o b. record { order = o; items = i; bills = b }) g h (items_seen d id)
          (order_seen d id) (bills_seen d id) w details r in
      put_together _ w.db details o i b same (inr (inl refl)) (inl refl) (inr (inr refl)) po pi pb
  read_details-AreDetails items_bills_order g h w details r =
      let (i, b, o, pi, pb, po, same) =
        gathered (get_order_items_by_order_id id) (get_bills_by_order_id id) (get_order_by_id id)
          (λ i b o. record { order = o; items = i; bills = b }) g h (items_seen d id)
          (bills_seen d id) (order_seen d id) w details r in
      put_together _ w.db details o i b same (inr (inr refl)) (inl refl) (inr (inl refl)) po pi pb
  read_details-AreDetails bills_order_items g h w details r =
      let (b, o, i, pb, po, pi, same) =
        gathered (get_bills_by_order_id id) (get_order_by_id id) (get_order_items_by_order_id id)
          (λ b o i. record { order = o; items = i; bills = b }) g h (bills_seen d id)
          (order_seen d id) (items_seen d id) w details r in
      put_together _ w.db details o i b same (inr (inl refl)) (inr (inr refl)) (inl refl) po pi pb
  read_details-AreDetails bills_items_order g h w details r =
      let (b, i, o, pb, pi, po, same) =
        gathered (get_bills_by_order_id id) (get_order_items_by_order_id id) (get_order_by_id id)
          (λ b i o. record { order = o; items = i; bills = b }) g h (bills_seen d id)
          (items_seen d id) (order_seen d id) w details r in
      put_together _ w.db details o i b same (inr (inr refl)) (inr (inl refl)) (inl refl) po pi pb

  -- The details that GetOrderDetails returns, on a documented server, in whatever order its three
  -- reads take place and whatever others write between them: the order with the ID, all its items
  -- and all its bills, each of the three as they are in one of the states of the data at the reads.
  pub get_order_details-AreDetails :
      (schedule : Schedule) (w : World) (details : OrderDetails)
      → (get_order_details schedule id w).0 ≡ ok details
      → AreDetails schedule id w.db details
  unfolding get_order_details
  get_order_details-AreDetails s = read_details-AreDetails s.reads s.after_first s.after_second
