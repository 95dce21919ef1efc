-- ===== src/Dao/Tickets/Stock.antt =====
-- internal/dao/mongodb/tickets.go: what a reservation and a release do to the stock.
use cicd_demo.Base.{
  ℕ, ◌+◌, ◌*◌, ◌^◌, ◌≤◌, ◌<◌, ◌≡◌, refl, inl, inr, Bool, true, some, List, [], ◌∷◌, Bool-cases,
  ◌==◌, length, All, ◌∙◌, any-keep, any-change_first, change_first, any, keep, arith, if◌then◌else◌,
}
use cicd_demo.Models.{ObjectId, Time, User, OrderItem, TicketStock}
use cicd_demo.Platform.{
  Mongo, Env, IsDocumented, lists, Sort, on_lists, ok, World, call, execute, time_now,
}
use cicd_demo.Dao.Tickets.{
  negate_uint32, release_tickets, reserve_tickets, release_one, release_all, reserve_one,
  reserve_all, has_stock_for,
}

-- The quantity that the stocks with one ID hold together.
abbrev pub stock_of : ObjectId → List TicketStock → ℕ
stock_of id [] = 0
stock_of id (s ∷ ss) = (if s.id == id then s.quantity else 0) + stock_of id ss

-- The quantity that items take from a stock together.
abbrev pub taken_from : ObjectId → List OrderItem → ℕ
taken_from id [] = 0
taken_from id (i ∷ is) = (if i.ticket_stock == id then i.quantity else 0) + taken_from id is

abbrev pub holds : ObjectId → List TicketStock → Bool
holds id ss = any (λ (s : TicketStock). s.id == id) ss

-- How many of the items take from a stock.
abbrev pub count_from : ObjectId → List OrderItem → ℕ
count_from id [] = 0
count_from id (i ∷ is) = (if i.ticket_stock == id then 1 else 0) + count_from id is

-- The quantity of an item fits a uint32, and is not 0.
abbrev pub IsQuantity : OrderItem → Type 0
IsQuantity i = (1 ≤ i.quantity) × (i.quantity < 2 ^ 32)

negate_small : (q : ℕ) → 1 ≤ q → q < 2 ^ 32 → negate_uint32 q + q ≡ 2 ^ 32
negate_small q h k = omega arith

-- One write of a bulk that changes the quantity of the first stock that passes a test.
module _ (test : TicketStock → Bool) (change : TicketStock → TicketStock) (target : ObjectId)
    (gain : ℕ) where
  abbrev IsGain : Type 0
  IsGain =
      (s : TicketStock)
      → test s ≡ true
      → (s.id ≡ target) × ((change s).id ≡ s.id) × ((change s).quantity ≡ s.quantity + gain)

  stock_of-change_first :
      (id : ObjectId) (ss : List TicketStock)
      → IsGain
      → any (λ _. true) (keep test ss) ≡ true
      → stock_of id (change_first test change ss)
        ≡ stock_of id ss + (if target == id then gain else 0)
  stock_of-change_first id [] g h = cc
  stock_of-change_first id (s ∷ ss) g h = ground (arith, g s, stock_of-change_first id ss g)

module _ (now : Time) (user : User) (order_by : Sort) where
  reserve_once :
      (id : ObjectId) (i : OrderItem) (ss : List TicketStock)
      → IsQuantity i
      → any (λ _. true) (keep (has_stock_for i) ss) ≡ true
      → stock_of id (reserve_one ⦃m = on_lists order_by⦄ now user i ss)
          + (if i.ticket_stock == id then i.quantity else 0)
        ≡ stock_of id ss + 2 ^ 32 * (if i.ticket_stock == id then 1 else 0)
  reserve_once id i ss q h =
      let gained : stock_of id (reserve_one ⦃m = on_lists order_by⦄ now user i ss)
          ≡ stock_of id ss + (if i.ticket_stock == id then negate_uint32 i.quantity else 0) =
        stock_of-change_first (has_stock_for i)
          (λ s. record s {
            quantity = s.quantity + negate_uint32 i.quantity;
            updated_at = now;
            updated_by = user;
          })
          i.ticket_stock (negate_uint32 i.quantity) id ss (λ s t. ground arith) h in
      let whole = negate_small i.quantity q.0 q.1 in
      elim (Bool-cases (i.ticket_stock == id)) [
        | inl e ↦ rw e (omega (arith, whole, (rw e at gained)))
        | inr e ↦ rw e (omega (arith, (rw e at gained)))
      ]

  reserve_all_count :
      (is : List OrderItem) (ss : List TicketStock)
      → (reserve_all ⦃m = on_lists order_by⦄ now user is ss).0 ≤ length is
  reserve_all_count [] ss = omega arith
  reserve_all_count (i ∷ is) ss =
      ground (arith, reserve_all_count is (reserve_one ⦃m = on_lists order_by⦄ now user i ss))

  reserve_all_gain :
      (id : ObjectId) (is : List OrderItem) (ss : List TicketStock)
      → All IsQuantity is
      → (reserve_all ⦃m = on_lists order_by⦄ now user is ss).0 ≡ length is
      → stock_of id (reserve_all ⦃m = on_lists order_by⦄ now user is ss).1 + taken_from id is
        ≡ stock_of id ss + 2 ^ 32 * count_from id is
  reserve_all_gain id [] ss q h = omega arith
  reserve_all_gain id (i ∷ is) ss q h =
      let ss' = reserve_one ⦃m = on_lists order_by⦄ now user i ss in
      let bound = reserve_all_count is ss' in
      elim (Bool-cases (any (λ _. true) (keep (has_stock_for i) ss))) [
        | inl found ↦ omega (
          arith,
          reserve_once id i ss q.0 found,
          reserve_all_gain id is ss' q.1 (omega (arith, (rw found at h))),
        )
        | inr lost ↦ absurd (omega (arith, bound, (rw lost at h)))
      ]

-- Over a server that behaves as documented, a reservation of items with quantities of 1 up to
-- 2^32 - 1 that succeeds raises the quantity of a stock by 2^32, less the quantity, for every item
-- that it takes from it: the negated uint32 is incremented, and not subtracted.
pub reserve_tickets_gain :
    ⦃m : Mongo⦄ ⦃e : Env⦄
    → IsDocumented m
    → (items : List OrderItem) (user : User) (w : World) (id : ObjectId) → All IsQuantity items
    → (reserve_tickets items (some user) w).0 ≡ ok tt
    → stock_of id (reserve_tickets items (some user) w).1.db.ticket_stock + taken_from id items
      ≡ stock_of id w.db.ticket_stock + 2 ^ 32 * count_from id items
unfolding reserve_tickets call time_now
reserve_tickets_gain (lists s p) [] user w id q h = omega arith
reserve_tickets_gain ⦃m⦄ ⦃e⦄ (lists s p) (i ∷ is) user w id q h =
    ground (arith, reserve_all_gain (e.now w.step) user s id (i ∷ is) w.db.ticket_stock q)

-- The stock of every item is there.
abbrev pub AreHeld : List TicketStock → List OrderItem → Type 0
AreHeld ss is = All (λ (i : OrderItem). holds i.ticket_stock ss ≡ true) is

module _ (now : Time) (order_by : Sort) where
  release_once :
      (id : ObjectId) (i : OrderItem) (ss : List TicketStock)
      → holds i.ticket_stock ss ≡ true
      → stock_of id (release_one ⦃m = on_lists order_by⦄ now i ss)
        ≡ stock_of id ss + (if i.ticket_stock == id then i.quantity else 0)
  release_once id i ss h =
      stock_of-change_first (λ s. s.id == i.ticket_stock)
        (λ s. record s { quantity = s.quantity + i.quantity; updated_at = now }) i.ticket_stock
        i.quantity id ss (λ s t. ground arith) (any-keep (λ s. s.id == i.ticket_stock) ss ∙ h)

  AreHeld-release_one :
      (i : OrderItem) (is : List OrderItem) (ss : List TicketStock)
      → AreHeld ss is
      → AreHeld (release_one ⦃m = on_lists order_by⦄ now i ss) is
  AreHeld-release_one i [] ss h = tt
  AreHeld-release_one i (j ∷ js) ss h = (
    any-change_first (λ s. s.id == j.ticket_stock) (λ s. s.id == i.ticket_stock)
          (λ s. record s { quantity = s.quantity + i.quantity; updated_at = now }) ss (λ s. refl)
        ∙ h.0,
    AreHeld-release_one i js ss h.1,
  )

  release_all_gain :
      (id : ObjectId) (is : List OrderItem) (ss : List TicketStock)
      → AreHeld ss is
      → stock_of id (release_all ⦃m = on_lists order_by⦄ now is ss)
        ≡ stock_of id ss + taken_from id is
  release_all_gain id [] ss h = omega arith
  release_all_gain id (i ∷ is) ss h = omega (
    arith,
    release_once id i ss h.0,
    release_all_gain id is (release_one ⦃m = on_lists order_by⦄ now i ss)
        (AreHeld-release_one i is ss h.1),
  )

-- Over a server that behaves as documented, a release of items that succeeds, where the stock of
-- every item is there, raises each stock by exactly what the items took from it.
pub release_tickets_gain :
    ⦃m : Mongo⦄ ⦃e : Env⦄
    → IsDocumented m
    → (items : List OrderItem) (w : World) (id : ObjectId) → AreHeld w.db.ticket_stock items
    → (release_tickets items w).0 ≡ ok tt
    → stock_of id (release_tickets items w).1.db.ticket_stock
      ≡ stock_of id w.db.ticket_stock + taken_from id items
unfolding release_tickets call execute time_now
release_tickets_gain (lists s p) [] w id q h = omega arith
release_tickets_gain ⦃m⦄ ⦃e⦄ (lists s p) (i ∷ is) w id q h =
    ground (arith, release_all_gain (e.now w.step) s id (i ∷ is) w.db.ticket_stock q)
