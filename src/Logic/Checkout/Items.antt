-- ===== src/Logic/Checkout/Items.antt =====
-- internal/logic/orders.go: the items that `validateAndBuildOrderItems` builds.
use cicd_demo.Base.{
  ℕ, zero, suc, ◌+◌, ◌≤◌, Option, none, some, List, [], ◌∷◌, ◌++◌, ◌≡◌, refl, ap, sym, subst, map,
  All, not, length, length-append, ltb, ◌==◌, arith,
}
use cicd_demo.Models.{Time, User, OrderItem, TicketStockWithType}
use cicd_demo.Helper.{max_precision}
use cicd_demo.Platform.{Mongo, Env, Outcome, ok, World, Error, raise_if, or_raise, new_object_id}
use cicd_demo.Platform.Frame.{bind-eq-ok, raise_if-ok}
use cicd_demo.Dao.Tickets.{get_valid_tickets_by_ids}
use cicd_demo.Logic.Checkout.{
  OrderLine, line_for, check_same, unroll, check_line, build_items, BuiltItems, build_from,
  validate_and_build_order_items,
}

-- How many items the lines order of the tickets.
abbrev pub ordered : List OrderLine → List TicketStockWithType → ℕ
ordered lines [] = 0
ordered lines (t ∷ ts) =
    elim (line_for t.stock.id lines) [ none ↦ 0 | some l ↦ l.quantity ] + ordered lines ts

-- A line orders the ticket, within its stock and its limits.
abbrev pub IsWithin : List OrderLine → TicketStockWithType → Type 0
IsWithin lines t =
    (l : OrderLine) × (line_for t.stock.id lines ≡ some l)
    × (l.quantity ≤ t.stock.quantity)
    × (t.ticket_type.min_quantity_per_order ≤ l.quantity)
    × (l.quantity ≤ t.ticket_type.max_quantity_per_order)

-- A single item that waits for its payment.
abbrev pub IsSingle : OrderItem → Type 0
IsSingle i = (i.quantity ≡ 1) × (i.status ≡ "pending_payment")

singles-append :
    (xs ys : List OrderItem) → All IsSingle xs → All IsSingle ys → All IsSingle (xs ++ ys)
singles-append [] ys h k = k
singles-append (x ∷ xs) ys h k = (h.0, singles-append xs ys h.1 k)

ok-injective : {A : Type 0} {a b : A} → Outcome.ok a ≡ ok b → b ≡ a
ok-injective h = cc

or_raise-ok :
    {A : Type 0} (o : Option A) (x : Error) (w : World) (a : A)
    → (or_raise o x w).0 ≡ ok a
    → o ≡ some a
or_raise-ok none x w a h = cc
or_raise-ok (some b) x w a h = cc

-- What a run of the loop that returns has built.
abbrev pub IsBuilt : List OrderLine → List TicketStockWithType → List OrderItem → Type 0
IsBuilt lines ts items =
    (length items ≡ ordered lines ts) × All IsSingle items × All (IsWithin lines) ts

-- The items of one ticket, before those of the others.
joined :
    (lines : List OrderLine) (t : TicketStockWithType) (ts : List TicketStockWithType)
    (these rest : List OrderItem) (l : OrderLine)
    → line_for t.stock.id lines ≡ some l
    → (l.quantity ≤ t.stock.quantity)
      × (t.ticket_type.min_quantity_per_order ≤ l.quantity)
      × (l.quantity ≤ t.ticket_type.max_quantity_per_order)
    → length these ≡ l.quantity
    → All IsSingle these
    → IsBuilt lines ts rest
    → IsBuilt lines (t ∷ ts) (these ++ rest)
joined lines t ts these rest l line (enough, at_least, at_most) count singles
      (more, others, ok_lines) =
    let total : length (these ++ rest) ≡ l.quantity + ordered lines ts =
      omega (arith, length-append these rest, count, more) in
    (
      rw line total,
      singles-append these rest singles others,
      ((l, line, enough, at_least, at_most), ok_lines),
    )

module _ ⦃e : Env⦄ where
  unrolled :
      (t : TicketStockWithType) (now : Time) (user : Option User) (k : ℕ) (w : World)
      (items : List OrderItem)
      → (unroll t now user k w).0 ≡ ok items
      → (length items ≡ k) × All IsSingle items
  unfolding unroll
  unrolled t now user zero w items h =
      subst (λ is. (length is ≡ 0) × All IsSingle is) (sym (ok-injective h)) (refl, tt)
  unrolled t now user (suc k) w items h =
      let (id, h0, h1, _) = bind-eq-ok new_object_id _ w items h in
      let (rest, others, h2, _) = bind-eq-ok (unroll t now user k) _ _ items h1 in
      let (count, singles) = unrolled t now user k (new_object_id w).1 rest others in
      subst (λ is. (length is ≡ suc k) × All IsSingle is) (sym (ok-injective h2))
        (ap suc count, ((refl, refl), singles))

  within :
      (t : TicketStockWithType) (l : OrderLine) (w : World)
      → (check_line t l w).0 ≡ ok tt
      → (l.quantity ≤ t.stock.quantity)
        × (t.ticket_type.min_quantity_per_order ≤ l.quantity)
        × (l.quantity ≤ t.ticket_type.max_quantity_per_order)
  unfolding check_line
  within t l w h =
      let (a, one, two, _) = bind-eq-ok (raise_if (ltb t.stock.quantity l.quantity) _) _ w tt h in
      let (enough, x) = raise_if-ok _ _ _ _ one in
      let (limits, y) = raise_if-ok _ _ _ _ two in
      (ground (arith, enough), ground (arith, limits), ground (arith, limits))

  built :
      (lines : List OrderLine) (now : Time) (user : Option User) (ts : List TicketStockWithType)
      (subtotal : e.Float) (w : World) (items : List OrderItem) (sum : e.Float)
      → (build_items lines now user subtotal ts w).0 ≡ ok (items, sum)
      → IsBuilt lines ts items
  unfolding build_items
  built lines now user [] subtotal w items sum h =
      subst (λ (r : List OrderItem × e.Float). IsBuilt lines [] r.0) (sym (ok-injective h))
        (refl, tt, tt)
  built lines now user (t ∷ ts) subtotal w items sum h =
      let (l, found, h1, _) =
        bind-eq-ok (or_raise (line_for t.stock.id lines) _) _ w (items, sum) h in
      let (a, passed, h2, _) = bind-eq-ok (check_line t l) _ _ (items, sum) h1 in
      let (price, priced, h3, _) =
        bind-eq-ok (or_raise (e.float_parse max_precision (e.decimal_string t.ticket_type.price)) _)
          _ _ (items, sum) h2 in
      let (these, made, h4, _) = bind-eq-ok (unroll t now user l.quantity) _ _ (items, sum) h3 in
      let ((rest, total), others, h5, _) =
        bind-eq-ok (build_items lines now user _ ts) _ _ (items, sum) h4 in
      let line = or_raise-ok _ _ _ _ found in
      let (count, singles) = unrolled t now user l.quantity _ these made in
      subst (λ (r : List OrderItem × e.Float). IsBuilt lines (t ∷ ts) r.0) (sym (ok-injective h5))
        (joined lines t ts these rest l line (within t l _ passed) count singles
          (built lines now user ts _ _ rest total others))

module _ ⦃m : Mongo⦄ ⦃e : Env⦄ where
  from_tickets :
      (lines : List OrderLine) (now : Time) (user : Option User) (ts : List TicketStockWithType)
      (w : World) (b : BuiltItems)
      → (build_from lines now user ts w).0 ≡ ok b
      → IsBuilt lines ts b.items
  unfolding build_from
  from_tickets lines now user [] w b h = cc
  from_tickets lines now user (t ∷ ts) w b h =
      let (a, same, h1, _) =
        bind-eq-ok (check_same t.ticket_type.event t.stock.session ts) _ w b h in
      let ((items, sum), made, h2, _) =
        bind-eq-ok (build_items lines now user (e.float_of 0) (t ∷ ts)) _ _ b h1 in
      let (subtotal, parsed, h3, _) =
        bind-eq-ok (or_raise (e.parse_decimal128 (e.float_string sum)) _) _ _ b h2 in
      subst (λ (r : BuiltItems). IsBuilt lines (t ∷ ts) r.items) (sym (ok-injective h3))
        (built lines now user (t ∷ ts) (e.float_of 0) _ items sum made)

  -- When validateAndBuildOrderItems returns, the query for the tickets of the lines has returned as
  -- many tickets as there are lines, each of them is ordered by a line within its stock and its
  -- limits per order, and the items that are built are as many as the lines order of the tickets,
  -- each single and waiting for its payment.
  pub validate_and_build_order_items-IsBuilt :
      (lines : List OrderLine) (now : Time) (user : Option User) (w : World) (b : BuiltItems)
      → (validate_and_build_order_items lines now user w).0 ≡ ok b
      → (ts : List TicketStockWithType) × ((get_valid_tickets_by_ids
            (map (λ (l : OrderLine). l.ticket_stock) lines)
            w).0
          ≡ ok ts)
        × (length ts ≡ length lines)
        × IsBuilt lines ts b.items
  unfolding validate_and_build_order_items
  validate_and_build_order_items-IsBuilt [] now user w b h = cc
  validate_and_build_order_items-IsBuilt (l ∷ ls) now user w b h =
      let (ts, found, h1, _) =
        bind-eq-ok (get_valid_tickets_by_ids (map (λ (k : OrderLine). k.ticket_stock) (l ∷ ls))) _ w
          b h in
      let (a, guard, h2, _) =
        bind-eq-ok (raise_if (not (length ts == length (l ∷ ls))) _) _ _ b h1 in
      let passed = (raise_if-ok _ _ _ _ guard).0 in
      let (count, singles, limits) = from_tickets (l ∷ ls) now user ts _ b h2 in
      (ts, found, ground (arith, passed), (count, singles, limits))
