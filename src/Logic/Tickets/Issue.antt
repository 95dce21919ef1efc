-- ===== src/Logic/Tickets/Issue.antt =====
-- internal/logic/tickets.go: the tickets that `GenerateTicketsForOrder` makes for an order.
use cicd_demo.Base.{none, List, [], ◌∷◌, ◌≡◌, ap, sym, subst}
use cicd_demo.Models.{Order, OrderItem, Ticket}
use cicd_demo.Platform.{
  Mongo, Env, Outcome, ok, World, or_raise, deref, refused, new_object_id, time_now, outside_call,
}
use cicd_demo.Platform.Frame.{bind-eq-ok}
use cicd_demo.Logic.Tickets.{session_times, generate_ticket, generate_tickets}

-- The ticket for an item of an order: a specification of its own, field by field, of what later
-- steps rely on.
pub record IsTicketFor (o : Order) (i : OrderItem) (t : Ticket) : Type 0 where
  pub names_item : t.order_item.id ≡ i.id
  pub names_order : t.order ≡ o.serial
  pub takes_stock : t.ticket_stock ≡ i.ticket_stock
  pub is_valid : t.status ≡ "valid"
  pub is_unused : t.used_at ≡ none

-- One ticket for each item, in the order of the items.
pub data AreTicketsFor (o : Order) : List OrderItem → List Ticket → Type 0 where
  no_more : AreTicketsFor o [] []
  one_more :
      {i : OrderItem} {is : List OrderItem} {t : Ticket} {ts : List Ticket}
      → IsTicketFor o i t
      → AreTicketsFor o is ts
      → AreTicketsFor o (i ∷ is) (t ∷ ts)

ok-injective : {A : Type 0} {a b : A} → Outcome.ok a ≡ ok b → b ≡ a
ok-injective h = cc

module _ ⦃m : Mongo⦄ ⦃e : Env⦄ where
  ticket_for :
      (o : Order) (i : OrderItem) (w : World) (t : Ticket)
      → (generate_ticket o i w).0 ≡ ok t
      → IsTicketFor o i t
  unfolding generate_ticket
  ticket_for o i w t h =
      let (id, h0, h1, _) = bind-eq-ok new_object_id _ w t h in
      let (now, g0, h2, _) = bind-eq-ok time_now _ _ t h1 in
      let (reply, g1, h3, _) =
        bind-eq-ok (outside_call (λ n. e.session_by_id n i.session)) _ _ t h2 in
      let (period, g2, h4, _) = bind-eq-ok (session_times reply) _ _ t h3 in
      let (code, g3, h5, _) =
        bind-eq-ok
          (or_raise (e.qr_code id o.event i.session i.name period.0 period.1)
            (refused "failed to generate QR code"))
          _ _ t h4 in
      let (customer, g4, h6, _) = bind-eq-ok (deref o.user) _ _ t h5 in
      let made = ok-injective h6 in
      record {
        names_item = ap (λ (x : Ticket). x.order_item.id) made;
        names_order = ap (λ (x : Ticket). x.order) made;
        takes_stock = ap (λ (x : Ticket). x.ticket_stock) made;
        is_valid = ap (λ (x : Ticket). x.status) made;
        is_unused = ap (λ (x : Ticket). x.used_at) made;
      }

  -- The tickets that the loop of GenerateTicketsForOrder makes, when it returns, are one for each
  -- item of the order, in the order of the items: each names the ID of its item and the serial of
  -- the order, takes the stock of the item, is valid, and has not been used.
  pub generate_tickets-AreTicketsFor :
      (o : Order) (items : List OrderItem) (w : World) (ts : List Ticket)
      → (generate_tickets o items w).0 ≡ ok ts
      → AreTicketsFor o items ts
  unfolding generate_tickets
  generate_tickets-AreTicketsFor o [] w ts h =
      let none_made = ok-injective h in subst (AreTicketsFor o []) (sym none_made) no_more
  generate_tickets-AreTicketsFor o (i ∷ is) w ts h =
      let (t, first, h1, _) = bind-eq-ok (generate_ticket o i) _ w ts h in
      let (rest, others, h2, _) = bind-eq-ok (generate_tickets o is) _ _ ts h1 in
      let made = ok-injective h2 in
      subst (AreTicketsFor o (i ∷ is)) (sym made) (
        one_more (ticket_for o i w t first)
          (generate_tickets-AreTicketsFor o is (generate_ticket o i w).1 rest others))
