-- ===== src/Logic/Orders/Cancellation.antt =====
-- internal/logic/orders.go: `CancelOrder`.
use cicd_demo.Base.{
  String, Option, List, [], ◌∷◌, ◌≡◌, refl, ap, ◌∙◌, map, inl, inr, Bool-cases, str_eq, eq_iff,
}
use cicd_demo.Constants.{PaymentAction}
use cicd_demo.Constants.OrderStatus
use cicd_demo.Constants.OrderStatus.{OrderStatus}
use cicd_demo.Models.{ObjectId, User, Order, OrderItem, Bill}
use cicd_demo.Platform.{Mongo, Env, IsDocumented, Db, ok, World, M, ◌>>=◌}
use cicd_demo.Platform.Frame.{Keeps, Keeps-bind, Keeps-call, Keeps-execute, bind-eq-ok, frame_rules}
use cicd_demo.Repository.{UpdateOption, with_status, with_updated_by}
use cicd_demo.Dao.Orders.{get_order_by_id, get_order_items_by_order_id, update_order}
use cicd_demo.Dao.Bills.{get_bills_by_order_id, update_bill, write_bill}
use cicd_demo.Dao.Tickets.{release_tickets}
use cicd_demo.Dao.Outbox
use cicd_demo.Logic.Audit.{build_cancel_order_audit_log}
use cicd_demo.Logic.Frames.{
  orders_of, new_audit_log-Keeps, create_audit_log-Keeps, update_items_status_by_order-Keeps,
}
use cicd_demo.Logic.Publisher.{PaymentEventPublisher, publish_payment_event}
use cicd_demo.Logic.Orders.{
  CancelOrderRequest, cancel_pending_bill, cancel_pending_bills, void_unpaid_order, cancel_read,
  cancel_order,
}
use cicd_demo.Logic.Recalculate.Transition.{statuses, status_of, set_status}
use cicd_demo.Logic.Recalculate.Statuses.{update_order_status_set}

module _ ⦃m : Mongo⦄ ⦃e : Env⦄ where
  get_order_by_id-Keeps : (id : ObjectId) → Keeps (λ (d : Db). d) (get_order_by_id id)
  unfolding get_order_by_id
  get_order_by_id-Keeps id = search frame_rules

  update_bill-Keeps :
      (id : ObjectId) (opts : List UpdateOption) → Keeps orders_of (update_bill id opts)
  unfolding update_bill write_bill
  update_bill-Keeps id opts = search (frame_rules, Keeps-call)

  release_tickets-Keeps : (items : List OrderItem) → Keeps orders_of (release_tickets items)
  unfolding release_tickets
  release_tickets-Keeps [] = search frame_rules
  release_tickets-Keeps (i ∷ is) = search (frame_rules, Keeps-execute)

  publish_payment_event-Keeps :
      (p : PaymentEventPublisher) (a : PaymentAction) (b : Bill) (id : ObjectId)
      → Keeps orders_of (publish_payment_event p a b id)
  unfolding publish_payment_event Outbox.create
  publish_payment_event-Keeps p a b id = search (frame_rules, Keeps-execute)

  cancel_pending_bill-Keeps :
      (p : PaymentEventPublisher) (id : ObjectId) (u : Option User) (b : Bill)
      → Keeps orders_of (cancel_pending_bill p id u b)
  unfolding cancel_pending_bill
  cancel_pending_bill-Keeps p id u b =
      search (frame_rules, update_bill-Keeps, publish_payment_event-Keeps)

  cancel_pending_bills-Keeps :
      (p : PaymentEventPublisher) (id : ObjectId) (u : Option User) (bills : List Bill)
      → Keeps orders_of (cancel_pending_bills p id u bills)
  unfolding cancel_pending_bills
  cancel_pending_bills-Keeps p id u [] = search frame_rules
  cancel_pending_bills-Keeps p id u (b ∷ bills) =
      Keeps-bind (cancel_pending_bill p id u b) (λ _. cancel_pending_bills p id u bills)
        (cancel_pending_bill-Keeps p id u b) (λ _. cancel_pending_bills-Keeps p id u bills)

  get_order_items_by_order_id-Keeps :
      (id : ObjectId) → Keeps orders_of (get_order_items_by_order_id id)
  unfolding get_order_items_by_order_id
  get_order_items_by_order_id-Keeps id = search frame_rules

  get_bills_by_order_id-Keeps : (id : ObjectId) → Keeps orders_of (get_bills_by_order_id id)
  unfolding get_bills_by_order_id
  get_bills_by_order_id-Keeps id = search frame_rules

-- A method that, if it returns, has set the status of the order and no other.
record Sets (id : ObjectId) (s : String) (action : M Unit) : Type 0 where
  at :
      (w : World)
      → (action w).0 ≡ ok tt
      → statuses (action w).1.db ≡ set_status id s (statuses w.db)

module _ {A : Type 0} {id : ObjectId} {s : String} where
  -- after a method that leaves the orders alone
  Sets-before :
      (first : M A) (next : A → M Unit)
      → Keeps orders_of first
      → ((a : A) → Sets id s (next a))
      → Sets id s (first >>= next)
  Sets-before first next k h = record {
    at = λ w done.
        let (a, one, two, final) = bind-eq-ok first next w tt done in
        ap (λ (v : World). statuses v.db) final
        ∙ (h a).at (first w).1 two
        ∙ ap (λ l. set_status id s (map status_of l)) (k.at w);
  }

module _ {id : ObjectId} {s : String} where
  -- before methods that do
  Sets-after :
      (first : M Unit) (next : Unit → M Unit)
      → Sets id s first
      → ((a : Unit) → Keeps orders_of (next a))
      → Sets id s (first >>= next)
  Sets-after first next h k = record {
    at = λ w done.
        let (a, one, two, final) = bind-eq-ok first next w tt done in
        ap (λ (v : World). statuses v.db) final
        ∙ ap (map status_of) ((k a).at (first w).1)
        ∙ h.at w one;
  }

module _ ⦃m : Mongo⦄ ⦃e : Env⦄ (d : IsDocumented m) where
  canceled :
      (id : ObjectId) (u : Option User)
      → Sets id "canceled" (
          update_order id
            (with_status (OrderStatus.to_string OrderStatus.canceled) ∷ with_updated_by u ∷ []))
  canceled id u = record { at = λ w h. update_order_status_set d id _ _ w refl h }

  audit-Keeps :
      (u : Option User) (o : Order) (reason : String)
      → Keeps orders_of (build_cancel_order_audit_log u o reason)
  unfolding build_cancel_order_audit_log
  audit-Keeps u o reason = new_audit_log-Keeps _ _ _ _ _ _ _

  voided :
      (p : PaymentEventPublisher) (o : Order) (u : Option User) (reason : String)
      → Sets o.id "canceled" (void_unpaid_order p o u reason)
  unfolding void_unpaid_order
  voided p o u reason = Sets-before _ _ (get_order_items_by_order_id-Keeps o.id) (λ items.
      Sets-before _ _ (get_bills_by_order_id-Keeps o.id) (λ bills.
        Sets-before _ _ (cancel_pending_bills-Keeps p o.merchant_id u bills) (λ _.
          Sets-before _ _ (update_items_status_by_order-Keeps o.id _ _ u) (λ _.
            Sets-before _ _ (release_tickets-Keeps items) (λ _.
              Sets-after _ _ (canceled o.id u)
                (λ _. search (frame_rules, create_audit_log-Keeps, audit-Keeps)))))))

  read_canceled :
      (p : PaymentEventPublisher) (r : CancelOrderRequest) (o : Order) (w : World)
      → (cancel_read p r o w).0 ≡ ok tt
      → (o.status ≡ "unpaid")
        × (statuses (cancel_read p r o w).1.db ≡ set_status o.id "canceled" (statuses w.db))
  unfolding cancel_read
  read_canceled p r o w = elim (Bool-cases (str_eq o.status "unpaid")) [
    | inl unpaid ↦ rw unpaid (λ h. ((eq_iff _ _).0 unpaid, (voided p o r.user r.reason).at w h))
    | inr other ↦ rw other (λ h. cc)
  ]

  -- A CancelOrder that returns a nil error, on a documented server, has read an unpaid order, and
  -- has set the status of that order to canceled and the status of no other.
  pub cancel_order-set :
      (p : PaymentEventPublisher) (r : CancelOrderRequest) (w : World)
      → (cancel_order p r w).0 ≡ ok tt
      → (o : Order) × ((get_order_by_id r.order_id w).0 ≡ ok o)
        × (o.status ≡ "unpaid")
        × (statuses (cancel_order p r w).1.db ≡ set_status o.id "canceled" (statuses w.db))
  unfolding cancel_order
  cancel_order-set p r w h =
      let (o, first, second, final) =
        bind-eq-ok (get_order_by_id r.order_id) (cancel_read p r) w tt h in
      let w' = (get_order_by_id r.order_id w).1 in
      let (unpaid, set) = read_canceled p r o w' second in
      (
        o,
        first,
        unpaid,
        ap (λ (v : World). statuses v.db) final
            ∙ set
            ∙ ap (λ v. set_status o.id "canceled" (statuses v))
                ((get_order_by_id-Keeps r.order_id).at w),
      )
