-- ===== src/Logic/Recalculate/Statuses.antt =====
-- internal/logic/orders.go: what the steps of `recalculateOrderStatus` do to the statuses.
use cicd_demo.Base.{
  suc, String, Option, none, some, List, [], ◌∷◌, ◌++◌, map, ◌≡◌, refl, ap, ◌∙◌, change_first, ◌==◌,
  arith,
}
use cicd_demo.Constants.OrderStatus
use cicd_demo.Constants.OrderStatus.{OrderStatus}
use cicd_demo.Constants.OrderItemStatus
use cicd_demo.Constants.OrderItemStatus.{OrderItemStatus}
use cicd_demo.Constants.{bill_type_refund}
use cicd_demo.Constants.BillStatus
use cicd_demo.Constants.BillStatus.{BillStatus}
use cicd_demo.Dao.Bills.{create_bill}
use cicd_demo.Helper.{Checked, good, bad, sub_decimal128}
use cicd_demo.Models.{ObjectId, User, Order, zero_time}
use cicd_demo.Platform.{
  Mongo, Env, IsDocumented, lists, World, ok, M, ◌>>=◌, ◌>>◌, call, time_now, new_object_id, pure,
  logged,
}
use cicd_demo.Platform.Frame.{Keeps, Keeps-pure, Keeps-raise, bind-eq-ok, frame_rules}
use cicd_demo.Repository.{
  UpdateOption, UpdateOptions, apply_options, new_update_options, update_order_fields, with_status,
  with_updated_by, with_updated_at,
}
use cicd_demo.Dao.Orders.{update_order, update_items_status_by_order}
use cicd_demo.Logic.Publisher.{TicketEventPublisher, publish_ticket_generation_task}
use cicd_demo.Logic.Frames.{
  orders_of, build_order_status_change_audit_log-Keeps, create_audit_log-Keeps,
  update_items_status_by_order-Keeps, publish_ticket_generation_task-Keeps, create_bill-Keeps,
}
use cicd_demo.Logic.Recalculate.{
  checked, audit_status_change, change_status, update_order_to_paid_with_audit, refund_overpayment,
}
use cicd_demo.Logic.Recalculate.Transition.{status_of, statuses, set_status}

map_statuses :
    ⦃e : Env⦄ (u : UpdateOptions) (id : ObjectId) (s : String) (os : List Order)
    → u.status ≡ some s
    → map status_of (change_first (λ o. o.id == id) (update_order_fields u) os)
      ≡ set_status id s (map status_of os)
map_statuses u id s [] h = refl
map_statuses u id s (o ∷ os) h = ground (arith, map_statuses u id s os h)

-- A successful update of the status sets it, whatever other fields it sets.
pub update_order_status_set :
    ⦃m : Mongo⦄ ⦃e : Env⦄
    → IsDocumented m
    → (id : ObjectId) (opts : List UpdateOption) (s : String) (w : World)
    → (apply_options opts new_update_options).status ≡ some s
    → (update_order id opts w).0 ≡ ok tt
    → statuses (update_order id opts w).1.db ≡ set_status id s (statuses w.db)
unfolding update_order call
update_order_status_set (lists sort p) id opts s w hs h =
    ground (arith, map_statuses (apply_options opts new_update_options) id s w.db.orders hs)

module _ ⦃m : Mongo⦄ ⦃e : Env⦄ where
  pub audit_status_change-Keeps :
      (u : Option User) (id : ObjectId) (old new reason : String)
      → Keeps orders_of (audit_status_change u id old new reason)
  unfolding audit_status_change
  audit_status_change-Keeps u id old new reason =
      search (frame_rules, build_order_status_change_audit_log-Keeps, create_audit_log-Keeps)

  -- A successful change of the status sets it.
  pub change_status_set :
      IsDocumented m
      → (u : Option User) (id : ObjectId) (old new : String) (opts : List UpdateOption)
        (reason : String) (w : World)
      → (apply_options
          (with_status new ∷ (opts ++ with_updated_by u ∷ []))
          new_update_options).status
        ≡ some new
      → (change_status u id old new opts reason w).0 ≡ ok tt
      → statuses (change_status u id old new opts reason w).1.db ≡ set_status id new (statuses w.db)
  unfolding change_status
  change_status_set d u id old new opts reason w hs h =
      let all_opts = with_status new ∷ (opts ++ with_updated_by u ∷ []) in
      let (a, first, second, final) =
        bind-eq-ok (update_order id all_opts) (λ _. audit_status_change u id old new reason) w tt
          h in
      let w' = (update_order id all_opts w).1 in
      ap (λ (v : World). statuses v.db) final
      ∙ ap (map status_of) ((audit_status_change-Keeps u id old new reason).at w')
      ∙ update_order_status_set d id all_opts new w hs first

  -- What follows the update of the order, in `updateOrderToPaidWithAudit`.
  abbrev after_paid : ObjectId → Option User → String → Option TicketEventPublisher → M Unit
  after_paid id u old publisher = do
    audit_status_change u id old (OrderStatus.to_string OrderStatus.paid)
        "Payment completed, order fully paid"
    update_items_status_by_order id (OrderItemStatus.to_string OrderItemStatus.pending_payment)
        (OrderItemStatus.to_string OrderItemStatus.paid) u
    logged tt (publish_ticket_generation_task publisher id)

  after_paid-Keeps :
      (id : ObjectId) (u : Option User) (old : String) (publisher : Option TicketEventPublisher)
      → Keeps orders_of (after_paid id u old publisher)
  after_paid-Keeps id u old publisher = search (
    frame_rules, audit_status_change-Keeps, update_items_status_by_order-Keeps,
    publish_ticket_generation_task-Keeps,
  )

  -- A successful move to paid sets the status.
  pub update_order_to_paid_set :
      IsDocumented m
      → (id : ObjectId) (u : Option User) (old : String) (publisher : Option TicketEventPublisher)
        (w : World)
      → (update_order_to_paid_with_audit id u old publisher w).0 ≡ ok tt
      → statuses (update_order_to_paid_with_audit id u old publisher w).1.db
        ≡ set_status id (OrderStatus.to_string OrderStatus.paid) (statuses w.db)
  unfolding update_order_to_paid_with_audit time_now
  update_order_to_paid_set d id u old publisher w h =
      let now = e.now w.step in
      let w1 = record w { step = suc w.step } in
      let opts =
        with_status (OrderStatus.to_string OrderStatus.paid)
        ∷ with_updated_by u
        ∷ with_updated_at now
        ∷ [] in
      let (a, first, second, final) =
        bind-eq-ok (update_order id opts) (λ _. after_paid id u old publisher) w1 tt h in
      let w' = (update_order id opts w1).1 in
      ap (λ (v : World). statuses v.db) final
      ∙ ap (map status_of) ((after_paid-Keeps id u old publisher).at w')
      ∙ update_order_status_set d id opts (OrderStatus.to_string OrderStatus.paid) w1 refl first

  checked-Keeps : {A : Type 0} (c : Checked A) → Keeps orders_of (checked c)
  checked-Keeps (good a) = Keeps-pure a
  checked-Keeps (bad x) = Keeps-raise x

  -- The bill of what was overpaid.
  abbrev bill_of_difference : ObjectId → Order → M Unit
  bill_of_difference order_id o = do
    difference ← checked (sub_decimal128 o.paid o.total)
    id ← new_object_id
    create_bill (record {
      id = id;
      order = order_id;
      order_item_id = none;
      customer = o.user;
      amount = difference;
      bill_type = bill_type_refund;
      status = BillStatus.to_string BillStatus.pending;
      payment_method = none;
      created_at = zero_time;
      updated_at = zero_time;
      payment = none;
      refunding_payment_id = none;
      note = "";
    })
    pure tt

  bill_of_difference-Keeps : (id : ObjectId) (o : Order) → Keeps orders_of (bill_of_difference id o)
  bill_of_difference-Keeps id o = search (frame_rules, checked-Keeps, create_bill-Keeps)

  -- A successful refund of what was overpaid sets the status.
  pub refund_overpayment_set :
      IsDocumented m
      → (id : ObjectId) (o : Order) (u : Option User) (w : World)
      → (refund_overpayment id o u w).0 ≡ ok tt
      → statuses (refund_overpayment id o u w).1.db
        ≡ set_status id (OrderStatus.to_string OrderStatus.pending_refund) (statuses w.db)
  unfolding refund_overpayment
  refund_overpayment_set d id o u w h =
      let new = OrderStatus.to_string OrderStatus.pending_refund in
      let change = change_status u id o.status new [] "Overpayment detected, pending refund" in
      let (a, first, second, final) = bind-eq-ok change (λ _. bill_of_difference id o) w tt h in
      ap (λ (v : World). statuses v.db) final
      ∙ ap (map status_of) ((bill_of_difference-Keeps id o).at (change w).1)
      ∙ change_status_set d u id o.status new [] _ w refl first

  -- Two changes of the status of one order leave the second.
  pub set_status_twice :
      (id : ObjectId) (s t : String) (l : List (ObjectId × String))
      → set_status id s (set_status id t l) ≡ set_status id s l
  set_status_twice id s t [] = refl
  set_status_twice id s t (p ∷ l) = ground (arith, set_status_twice id s t l)
