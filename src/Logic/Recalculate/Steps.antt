-- ===== src/Logic/Recalculate/Steps.antt =====
-- internal/logic/orders.go: the steps of `recalculateOrderStatus` return, where nothing fails.
use cicd_demo.Base.{
  ℕ, String, Bool, false, some, List, ◌≡◌, refl, ◌∙◌, inl, inr, not, ◌||◌, any, any-keep,
  any-change_first, Bool-cases, ◌==◌,
}
use cicd_demo.Models.{ObjectId, User, Decimal128, Order, Bill, OutboxMessage}
use cicd_demo.Helper.{Checked, good, compare_decimal128, sub_decimal128, decimal128_to_int64}
use cicd_demo.Platform.{Mongo, Env, IsDocumented, lists, Comparison, Db, AuditLog, Snapshot, call}
use cicd_demo.Platform.Returns.{
  Returns, Returns-pure, Returns-call, Returns-execute, Returns-bind, Returns-logged,
  Returns-time_now, return_rules,
}
use cicd_demo.Repository.{
  UpdateOption, apply_options, new_update_options, has_set, has_inc, update_order_fields,
}
use cicd_demo.Dao.Orders.{update_order, update_items_status_by_order}
use cicd_demo.Dao.Bills.{create_bill, create_audit_log}
use cicd_demo.Dao.Outbox
use cicd_demo.Logic.Audit.{new_audit_log, build_order_status_change_audit_log, AuditLogOption}
use cicd_demo.Logic.Publisher.{TicketEventPublisher, publish_ticket_generation_task}
use cicd_demo.Logic.Recalculate.{
  checked, audit_status_change, change_status, update_order_to_paid_with_audit,
}

-- The data hold the order.
abbrev pub has_order : ObjectId → Db → Bool
has_order id d = any (λ (o : Order). o.id == id) d.orders

-- A successful update of the order needs the order, and keeps it.
update_order-Returns :
    ⦃m : Mongo⦄ ⦃e : Env⦄
    → IsDocumented m
    → ((n : ℕ) → e.fails n ≡ false)
    → (id : ObjectId) (opts : List UpdateOption) → Returns (has_order id) (update_order id opts)
unfolding update_order call
update_order-Returns ⦃e = e⦄ (lists s p) never id opts = record {
  at = λ w q.
      let u = apply_options opts new_update_options in
      elim (Bool-cases (not (has_set u || has_inc u))) [
        | inl nothing ↦ rw nothing (tt, refl, q)
        | inr something ↦
            rw (something, never w.step, any-keep (λ (o : Order). o.id == id) w.db.orders, q)
              (
                tt,
                refl,
                any-change_first (λ (o : Order). o.id == id) (λ o. o.id == id)
                      (update_order_fields u) w.db.orders (λ o. refl)
                    ∙ q,
              )
      ];
}

-- The arithmetic on the amounts of one order: each sum and comparison that its status may ask for
-- has a result.
pub record IsComputed (e : Env) (o : Order) : Type 0 where
  pub total_paid : (c : Comparison) × (compare_decimal128 ⦃e = e⦄ o.total o.paid ≡ good c)
  pub returned_paid : (c : Comparison) × (compare_decimal128 ⦃e = e⦄ o.returned o.paid ≡ good c)
  pub overpaid : (n : Decimal128) × (sub_decimal128 ⦃e = e⦄ o.paid o.total ≡ good n)
  pub net_paid : Decimal128
  pub net : sub_decimal128 ⦃e = e⦄ o.paid o.returned ≡ good net_paid
  pub net_total : (c : Comparison) × (compare_decimal128 ⦃e = e⦄ net_paid o.total ≡ good c)
  pub whole_paid : (n : Bool × ℕ) × (decimal128_to_int64 ⦃e = e⦄ o.paid ≡ good n)

pub checked-Returns :
    {A : Type 0} {P : Db → Bool} (c : Checked A) → (a : A) × (c ≡ good a) → Returns P (checked c)
checked-Returns c (a, h) = rw h (Returns-pure a)

module _ ⦃m : Mongo⦄ ⦃e : Env⦄ (d : IsDocumented m) (never : (n : ℕ) → e.fails n ≡ false)
    (id : ObjectId) (u : User) (p : TicketEventPublisher) where
  pub new_audit_log-Returns :
      (action kind : String) (entity : ObjectId) (before after : Snapshot)
      (opts : List AuditLogOption)
      → Returns (has_order id) (new_audit_log (some u) action kind entity before after opts)
  unfolding new_audit_log
  new_audit_log-Returns action kind entity before after opts = search return_rules

  pub create_audit_log-Returns : (log : AuditLog) → Returns (has_order id) (create_audit_log log)
  unfolding create_audit_log
  create_audit_log-Returns log = Returns-logged tt _ (Returns-execute never _ (λ b q. q))

  pub audit-Returns :
      (old new reason : String)
      → Returns (has_order id) (audit_status_change (some u) id old new reason)
  unfolding audit_status_change build_order_status_change_audit_log
  audit-Returns old new reason =
      search (return_rules, new_audit_log-Returns, create_audit_log-Returns)

  pub change_status-Returns :
      (old new : String) (opts : List UpdateOption) (reason : String)
      → Returns (has_order id) (change_status (some u) id old new opts reason)
  unfolding change_status
  change_status-Returns old new opts reason =
      search (return_rules, audit-Returns, update_order-Returns d never id)

  pub items-Returns :
      (current new : String)
      → Returns (has_order id) (update_items_status_by_order id current new (some u))
  unfolding update_items_status_by_order
  items-Returns current new =
      Returns-bind _ _ Returns-time_now (λ now. Returns-call never _ (λ b q. q))

  pub create-Returns : (x : OutboxMessage) → Returns (has_order id) (Outbox.create x)
  unfolding Outbox.create
  create-Returns x = Returns-execute never _ (λ b q. q)

  pub publish-Returns : Returns (has_order id) (publish_ticket_generation_task (some p) id)
  unfolding publish_ticket_generation_task
  publish-Returns = search (return_rules, create-Returns)

  pub to_paid-Returns :
      (old : String)
      → Returns (has_order id) (update_order_to_paid_with_audit id (some u) old (some p))
  unfolding update_order_to_paid_with_audit
  to_paid-Returns old =
      search
        (
          return_rules,
          audit-Returns,
          items-Returns,
          publish-Returns,
          update_order-Returns d never id,
        )
        depth 8

  pub create_bill-Returns : (b : Bill) → Returns (has_order id) (create_bill b)
  unfolding create_bill
  create_bill-Returns b =
      Returns-bind _ _ (Returns-execute never _ (λ d q. q)) (λ _. Returns-pure _)
