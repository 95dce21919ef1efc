-- ===== src/Logic/Recalculate/Returning.antt =====
-- internal/logic/orders.go: the cases of `recalculateOrderStatus` return, where nothing fails.
use cicd_demo.Base.{ℕ, ◌≤◌, false, some, [], ◌≡◌, inl, inr, any, Bool-cases, ◌==◌, ltb, arith}
use cicd_demo.Models.{ObjectId, User, Order, OrderWithItems}
use cicd_demo.Helper.{compare_decimal128, sub_decimal128, decimal128_to_int64}
use cicd_demo.Platform.{Mongo, Env, IsDocumented, Comparison, pure}
use cicd_demo.Platform.Returns.{Returns, Returns-pure, Returns-if, Returns-bind, return_rules}
use cicd_demo.Logic.Publisher.{TicketEventPublisher}
use cicd_demo.Logic.Recalculate.{
  is_return_in_progress, change_status, update_order_to_paid_with_audit, settle_unpaid,
  recalculate_unpaid, refund_overpayment, settle_partially_paid, recalculate_partially_paid,
  recalculate_pending_refund, recalculate_paid, recalculate_completed, finish_returns,
  recalculate_return_in_progress, settle_returned, recalculate_partially_returned,
}
use cicd_demo.Logic.Recalculate.Steps.{
  has_order, IsComputed, checked-Returns, change_status-Returns, to_paid-Returns,
  create_bill-Returns,
}

module _ ⦃m : Mongo⦄ ⦃e : Env⦄ (d : IsDocumented m) (never : (n : ℕ) → e.fails n ≡ false)
    (id : ObjectId) (u : User) (p : TicketEventPublisher) where
  settle_unpaid-Returns :
      (o : Order) (c : Comparison)
      → IsComputed e o
      → Returns (has_order id) (settle_unpaid id o c (some u) (some p))
  unfolding settle_unpaid
  settle_unpaid-Returns o Comparison.equal k = (to_paid-Returns d never id u p) o.status
  settle_unpaid-Returns o _ k = search (
    return_rules,
    (change_status-Returns d never id u p),
    checked-Returns (decimal128_to_int64 o.paid) k.whole_paid,
  )

  pub unpaid-Returns :
      (w : OrderWithItems)
      → IsComputed e w.order
      → Returns (has_order id) (recalculate_unpaid id w (some u) (some p))
  unfolding recalculate_unpaid
  unpaid-Returns w k = search (
    return_rules,
    (change_status-Returns d never id u p),
    (λ (c : Comparison). settle_unpaid-Returns w.order c k),
    checked-Returns (compare_decimal128 w.order.total w.order.paid) k.total_paid,
  )

  overpayment-Returns :
      (o : Order) → IsComputed e o → Returns (has_order id) (refund_overpayment id o (some u))
  unfolding refund_overpayment
  overpayment-Returns o k =
      search
        (
          return_rules,
          (change_status-Returns d never id u p),
          (create_bill-Returns d never id u p),
          checked-Returns (sub_decimal128 o.paid o.total) k.overpaid,
        )
        depth 8

  cancel_if-Returns :
      (o : Order) (c : Comparison)
      → Returns (has_order id) (elim c [
        | Comparison.equal ↦
            change_status (some u) id o.status "canceled" [] "Full refund completed, order canceled"
        | _ ↦ pure tt
      ])
  cancel_if-Returns o Comparison.equal = (change_status-Returns d never id u p) _ _ _ _
  cancel_if-Returns o _ = Returns-pure tt

  settle_partially_paid-Returns :
      (o : Order) (c : Comparison)
      → IsComputed e o
      → Returns (has_order id) (settle_partially_paid id o c (some u) (some p))
  unfolding settle_partially_paid
  settle_partially_paid-Returns o Comparison.equal k = (to_paid-Returns d never id u p) o.status
  settle_partially_paid-Returns o Comparison.less k = overpayment-Returns o k
  settle_partially_paid-Returns o Comparison.greater k =
      Returns-bind _ _ (checked-Returns _ k.returned_paid) (cancel_if-Returns o)

  pub partially_paid-Returns :
      (w : OrderWithItems)
      → IsComputed e w.order
      → Returns (has_order id) (recalculate_partially_paid id w (some u) (some p))
  unfolding recalculate_partially_paid
  partially_paid-Returns w k =
      Returns-bind _ _ (checked-Returns _ k.total_paid)
        (λ c. settle_partially_paid-Returns w.order c k)

  pay_if-Returns :
      (o : Order) (c : Comparison)
      → Returns (has_order id) (elim c [
        | Comparison.equal ↦ update_order_to_paid_with_audit id (some u) o.status (some p)
        | _ ↦ pure tt
      ])
  pay_if-Returns o Comparison.equal = (to_paid-Returns d never id u p) o.status
  pay_if-Returns o _ = Returns-pure tt

  pub pending_refund-Returns :
      (w : OrderWithItems)
      → IsComputed e w.order
      → Returns (has_order id) (recalculate_pending_refund id w (some u) (some p))
  unfolding recalculate_pending_refund
  pending_refund-Returns w k =
      rw k.net (Returns-bind _ _ (checked-Returns _ k.net_total) (pay_if-Returns w.order))

  pub paid-Returns : (w : OrderWithItems) → Returns (has_order id) (recalculate_paid id w (some u))
  unfolding recalculate_paid
  paid-Returns w = search (return_rules, (change_status-Returns d never id u p))

  pub completed-Returns :
      (w : OrderWithItems) → Returns (has_order id) (recalculate_completed id w (some u))
  unfolding recalculate_completed
  completed-Returns w = search (return_rules, (change_status-Returns d never id u p))

  finish_returns-Returns :
      (o : Order)
      → o.returned_items_count ≤ o.items_count
      → Returns (has_order id) (finish_returns id o (some u))
  unfolding finish_returns
  finish_returns-Returns o h = elim (Bool-cases (o.returned_items_count == 0)) [
    | inl zero_back ↦ rw zero_back ((change_status-Returns d never id u p) _ _ _ _)
    | inr back ↦ rw back (elim (Bool-cases (o.items_count == o.returned_items_count)) [
      | inl all_back ↦ rw all_back ((change_status-Returns d never id u p) _ _ _ _)
      | inr not_all ↦ rw not_all (elim (Bool-cases (ltb o.returned_items_count o.items_count)) [
        | inl fewer ↦ rw fewer ((change_status-Returns d never id u p) _ _ _ _)
        | inr more ↦ absurd (ground arith)
      ])
    ])
  ]

  pub return_in_progress-Returns :
      (w : OrderWithItems)
      → w.order.returned_items_count ≤ w.order.items_count
      → Returns (has_order id) (recalculate_return_in_progress id w (some u))
  unfolding recalculate_return_in_progress
  return_in_progress-Returns w h =
      Returns-if (any is_return_in_progress w.items) (pure tt) (finish_returns id w.order (some u))
        (Returns-pure tt) (finish_returns-Returns w.order h)

  settle_returned-Returns : (o : Order) → Returns (has_order id) (settle_returned id o (some u))
  unfolding settle_returned
  settle_returned-Returns o = search (return_rules, (change_status-Returns d never id u p))

  pub partially_returned-Returns :
      (w : OrderWithItems) → Returns (has_order id) (recalculate_partially_returned id w (some u))
  unfolding recalculate_partially_returned
  partially_returned-Returns w =
      search (return_rules, (change_status-Returns d never id u p), settle_returned-Returns)
