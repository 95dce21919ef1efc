-- ===== src/Logic/Recalculate/Settling.antt =====
-- internal/logic/orders.go: every case of `recalculateOrderStatus` keeps to the transitions.
use cicd_demo.Base.{
  String, true, false, Option, [], ◌∷◌, ◌≡◌, refl, inl, inr, Bool-cases, all, any, ltb, ltb→lt,
  ==→eq, ◌==◌, arith,
}
use cicd_demo.Constants.OrderStatus
use cicd_demo.Constants.OrderStatus.{OrderStatus}
use cicd_demo.Constants.OrderItemStatus.{OrderItemStatus}
use cicd_demo.Models.{ObjectId, User, OrderWithItems}
use cicd_demo.Helper.{good, Checked-cases, compare_decimal128, sub_decimal128, decimal128_to_int64}
use cicd_demo.Platform.{Mongo, Env, IsDocumented, Comparison, World, ok, M}
use cicd_demo.Repository.{with_items_count}
use cicd_demo.Logic.Publisher.{TicketEventPublisher}
use cicd_demo.Logic.Recalculate.{
  has_status, is_return_in_progress, change_status, update_order_to_paid_with_audit,
  recalculate_unpaid, settle_unpaid, recalculate_partially_paid, settle_partially_paid,
  refund_overpayment, recalculate_pending_refund, recalculate_paid, recalculate_completed,
  finish_returns, recalculate_return_in_progress, settle_returned,
}
use cicd_demo.Logic.Recalculate.Transition.{
  Transition, void, pay, pay_part, overpay, refund_all, refund_difference, complete, start_return,
  return_none, return_some, return_all, return_rest, Settles, stays, moves,
}
use cicd_demo.Logic.Recalculate.Statuses.{
  change_status_set, update_order_to_paid_set, refund_overpayment_set,
}

module _ ⦃m : Mongo⦄ ⦃e : Env⦄ (d : IsDocumented m) (id : ObjectId) (w : OrderWithItems)
    (u : Option User) (W : World) where
  -- A method that, if it returns, has kept to the transitions.
  abbrev pub KeepsTo : M Unit → Type 0
  KeepsTo action = (action W).0 ≡ ok tt → Settles w id W.db (action W).1.db

  -- A change of the status is such a method, if its transition is allowed.
  by-Transition :
      (s : OrderStatus) (reason : String)
      → Transition w s
      → KeepsTo (change_status u id w.order.status (OrderStatus.to_string s) [] reason)
  by-Transition s reason t h = moves s t (change_status_set d u id _ _ [] reason W refl h)

  by_payment :
      (publisher : Option TicketEventPublisher)
      → Transition w OrderStatus.paid
      → KeepsTo (update_order_to_paid_with_audit id u w.order.status publisher)
  by_payment publisher t h =
      moves OrderStatus.paid t (update_order_to_paid_set d id u _ publisher W h)

  pub paid_settles : w.order.status ≡ "paid" → KeepsTo (recalculate_paid id w u)
  unfolding recalculate_paid
  paid_settles st = elim (Bool-cases (any (has_status OrderItemStatus.pending_payment) w.items)) [
    | inl waiting ↦ rw waiting (λ h. stays refl)
    | inr done ↦ rw done (λ h.
        moves OrderStatus.completed (complete st done)
          (change_status_set d u id _ _ (with_items_count _ ∷ []) _ W refl h))
  ]

  pub completed_settles : w.order.status ≡ "completed" → KeepsTo (recalculate_completed id w u)
  unfolding recalculate_completed
  completed_settles st = elim (Bool-cases (any is_return_in_progress w.items)) [
    | inl back ↦
        rw back (by-Transition OrderStatus.return_in_progress _ (start_return (inl st) back))
    | inr still ↦ rw still (λ h. stays refl)
  ]

  pub pending_refund_settles :
      (publisher : Option TicketEventPublisher)
      → w.order.status ≡ "pending_refund"
      → KeepsTo (recalculate_pending_refund id w u publisher)
  unfolding recalculate_pending_refund
  pending_refund_settles publisher st =
      elim (Checked-cases (sub_decimal128 w.order.paid w.order.returned)) [
        | inr (x, wrong) ↦ rw wrong (λ h. cc)
        | inl (net, right) ↦ rw right (elim (Checked-cases (compare_decimal128 net w.order.total)) [
          | inr (x, wrong) ↦ rw wrong (λ h. cc)
          | inl (Comparison.equal, same) ↦
              rw same (by_payment publisher (refund_difference net st right same))
          | inl (Comparison.less, other) ↦ rw other (λ h. stays refl)
          | inl (Comparison.greater, other) ↦ rw other (λ h. stays refl)
        ])
      ]

  unpaid_settled :
      (publisher : Option TicketEventPublisher) (c : Comparison)
      → w.order.status ≡ "unpaid"
      → compare_decimal128 w.order.total w.order.paid ≡ good c
      → KeepsTo (settle_unpaid id w.order c u publisher)
  unfolding settle_unpaid
  unpaid_settled publisher Comparison.equal st same = by_payment publisher (pay (inl st) same)
  unpaid_settled publisher _ st other = elim (Checked-cases (decimal128_to_int64 w.order.paid)) [
    | inr (x, wrong) ↦ rw wrong (λ h. cc)
    | inl ((true, n), negative) ↦ rw negative (λ h. stays refl)
    | inl ((false, n), paid) ↦ rw paid (elim (Bool-cases (ltb 0 n)) [
      | inl some_paid ↦
          rw some_paid
            (by-Transition OrderStatus.partially_paid _ (pay_part n st paid (ltb→lt 0 n some_paid)))
      | inr none_paid ↦ rw none_paid (λ h. stays refl)
    ])
  ]

  pub unpaid_settles :
      (publisher : Option TicketEventPublisher)
      → w.order.status ≡ "unpaid"
      → KeepsTo (recalculate_unpaid id w u publisher)
  unfolding recalculate_unpaid
  unpaid_settles publisher st =
      elim (Bool-cases (all (has_status OrderItemStatus.canceled) w.items)) [
        | inl gone ↦ rw gone (by-Transition OrderStatus.canceled _ (void st gone))
        | inr left ↦ rw left (elim (Checked-cases (compare_decimal128 w.order.total w.order.paid)) [
          | inr (x, wrong) ↦ rw wrong (λ h. cc)
          | inl (c, right) ↦ rw right (unpaid_settled publisher c st right)
        ])
      ]

  overpayment_settles :
      w.order.status ≡ "partially_paid"
      → compare_decimal128 w.order.total w.order.paid ≡ good Comparison.less
      → KeepsTo (refund_overpayment id w.order u)
  overpayment_settles st less h =
      moves OrderStatus.pending_refund (overpay st less) (refund_overpayment_set d id w.order u W h)

  partially_paid_settled :
      (publisher : Option TicketEventPublisher) (c : Comparison)
      → w.order.status ≡ "partially_paid"
      → compare_decimal128 w.order.total w.order.paid ≡ good c
      → KeepsTo (settle_partially_paid id w.order c u publisher)
  unfolding settle_partially_paid
  partially_paid_settled publisher Comparison.equal st same =
      by_payment publisher (pay (inr st) same)
  partially_paid_settled publisher Comparison.less st less = overpayment_settles st less
  partially_paid_settled publisher Comparison.greater st more =
      elim (Checked-cases (compare_decimal128 w.order.returned w.order.paid)) [
        | inr (x, wrong) ↦ rw wrong (λ h. cc)
        | inl (Comparison.equal, same) ↦
            rw same (by-Transition OrderStatus.canceled _ (refund_all st same))
        | inl (Comparison.less, other) ↦ rw other (λ h. stays refl)
        | inl (Comparison.greater, other) ↦ rw other (λ h. stays refl)
      ]

  pub partially_paid_settles :
      (publisher : Option TicketEventPublisher)
      → w.order.status ≡ "partially_paid"
      → KeepsTo (recalculate_partially_paid id w u publisher)
  unfolding recalculate_partially_paid
  partially_paid_settles publisher st =
      elim (Checked-cases (compare_decimal128 w.order.total w.order.paid)) [
        | inr (x, wrong) ↦ rw wrong (λ h. cc)
        | inl (c, right) ↦ rw right (partially_paid_settled publisher c st right)
      ]

  returns_finished :
      w.order.status ≡ "return_in_progress"
      → any is_return_in_progress w.items ≡ false
      → KeepsTo (finish_returns id w.order u)
  unfolding finish_returns
  returns_finished st over = elim (Bool-cases (w.order.returned_items_count == 0)) [
    | inl zero_back ↦
        rw zero_back
          (by-Transition OrderStatus.completed _ (return_none st over (==→eq _ _ zero_back)))
    | inr back ↦ rw back (elim (Bool-cases (w.order.items_count == w.order.returned_items_count)) [
      | inl all_back ↦
          rw all_back
            (by-Transition OrderStatus.returned _ (return_all st over (==→eq _ _ all_back)))
      | inr not_all ↦
          rw not_all (elim (Bool-cases (ltb w.order.returned_items_count w.order.items_count)) [
            | inl fewer ↦ rw fewer (
                by-Transition OrderStatus.partially_returned _
                  (return_some st over (ground arith) (ltb→lt _ _ fewer)))
            | inr more ↦ rw more (λ h. cc)
          ])
    ])
  ]

  pub return_in_progress_settles :
      w.order.status ≡ "return_in_progress" → KeepsTo (recalculate_return_in_progress id w u)
  unfolding recalculate_return_in_progress
  return_in_progress_settles st = elim (Bool-cases (any is_return_in_progress w.items)) [
    | inl going ↦ rw going (λ h. stays refl)
    | inr over ↦ rw over (returns_finished st over)
  ]

  pub returned_settles :
      w.order.status ≡ "partially_returned" → KeepsTo (settle_returned id w.order u)
  unfolding settle_returned
  returned_settles st = elim (Bool-cases (w.order.returned_items_count == w.order.items_count)) [
    | inl all_back ↦
        rw all_back (by-Transition OrderStatus.returned _ (return_rest st (==→eq _ _ all_back)))
    | inr not_all ↦ rw not_all (λ h. stays refl)
  ]
