-- ===== src/Logic/Recalculate/Machine.antt =====
-- internal/logic/orders.go: `recalculateOrderStatus` keeps to the transitions, as a whole.
use cicd_demo.Base.{
  true, map, Option, [], ◌≡◌, refl, ap, ◌∙◌, inl, inr, Bool-cases, any, eq_iff, str_eq,
  if◌then◌else◌,
}
use cicd_demo.Constants.OrderStatus
use cicd_demo.Constants.OrderStatus.{OrderStatus}
use cicd_demo.Models.{ObjectId, User, OrderWithItems}
use cicd_demo.Platform.{Mongo, Env, IsDocumented, Db, World, ok, M, ◌>>◌}
use cicd_demo.Platform.Frame.{Keeps, bind-eq-ok, frame_rules}
use cicd_demo.Dao.Orders.{get_order_with_items_by_id}
use cicd_demo.Logic.Frames.{orders_of}
use cicd_demo.Logic.Publisher.{TicketEventPublisher}
use cicd_demo.Logic.Recalculate.{
  is_return_in_progress, change_status, settle_returned, recalculate_partially_returned,
  recalculate_by_status, recalculate_order_status,
}
use cicd_demo.Logic.Recalculate.Transition.{
  Transition, start_return, Settles, stays, moves, status_of, statuses, set_status,
}
use cicd_demo.Logic.Recalculate.Statuses.{change_status_set, set_status_twice}
use cicd_demo.Logic.Recalculate.Settling.{
  KeepsTo, paid_settles, completed_settles, pending_refund_settles, unpaid_settles,
  partially_paid_settles, return_in_progress_settles, returned_settles,
}

module _ ⦃m : Mongo⦄ ⦃e : Env⦄ (d : IsDocumented m) (id : ObjectId) (w : OrderWithItems)
    (u : Option User) where
  -- A change of the status, and what keeps to the transitions after it.
  Settles-after :
      {before middle after : Db} (s : OrderStatus)
      → Transition w s
      → statuses middle ≡ set_status id (OrderStatus.to_string s) (statuses before)
      → Settles w id middle after
      → Settles w id before after
  Settles-after s t p (stays q) = moves s t (q ∙ p)
  Settles-after s t p (moves r v q) =
      moves r v (q ∙ ap (set_status id (OrderStatus.to_string r)) p ∙ set_status_twice id _ _ _)

  returned_after_return :
      (W : World)
      → w.order.status ≡ "partially_returned"
      → any is_return_in_progress w.items ≡ true
      → KeepsTo d id w u W (do
        change_status u id w.order.status
            (OrderStatus.to_string OrderStatus.return_in_progress)
            []
            "Additional return request initiated"
        settle_returned id w.order u)
  returned_after_return W st back h =
      let new = OrderStatus.to_string OrderStatus.return_in_progress in
      let change = change_status u id w.order.status new [] "Additional return request initiated" in
      let (a, first, second, final) =
        bind-eq-ok change (λ _. settle_returned id w.order u) W tt h in
      let W' = (change W).1 in
      rw final (
        Settles-after OrderStatus.return_in_progress (start_return (inr st) back)
          (change_status_set d u id _ new [] _ W refl first)
          (returned_settles d id w u W' st second))

  partially_returned_settles :
      (W : World)
      → w.order.status ≡ "partially_returned"
      → KeepsTo d id w u W (recalculate_partially_returned id w u)
  unfolding recalculate_partially_returned
  partially_returned_settles W st = elim (Bool-cases (any is_return_in_progress w.items)) [
    | inl going ↦ rw going (returned_after_return W st going)
    | inr over ↦ rw over (returned_settles d id w u W st)
  ]

  -- The branch of a status, and the branch of the others.
  by_case :
      (W : World) (s : OrderStatus) (m n : M Unit)
      → (w.order.status ≡ OrderStatus.to_string s → KeepsTo d id w u W m)
      → KeepsTo d id w u W n
      → KeepsTo d id w u W (if str_eq w.order.status (OrderStatus.to_string s) then m else n)
  by_case W s m n hit miss = elim (Bool-cases (str_eq w.order.status (OrderStatus.to_string s))) [
    | inl same ↦ rw same (hit ((eq_iff _ _).0 same))
    | inr other ↦ rw other miss
  ]

  by_status_settles :
      (publisher : Option TicketEventPublisher) (W : World)
      → KeepsTo d id w u W (recalculate_by_status id w u publisher)
  unfolding recalculate_by_status
  by_status_settles publisher W =
      by_case W OrderStatus.unpaid _ _ (unpaid_settles d id w u W publisher) (
        by_case W OrderStatus.partially_paid _ _ (partially_paid_settles d id w u W publisher) (
          by_case W OrderStatus.pending_refund _ _ (pending_refund_settles d id w u W publisher) (
            by_case W OrderStatus.paid _ _ (paid_settles d id w u W) (
              by_case W OrderStatus.completed _ _ (completed_settles d id w u W) (
                by_case W OrderStatus.return_in_progress _ _ (return_in_progress_settles d id w u W)
                  (by_case W OrderStatus.partially_returned _ _ (partially_returned_settles W)
                    (λ h. cc)))))))

  Settles-from :
      {before middle after : Db}
      → statuses middle ≡ statuses before
      → Settles w id middle after
      → Settles w id before after
  Settles-from p (stays q) = stays (q ∙ p)
  Settles-from p (moves s t q) = moves s t (q ∙ ap (set_status id (OrderStatus.to_string s)) p)

pub get_order_with_items_by_id-Keeps :
    ⦃m : Mongo⦄ ⦃e : Env⦄ (id : ObjectId) → Keeps orders_of (get_order_with_items_by_id id)
unfolding get_order_with_items_by_id
get_order_with_items_by_id-Keeps id = search frame_rules

-- When recalculateOrderStatus returns without an error, on a documented server, then it has read
-- the order with its items, and the statuses of all orders are as before, or only that of the
-- order is changed, by a transition whose condition the order and the items that it read meet.
pub recalculate_order_status-Settles :
    ⦃m : Mongo⦄ ⦃e : Env⦄
    → IsDocumented m
    → (id : ObjectId) (u : Option User) (publisher : Option TicketEventPublisher) (W : World)
    → (recalculate_order_status id u publisher W).0 ≡ ok tt
    → (w : OrderWithItems) × ((get_order_with_items_by_id id W).0 ≡ ok w)
      × Settles w id W.db (recalculate_order_status id u publisher W).1.db
unfolding recalculate_order_status
recalculate_order_status-Settles d id u publisher W h =
    let (w, first, second, final) =
      bind-eq-ok (get_order_with_items_by_id id) (λ w. recalculate_by_status id w u publisher) W tt
        h in
    let W' = (get_order_with_items_by_id id W).1 in
    (
      w,
      first,
      rw final (
          Settles-from d id w u (ap (map status_of) ((get_order_with_items_by_id-Keeps id).at W))
            (by_status_settles d id w u publisher W' second)),
    )
