-- ===== src/Logic/Orders/Items.antt =====
-- internal/logic/orders.go: which status an order item may take after which.
use cicd_demo.Base.{true, ◌≡◌, ◌↔◌, refl, inl, inr, Bool-cases, ◌==◌, ==→eq}
use cicd_demo.Constants.OrderItemStatus
use cicd_demo.Constants.OrderItemStatus.{
  OrderItemStatus, pending_payment, paid, fulfilled, canceled, return_requested, return_approved,
  returned,
}
use cicd_demo.Models.{OrderItemWithOrder}
use cicd_demo.Platform.{Mongo, Env, ok, World}
use cicd_demo.Platform.Frame.{bind-eq-ok}
use cicd_demo.Dao.Orders.{get_order_item_with_order}
use cicd_demo.Logic.Orders.{
  UpdateOrderItemStatusRequest, can_update_order_item_status, check_order_item_status,
  change_order_item_status,
}

-- The life of an item: an independent description of `canUpdateOrderItemStatus`. A new status that
-- its switch does not name is always allowed.
pub data ItemTransition : OrderItemStatus → OrderItemStatus → Type 0 where
  cancel : ItemTransition pending_payment canceled
  fulfil : ItemTransition paid fulfilled
  request_return : ItemTransition fulfilled return_requested
  reject_return : ItemTransition return_requested fulfilled
  approve_return : ItemTransition return_requested return_approved
  finish_return : ItemTransition return_approved returned
  unchecked_pending : {o : OrderItemStatus} → ItemTransition o pending_payment
  unchecked_paid : {o : OrderItemStatus} → ItemTransition o paid
  unchecked_unknown : {o : OrderItemStatus} → ItemTransition o OrderItemStatus.unknown

allowed : (o n : OrderItemStatus) → can_update_order_item_status o n ≡ true → ItemTransition o n
unfolding can_update_order_item_status
allowed _ pending_payment h = unchecked_pending
allowed _ paid h = unchecked_paid
allowed _ OrderItemStatus.unknown h = unchecked_unknown
allowed pending_payment canceled h = cancel
allowed paid fulfilled h = fulfil
allowed fulfilled return_requested h = request_return
allowed return_requested fulfilled h = reject_return
allowed return_requested return_approved h = approve_return
allowed return_approved returned h = finish_return
allowed _ canceled h = cc
allowed _ fulfilled h = cc
allowed _ return_requested h = cc
allowed _ return_approved h = cc
allowed _ returned h = cc

permitted : {o n : OrderItemStatus} → ItemTransition o n → can_update_order_item_status o n ≡ true
unfolding can_update_order_item_status
permitted cancel = refl
permitted fulfil = refl
permitted request_return = refl
permitted reject_return = refl
permitted approve_return = refl
permitted finish_return = refl
permitted unchecked_pending = refl
permitted unchecked_paid = refl
permitted unchecked_unknown = refl

-- canUpdateOrderItemStatus accepts exactly the transitions of the life of an item.
pub can_update_order_item_status_iff :
    (o n : OrderItemStatus) → (can_update_order_item_status o n ≡ true) ↔ ItemTransition o n
can_update_order_item_status_iff o n = (allowed o n, permitted)

module _ ⦃m : Mongo⦄ ⦃e : Env⦄ where
  -- What a change of an item that returns has found.
  abbrev pub IsLegal : UpdateOrderItemStatusRequest → OrderItemWithOrder → Type 0
  IsLegal d w =
      (w.order_item.order ≡ d.order_id)
      × ItemTransition (OrderItemStatus.parse w.order_item.status)
          (OrderItemStatus.parse d.new_status)

  checked-IsLegal :
      (d : UpdateOrderItemStatusRequest) (w : OrderItemWithOrder) (W : World)
      → (check_order_item_status d w W).0 ≡ ok tt
      → IsLegal d w
  unfolding check_order_item_status
  checked-IsLegal d w W =
      let may =
        can_update_order_item_status (OrderItemStatus.parse w.order_item.status)
          (OrderItemStatus.parse d.new_status) in
      elim (Bool-cases (w.order_item.order == d.order_id)) [
        | inr other ↦ rw other (λ h. cc)
        | inl same ↦ rw same (elim (Bool-cases may) [
          | inr wrong ↦ rw wrong (λ h. cc)
          | inl right ↦ λ h. (==→eq _ _ same, allowed _ _ right)
        ])
      ]

  -- When _updateOrderItemStatus returns a nil error, the item belonged to the order of the request,
  -- and its status could be followed by the new one.
  pub change_order_item_status-IsLegal :
      (d : UpdateOrderItemStatusRequest) (W : World)
      → (change_order_item_status d W).0 ≡ ok tt
      → (w : OrderItemWithOrder) × ((get_order_item_with_order d.order_item_id W).0 ≡ ok w)
        × IsLegal d w
  unfolding change_order_item_status
  change_order_item_status-IsLegal d W h =
      let (w, first, second, final) =
        bind-eq-ok (get_order_item_with_order d.order_item_id) (check_order_item_status d) W tt h in
      (w, first, checked-IsLegal d w (get_order_item_with_order d.order_item_id W).1 second)
