-- ===== src/Logic/Refunds/Limits.antt =====
-- internal/logic/orders.go: `CreateRefundBill` refunds an item at most once at a time.
use cicd_demo.Base.{true, false, List, ◌≡◌, refl, ◌∙◌, any, inl, inr, Bool-cases}
use cicd_demo.Constants.OrderItemStatus
use cicd_demo.Constants.OrderItemStatus.{OrderItemStatus}
use cicd_demo.Models.{ObjectId, OrderItem, Bill}
use cicd_demo.Helper.{compare_decimal128}
use cicd_demo.Platform.{Mongo, Env, Db, ok, World, raise_if, time_now}
use cicd_demo.Platform.Frame.{Keeps, bind-eq-ok, raise_if-ok, frame_rules}
use cicd_demo.Dao.Orders.{get_order_by_id, get_order_item_by_id}
use cicd_demo.Dao.Bills.{get_refunds_by_order_item_id}
use cicd_demo.Logic.Publisher.{PaymentEventPublisher}
use cicd_demo.Logic.Refunds.{
  CreateRefundBillRequest, blocks_refund, is_above, check_refundable, create_refund_bill,
}

module _ ⦃m : Mongo⦄ ⦃e : Env⦄ where
  -- The item of a refund, and the refunds of it that there are.
  abbrev pub IsRefundable : CreateRefundBillRequest → OrderItem → World → Type 0
  IsRefundable d i w =
      (OrderItemStatus.same (OrderItemStatus.parse i.status) OrderItemStatus.return_requested
        ≡ true)
      × (refunds : List Bill) × ((get_refunds_by_order_item_id i.id w).0 ≡ ok refunds)
      × (any blocks_refund refunds ≡ false)
      × (is_above (compare_decimal128 d.amount i.price) ≡ false)

  refundable :
      (d : CreateRefundBillRequest) (i : OrderItem) (w : World)
      → (check_refundable d i w).0 ≡ ok tt
      → IsRefundable d i w
  unfolding check_refundable
  refundable d i w =
      elim (Bool-cases
        (OrderItemStatus.same (OrderItemStatus.parse i.status) OrderItemStatus.return_requested)) [
          | inr other ↦ rw other (λ h. cc)
          | inl requested ↦ rw requested (λ h.
              let (refunds, listed, h1, _) =
                bind-eq-ok (get_refunds_by_order_item_id i.id) _ w tt h in
              let (a, free, h2, _) =
                bind-eq-ok (raise_if (any blocks_refund refunds) _) _ _ tt h1 in
              (refl, refunds, listed, (raise_if-ok _ _ _ _ free).0, (raise_if-ok _ _ _ _ h2).0))
        ]

  time_now-Keeps : Keeps (λ (d : Db). d) time_now
  time_now-Keeps = search frame_rules

  get_order_by_id-Keeps : (id : ObjectId) → Keeps (λ (d : Db). d) (get_order_by_id id)
  unfolding get_order_by_id
  get_order_by_id-Keeps id = search frame_rules

  get_order_item_by_id-Keeps : (id : ObjectId) → Keeps (λ (d : Db). d) (get_order_item_by_id id)
  unfolding get_order_item_by_id
  get_order_item_by_id-Keeps id = search frame_rules

  -- When CreateRefundBill returns a bill, the return of the item that it has read was requested,
  -- none of the refunds of the item that it then read is pending or has succeeded, and the amount
  -- does not compare as above the price of the item.
  pub create_refund_bill-IsRefundable :
      (p : PaymentEventPublisher) (d : CreateRefundBillRequest) (w : World) (id : ObjectId)
      → (create_refund_bill p d w).0 ≡ ok id
      → (i : OrderItem) × (w' : World) × ((get_order_item_by_id d.order_item_id (time_now w).1).0
          ≡ ok i)
        × (w'.db ≡ w.db)
        × IsRefundable d i w'
  unfolding create_refund_bill
  create_refund_bill-IsRefundable p d w id h =
      let (now, h0, h1, _) = bind-eq-ok time_now _ w id h in
      let (i, read, h2, _) = bind-eq-ok (get_order_item_by_id d.order_item_id) _ _ id h1 in
      let (o, found, h3, _) = bind-eq-ok (get_order_by_id i.order) _ _ id h2 in
      let (a, passed, h4, _) = bind-eq-ok (check_refundable d i) _ _ id h3 in
      let w1 = (time_now w).1 in
      let w2 = (get_order_item_by_id d.order_item_id w1).1 in
      let w3 = (get_order_by_id i.order w2).1 in
      (
        i,
        w3,
        read,
        (get_order_by_id-Keeps i.order).at w2
            ∙ (get_order_item_by_id-Keeps d.order_item_id).at w1
            ∙ time_now-Keeps.at w,
        refundable d i w3 passed,
      )
