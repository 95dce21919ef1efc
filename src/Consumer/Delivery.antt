-- ===== src/Consumer/Delivery.antt =====
-- cmd/consumer/handlers: a message that is delivered again, and a message that always fails.
use cicd_demo.Base.{String, Bool, true, false, Option, none, some, ◌≡◌, ◌≢◌, refl, ap, ◌∙◌, str_eq}
use cicd_demo.Constants.{bill_type_refund}
use cicd_demo.Constants.BillStatus
use cicd_demo.Constants.BillStatus.{BillStatus}
use cicd_demo.Models.{ObjectId, Bill}
use cicd_demo.Platform.{
  Mongo, Env, IsDocumented, Outcome, ok, err, panic, Db, World, M, refused, already_processed,
  Error,
}
use cicd_demo.Platform.Frame.{Keeps, bind-eq, frame_rules}
use cicd_demo.Dao.Bills.{get_bill_by_id}
use cicd_demo.Logic.Bills.{process_payment_update, process_bill}
use cicd_demo.Logic.Refunds.{find_refundable_item_for_bill}
use cicd_demo.Logic.Publisher.{TicketEventPublisher}
use cicd_demo.Consumer.{
  BillStatusUpdate, handle_bill_status_update, ignore_error, update_bill_in_transaction,
  finish_refund, after_payment_update, is_already_processed,
}
use cicd_demo.Consumer.Atomicity.{begun, IsAtomic, whole, nothing, with_transaction-IsAtomic}

module _ ⦃m : Mongo⦄ ⦃e : Env⦄ where
  bills_read : (id : ObjectId) → Keeps (λ (d : Db). d) (get_bill_by_id id)
  unfolding get_bill_by_id
  bills_read id = search frame_rules

  -- A bill that is not pending is not touched.
  pub process_payment_update-settled :
      (id : ObjectId) (payment_id : String) (is_successful : Bool) (W : World) (b : Bill)
      → (get_bill_by_id id W).0 ≡ ok b
      → str_eq b.status (BillStatus.to_string BillStatus.pending) ≡ false
      → process_payment_update id payment_id is_successful W
        ≡ (err already_processed, (get_bill_by_id id W).1)
  unfolding process_payment_update process_bill
  process_payment_update-settled id payment_id is_successful W b read settled =
      bind-eq (get_bill_by_id id) (process_bill id payment_id is_successful) W b read
      ∙ (simp settled refl)

  acknowledged :
      (publisher : Option TicketEventPublisher) (id : ObjectId) (d : BillStatusUpdate) (W : World)
      (b : Bill)
      → (get_bill_by_id id W).0 ≡ ok b
      → str_eq b.status (BillStatus.to_string BillStatus.pending) ≡ false
      → update_bill_in_transaction publisher id d W ≡ (ok tt, (get_bill_by_id id W).1)
  unfolding update_bill_in_transaction
  acknowledged publisher id d W b read settled =
      ap (ignore_error is_already_processed (after_payment_update publisher d.is_successful))
        (process_payment_update-settled id d.payment_id d.is_successful W b read settled)

  same_data :
      {before : Db} {r : Outcome Unit × World} (body : Outcome Unit × World)
      → body.1.db ≡ before
      → IsAtomic before body r
      → r.1.db ≡ before
  same_data body p (whole a q r t) = t ∙ p
  same_data body p (nothing q t) = t

  -- A message whose bill ID parses, and whose bill is found and no longer pending, leaves the data
  -- as they were, on a documented server, whatever else the message says.
  pub handle_bill_status_update-settled :
      IsDocumented m
      → (publisher : Option TicketEventPublisher) (id : ObjectId) (d : BillStatusUpdate) (W : World)
        (b : Bill)
      → e.object_id_from_hex d.bill_id ≡ some id
      → (get_bill_by_id id (begun W)).0 ≡ ok b
      → str_eq b.status (BillStatus.to_string BillStatus.pending) ≡ false
      → (handle_bill_status_update publisher (some d) W).1.db ≡ W.db
  unfolding handle_bill_status_update
  handle_bill_status_update-settled doc publisher id d W b hex read settled =
      let body = update_bill_in_transaction publisher id d in
      let unchanged : (body (begun W)).1.db ≡ W.db =
        ap (λ (r : Outcome Unit × World). r.1.db)
          (acknowledged publisher id d (begun W) b read settled)
        ∙ (bills_read id).at (begun W) in
      rw (hex, handle_bill_status_update)
        (same_data (body (begun W)) unchanged (with_transaction-IsAtomic doc body W))

  no_item :
      (b : Bill) (W : World)
      → str_eq b.bill_type bill_type_refund ≡ true
      → b.order_item_id ≡ none
      → finish_refund b W ≡ (err (refused "no associated order item ID"), W)
  unfolding finish_refund find_refundable_item_for_bill
  no_item b W refund orphan = simp (refund, orphan) refl

  after_refund :
      (publisher : Option TicketEventPublisher) (is_successful : Bool) (b : Bill) (W : World)
      → is_successful ≡ true
      → str_eq b.bill_type bill_type_refund ≡ true
      → b.order_item_id ≡ none
      → after_payment_update publisher is_successful b W
        ≡ (err (refused "no associated order item ID"), W)
  unfolding after_payment_update
  after_refund publisher is_successful b W success refund orphan =
      simp (success, refund) (no_item b W refund orphan)

  ignore_ok :
      {A : Type 0} (ignored : Error → Bool) (next : A → M Unit) (r : Outcome A × World) (a : A)
      → r.0 ≡ ok a
      → ignore_error ignored next r ≡ next a r.1
  ignore_ok ignored next (ok b, w) a h = let same : b ≡ a = cc in ap (λ c. next c w) same
  ignore_ok ignored next (err x, w) a h = cc
  ignore_ok ignored next (panic p, w) a h = cc

  fails_without_item :
      (publisher : Option TicketEventPublisher) (id : ObjectId) (d : BillStatusUpdate) (W : World)
      (b : Bill)
      → d.is_successful ≡ true
      → (process_payment_update id d.payment_id d.is_successful W).0 ≡ ok b
      → str_eq b.bill_type bill_type_refund ≡ true
      → b.order_item_id ≡ none
      → (update_bill_in_transaction publisher id d W).0
        ≡ err (refused "no associated order item ID")
  unfolding update_bill_in_transaction
  fails_without_item publisher id d W b success processed refund orphan =
      let r = process_payment_update id d.payment_id d.is_successful W in
      let next = after_payment_update publisher d.is_successful in
      ap (λ (v : Outcome Unit × World). v.0)
        (ignore_ok is_already_processed next r b processed
          ∙ after_refund publisher d.is_successful b r.1 success refund orphan)

  not_atomic_ok :
      {before : Db} {r : Outcome Unit × World} (x : Error) (body : Outcome Unit × World)
      → body.0 ≡ err x
      → IsAtomic before body r
      → (r.0 ≢ ok tt) × (r.1.db ≡ before)
  not_atomic_ok x body p (whole a q r t) = cc
  not_atomic_ok x body p (nothing q t) = (q tt, t)

  -- The message that a refund has succeeded is not acknowledged, and leaves the data as they were,
  -- on a documented server, when the update of its bill returns a refund bill that names no item.
  pub handle_bill_status_update-no_item :
      IsDocumented m
      → (publisher : Option TicketEventPublisher) (id : ObjectId) (d : BillStatusUpdate) (W : World)
        (b : Bill)
      → e.object_id_from_hex d.bill_id ≡ some id
      → d.is_successful ≡ true
      → (process_payment_update id d.payment_id d.is_successful (begun W)).0 ≡ ok b
      → str_eq b.bill_type bill_type_refund ≡ true
      → b.order_item_id ≡ none
      → ((handle_bill_status_update publisher (some d) W).0 ≢ ok tt)
        × ((handle_bill_status_update publisher (some d) W).1.db ≡ W.db)
  unfolding handle_bill_status_update
  handle_bill_status_update-no_item doc publisher id d W b hex success processed refund orphan =
      let body = update_bill_in_transaction publisher id d in
      rw (hex, handle_bill_status_update)
        (not_atomic_ok _ (body (begun W))
          (fails_without_item publisher id d (begun W) b success processed refund orphan)
          (with_transaction-IsAtomic doc body W))
