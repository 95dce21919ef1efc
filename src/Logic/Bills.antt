-- ===== src/Logic/Bills.antt =====
-- internal/logic/bill.go: bills of payments and refunds.
pub mod Limits
pub mod Processing
use cicd_demo.Base.{
  String, Bool, true, false, Option, none, some, List, [], ◌∷◌, ◌++◌, ◌||◌, not, ◌==◌, str_eq,
  if◌then◌else◌,
}
use cicd_demo.Constants.{bill_type_payment, bill_type_refund, PaymentAction}
use cicd_demo.Constants.BillStatus
use cicd_demo.Constants.BillStatus.{BillStatus}
use cicd_demo.Constants.OrderStatus
use cicd_demo.Constants.OrderStatus.{OrderStatus}
use cicd_demo.Models.{
  ObjectId, User, system_user, Time, Decimal128, PaymentMethodInfo, Order, Bill, empty_decimal,
}
use cicd_demo.Helper.{compare_decimal128, add_decimal128, sub_decimal128}
use cicd_demo.Platform.{
  Mongo, Env, Comparison, M, pure, raise, raise_if, deref, ◌>>=◌, ◌>>◌, logged, refused,
  already_processed, new_object_id, time_now,
}
use cicd_demo.Repository.{
  UpdateOption, with_status, with_updated_by, with_updated_at, with_payment_id, with_inc_paid,
  with_inc_returned, with_inc_returned_items_count,
}
use cicd_demo.Dao.Orders.{get_order_by_id, update_order}
use cicd_demo.Dao.Bills.{
  create_bill as insert_bill, get_bills_by_order_id, get_bill_by_id, update_bill, create_audit_log,
}
use cicd_demo.Logic.Audit.{build_create_bill_audit_log, build_cancel_bill_audit_log}
use cicd_demo.Logic.Publisher.{PaymentEventPublisher, publish_payment_event}
use cicd_demo.Logic.Recalculate.{checked}

-- dto.CreateBillRequest
pub record CreateBillRequest : Type 0 where
  pub order_id : ObjectId
  pub amount : Decimal128
  pub payment_method : PaymentMethodInfo
  pub operator : Option User

-- dto.CancelBillRequest
pub record CancelBillRequest : Type 0 where
  pub bill_id : ObjectId
  pub reason : String
  pub operator : Option User

abbrev pub is_committed : Bill → Bool
is_committed b =
    BillStatus.same (BillStatus.parse b.status) BillStatus.paid
    || BillStatus.same (BillStatus.parse b.status) BillStatus.pending

-- Only an unpaid or a partially paid order takes a new bill.
abbrev pub takes_bills : OrderStatus → Bool
takes_bills s =
    OrderStatus.same s OrderStatus.unpaid || OrderStatus.same s OrderStatus.partially_paid

abbrev pub exceeds : Comparison → Bool
exceeds Comparison.greater = true
exceeds _ = false

module _ ⦃m : Mongo⦄ ⦃e : Env⦄ where
  -- `primitive.ParseDecimal128("0")`, whose error is dropped
  abbrev pub zero_decimal : Decimal128
  zero_decimal = elim (e.parse_decimal128 "0") [ none ↦ empty_decimal | some d ↦ d ]

  -- The loop over the bills of an order that sums the paid and the pending ones.
  unfoldable pub committed_amount : Decimal128 → List Bill → M Decimal128
  committed_amount sum [] = pure sum
  committed_amount sum (b ∷ bills) = do
    next ← (if is_committed b then checked (add_decimal128 sum b.amount) else pure sum)
    committed_amount next bills

  -- Steps 2 to 4 of `CreateBill`: the status of the order, and the amount that is still owed.
  unfoldable pub check_amount : CreateBillRequest → Order → M Unit
  check_amount d o = do
    raise_if (not (takes_bills (OrderStatus.parse o.status)))
        (refused "order status: cannot create new bill")
    bills ← get_bills_by_order_id d.order_id
    committed ← committed_amount zero_decimal bills
    amount_owed ← checked (sub_decimal128 o.total committed)
    c ← checked (compare_decimal128 d.amount amount_owed)
    raise_if (exceeds c) (refused "payment amount exceeds amount owed")

  -- Step 5 and on: the bill, its audit log and its message.
  unfoldable pub issue_bill : PaymentEventPublisher → CreateBillRequest → Order → M ObjectId
  issue_bill p d o = do
    id ← new_object_id
    created ← time_now
    updated ← time_now
    let bill : Bill = record {
      id = id;
      order = d.order_id;
      order_item_id = none;
      customer = o.user;
      amount = d.amount;
      bill_type = bill_type_payment;
      status = BillStatus.to_string BillStatus.pending;
      payment_method = some d.payment_method;
      created_at = created;
      updated_at = updated;
      payment = none;
      refunding_payment_id = none;
      note = "";
    }
    bill_id ← insert_bill bill
    log ← build_create_bill_audit_log d.operator bill
    logged tt (create_audit_log log)
    publish_payment_event p PaymentAction.create bill o.merchant_id
    pure bill_id

  unfoldable pub create_bill : PaymentEventPublisher → CreateBillRequest → M ObjectId
  create_bill p d = do o ← get_order_by_id d.order_id; check_amount d o; issue_bill p d o

  unfoldable pub cancel_bill : PaymentEventPublisher → CancelBillRequest → M Unit
  cancel_bill p d = do
    bill ← get_bill_by_id d.bill_id
    raise_if (not (str_eq bill.status (BillStatus.to_string BillStatus.pending)))
        (refused "bill cannot be cancelled")
    o ← get_order_by_id bill.order
    update_bill bill.id (with_status (BillStatus.to_string BillStatus.canceled) ∷ [])
    publish_payment_event p PaymentAction.cancel bill o.merchant_id
    log ← build_cancel_bill_audit_log d.operator bill d.reason
    logged tt (create_audit_log log)

  -- The payment ID, where the message has one that is an ObjectID.
  abbrev payment_option : String → List UpdateOption
  payment_option payment_id =
      if str_eq payment_id "" then [] else elim (e.object_id_from_hex payment_id) [
        | none ↦ []
        | some p ↦ with_payment_id (some p) ∷ []
      ]

  -- Step 4 of `ProcessPaymentUpdate`, for a successful payment: the amounts of the order, and
  -- the new status of the bill.
  unfoldable pub settle_order : Bill → Time → M BillStatus
  settle_order bill now =
      if str_eq bill.bill_type bill_type_payment
      then (do
        update_order bill.order (
            with_inc_paid bill.amount
            ∷ with_updated_by (some system_user)
            ∷ with_updated_at now
            ∷ [])
        pure BillStatus.paid)
      else if str_eq bill.bill_type bill_type_refund
      then (do
        update_order bill.order (
            with_inc_returned bill.amount
            ∷ with_inc_returned_items_count 1
            ∷ with_updated_by (some system_user)
            ∷ with_updated_at now
            ∷ [])
        pure BillStatus.refunded)
      else raise (refused "unknown bill type")

  -- Steps 3 and on of `ProcessPaymentUpdate`, for the bill that it has read.
  unfoldable pub process_bill : ObjectId → String → Bool → Bill → M Bill
  process_bill bill_id payment_id is_successful bill = do
    raise_if (not (str_eq bill.status (BillStatus.to_string BillStatus.pending))) already_processed
    now ← time_now
    new_status ← (if is_successful then settle_order bill now else pure BillStatus.failed)
    update_bill bill_id
        (payment_option payment_id ++ with_status (BillStatus.to_string new_status) ∷ [])
    get_bill_by_id bill_id

  unfoldable pub process_payment_update : ObjectId → String → Bool → M Bill
  process_payment_update bill_id payment_id is_successful = do
    bill ← get_bill_by_id bill_id
    process_bill bill_id payment_id is_successful bill

  unfoldable pub get_bills_for_consumer_by_order : ObjectId → ObjectId → M (List Bill)
  get_bills_for_consumer_by_order order_id consumer_id = do
    o ← get_order_by_id order_id
    owner ← deref o.user
    raise_if (not (owner.user_id == consumer_id)) (refused "permission denied")
    get_bills_by_order_id order_id
