-- ===== src/Service/Bills.antt =====
-- internal/service/bills_admin.go and bill_public.go: the handlers of BillsAdminService and
-- BillService.
use cicd_demo.Base.{some, String, List, map}
use cicd_demo.Platform.{Mongo, Env, refused}
use cicd_demo.Consumer.{with_transaction}
use cicd_demo.Dao.Bills.{get_bills_by_order_id}
use cicd_demo.Logic.Publisher.{PaymentEventPublisher}
use cicd_demo.Logic.Bills.{
  create_bill as issue, cancel_bill as cancel, get_bills_for_consumer_by_order,
}
use cicd_demo.Logic.Refunds.{create_refund_bill as issue_refund}
use cicd_demo.Service.{
  invalid_argument, internal, Rpc, succeed, parsed_or, attempt, Context, authenticated,
  parse_object_id, named_user, ◌>>=◌,
}
use cicd_demo.Service.Replies.{BillReply, TransactionReply, bill_reply, transaction_reply}

-- bills.CreateBillRequest; a payment method that is left out has empty texts
pub record CreateBillMessage : Type 0 where
  pub order : String
  pub amount : String
  pub payment_method_id : String
  pub payment_method_name : String

pub record CreateRefundBillMessage : Type 0 where
  pub order_item_id : String
  pub amount : String
  pub payment_method_id : String
  pub payment_method_name : String
  pub reason : String

module _ ⦃m : Mongo⦄ ⦃e : Env⦄ where
  unfoldable pub create_bill : PaymentEventPublisher → Context → CreateBillMessage → Rpc String
  create_bill p c msg = do
    uid ← authenticated c
    oid ← parse_object_id msg.order
    amount ← parsed_or (e.parse_decimal128 msg.amount) invalid_argument (refused "invalid amount")
    method ← parse_object_id msg.payment_method_id
    bill_id ← attempt internal (
        with_transaction (
          issue p (record {
            order_id = oid;
            amount = amount;
            payment_method = record { id = method; name = msg.payment_method_name };
            operator = some (named_user uid c);
          })))
    succeed (e.object_id_hex bill_id)

  unfoldable pub cancel_bill : PaymentEventPublisher → Context → String → String → Rpc Unit
  cancel_bill p c bill reason = do
    uid ← authenticated c
    bill_id ← parse_object_id bill
    attempt internal (
        with_transaction (
          cancel p
            (record { bill_id = bill_id; reason = reason; operator = some (named_user uid c) })))

  unfoldable pub create_refund_bill :
      PaymentEventPublisher → Context → CreateRefundBillMessage → Rpc String
  create_refund_bill p c msg = do
    uid ← authenticated c
    item_id ← parse_object_id msg.order_item_id
    amount ← parsed_or (e.parse_decimal128 msg.amount) invalid_argument (refused "invalid amount")
    method ← parse_object_id msg.payment_method_id
    bill_id ← attempt internal (
        with_transaction (
          issue_refund p (record {
            order_item_id = item_id;
            amount = amount;
            payment_method = record { id = method; name = msg.payment_method_name };
            operator = some (named_user uid c);
            reason = msg.reason;
          })))
    succeed (e.object_id_hex bill_id)

  unfoldable pub get_bills_by_order : String → Rpc (List BillReply)
  get_bills_by_order order = do
    oid ← parse_object_id order
    bills ← attempt internal (get_bills_by_order_id oid)
    succeed (map bill_reply bills)

  unfoldable pub get_transaction_history : Context → String → Rpc (List TransactionReply)
  get_transaction_history c order = do
    uid ← authenticated c
    oid ← parse_object_id order
    bills ← attempt internal (get_bills_for_consumer_by_order oid uid)
    succeed (map transaction_reply bills)
