-- ===== src/Constants.antt =====
-- internal/constants: the status enumerations of orders, order items, bills and tickets, their
-- spelling in the database, and the other constants.
pub mod OrderStatus
pub mod OrderItemStatus
pub mod BillStatus
pub mod TicketStatus
pub mod RoundTrip
use cicd_demo.Base.{String}

-- constants.go, bill.go
abbrev pub resource_order : String
resource_order = "order"

abbrev pub resource_bill : String
resource_bill = "bill"

abbrev pub bill_type_payment : String
bill_type_payment = "payment"

abbrev pub bill_type_refund : String
bill_type_refund = "refund"

pub data PaymentAction : Type 0 where
  create cancel refund : PaymentAction

-- `PaymentAction.String`
abbrev pub action_string : PaymentAction → String
action_string PaymentAction.create = "create"
action_string PaymentAction.cancel = "cancel"
action_string PaymentAction.refund = "refund"
