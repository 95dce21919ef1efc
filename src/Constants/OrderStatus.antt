-- ===== src/Constants/OrderStatus.antt =====
-- internal/constants/order_status.go: `OrderStatus`, its text and the parser of that text.
use cicd_demo.Base.{String, Bool, true, false, str_eq, if◌then◌else◌}

pub data OrderStatus : Type 0 where
  unknown unpaid partially_paid pending_refund paid canceled completed partially_returned returned
        return_in_progress :
      OrderStatus

-- Go's `==` on the enumeration.
abbrev pub same : OrderStatus → OrderStatus → Bool
same unknown unknown = true
same unpaid unpaid = true
same partially_paid partially_paid = true
same pending_refund pending_refund = true
same paid paid = true
same canceled canceled = true
same completed completed = true
same partially_returned partially_returned = true
same returned returned = true
same return_in_progress return_in_progress = true
same _ _ = false

-- `String`
abbrev pub to_string : OrderStatus → String
to_string unknown = "unknown"
to_string unpaid = "unpaid"
to_string partially_paid = "partially_paid"
to_string pending_refund = "pending_refund"
to_string paid = "paid"
to_string canceled = "canceled"
to_string completed = "completed"
to_string partially_returned = "partially_returned"
to_string returned = "returned"
to_string return_in_progress = "return_in_progress"

-- `ParseOrderStatus`: a text that the map lacks is `unknown`.
unfoldable pub parse : String → OrderStatus
parse s =
    if str_eq s "unpaid"
    then unpaid
    else if str_eq s "partially_paid"
    then partially_paid
    else if str_eq s "paid"
    then paid
    else if str_eq s "partially_returned"
    then partially_returned
    else if str_eq s "returned"
    then returned
    else if str_eq s "completed"
    then completed
    else if str_eq s "canceled"
    then canceled
    else if str_eq s "return_in_progress"
    then return_in_progress
    else if str_eq s "pending_refund"
    then pending_refund
    else if str_eq s "unknown"
    then unknown
    else unknown
