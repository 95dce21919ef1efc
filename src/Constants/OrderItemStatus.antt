-- ===== src/Constants/OrderItemStatus.antt =====
-- internal/constants/order_status.go: `OrderItemStatus`, its text and the parser of that text.
use cicd_demo.Base.{String, Bool, true, false, str_eq, if◌then◌else◌}

pub data OrderItemStatus : Type 0 where
  unknown pending_payment paid fulfilled return_requested returned canceled return_approved :
      OrderItemStatus

-- Go's `==` on the enumeration.
abbrev pub same : OrderItemStatus → OrderItemStatus → Bool
same unknown unknown = true
same pending_payment pending_payment = true
same paid paid = true
same fulfilled fulfilled = true
same return_requested return_requested = true
same returned returned = true
same canceled canceled = true
same return_approved return_approved = true
same _ _ = false

-- `String`
abbrev pub to_string : OrderItemStatus → String
to_string unknown = "unknown"
to_string pending_payment = "pending_payment"
to_string paid = "paid"
to_string fulfilled = "delivered"
to_string return_requested = "return_requested"
to_string returned = "returned"
to_string canceled = "canceled"
to_string return_approved = "return_approved"

-- `ParseOrderItemStatus`: a text that the map lacks is `unknown`.
unfoldable pub parse : String → OrderItemStatus
parse s =
    if str_eq s "pending_payment"
    then pending_payment
    else if str_eq s "paid"
    then paid
    else if str_eq s "fulfilled"
    then fulfilled
    else if str_eq s "return_requested"
    then return_requested
    else if str_eq s "returned"
    then returned
    else if str_eq s "canceled"
    then canceled
    else if str_eq s "unknown"
    then unknown
    else if str_eq s "return_approved"
    then return_approved
    else if str_eq s "delivered"
    then fulfilled
    else unknown
