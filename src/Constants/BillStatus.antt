-- ===== src/Constants/BillStatus.antt =====
-- internal/constants/bill.go: `BillStatus`, its text and the parser of that text.
use cicd_demo.Base.{String, Bool, true, false, str_eq, if◌then◌else◌}

pub data BillStatus : Type 0 where
  unknown pending paid refunded failed canceled : BillStatus

-- Go's `==` on the enumeration.
abbrev pub same : BillStatus → BillStatus → Bool
same unknown unknown = true
same pending pending = true
same paid paid = true
same refunded refunded = true
same failed failed = true
same canceled canceled = true
same _ _ = false

-- `String`
abbrev pub to_string : BillStatus → String
to_string unknown = "unknown"
to_string pending = "pending"
to_string paid = "paid"
to_string refunded = "refunded"
to_string failed = "failed"
to_string canceled = "canceled"

-- `ParseBillStatus`: a text that the map lacks is `unknown`.
unfoldable pub parse : String → BillStatus
parse s =
    if str_eq s "pending"
    then pending
    else if str_eq s "paid"
    then paid
    else if str_eq s "refunded"
    then refunded
    else if str_eq s "failed"
    then failed
    else if str_eq s "canceled"
    then canceled
    else if str_eq s "unknown"
    then unknown
    else unknown
