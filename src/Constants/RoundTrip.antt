-- ===== src/Constants/RoundTrip.antt =====
-- internal/constants: printing a status and parsing it again, for all four enumerations.
use cicd_demo.Base.{◌≡◌, refl}
use cicd_demo.Constants.OrderStatus
use cicd_demo.Constants.OrderStatus.{OrderStatus}
use cicd_demo.Constants.OrderItemStatus
use cicd_demo.Constants.OrderItemStatus.{OrderItemStatus}
use cicd_demo.Constants.BillStatus
use cicd_demo.Constants.BillStatus.{BillStatus}
use cicd_demo.Constants.TicketStatus
use cicd_demo.Constants.TicketStatus.{TicketStatus}

order_status : (s : OrderStatus) → OrderStatus.parse (OrderStatus.to_string s) ≡ s
unfolding OrderStatus.parse
order_status OrderStatus.unknown = refl
order_status _ = refl

item_status : (s : OrderItemStatus) → OrderItemStatus.parse (OrderItemStatus.to_string s) ≡ s
unfolding OrderItemStatus.parse
item_status OrderItemStatus.unknown = refl
item_status _ = refl

bill_status : (s : BillStatus) → BillStatus.parse (BillStatus.to_string s) ≡ s
unfolding BillStatus.parse
bill_status BillStatus.unknown = refl
bill_status _ = refl

ticket_status : (s : TicketStatus) → TicketStatus.parse (TicketStatus.to_string s) ≡ s
unfolding TicketStatus.parse
ticket_status TicketStatus.valid = refl
ticket_status _ = refl

-- Every status of an order, an order item, a bill and a ticket is read back from its text as the
-- status that it was.
pub parse-to_string :
    (o : OrderStatus) (i : OrderItemStatus) (b : BillStatus) (t : TicketStatus)
    → (OrderStatus.parse (OrderStatus.to_string o) ≡ o)
      × (OrderItemStatus.parse (OrderItemStatus.to_string i) ≡ i)
      × (BillStatus.parse (BillStatus.to_string b) ≡ b)
      × (TicketStatus.parse (TicketStatus.to_string t) ≡ t)
parse-to_string o i b t = (order_status o, item_status i, bill_status b, ticket_status t)
