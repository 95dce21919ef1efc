-- ===== src/Service/Replies/Messages.antt =====
-- internal/service: the messages of the protocol that the handlers answer with.
use cicd_demo.Base.{ℕ, String, Bool, Option, List}
use cicd_demo.Models.{Time}

pub record UserReply : Type 0 where
  pub user_id : String
  pub name : String
  pub email : String
  pub avatar : String

pub record ReturnRequestReply : Type 0 where
  pub reason : String
  pub requested_at : Option Time

pub record ItemReply : Type 0 where
  pub id : String
  pub ticket_stock : String
  pub session : String
  pub quantity : ℕ
  pub price : String
  pub name : String
  pub status : String
  pub return_request : Option ReturnRequestReply

pub record OrderReply : Type 0 where
  pub id : String
  pub items : List ItemReply
  pub subtotal : String
  pub total : String
  pub event : String
  pub status : String
  pub note : String
  pub user : UserReply
  pub created_at : Option Time
  pub updated_at : Option Time
  pub serial : String

-- GetUserOrdersResponse: an order and its items, with fewer fields
pub record UserItemReply : Type 0 where
  pub ticket_stock : String
  pub session : String
  pub quantity : ℕ
  pub price : String
  pub name : String

pub record UserOrderReply : Type 0 where
  pub id : String
  pub items : List UserItemReply
  pub total : String
  pub event : String
  pub status : String
  pub created_at : Option Time
  pub serial : String

pub record PaymentMethodReply : Type 0 where
  pub id : String
  pub name : String

-- bills.Bill; a Transaction has the same without the note and the payment
pub record BillReply : Type 0 where
  pub id : String
  pub amount : String
  pub bill_type : String
  pub status : String
  pub created_at : Option Time
  pub note : String
  pub payment_method : Option PaymentMethodReply
  pub payment_id : String

pub record TransactionReply : Type 0 where
  pub id : String
  pub amount : String
  pub bill_type : String
  pub status : String
  pub timestamp : Option Time
  pub payment_method : Option PaymentMethodReply

-- GetOrderResponse_Bill, whose payment is the name of the method
pub record OrderBillReply : Type 0 where
  pub id : String
  pub amount : String
  pub bill_type : String
  pub status : String
  pub payment : String
  pub created_at : Option Time

pub record SessionInfoReply : Type 0 where
  pub session : String
  pub quantity : ℕ

pub record TicketTypeReply : Type 0 where
  pub id : String
  pub name : String
  pub quantity : ℕ
  pub price : String
  pub desc : String
  pub visibility : Bool
  pub start_showing_on : Option Time
  pub stop_showing_on : Option Time
  pub created_at : Option Time
  pub updated_at : Option Time
  pub created_by : UserReply
  pub updated_by : Option UserReply
  pub pick : ℕ
  pub min_quantity_per_order : ℕ
  pub max_quantity_per_order : ℕ
  pub sessions_info : List SessionInfoReply
  pub enable : Bool
  pub sale_time_setting : String

pub record SessionTicketReply : Type 0 where
  pub id : String
  pub name : String
  pub total_quantity : ℕ
  pub price : String
  pub desc : String
  pub pick : ℕ
  pub min_per_order : ℕ
  pub max_per_order : ℕ
  pub quantity : ℕ
