-- ===== src/Models.antt =====
-- internal/models: the documents of the database. An ObjectID and a time are numbers; a pointer
-- that may be nil is an `Option`; counts are never negative, so they are natural numbers.
use cicd_demo.Base.{ℕ, Bool, false, Option, none, some, String, List, str_eq, ◌==◌, if◌then◌else◌}

abbrev pub ObjectId : Type 0
ObjectId = ℕ

abbrev pub nil_object_id : ObjectId
nil_object_id = 0

abbrev pub Time : Type 0
Time = ℕ

-- The zero `time.Time`.
abbrev pub zero_time : Time
zero_time = 0

-- The two halves of the bit pattern of a `primitive.Decimal128`.
pub record Decimal128 : Type 0 where
  pub high : ℕ
  pub low : ℕ

-- `Decimal128{}`
abbrev pub empty_decimal : Decimal128
empty_decimal = record { high = 0; low = 0 }

pub record User : Type 0 where
  pub user_id : ObjectId
  pub name : String
  pub email : String
  pub avatar : String

abbrev pub system_user : User
system_user = record {
  user_id = nil_object_id;
  name = "System";
  email = "system@partivo.com";
  avatar = "";
}

pub record PaymentMethodInfo : Type 0 where
  pub id : ObjectId
  pub name : String

pub record Bill : Type 0 where
  pub id : ObjectId
  pub order : ObjectId
  pub order_item_id : Option ObjectId
  pub customer : Option User
  pub amount : Decimal128
  pub bill_type : String
  pub status : String
  pub payment_method : Option PaymentMethodInfo
  pub created_at : Time
  pub updated_at : Time
  pub payment : Option ObjectId
  pub refunding_payment_id : Option ObjectId
  pub note : String

pub record InvoiceInfo : Type 0 where
  pub id : String
  pub status : String
  pub url : String

pub record Order : Type 0 where
  pub id : ObjectId
  pub event : ObjectId
  pub session : ObjectId
  pub serial : ℕ
  pub subtotal : Decimal128
  pub total : Decimal128
  pub original_total : Decimal128
  pub user : Option User
  pub status : String
  pub note : String
  pub created_at : Time
  pub updated_at : Time
  pub updated_by : Option User
  pub paid : Decimal128
  pub returned : Decimal128
  pub items_count : ℕ
  pub returned_items_count : ℕ
  pub merchant_id : ObjectId
  pub invoice : Option InvoiceInfo

pub record ReturnInfo : Type 0 where
  pub reason : String
  pub requested_at : Time

pub record OrderItem : Type 0 where
  pub id : ObjectId
  pub order : ObjectId
  pub ticket_stock : ObjectId
  pub session : ObjectId
  pub name : String
  pub price : Decimal128
  pub quantity : ℕ  -- uint32
  pub status : String
  pub created_at : Time
  pub updated_at : Time
  pub updated_by : Option User
  pub return_info : Option ReturnInfo

pub record TicketType : Type 0 where
  pub id : ObjectId
  pub event : ObjectId
  pub name : String
  pub quantity : ℕ  -- uint32
  pub price : Decimal128
  pub desc : String
  pub visible : Bool
  pub always_display : Bool
  pub start_show_at : Option Time
  pub pick : ℕ  -- uint32
  pub stop_show_at : Option Time
  pub updated_at : Option Time
  pub created_at : Time
  pub created_by : User
  pub updated_by : Option User
  pub min_quantity_per_order : ℕ  -- uint32
  pub max_quantity_per_order : ℕ  -- uint32
  pub due_duration : Option ℕ
  pub enable : Bool
  pub sale_setting : String

pub record TicketStock : Type 0 where
  pub id : ObjectId
  pub session : ObjectId
  pub stock_type : ObjectId
  pub sale_start_at : Time
  pub sale_end_at : Time
  pub quantity : ℕ  -- the stored integer, which is read into a uint32
  pub updated_at : Time
  pub updated_by : User

pub record OrderItemInfo : Type 0 where
  pub id : ObjectId
  pub price : Decimal128
  pub name : String

pub record Ticket : Type 0 where
  pub id : ObjectId
  pub order_item : OrderItemInfo
  pub order : ℕ  -- the serial of the order
  pub customer : User
  pub event : ObjectId
  pub session : ObjectId
  pub ticket_stock : ObjectId
  pub status : String
  pub qr_code_data : String
  pub valid_from : Time
  pub valid_until : Time
  pub used_at : Option Time
  pub checked_in_by : Option User
  pub created_at : Time
  pub updated_at : Time

-- A stored value that a filter compares: an ObjectID and an integer are never equal.
pub data BsonValue : Type 0 where
  object_id : ObjectId → BsonValue
  integer : ℕ → BsonValue

abbrev pub bson_eq : BsonValue → BsonValue → Bool
bson_eq (BsonValue.object_id a) (BsonValue.object_id b) = a == b
bson_eq (BsonValue.integer a) (BsonValue.integer b) = a == b
bson_eq _ _ = false

-- The fields of a stored ticket stock that hold an ObjectID, by the names of their tags.
unfoldable pub stock_field : String → TicketStock → Option BsonValue
stock_field key s =
    if str_eq key "_id"
    then some (BsonValue.object_id s.id)
    else if str_eq key "session"
    then some (BsonValue.object_id s.session)
    else if str_eq key "type"
    then some (BsonValue.object_id s.stock_type)
    else none

-- The payload of an outbox message, which the code stores as the JSON text of this map.
pub record PaymentPayload : Type 0 where
  pub action : String
  pub bill_id : ObjectId
  pub amount : String
  pub order_id : ObjectId
  pub payment_method : ObjectId
  pub merchant_id : ObjectId

pub data Payload : Type 0 where
  ticket_task : ObjectId → Payload
  payment_event : PaymentPayload → Payload

abbrev pub outbox_pending : String
outbox_pending = "PENDING"

abbrev pub outbox_processing : String
outbox_processing = "PROCESSING"

abbrev pub outbox_processed : String
outbox_processed = "PROCESSED"

pub record OutboxMessage : Type 0 where
  pub id : ObjectId
  pub topic : String
  pub payload : Payload
  pub status : String
  pub retries : ℕ
  pub claim_id : Option ObjectId
  pub created_at : Time
  pub updated_at : Option Time
  pub processed_at : Option Time
  pub error : String

-- dto.OrderWithItems
pub record OrderWithItems : Type 0 where
  pub order : Order
  pub items : List OrderItem

-- dto.OrderItemWithOrder
pub record OrderItemWithOrder : Type 0 where
  pub order_item : OrderItem
  pub order_info : Order

-- dto.TicketStockWithType
pub record TicketStockWithType : Type 0 where
  pub stock : TicketStock
  pub ticket_type : TicketType

-- dto.TicketTypeWithStock
pub record TicketTypeWithStock : Type 0 where
  pub ticket_type : TicketType
  pub stocks : List TicketStock
