-- ===== src/Examples/Data.antt =====
-- A server, an environment and documents to run the model on.
use mathlib.Core.List.Perm
use cicd_demo.Base.{
  ℕ, ◌+◌, ◌-◌, ◌*◌, true, false, Option, none, some, String, [], ◌∷◌, str_eq, ltb, ◌==◌,
  if◌then◌else◌,
}
use cicd_demo.Models.{
  Decimal128, User, Order, OrderItem, Bill, Ticket, TicketType, TicketStock, OutboxMessage, Payload,
}
use cicd_demo.Platform.{
  Mongo, on_lists, IsDocumented, lists, Env, Comparison, SessionReply, TokenReply, World,
}
use cicd_demo.Logic.Publisher.{TicketEventPublisher, PaymentEventPublisher}

-- A server that leaves documents in their natural order.
abbrev pub server : Mongo
server = on_lists (λ D le docs. docs)

pub server-IsDocumented : IsDocumented server
server-IsDocumented = lists (λ D le docs. docs) (λ D le docs. Perm.refl docs)

-- The amounts 0 and 10, with their texts.
abbrev pub amount : ℕ → Decimal128
amount n = record { high = 0; low = n }

abbrev pub text_of : ℕ → String
text_of n = if n == 0 then "0" else "10"

abbrev pub number_of : String → Option ℕ
number_of s = if str_eq s "0" then some 0 else if str_eq s "10" then some 10 else none

abbrev pub compare_numbers : ℕ → ℕ → Comparison
compare_numbers a b =
    if ltb a b then Comparison.less else if ltb b a then Comparison.greater else Comparison.equal

-- Nothing fails, the clock shows the number of calls, and new IDs start at 100.
abbrev pub env : Env
env = record {
  fails = λ n. false;
  is_bulk_write_exception = λ n. false;
  parse_qr_code = λ n s. TokenReply.payload_id (some s);
  object_id_hex = λ id. if id == 7 then "7" else if id == 5 then "5" else "1";
  month_start = λ year month. year * 12 + month;
  month_end = λ year month. year * 12 + month + 1;
  export_name = λ year month. "orders.csv";
  format_uint = λ n. "";
  format_time = λ t. "";
  csv_text = λ rows. "";
  float64_is_positive = λ s. some true;
  has_update_result = λ n. false;
  now = λ n. n;
  new_object_id = λ n. 100 + n;
  serial = λ n. some (1000 + n);
  session_by_id = λ n id. SessionReply.session (some 0) (some 50);
  qr_code = λ a b c s t u. some "code";
  publishes = λ n. true;
  decode_uint32 = λ n. some n;
  object_id_from_hex = λ s.
      if str_eq s "7"
      then some 7
      else if str_eq s "5"
      then some 5
      else if str_eq s "1"
      then some 1
      else none;
  inc_decimal = λ d c. amount (d.low + c.low);
  decimal_string = λ d. text_of d.low;
  parse_decimal128 = λ s. elim (number_of s) [ none ↦ none | some n ↦ some (amount n) ];
  is_nan = λ d. false;
  is_inf = λ d. false;
  Float = ℕ;
  float_parse = λ p s. number_of s;
  float_of = λ n. n;
  float_minus_one = 0;
  float_add = λ a b. a + b;
  float_sub = λ a b. a - b;
  float_mul = λ a b. a * b;
  float_cmp = compare_numbers;
  float_string = text_of;
  float_is_negative = λ f. false;
  float_integer_part = λ f. some f;
}

abbrev pub buyer : User
buyer = record { user_id = 5; name = "Buyer"; email = "buyer@example.com"; avatar = "" }

-- An order over 10, of which 10 are paid.
abbrev pub order_in : String → Order
order_in status = record {
  id = 1;
  event = 2;
  session = 3;
  serial = 1000;
  subtotal = amount 10;
  total = amount 10;
  original_total = amount 10;
  user = some buyer;
  status = status;
  note = "";
  created_at = 0;
  updated_at = 0;
  updated_by = none;
  paid = amount 10;
  returned = amount 0;
  items_count = 1;
  returned_items_count = 0;
  merchant_id = 4;
  invoice = none;
}

abbrev pub item_in : String → OrderItem
item_in status = record {
  id = 11;
  order = 1;
  ticket_stock = 21;
  session = 3;
  name = "Seat";
  price = amount 10;
  quantity = 1;
  status = status;
  created_at = 0;
  updated_at = 0;
  updated_by = none;
  return_info = none;
}

abbrev pub bill_in : String → String → Bill
bill_in bill_type status = record {
  id = 7;
  order = 1;
  order_item_id = none;
  customer = some buyer;
  amount = amount 10;
  bill_type = bill_type;
  status = status;
  payment_method = some (record { id = 8; name = "Card" });
  created_at = 0;
  updated_at = 0;
  payment = none;
  refunding_payment_id = none;
  note = "";
}

abbrev pub stock : TicketStock
stock = record {
  id = 21;
  session = 3;
  stock_type = 22;
  sale_start_at = 0;
  sale_end_at = 50;
  quantity = 40;
  updated_at = 0;
  updated_by = buyer;
}

abbrev pub ticket_type : TicketType
ticket_type = record {
  id = 22;
  event = 2;
  name = "Seats";
  quantity = 40;
  price = amount 10;
  desc = "";
  visible = true;
  always_display = true;
  start_show_at = none;
  pick = 3;
  stop_show_at = none;
  updated_at = none;
  created_at = 0;
  created_by = buyer;
  updated_by = none;
  min_quantity_per_order = 1;
  max_quantity_per_order = 4;
  due_duration = none;
  enable = true;
  sale_setting = "";
}

abbrev pub ticket : Ticket
ticket = record {
  id = 31;
  order_item = record { id = 11; price = amount 10; name = "Seat" };
  order = 1000;
  customer = buyer;
  event = 2;
  session = 3;
  ticket_stock = 21;
  status = "valid";
  qr_code_data = "code";
  valid_from = 0;
  valid_until = 50;
  used_at = none;
  checked_in_by = none;
  created_at = 0;
  updated_at = 0;
}

abbrev pub message : OutboxMessage
message = record {
  id = 41;
  topic = "tickets";
  payload = Payload.ticket_task 1;
  status = "PENDING";
  retries = 0;
  claim_id = none;
  created_at = 0;
  updated_at = none;
  processed_at = none;
  error = "";
}

-- One document of each kind, with the statuses of the order, of its item, and of a bill.
abbrev pub world : String → String → String → String → World
world order_status item_status bill_type bill_status = record {
  db = record {
    orders = order_in order_status ∷ [];
    order_items = item_in item_status ∷ [];
    bills = bill_in bill_type bill_status ∷ [];
    ticket_types = [];
    ticket_stock = stock ∷ [];
    tickets = ticket ∷ [];
    outbox = message ∷ [];
    audit_logs = [];
  };
  step = 0;
}

abbrev pub tickets_publisher : TicketEventPublisher
tickets_publisher = record { generate_tickets_topic = "tickets" }

abbrev pub payments_publisher : PaymentEventPublisher
payments_publisher = record { payment_event_topic = "payments" }
