-- ===== src/Repository.antt =====
-- internal/dao/repository/options.go: the fields that an update sets or increments, one slot for
-- each key of the two maps, and the options that fill them.
use cicd_demo.Base.{ℕ, ◌+◌, String, Bool, true, false, Option, none, some, List, [], ◌∷◌, ◌||◌}
use cicd_demo.Models.{ObjectId, Time, Decimal128, User, ReturnInfo, Order, Bill}
use cicd_demo.Platform.{Env}

-- The options of a listing of ticket types.
pub record GetTicketsOptions : Type 0 where
  pub display : Option Bool
  pub is_showing : Option Bool

abbrev pub GetTicketsOption : Type 0
GetTicketsOption = GetTicketsOptions → GetTicketsOptions

abbrev pub with_display : Bool → GetTicketsOption
with_display visible o = record o { display = some visible }

abbrev pub with_is_showing : Bool → GetTicketsOption
with_is_showing is_showing o = record o { is_showing = some is_showing }

abbrev pub apply_tickets_options : List GetTicketsOption → GetTicketsOptions → GetTicketsOptions
apply_tickets_options [] o = o
apply_tickets_options (f ∷ fs) o = apply_tickets_options fs (f o)

pub record UpdateOptions : Type 0 where
  -- SetFields
  pub status : Option String
  pub items_count : Option ℕ
  pub total : Option Decimal128
  pub updated_by : Option (Option User)
  pub payment : Option (Option ObjectId)
  pub updated_at : Option Time
  pub refunding_payment_id : Option (Option ObjectId)
  -- IncFields
  pub inc_total : Option Decimal128
  pub inc_subtotal : Option Decimal128
  pub inc_returned : Option Decimal128
  pub inc_paid : Option Decimal128
  pub inc_returned_items_count : Option ℕ

abbrev pub new_update_options : UpdateOptions
new_update_options = record {
  status = none;
  items_count = none;
  total = none;
  updated_by = none;
  payment = none;
  updated_at = none;
  refunding_payment_id = none;
  inc_total = none;
  inc_subtotal = none;
  inc_returned = none;
  inc_paid = none;
  inc_returned_items_count = none;
}

abbrev pub UpdateOption : Type 0
UpdateOption = UpdateOptions → UpdateOptions

abbrev pub with_status : String → UpdateOption
with_status s o = record o { status = some s }

abbrev pub with_items_count : ℕ → UpdateOption
with_items_count n o = record o { items_count = some n }

abbrev pub with_total : Decimal128 → UpdateOption
with_total t o = record o { total = some t }

abbrev pub with_inc_total : Decimal128 → UpdateOption
with_inc_total a o = record o { inc_total = some a }

abbrev pub with_inc_subtotal : Decimal128 → UpdateOption
with_inc_subtotal a o = record o { inc_subtotal = some a }

abbrev pub with_inc_returned : Decimal128 → UpdateOption
with_inc_returned a o = record o { inc_returned = some a }

abbrev pub with_inc_paid : Decimal128 → UpdateOption
with_inc_paid a o = record o { inc_paid = some a }

abbrev pub with_inc_returned_items_count : ℕ → UpdateOption
with_inc_returned_items_count n o = record o { inc_returned_items_count = some n }

abbrev pub with_updated_by : Option User → UpdateOption
with_updated_by u o = record o { updated_by = some u }

abbrev pub with_payment_id : Option ObjectId → UpdateOption
with_payment_id p o = record o { payment = some p }

abbrev pub with_updated_at : Time → UpdateOption
with_updated_at t o = record o { updated_at = some t }

abbrev pub with_refunding_payment_id : Option ObjectId → UpdateOption
with_refunding_payment_id p o = record o { refunding_payment_id = some p }

-- `for _, opt := range opts { opt(updateOpts) }`
abbrev pub apply_options : List UpdateOption → UpdateOptions → UpdateOptions
apply_options [] o = o
apply_options (f ∷ fs) o = apply_options fs (f o)

abbrev is_some {ℓ} : {A : Type ℓ} → Option A → Bool
is_some none = false
is_some (some a) = true

-- `len(SetFields) > 0`, `len(IncFields) > 0`
abbrev pub has_set : UpdateOptions → Bool
has_set o =
    is_some o.status
    || (is_some o.items_count
        || (is_some o.total
            || (is_some o.updated_by
                || (is_some o.payment
                    || (is_some o.updated_at || is_some o.refunding_payment_id)))))

abbrev pub has_inc : UpdateOptions → Bool
has_inc o =
    is_some o.inc_total
    || (is_some o.inc_subtotal
        || (is_some o.inc_returned || (is_some o.inc_paid || is_some o.inc_returned_items_count)))

abbrev pub set_to {ℓ} : {A : Type ℓ} → Option A → A → A
set_to none a = a
set_to (some b) a = b

abbrev inc_count : Option ℕ → ℕ → ℕ
inc_count none n = n
inc_count (some k) n = n + k

module _ ⦃e : Env⦄ where
  abbrev inc_by : Option Decimal128 → Decimal128 → Decimal128
  inc_by none d = d
  inc_by (some x) d = e.inc_decimal d x

  -- What `$set` and `$inc` of the update document do to an order, and to a bill.
  abbrev pub update_order_fields : UpdateOptions → Order → Order
  update_order_fields u o = record o {
    status = set_to u.status o.status;
    items_count = set_to u.items_count o.items_count;
    total = inc_by u.inc_total (set_to u.total o.total);
    subtotal = inc_by u.inc_subtotal o.subtotal;
    returned = inc_by u.inc_returned o.returned;
    paid = inc_by u.inc_paid o.paid;
    returned_items_count = inc_count u.inc_returned_items_count o.returned_items_count;
    updated_by = set_to u.updated_by o.updated_by;
    updated_at = set_to u.updated_at o.updated_at;
  }

abbrev pub update_bill_fields : UpdateOptions → Bill → Bill
update_bill_fields u b = record b {
  status = set_to u.status b.status;
  payment = set_to u.payment b.payment;
  refunding_payment_id = set_to u.refunding_payment_id b.refunding_payment_id;
  updated_at = set_to u.updated_at b.updated_at;
}

-- repository.go: the parameters of the calls
pub record UpdateOrderItemStatusParams : Type 0 where
  pub item_id : ObjectId
  pub status : String
  pub return_info : Option ReturnInfo
