-- ===== src/Examples/Paging.antt =====
-- The pages of the orders of a user and the details of an order, at concrete arguments.
use cicd_demo.Base.{
  ℕ, Bool, ap, sym, subst, ◌+◌, ◌*◌, ◌/◌, ◌≤◌, ◌⊎◌, true, false, Option, none, some, String, List,
  [], ◌∷◌, ◌≡◌, refl, arith, str_eq, ltb, ◌==◌, ==→eq, length, all, if◌then◌else◌,
}
use cicd_demo.Models.{Order, OrderWithItems, Time}
use cicd_demo.Platform.{World, ok, err, invalid_token}
use cicd_demo.Pagination.{ℤ, pos, negsuc}
use cicd_demo.Pagination.Cursor.{Page, Codec, decode, unix, second, day}
use cicd_demo.Pagination.Cursor.Token.{IsCodec, decode-generate_token}
use cicd_demo.Logic.Listing.{ReadOrder, Schedule, OrderDetails, get_orders_by_user}
use cicd_demo.Logic.Listing.UserOrders.{owned_behind, get_orders_by_user-IsNextPage}
use cicd_demo.Logic.Listing.Details.{AreDetails, get_order_details-AreDetails}
use cicd_demo.Examples.Data.{server, server-IsDocumented, env, order_in, item_in, world}

-- A codec that writes the pages of the first second of 1970 as their IDs.
abbrev written : ℤ → String → Option String
written (pos n) s = if n == 1 then (if str_eq s "" then none else some s) else none
written (negsuc n) s = none

abbrev codec : Codec
codec = record {
  Bytes = String;
  marshal = λ p. written p.cursor_timestamp p.cursor_id;
  unmarshal = λ s. some (record { cursor_id = s; cursor_timestamp = pos 1 });
  encode_to_string = λ s. s;
  decode_string = λ s. some s;
}

first_second :
    (n : ℕ) (s b : String) (x y : Bool)
    → (n == 1) ≡ x
    → str_eq s "" ≡ y
    → (if x then (if y then none else some s) else none) ≡ some b
    → (pos n ≡ pos 1) × (s ≡ b) × (str_eq b "" ≡ false)
first_second n s b true true p q h = cc
first_second n s b true false p q h =
    let same : s ≡ b = cc in
    (ap pos (==→eq n 1 p), same, subst (λ (t : String). str_eq t "" ≡ false) same q)
first_second n s b false y p q h = cc

written-eq :
    (at : ℤ) (s b : String) → written at s ≡ some b → (at ≡ pos 1) × (s ≡ b) × (str_eq b "" ≡ false)
written-eq (pos n) s b h = first_second n s b (n == 1) (str_eq s "") refl refl h
written-eq (negsuc n) s b h = cc

codec-IsCodec : IsCodec codec
codec-IsCodec = record {
  unmarshal-marshal = λ p b h.
      let (at, same, _) = written-eq p.cursor_timestamp p.cursor_id b h in
      λ i. some (record { cursor_id = sym same i; cursor_timestamp = sym at i });
  decode-encode = λ b. refl;
  encode-not_empty = λ p b h. (written-eq p.cursor_timestamp p.cursor_id b h).2;
}

abbrev at_start : World
at_start = world "paid" "paid" "payment" "paid"

-- Two days later.
abbrev later : World
later = record at_start { step = 2 * day }

decode-generate_token_example : (decode ⦃c = codec⦄ ⦃e = env⦄ "7" at_start).0 ≡ (
    if ltb (second / second * second + day) 0
    then err invalid_token
    else ok (some (record { cursor_id = "7"; cursor_timestamp = unix second })))
unfolding decode cicd_demo.Pagination.Cursor.generate_token cicd_demo.Pagination.Cursor.encode
decode-generate_token_example =
    decode-generate_token ⦃c = codec⦄ ⦃e = env⦄ codec-IsCodec 7 second at_start at_start "7" refl

abbrev numbered : ℕ → Time → Order
numbered id created_at = record (order_in "paid") { id = id; created_at = created_at }

-- Five orders of the first second, and one of the one before.
abbrev busy_world : World
busy_world = record at_start {
  db = record at_start.db {
    orders =
        numbered 11 second
        ∷ numbered 12 second
        ∷ numbered 13 second
        ∷ numbered 14 second
        ∷ numbered 7 second
        ∷ numbered 3 0
        ∷ [];
  };
}

abbrev listed : ℕ → Time → OrderWithItems
listed id created_at = record { order = numbered id created_at; items = [] }

abbrev first_page : List OrderWithItems
first_page =
    listed 11 second ∷ listed 12 second ∷ listed 13 second ∷ listed 14 second ∷ listed 7 second ∷ []

get_orders_by_user-IsNextPage_example :
    (all (owned_behind 5 7 (second / second * second)) (listed 3 0 ∷ []) ≡ true)
    × (length (listed 3 0 ∷ []) ≤ 5)
    × ((length (listed 3 0 ∷ []) ≡ 5) ⊎ (◌≡◌ {A = String} "" ""))
unfolding get_orders_by_user cicd_demo.Pagination.Cursor.generate_token
    cicd_demo.Pagination.Cursor.encode decode cicd_demo.Platform.time_now
    cicd_demo.Logic.Listing.page_from cicd_demo.Logic.Listing.cursor_of
    cicd_demo.Logic.Listing.page_behind cicd_demo.Dao.Orders.get_orders_by_user
    cicd_demo.Platform.query cicd_demo.Logic.Listing.next_token
get_orders_by_user-IsNextPage_example =
    get_orders_by_user-IsNextPage ⦃c = codec⦄ ⦃m = server⦄ ⦃e = env⦄ server-IsDocumented
      codec-IsCodec 5 7 second "7" "" busy_world busy_world (listed 3 0 ∷ []) refl
      (λ p. omega arith) (omega arith) refl refl

abbrev details : OrderDetails
details = record { order = order_in "paid"; items = item_in "paid" ∷ []; bills = [] }

-- The bills are deleted after the order and the items have been read.
abbrev interrupted : Schedule
interrupted = record {
  reads = ReadOrder.order_items_bills;
  after_first = λ d. d;
  after_second = λ d. record d { bills = [] };
}

get_order_details-AreDetails_example : AreDetails interrupted 1 at_start.db details
unfolding cicd_demo.Logic.Listing.get_order_details cicd_demo.Logic.Listing.read_details
    cicd_demo.Dao.Orders.get_order_by_id cicd_demo.Platform.query
    cicd_demo.Dao.Orders.get_order_items_by_order_id cicd_demo.Dao.Bills.get_bills_by_order_id
get_order_details-AreDetails_example =
    get_order_details-AreDetails ⦃m = server⦄ ⦃e = env⦄ server-IsDocumented 1 interrupted at_start
      details refl
