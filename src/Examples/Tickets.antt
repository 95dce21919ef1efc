-- ===== src/Examples/Tickets.antt =====
-- Tickets, their stock, the outbox and the pages, at concrete arguments.
use cicd_demo.Base.{
  suc, ◌+◌, ◌*◌, ◌^◌, ◌≤◌, ◌<◌, ◌↔◌, true, false, some, [], ◌∷◌, ◌≡◌, ◌≢◌, refl, arith, length,
  keep, any,
}
use cicd_demo.Constants.OrderStatus
use cicd_demo.Constants.OrderStatus.{OrderStatus}
use cicd_demo.Constants.OrderItemStatus
use cicd_demo.Constants.OrderItemStatus.{OrderItemStatus}
use cicd_demo.Constants.BillStatus
use cicd_demo.Constants.BillStatus.{BillStatus}
use cicd_demo.Constants.TicketStatus
use cicd_demo.Constants.TicketStatus.{TicketStatus}
use cicd_demo.Constants.RoundTrip.{parse-to_string}
use cicd_demo.Models.{Ticket}
use cicd_demo.Platform.{World, ok, call, query, execute, time_now, new_object_id}
use cicd_demo.Dao.Outbox.{claim}
use cicd_demo.Dao.Outbox.Claims.{claim_exclusive}
use cicd_demo.Dao.Tickets.{
  get_ticket_by_id, is_overdue, expire_tickets, reserve_tickets, release_tickets,
  count_tickets_by_order, mark_ticket_as_used,
}
use cicd_demo.Dao.Tickets.Validity.{usable_count, expired_count, expire_tickets_lem}
use cicd_demo.Dao.Tickets.Stock.{
  stock_of, taken_from, count_from, reserve_tickets_gain, release_tickets_gain,
}
use cicd_demo.Dao.Tickets.Lookup.{count_tickets_by_order_zero}
use cicd_demo.Logic.Tickets.{is_outside, check_in_ticket}
use cicd_demo.Logic.Tickets.{generate_tickets}
use cicd_demo.Logic.Tickets.CheckIn.{check_in_ticket_once}
use cicd_demo.Logic.Orders.{can_update_order_item_status}
use cicd_demo.Logic.Orders.Items.{ItemTransition, can_update_order_item_status_iff}
use cicd_demo.Pagination.{pos, negsuc, new_page_request, get_limit, get_offset, total_pages}
use cicd_demo.Pagination.Pages.{page_of, new_page_request_bounds, row_on_page}
use cicd_demo.Worker.{start}
use cicd_demo.Worker.Messages.{is_processing}
use cicd_demo.Worker.Rounds.{start_settles}
use cicd_demo.Logic.Tickets.Issue.{AreTicketsFor, generate_tickets-AreTicketsFor}
use cicd_demo.Examples.Data.{
  server, server-IsDocumented, env, buyer, order_in, item_in, ticket, world,
}

abbrev paid_world : World
paid_world = world "paid" "paid" "payment" "paid"

abbrev checked_in : Ticket
checked_in = record ticket {
  status = "used";
  used_at = some 1;
  checked_in_by = some buyer;
  updated_at = 2;
}

check_in_ticket_once_example :
    (t : Ticket) × ((get_ticket_by_id ⦃m = server⦄ ⦃e = env⦄ 31 paid_world).0 ≡ ok t)
    × (t.status ≡ "valid")
    × (is_outside 1 t ≡ false)
    × (suc
          (usable_count 31 (check_in_ticket ⦃m = server⦄ ⦃e = env⦄ 31 (some buyer) paid_world).1.db)
        ≡ usable_count 31 paid_world.db)
unfolding check_in_ticket get_ticket_by_id query call cicd_demo.Logic.Tickets.check_in
    cicd_demo.Logic.Tickets.use_ticket time_now mark_ticket_as_used
    cicd_demo.Logic.Tickets.finish_check_in cicd_demo.Logic.Audit.build_check_in_ticket_audit_log
    cicd_demo.Logic.Audit.new_audit_log new_object_id cicd_demo.Dao.Bills.create_audit_log execute
check_in_ticket_once_example =
    check_in_ticket_once ⦃m = server⦄ ⦃e = env⦄ server-IsDocumented 31 (some buyer) paid_world
      checked_in refl

expire_tickets_lem_example :
    (1 ≡ length (keep (is_overdue 60) paid_world.db.tickets))
    × (any (is_overdue 60) (expire_tickets ⦃m = server⦄ ⦃e = env⦄ 60 paid_world).1.db.tickets
        ≡ false)
    × (expired_count (expire_tickets ⦃m = server⦄ ⦃e = env⦄ 60 paid_world).1.db
        ≡ 1 + expired_count paid_world.db)
unfolding expire_tickets call
expire_tickets_lem_example =
    expire_tickets_lem ⦃m = server⦄ ⦃e = env⦄ server-IsDocumented 60 paid_world 1 refl

reserve_tickets_gain_example :
    stock_of 21
        (reserve_tickets ⦃m = server⦄ ⦃e = env⦄
          (item_in "paid" ∷ [])
          (some buyer)
          paid_world).1.db.ticket_stock
      + taken_from 21 (item_in "paid" ∷ [])
    ≡ stock_of 21 paid_world.db.ticket_stock + 2 ^ 32 * count_from 21 (item_in "paid" ∷ [])
unfolding reserve_tickets call time_now
reserve_tickets_gain_example =
    reserve_tickets_gain ⦃m = server⦄ ⦃e = env⦄ server-IsDocumented (item_in "paid" ∷ []) buyer
      paid_world 21 ((omega arith, omega arith), tt) refl

release_tickets_gain_example :
    stock_of 21
      (release_tickets ⦃m = server⦄ ⦃e = env⦄ (item_in "paid" ∷ []) paid_world).1.db.ticket_stock
    ≡ stock_of 21 paid_world.db.ticket_stock + taken_from 21 (item_in "paid" ∷ [])
unfolding release_tickets execute call time_now
release_tickets_gain_example =
    release_tickets_gain ⦃m = server⦄ ⦃e = env⦄ server-IsDocumented (item_in "paid" ∷ []) paid_world
      21 (refl, tt) refl

count_tickets_by_order_zero_example :
    (count_tickets_by_order ⦃m = server⦄ ⦃e = env⦄ 1 paid_world).0 ≢ ok 3
count_tickets_by_order_zero_example =
    count_tickets_by_order_zero ⦃m = server⦄ ⦃e = env⦄ server-IsDocumented 1 paid_world 2

claim_exclusive_example :
    (claim ⦃m = server⦄ ⦃e = env⦄
      (41 ∷ [])
      52
      (claim ⦃m = server⦄ ⦃e = env⦄ (41 ∷ []) 51 paid_world).1).0
    ≢ ok 1
unfolding claim call time_now
claim_exclusive_example =
    claim_exclusive ⦃m = server⦄ server-IsDocumented env env (41 ∷ []) 51 52 paid_world
      (claim ⦃m = server⦄ ⦃e = env⦄ (41 ∷ []) 51 paid_world).1 1 0 refl refl

can_update_order_item_status_iff_example :
    (can_update_order_item_status OrderItemStatus.paid OrderItemStatus.fulfilled ≡ true)
    ↔ ItemTransition OrderItemStatus.paid OrderItemStatus.fulfilled
can_update_order_item_status_iff_example =
    can_update_order_item_status_iff OrderItemStatus.paid OrderItemStatus.fulfilled

new_page_request_bounds_example :
    (1 ≤ (new_page_request (negsuc 2) (pos 500)).page)
    × (1 ≤ get_limit (new_page_request (negsuc 2) (pos 500)))
    × (get_limit (new_page_request (negsuc 2) (pos 500)) ≤ 100)
new_page_request_bounds_example = new_page_request_bounds (negsuc 2) (pos 500)

row_on_page_example :
    (3 ≤ total_pages 25 (page_of 20 10))
    × (get_offset (page_of 20 10) ≡ pos 20)
    × (20 ≤ 20)
    × (20 < 20 + get_limit (page_of 20 10))
row_on_page_example = row_on_page 20 25 10 (omega arith) (omega arith) (omega arith) (omega arith)

parse-to_string_example :
    (OrderStatus.parse "pending_refund" ≡ OrderStatus.pending_refund)
    × (OrderItemStatus.parse "delivered" ≡ OrderItemStatus.fulfilled)
    × (BillStatus.parse "refunded" ≡ BillStatus.refunded)
    × (TicketStatus.parse "used" ≡ TicketStatus.used)
parse-to_string_example =
    parse-to_string OrderStatus.pending_refund OrderItemStatus.fulfilled BillStatus.refunded
      TicketStatus.used

abbrev issued : Ticket
issued = record ticket {
  id = 100;
  valid_from = 0;
  valid_until = 50;
  created_at = 1;
  updated_at = 1;
}

generate_tickets-AreTicketsFor_example :
    AreTicketsFor (order_in "paid") (item_in "paid" ∷ []) (issued ∷ [])
unfolding generate_tickets cicd_demo.Logic.Tickets.generate_ticket new_object_id time_now
    cicd_demo.Platform.outside_call
generate_tickets-AreTicketsFor_example =
    generate_tickets-AreTicketsFor ⦃m = server⦄ ⦃e = env⦄ (order_in "paid") (item_in "paid" ∷ [])
      paid_world (issued ∷ []) refl

start_settles_example :
    ((start ⦃m = server⦄ ⦃e = env⦄ 10 2 paid_world).0 ≡ ok tt)
    × (any (is_processing 41) (start ⦃m = server⦄ ⦃e = env⦄ 10 2 paid_world).1.db.outbox ≡ false)
start_settles_example =
    start_settles ⦃m = server⦄ ⦃e = env⦄ server-IsDocumented (λ n. refl) 10 2 paid_world 41
      (refl, tt) refl
