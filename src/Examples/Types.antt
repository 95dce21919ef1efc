-- ===== src/Examples/Types.antt =====
-- Ticket types and their stock, at concrete arguments.
use cicd_demo.Base.{true, none, some, [], ◌∷◌, ◌≡◌, refl, all}
use cicd_demo.Models.{TicketType}
use cicd_demo.Platform.{World, ok}
use cicd_demo.Dao.Tickets.Types.{
  get_ticket_types_with_stock_by_event, update_ticket_types_order as write_order,
}
use cicd_demo.Dao.Tickets.Types.Listing.{
  has_no_stock, get_ticket_types_with_stock_by_event-no_stock,
}
use cicd_demo.Dao.Tickets.Types.Picks.{first_pick, update_ticket_types_order-picks}
use cicd_demo.Logic.Tickets.{SessionSale}
use cicd_demo.Logic.Tickets.Types.{UpdateTicketTypeRequest, update_ticket_type}
use cicd_demo.Logic.Tickets.Types.Resync.{Made, update_ticket_type-Made}
use cicd_demo.Examples.Data.{
  server, server-IsDocumented, env, amount, buyer, stock, ticket_type, world,
}

abbrev other_type : TicketType
other_type = record ticket_type { id = 23; pick = 0 }

-- Two ticket types of one event, with the stock of the first.
abbrev typed_world : World
typed_world =
    let w = world "paid" "paid" "payment" "paid" in
    record w { db = record w.db { ticket_types = ticket_type ∷ other_type ∷ [] } }

abbrev update : UpdateTicketTypeRequest
update = record {
  id = 22;
  name = "Seats";
  description = "";
  quantity = 30;
  price = amount 10;
  visibility = true;
  start_showing_on = none;
  stop_showing_on = none;
  updated_by = some buyer;
  min_quantity_per_order = 1;
  max_quantity_per_order = 4;
  due_duration = none;
  sessions = record { id = 3; sale_start_at = 0; sale_end_at = 50 } ∷ [];
  sale_time_setting = "";
  enable = true;
}

update_ticket_type-Made_example :
    Made 22 30
      (record { id = 3; sale_start_at = 0; sale_end_at = 50 } ∷ [])
      (stock ∷ [])
      (update_ticket_type ⦃m = server⦄ ⦃e = env⦄ update typed_world).1.db.ticket_stock
unfolding update_ticket_type cicd_demo.Dao.Tickets.get_ticket_type_by_id cicd_demo.Platform.query
    cicd_demo.Platform.time_now cicd_demo.Dao.Tickets.Types.update_ticket_type
    cicd_demo.Logic.Tickets.Types.sync_sessions cicd_demo.Dao.Tickets.delete_ticket_stock_by_type
    cicd_demo.Platform.execute cicd_demo.Logic.Tickets.add_stock_for
    cicd_demo.Platform.new_object_id cicd_demo.Dao.Tickets.add_ticket_stock
    cicd_demo.Logic.Tickets.Types.finish_update
    cicd_demo.Logic.Audit.build_update_ticket_type_audit_log cicd_demo.Logic.Audit.new_audit_log
    cicd_demo.Dao.Bills.create_audit_log
update_ticket_type-Made_example =
    update_ticket_type-Made ⦃m = server⦄ ⦃e = env⦄ server-IsDocumented update typed_world refl

get_ticket_types_with_stock_by_event-no_stock_example :
    all has_no_stock (
      record { ticket_type = ticket_type; stocks = [] }
      ∷ record { ticket_type = other_type; stocks = [] }
      ∷ [])
    ≡ true
unfolding get_ticket_types_with_stock_by_event cicd_demo.Platform.query
get_ticket_types_with_stock_by_event-no_stock_example =
    get_ticket_types_with_stock_by_event-no_stock ⦃m = server⦄ ⦃e = env⦄ server-IsDocumented 2 []
      typed_world
      (record { ticket_type = ticket_type; stocks = [] }
        ∷ record { ticket_type = other_type; stocks = [] }
        ∷ [])
      refl

update_ticket_types_order-picks_example :
    first_pick 2 23
      (write_order ⦃m = server⦄ ⦃e = env⦄ 2
        (22 ∷ 23 ∷ [])
        (some buyer)
        typed_world).1.db.ticket_types
    ≡ some 1
unfolding cicd_demo.Dao.Tickets.Types.update_ticket_types_order cicd_demo.Platform.time_now
    cicd_demo.Dao.Tickets.Types.write_picks cicd_demo.Platform.execute
update_ticket_types_order-picks_example =
    update_ticket_types_order-picks ⦃m = server⦄ ⦃e = env⦄ server-IsDocumented 2 (22 ∷ 23 ∷ [])
      (some buyer) typed_world refl refl 23
