-- ===== src/Examples/Checkout.antt =====
-- The items of a new order, at concrete arguments.
use cicd_demo.Base.{true, some, none, List, [], ◌∷◌, ◌≡◌, refl, length}
use cicd_demo.Models.{TicketType, TicketStockWithType}
use cicd_demo.Platform.{World, ok}
use cicd_demo.Dao.Tickets.{get_valid_tickets_by_ids}
use cicd_demo.Logic.Checkout.{OrderLine, BuiltItems, validate_and_build_order_items}
use cicd_demo.Logic.Checkout.Items.{IsBuilt, validate_and_build_order_items-IsBuilt}
use cicd_demo.Examples.Data.{server, env, buyer, amount, item_in, world}

abbrev seat_type : TicketType
seat_type = record {
  id = 22;
  event = 2;
  name = "Seat";
  quantity = 40;
  price = amount 10;
  desc = "";
  visible = true;
  always_display = true;
  start_show_at = none;
  pick = 1;
  stop_show_at = none;
  updated_at = none;
  created_at = 0;
  created_by = buyer;
  updated_by = none;
  min_quantity_per_order = 1;
  max_quantity_per_order = 4;
  due_duration = none;
  enable = true;
  sale_setting = "";
}

abbrev lines : List OrderLine
lines = record { ticket_stock = 21; quantity = 1 } ∷ []

abbrev sale_world : World
sale_world =
    let w = world "unpaid" "pending_payment" "payment" "pending" in
    record w { db = record w.db { ticket_types = seat_type ∷ [] } }

abbrev built_items : BuiltItems
built_items = record {
  items = record (item_in "pending_payment") { id = 103; order = 0; updated_by = some buyer } ∷ [];
  subtotal = amount 10;
  total = amount 10;
  event_id = 2;
  session_id = 3;
}

validate_and_build_order_items-IsBuilt_example :
    (ts : List TicketStockWithType) × ((get_valid_tickets_by_ids ⦃m = server⦄ ⦃e = env⦄
        (21 ∷ [])
        sale_world).0
      ≡ ok ts)
    × (length ts ≡ 1)
    × IsBuilt lines ts built_items.items
unfolding validate_and_build_order_items get_valid_tickets_by_ids cicd_demo.Platform.time_now
    cicd_demo.Platform.query cicd_demo.Logic.Checkout.build_from
    cicd_demo.Logic.Checkout.build_items cicd_demo.Logic.Checkout.check_line
    cicd_demo.Logic.Checkout.unroll cicd_demo.Platform.new_object_id
validate_and_build_order_items-IsBuilt_example =
    validate_and_build_order_items-IsBuilt ⦃m = server⦄ ⦃e = env⦄ lines 0 (some buyer) sale_world
      built_items refl
