-- ===== src/Dao/Tickets/Types.antt =====
-- internal/dao/mongodb/tickets.go: the listings and the updates of ticket types.
pub mod Listing
pub mod Picks
use cicd_demo.Base.{
  ℕ, suc, String, Bool, true, false, Option, none, some, List, [], ◌∷◌, ◌++◌, ◌&&◌, ◌||◌, not, map,
  head?, any, leb, ltb, ◌==◌, str_eq, if◌then◌else◌,
}
use cicd_demo.Models.{
  ObjectId, Time, User, TicketType, TicketStock, TicketStockWithType, TicketTypeWithStock,
}
use cicd_demo.Platform.{
  Mongo, Env, Db, Outcome, ok, err, panic, World, M, pure, raise, or_raise, deref, ◌>>=◌, ◌>>◌,
  driver_error, no_documents, panics, nil_dereference, call, query, execute, time_now,
}
use cicd_demo.Repository.{GetTicketsOption, GetTicketsOptions, apply_tickets_options}
use cicd_demo.Dao.Tickets.{decode_all, with_type, flat_with_type}

-- `{"$lte": now}` and `{"$gte": now}` on a time, which null does not pass.
abbrev pub is_up_to : Time → Option Time → Bool
is_up_to now none = false
is_up_to now (some t) = leb t now

abbrev pub is_from : Time → Option Time → Bool
is_from now none = false
is_from now (some t) = leb now t

-- `{"gt": now}` and `{"lt": now}`, without a dollar sign: equality with a document of one field,
-- which neither a time nor null has.
abbrev is_document : Option Time → Bool
is_document _ = false

abbrev pub is_shown_at : Time → TicketType → Bool
is_shown_at now t = t.visible && (is_up_to now t.start_show_at && is_from now t.stop_show_at)

abbrev is_hidden : TicketType → Bool
is_hidden t = not t.visible || (is_document t.start_show_at || is_document t.stop_show_at)

abbrev bool_eq : Bool → Bool → Bool
bool_eq true b = b
bool_eq false b = not b

-- One entry of `orConditions` for each option that is set.
abbrev display_condition : Option Bool → List (TicketType → Bool)
display_condition none = []
display_condition (some b) = (λ t. bool_eq b t.always_display) ∷ []

abbrev showing_condition : Time → Option Bool → List (TicketType → Bool)
showing_condition now none = []
showing_condition now (some true) = is_shown_at now ∷ []
showing_condition now (some false) = is_hidden ∷ []

-- The `$or` of the conditions, left out where there are none.
abbrev passes : List (TicketType → Bool) → TicketType → Bool
passes [] t = true
passes (c ∷ cs) t = any (λ d. d t) (c ∷ cs)

-- A document of the aggregation, read into the struct: the array that `$lookup` adds under the
-- name `tickets` is read where the struct has that name; its field is tagged `stocks`.
abbrev lookup_as : String
lookup_as = "tickets"

abbrev stocks_tag : String
stocks_tag = "stocks"

abbrev read_stocks : String → List TicketStock → List TicketStock
read_stocks name found = if str_eq name stocks_tag then found else []

-- The driver hands back no result with an error, except for a write error, which matches nothing.
abbrev pub update_failure : Bool → Outcome Bool × World → Outcome Bool × World
update_failure has_result (ok a, w) = (ok a, w)
update_failure true (err x, w) = (ok false, w)
update_failure false (err x, w) = (panic nil_dereference, w)
update_failure has_result (panic p, w) = (panic p, w)

abbrev pub update_result : ⦃e : Env⦄ → M Bool → M Bool
update_result ⦃e⦄ action w = update_failure (e.has_update_result w.step) (action w)

-- What `$set` of `UpdateTicketType` writes: not the quantity, and not `always_display`.
abbrev pub set_ticket_type : TicketType → Time → User → TicketType → TicketType
set_ticket_type t updated_at updated_by old = record old {
  name = t.name;
  price = t.price;
  desc = t.desc;
  visible = t.visible;
  start_show_at = t.start_show_at;
  stop_show_at = t.stop_show_at;
  updated_at = some updated_at;
  updated_by = some updated_by;
  min_quantity_per_order = t.min_quantity_per_order;
  max_quantity_per_order = t.max_quantity_per_order;
  due_duration = t.due_duration;
  enable = t.enable;
  sale_setting = t.sale_setting;
}

abbrev pub set_pick : ℕ → User → Time → TicketType → TicketType
set_pick i operator now t = record t { pick = i; updated_by = some operator; updated_at = some now }

abbrev pub is_type_of : ObjectId → ObjectId → TicketType → Bool
is_type_of event_id id t = t.event == event_id && t.id == id

abbrev by_pick : TicketTypeWithStock → TicketTypeWithStock → Bool
by_pick a b = leb a.ticket_type.pick b.ticket_type.pick

abbrev by_pick_and_id : TicketStockWithType → TicketStockWithType → Bool
by_pick_and_id a b =
    ltb a.ticket_type.pick b.ticket_type.pick
    || (a.ticket_type.pick == b.ticket_type.pick && leb a.stock.id b.stock.id)

module _ ⦃m : Mongo⦄ where
  abbrev with_stocks : Db → TicketType → TicketTypeWithStock
  with_stocks d t = record {
    ticket_type = t;
    stocks = read_stocks lookup_as (m.find TicketStock (λ s. s.stock_type == t.id) d.ticket_stock);
  }

  -- The writes of the bulk, from the index `i` on. The bulk is not ordered: where an ID is listed
  -- twice the server may end with either index, and this is one of the orders.
  abbrev pub pick_all :
      ObjectId → User → Time → ℕ → List ObjectId → List TicketType → List TicketType
  pick_all event_id operator now i [] types = types
  pick_all event_id operator now i (id ∷ ids) types =
      pick_all event_id operator now (suc i) ids
        (m.update_one TicketType (is_type_of event_id id) (set_pick i operator now) types)

module _ ⦃m : Mongo⦄ ⦃e : Env⦄ where
  -- The clock is read only where the option asks for it.
  showing_conditions : Option Bool → M (List (TicketType → Bool))
  showing_conditions none = pure []
  showing_conditions (some b) = do now ← time_now; pure (showing_condition now (some b))

  -- The stages of the aggregation.
  abbrev listing : ObjectId → Option Bool → List (TicketType → Bool) → Db → List TicketTypeWithStock
  listing event_id display showing d =
      let wanted = λ (t : TicketType).
        t.event == event_id && passes (display_condition display ++ showing) t in
      m.sort TicketTypeWithStock by_pick
        (map (with_stocks d) (m.find TicketType wanted d.ticket_types))

  unfoldable pub get_ticket_types_with_stock_by_event :
      ObjectId → List GetTicketsOption → M (List TicketTypeWithStock)
  unfolding showing_conditions
  get_ticket_types_with_stock_by_event event_id opts = do
    let o = apply_tickets_options opts (record { display = none; is_showing = none })
    showing ← showing_conditions o.is_showing
    query (listing event_id o.display showing)

  unfoldable pub update_ticket_type : TicketType → M Unit
  update_ticket_type t = do
    updated_at ← deref t.updated_at
    updated_by ← deref t.updated_by
    let change = set_ticket_type t updated_at updated_by
    matched ← update_result (
        call (λ d.
          let mine = λ (u : TicketType). u.id == t.id in
          (
            any (λ _. Bool.true) (m.find TicketType mine d.ticket_types),
            record d { ticket_types = m.update_one TicketType mine change d.ticket_types },
          )))
    if matched then pure tt else raise no_documents

  -- `BulkWrite`
  unfoldable pub write_picks : ObjectId → User → Time → List ObjectId → M Unit
  write_picks event_id operator now ids =
      execute (λ d. record d { ticket_types = pick_all event_id operator now 0 ids d.ticket_types })

  unfoldable pub update_ticket_types_order : ObjectId → List ObjectId → Option User → M Unit
  update_ticket_types_order event_id [] operator = pure tt
  update_ticket_types_order event_id (id ∷ ids) operator = do
    now ← time_now
    u ← deref operator
    write_picks event_id u now (id ∷ ids)

  unfoldable pub get_ticket_stock_with_type_by_session : ObjectId → M (List TicketStockWithType)
  get_ticket_stock_with_type_by_session session_id = do
    now ← time_now
    found ← query (λ d.
        let in_session = λ (s : TicketStock). s.session == session_id in
        let shown = λ (r : TicketStockWithType).
          r.ticket_type.always_display || is_shown_at now r.ticket_type in
        let joined = flat_with_type d (m.find TicketStock in_session d.ticket_stock) in
        decode_all
          (m.sort TicketStockWithType by_pick_and_id (m.find TicketStockWithType shown joined)))
    or_raise found driver_error
