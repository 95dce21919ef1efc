-- ===== src/Dao/Tickets/Types/Listing.antt =====
-- internal/dao/mongodb/tickets.go: what a listing of ticket types says of their stock.
use mathlib.Core.List.{Perm}
use cicd_demo.Base.{
  Bool, true, false, none, List, [], ◌∷◌, ◌≡◌, refl, ◌∙◌, map, all, all-Perm, arith,
}
use cicd_demo.Models.{ObjectId, TicketType, TicketStock, TicketTypeWithStock}
use cicd_demo.Repository.{GetTicketsOption, GetTicketsOptions, apply_tickets_options}
use cicd_demo.Platform.{Mongo, Env, IsDocumented, lists, Db, ok, World, query, call}
use cicd_demo.Platform.Frame.{bind-eq-ok}
use cicd_demo.Dao.Tickets.Types.{
  with_stocks, listing, showing_conditions, get_ticket_types_with_stock_by_event,
}

abbrev is_empty : List TicketStock → Bool
is_empty [] = true
is_empty (s ∷ ss) = false

abbrev pub has_no_stock : TicketTypeWithStock → Bool
has_no_stock t = is_empty t.stocks

module _ ⦃m : Mongo⦄ where
  none_read :
      (d : Db) (types : List TicketType) → all has_no_stock (map (with_stocks d) types) ≡ true
  none_read d [] = refl
  none_read d (t ∷ ts) = none_read d ts

listed_of :
    ⦃m : Mongo⦄
    → IsDocumented m
    → (le : TicketTypeWithStock → TicketTypeWithStock → Bool) (d : Db) (types : List TicketType)
    → all has_no_stock (m.sort TicketTypeWithStock le (map (with_stocks d) types)) ≡ true
listed_of (lists order p) le d types =
    let le' : Perm (order TicketTypeWithStock le (map (with_stocks d) types))
        (map (with_stocks d) types) =
      p _ le _ in
    all-Perm has_no_stock le' ∙ none_read d types

module _ ⦃m : Mongo⦄ ⦃e : Env⦄ (d : IsDocumented m) where
  queried :
      (f : Db → List TicketTypeWithStock) (w : World) (found : List TicketTypeWithStock)
      → ((b : Db) → all has_no_stock (f b) ≡ true)
      → (query f w).0 ≡ ok found
      → all has_no_stock found ≡ true
  unfolding query call
  queried f w found h k = ground (arith, h w.db)

  -- Whatever stock there is, a listing of the ticket types of an event, on a documented server,
  -- shows none.
  pub get_ticket_types_with_stock_by_event-no_stock :
      (event_id : ObjectId) (opts : List GetTicketsOption) (w : World)
      (found : List TicketTypeWithStock)
      → (get_ticket_types_with_stock_by_event event_id opts w).0 ≡ ok found
      → all has_no_stock found ≡ true
  unfolding get_ticket_types_with_stock_by_event
  get_ticket_types_with_stock_by_event-no_stock event_id opts w found h =
      let o : GetTicketsOptions =
        apply_tickets_options opts (record { display = none; is_showing = none }) in
      let (showing, _, h1, _) =
        bind-eq-ok (showing_conditions o.is_showing)
          (λ showing. query (listing event_id o.display showing)) w found h in
      queried (listing event_id o.display showing) _ found (λ b. listed_of d _ b _) h1
