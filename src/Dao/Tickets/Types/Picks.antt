-- ===== src/Dao/Tickets/Types/Picks.antt =====
-- internal/dao/mongodb/tickets.go: the order that an update gives the ticket types of an event.
use cicd_demo.Base.{
  ℕ, suc, Bool, true, false, Option, none, some, List, [], ◌∷◌, ◌≡◌, refl, ◌∙◌, ◌&&◌, ◌||◌, not,
  ◌==◌, if◌then◌else◌, change_first, arith,
}
use cicd_demo.Models.{ObjectId, Time, User, TicketType}
use cicd_demo.Platform.{
  Mongo, Env, IsDocumented, lists, Sort, on_lists, ok, World, execute, call, time_now,
}
use cicd_demo.Dao.Tickets.Types.{
  is_type_of, set_pick, pick_all, write_picks, update_ticket_types_order,
}

-- The pick of the first ticket type of an event with an ID.
abbrev pub first_pick : ObjectId → ObjectId → List TicketType → Option ℕ
first_pick event_id id [] = none
first_pick event_id id (t ∷ ts) =
    if is_type_of event_id id t then some t.pick else first_pick event_id id ts

abbrev pub contains : ObjectId → List ObjectId → Bool
contains id [] = false
contains id (x ∷ xs) = x == id || contains id xs

abbrev pub distinct : List ObjectId → Bool
distinct [] = true
distinct (x ∷ xs) = not (contains x xs) && distinct xs

-- Where an ID stands in a list, counted from `i`.
abbrev pub position : ObjectId → ℕ → List ObjectId → Option ℕ
position id i [] = none
position id i (x ∷ xs) = if x == id then some i else position id (suc i) xs

-- The pick of a ticket type that had one: the new one, if there is a new one.
abbrev pub chosen : Option ℕ → Option ℕ → Option ℕ
chosen new none = none
chosen none (some old) = some old
chosen (some i) (some old) = some i

position-none :
    (id : ObjectId) (i : ℕ) (ids : List ObjectId)
    → contains id ids ≡ false
    → position id i ids ≡ none
position-none id i [] h = refl
position-none id i (x ∷ xs) h = ground (arith, position-none id (suc i) xs)

module _ (event_id : ObjectId) (u : User) (now : Time) where
  first_pick-set :
      (id x : ObjectId) (i : ℕ) (ts : List TicketType)
      → first_pick event_id id (change_first (is_type_of event_id x) (set_pick i u now) ts) ≡ (
          if x == id
          then chosen (some i) (first_pick event_id id ts)
          else first_pick event_id id ts)
  first_pick-set id x i [] = ground arith
  first_pick-set id x i (t ∷ ts) = ground (arith, first_pick-set id x i ts)

  picked :
      (order : Sort) (id : ObjectId) (i : ℕ) (ids : List ObjectId) (ts : List TicketType)
      → distinct ids ≡ true
      → first_pick event_id id (pick_all ⦃m = on_lists order⦄ event_id u now i ids ts)
        ≡ chosen (position id i ids) (first_pick event_id id ts)
  picked order id i [] ts h = ground arith
  picked order id i (x ∷ xs) ts h =
      picked order id (suc i) xs (change_first (is_type_of event_id x) (set_pick i u now) ts)
        (ground arith)
      ∙ ground (arith, first_pick-set id x i ts, position-none id (suc i) xs)

-- A bulk that takes effect, on a documented server, in the state that it is given.
written :
    ⦃m : Mongo⦄ ⦃e : Env⦄
    → IsDocumented m
    → (event_id : ObjectId) (u : User) (now : Time) (ids : List ObjectId) (w : World)
      (id : ObjectId)
    → distinct ids ≡ true
    → (write_picks event_id u now ids w).0 ≡ ok tt
    → first_pick event_id id (write_picks event_id u now ids w).1.db.ticket_types
      ≡ chosen (position id 0 ids) (first_pick event_id id w.db.ticket_types)
unfolding write_picks execute call
written (lists order p) event_id u now ids w id h done =
    ground (arith, picked event_id u now order id 0 ids w.db.ticket_types)

-- When UpdateTicketTypesOrder returns a nil error for IDs that are distinct, on a documented server,
-- every ticket type of the event that is listed has its place in the list as its pick, and the
-- others have the pick that they had.
pub update_ticket_types_order-picks :
    ⦃m : Mongo⦄ ⦃e : Env⦄
    → IsDocumented m
    → (event_id : ObjectId) (ids : List ObjectId) (operator : Option User) (w : World)
    → distinct ids ≡ true
    → (update_ticket_types_order event_id ids operator w).0 ≡ ok tt
    → (id : ObjectId)
    → first_pick event_id id (update_ticket_types_order event_id ids operator w).1.db.ticket_types
      ≡ chosen (position id 0 ids) (first_pick event_id id w.db.ticket_types)
unfolding update_ticket_types_order time_now write_picks
update_ticket_types_order-picks d event_id [] operator w h done id = ground arith
update_ticket_types_order-picks d event_id (x ∷ xs) none w h done id = cc
update_ticket_types_order-picks ⦃m⦄ ⦃e⦄ d event_id (x ∷ xs) (some u) w h done id =
    written d event_id u (e.now w.step) (x ∷ xs) (record w { step = suc w.step }) id h done
