-- ===== src/Dao/Tickets.antt =====
-- internal/dao/mongodb/tickets.go: ticket types, their stock per session, and issued tickets.
pub mod Lookup
pub mod Stock
pub mod Types
pub mod Validity
use cicd_demo.Base.{
  ℕ, ◌+◌, ◌-◌, ◌%◌, ◌^◌, String, Bool, true, false, Option, none, some, List, [], ◌∷◌, ◌++◌, ◌&&◌,
  map, length, head?, any, leb, ltb, ◌==◌, str_eq, if◌then◌else◌,
}
use cicd_demo.Constants.TicketStatus
use cicd_demo.Constants.TicketStatus.{TicketStatus}
use cicd_demo.Models.{
  ObjectId, Time, User, OrderItem, TicketType, TicketStock, Ticket, TicketStockWithType, BsonValue,
  bson_eq, stock_field,
}
use cicd_demo.Platform.{
  Mongo, Env, Db, Error, Outcome, ok, err, panic, World, M, pure, raise, or_raise, ◌>>=◌, ◌>>◌,
  driver_error, no_documents, insufficient_stock, panics, nil_dereference, call, query, execute,
  time_now,
}

-- `-item.Quantity` on a uint32
abbrev pub negate_uint32 : ℕ → ℕ
negate_uint32 q = (2 ^ 32 - q) % 2 ^ 32

abbrev pub is_on_sale : Time → TicketStock → Bool
is_on_sale now s = leb s.sale_start_at now && leb now s.sale_end_at

abbrev pub has_id : List ObjectId → TicketStock → Bool
has_id ids s = any (λ i. s.id == i) ids

-- `{"_id": id, "status": "valid"}`
abbrev pub is_usable : ObjectId → Ticket → Bool
is_usable id t = t.id == id && str_eq t.status (TicketStatus.to_string TicketStatus.valid)

-- `{"status": "valid", "valid_until": {"$lt": now}}`, and what is set
abbrev pub is_overdue : Time → Ticket → Bool
is_overdue now t =
    str_eq t.status (TicketStatus.to_string TicketStatus.valid) && ltb t.valid_until now

abbrev pub set_expired : Time → Ticket → Ticket
set_expired now t = record t {
  status = TicketStatus.to_string TicketStatus.expired;
  updated_at = now;
}

-- `{"config": id}`, which names a field that a stock document does not have.
abbrev has_config : ObjectId → TicketStock → Bool
has_config id s = elim (stock_field "config" s) [
  | none ↦ Bool.false
  | some v ↦ bson_eq v (BsonValue.object_id id)
]

-- A stock document that is read into the struct, whose quantity is a uint32.
abbrev pub decode_all : ⦃e : Env⦄ → List TicketStockWithType → Option (List TicketStockWithType)
decode_all [] = some []
decode_all ⦃e⦄ (t ∷ ts) = elim (e.decode_uint32 t.stock.quantity) [
  | none ↦ none
  | some q ↦ elim (decode_all ts) [
    | none ↦ none
    | some rest ↦ some (record t { stock = record t.stock { quantity = q } } ∷ rest)
  ]
]

-- A failed bulk write that is a BulkWriteException is taken for a lack of stock.
abbrev bulk_error : Bool → Error → Error
bulk_error true _ = insufficient_stock
bulk_error false x = x

abbrev bulk_outcome : {A : Type 0} → Bool → Outcome A × World → Outcome A × World
bulk_outcome b (ok a, w) = (ok a, w)
bulk_outcome b (err x, w) = (err (bulk_error b x), w)
bulk_outcome b (panic p, w) = (panic p, w)

abbrev bulk_failure : ⦃e : Env⦄ → {A : Type 0} → M A → M A
bulk_failure ⦃e⦄ action w = bulk_outcome (e.is_bulk_write_exception w.step) (action w)

abbrev pub has_stock_for : OrderItem → TicketStock → Bool
has_stock_for i s = s.id == i.ticket_stock && leb i.quantity s.quantity

module _ ⦃m : Mongo⦄ where
  -- One write of the bulk: `$inc` of the quantity of the stock of an item.
  abbrev pub release_one : Time → OrderItem → List TicketStock → List TicketStock
  release_one now i stock =
      m.update_one TicketStock (λ s. s.id == i.ticket_stock)
        (λ s. record s { quantity = s.quantity + i.quantity; updated_at = now }) stock

  abbrev pub release_all : Time → List OrderItem → List TicketStock → List TicketStock
  release_all now [] stock = stock
  release_all now (i ∷ is) stock = release_all now is (release_one now i stock)

  abbrev pub reserve_one : Time → User → OrderItem → List TicketStock → List TicketStock
  reserve_one now user i stock =
      m.update_one TicketStock (has_stock_for i)
        (λ s. record s {
          quantity = s.quantity + negate_uint32 i.quantity;
          updated_at = now;
          updated_by = user;
        })
        stock

  -- The number of writes of the bulk that changed a document, and the stock after it.
  abbrev pub reserve_all : Time → User → List OrderItem → List TicketStock → ℕ × List TicketStock
  reserve_all now user [] stock = (0, stock)
  reserve_all now user (i ∷ is) stock =
      let rest = reserve_all now user is (reserve_one now user i stock) in
      (
        (if any (λ _. Bool.true) (m.find TicketStock (has_stock_for i) stock) then 1 else 0)
            + rest.0,
        rest.1,
      )

module _ ⦃m : Mongo⦄ ⦃e : Env⦄ where
  -- The filter compares the stored `order`, the serial number, with an ObjectID.
  unfoldable pub count_tickets_by_order : ObjectId → M ℕ
  count_tickets_by_order order_id = query (λ d.
      let mine =
        λ (t : Ticket). bson_eq (BsonValue.integer t.order) (BsonValue.object_id order_id) in
      length (m.find Ticket mine d.tickets))

  unfoldable pub create_many_tickets : List Ticket → M Unit
  create_many_tickets [] = pure tt
  create_many_tickets (t ∷ ts) =
      execute (λ d. record d { tickets = m.insert_many Ticket (t ∷ ts) d.tickets })

  unfoldable pub add_ticket_type : TicketType → M ObjectId
  add_ticket_type t = do
    execute (λ d. record d { ticket_types = m.insert_many TicketType (t ∷ []) d.ticket_types })
    pure t.id

  unfoldable pub add_ticket_stock : TicketStock → M Unit
  add_ticket_stock t =
      execute (λ d. record d { ticket_stock = m.insert_many TicketStock (t ∷ []) d.ticket_stock })

  -- FindOneAndDelete; none where no document has the ID.
  unfoldable pub delete_ticket_type_by_id : ObjectId → M (Option TicketType)
  delete_ticket_type_by_id id = call (λ d.
      let mine = λ (t : TicketType). t.id == id in
      (
        head? (m.find TicketType mine d.ticket_types),
        record d { ticket_types = m.delete_one TicketType mine d.ticket_types },
      ))

  unfoldable pub get_ticket_type_by_id : ObjectId → M TicketType
  get_ticket_type_by_id id = do
    found ← query (λ d. head? (m.find TicketType (λ t. t.id == id) d.ticket_types))
    or_raise found no_documents

  -- The `$lookup` of the type of a stock, and the `$unwind`.
  abbrev pub with_type : Db → TicketStock → List TicketStockWithType
  with_type d s =
      map (λ t. record { stock = s; ticket_type = t })
        (m.find TicketType (λ t. t.id == s.stock_type) d.ticket_types)

  abbrev pub flat_with_type : Db → List TicketStock → List TicketStockWithType
  flat_with_type d [] = []
  flat_with_type d (s ∷ ss) = with_type d s ++ flat_with_type d ss

  unfoldable pub get_valid_tickets_by_ids : List ObjectId → M (List TicketStockWithType)
  get_valid_tickets_by_ids ids = do
    start ← time_now
    end ← time_now
    found ← query (λ d.
        let on_sale = λ (s : TicketStock).
          has_id ids s && (leb s.sale_start_at start && leb end s.sale_end_at) in
        decode_all (flat_with_type d (m.find TicketStock on_sale d.ticket_stock)))
    or_raise found driver_error

  unfoldable pub release_tickets : List OrderItem → M Unit
  release_tickets [] = pure tt
  release_tickets (i ∷ is) = do
    now ← time_now
    execute (λ d. record d { ticket_stock = release_all now (i ∷ is) d.ticket_stock })

  unfoldable pub reserve_tickets : List OrderItem → Option User → M Unit
  reserve_tickets [] user = pure tt
  reserve_tickets (i ∷ is) none = panics nil_dereference
  reserve_tickets (i ∷ is) (some user) = do
    now ← time_now
    modified ← bulk_failure (
        call (λ d.
          let done = reserve_all now user (i ∷ is) d.ticket_stock in
          (done.0, record d { ticket_stock = done.1 })))
    if modified == length (i ∷ is) then pure tt else raise insufficient_stock

  unfoldable pub delete_ticket_stock_by_type : ObjectId → M Unit
  delete_ticket_stock_by_type type_id = execute (λ d. record d {
    ticket_stock = m.delete_many TicketStock (has_config type_id) d.ticket_stock;
  })

  unfoldable pub get_ticket_by_order_item_id : ObjectId → M Ticket
  get_ticket_by_order_item_id item_id = do
    found ← query (λ d. head? (m.find Ticket (λ t. t.order_item.id == item_id) d.tickets))
    or_raise found no_documents

  unfoldable pub update_ticket_status : ObjectId → String → M Unit
  update_ticket_status id status = do
    now ← time_now
    let set = λ (t : Ticket). record t { status = status; updated_at = now }
    matched ← call (λ d.
        let mine = λ (t : Ticket). t.id == id in
        (
          any (λ _. Bool.true) (m.find Ticket mine d.tickets),
          record d { tickets = m.update_one Ticket mine set d.tickets },
        ))
    if matched then pure tt else raise no_documents

  unfoldable pub get_ticket_by_id : ObjectId → M Ticket
  get_ticket_by_id id = do
    found ← query (λ d. head? (m.find Ticket (λ t. t.id == id) d.tickets))
    or_raise found no_documents

  -- Only a ticket that is still valid is marked.
  unfoldable pub mark_ticket_as_used : ObjectId → Time → Option User → M Unit
  mark_ticket_as_used id used_at operator = do
    now ← time_now
    let set = λ (t : Ticket). record t {
      status = TicketStatus.to_string TicketStatus.used;
      used_at = some used_at;
      updated_at = now;
      checked_in_by = operator;
    }
    matched ← call (λ d.
        let mine = is_usable id in
        (
          any (λ _. Bool.true) (m.find Ticket mine d.tickets),
          record d { tickets = m.update_one Ticket mine set d.tickets },
        ))
    if matched then pure tt else raise no_documents

  unfoldable pub expire_tickets : Time → M ℕ
  expire_tickets now = call (λ d. (
    length (m.find Ticket (is_overdue now) d.tickets),
    record d { tickets = m.update_many Ticket (is_overdue now) (set_expired now) d.tickets },
  ))
