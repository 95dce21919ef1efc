-- ===== src/Dao/Tickets/Lookup.antt =====
-- internal/dao/mongodb/tickets.go: two filters that no document passes.
use cicd_demo.Base.{ℕ, suc, ◌≡◌, ◌≢◌, refl, ap, false, List, [], ◌∷◌, length, keep, discard, arith}
use cicd_demo.Models.{ObjectId, stock_field}
use cicd_demo.Platform.{Mongo, Env, IsDocumented, lists, ok, World, call, query, execute}
use cicd_demo.Dao.Tickets.{count_tickets_by_order, delete_ticket_stock_by_type}

keep_none : {A : Type 0} (xs : List A) → length (keep (λ _. false) xs) ≡ 0
keep_none [] = refl
keep_none (x ∷ xs) = keep_none xs

discard_none : {A : Type 0} (xs : List A) → discard (λ _. false) xs ≡ xs
discard_none [] = refl
discard_none (x ∷ xs) = ap (λ ys. x ∷ ys) (discard_none xs)

count_is_zero :
    ⦃m : Mongo⦄ ⦃e : Env⦄
    → IsDocumented m
    → (order_id : ObjectId) (w : World) (n : ℕ) → (count_tickets_by_order order_id w).0 ≡ ok n
    → n ≡ 0
unfolding count_tickets_by_order call query
count_is_zero (lists s p) order_id w n h = ground (arith, keep_none w.db.tickets)

-- Over a server that behaves as documented, `CountTicketsByOrder` returns no positive count for any
-- order, whatever tickets are stored: an integer is compared with an ObjectID.
pub count_tickets_by_order_zero :
    ⦃m : Mongo⦄ ⦃e : Env⦄
    → IsDocumented m
    → (order_id : ObjectId) (w : World) (n : ℕ) → (count_tickets_by_order order_id w).0 ≢ ok (suc n)
count_tickets_by_order_zero d order_id w n h =
    let zero_count = count_is_zero d order_id w (suc n) h in omega arith

-- Over a server that behaves as documented, `DeleteTicketStockByType` deletes nothing, whether it
-- succeeds or fails: no stock document has a field `config`.
pub delete_ticket_stock_by_type_keeps :
    ⦃m : Mongo⦄ ⦃e : Env⦄
    → IsDocumented m
    → (type_id : ObjectId) (w : World)
    → (delete_ticket_stock_by_type type_id w).1.db.ticket_stock ≡ w.db.ticket_stock
unfolding delete_ticket_stock_by_type call query execute stock_field
delete_ticket_stock_by_type_keeps (lists s p) type_id w =
    ground (arith, discard_none w.db.ticket_stock)
