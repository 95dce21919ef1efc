-- ===== src/Logic/Tickets/Types/Resync.antt =====
-- internal/logic/tickets.go: what an update of a ticket type does to its stock.
use cicd_demo.Base.{
  ℕ, Bool, true, false, Option, List, [], ◌∷◌, ◌++◌, ◌≡◌, refl, sym, ap, ◌∙◌, arith,
}
use mathlib.Core.List.{append-nil, append_assoc}
use cicd_demo.Models.{ObjectId, Time, User, TicketType, TicketStock}
use cicd_demo.Platform.{
  Mongo, Env, IsDocumented, lists, Db, Outcome, ok, err, panic, World, M, deref, time_now,
  new_object_id, call, execute, ◌>>=◌,
}
use cicd_demo.Platform.Frame.{
  Keeps, Keeps-call, Keeps-deref, Keeps-time_now, Keeps-execute, Keeps-logged, bind-eq-ok,
  frame_rules,
}
use cicd_demo.Dao.Bills.{create_audit_log}
use cicd_demo.Dao.Tickets.{get_ticket_type_by_id, delete_ticket_stock_by_type, add_ticket_stock}
use cicd_demo.Dao.Tickets.Lookup.{delete_ticket_stock_by_type_keeps}
use cicd_demo.Dao.Tickets.Types.{update_ticket_type as write_type, update_failure, update_result}
use cicd_demo.Logic.Audit.{new_audit_log, build_update_ticket_type_audit_log}
use cicd_demo.Logic.Tickets.{SessionSale, add_stock_for}
use cicd_demo.Logic.Tickets.Types.{
  UpdateTicketTypeRequest, type_of_request, sync_sessions, finish_update, update_ticket_type,
}

abbrev stock_in : Db → List TicketStock
stock_in d = d.ticket_stock

-- One stock of a ticket type for each session, with the sale of the session and the quantity.
pub data AreStockFor (type_id : ObjectId) (quantity : ℕ)
    : List SessionSale → List TicketStock → Type 0 where
  no_more : AreStockFor type_id quantity [] []
  one_more :
      {s : SessionSale} {ss : List SessionSale} {t : TicketStock} {ts : List TicketStock}
      → t.stock_type ≡ type_id
      → t.quantity ≡ quantity
      → t.session ≡ s.id
      → (t.sale_start_at ≡ s.sale_start_at) × (t.sale_end_at ≡ s.sale_end_at)
      → AreStockFor type_id quantity ss ts
      → AreStockFor type_id quantity (s ∷ ss) (t ∷ ts)

after_failure : (b : Bool) (r : Outcome Bool × World) → (update_failure b r).1 ≡ r.1
after_failure b (ok a, w) = refl
after_failure true (err x, w) = refl
after_failure false (err x, w) = refl
after_failure b (panic p, w) = refl

module _ ⦃m : Mongo⦄ ⦃e : Env⦄ where
  update_result-Keeps :
      {X : Type 0} {f : Db → X} (action : M Bool) → Keeps f action → Keeps f (update_result action)
  update_result-Keeps {f = f} action k = record {
    at = λ w.
        ap (λ (v : World). f v.db) (after_failure (e.has_update_result w.step) (action w)) ∙ k.at w;
  }

  write_type-Keeps : (t : TicketType) → Keeps stock_in (write_type t)
  unfolding write_type
  write_type-Keeps t = search (frame_rules, update_result-Keeps, Keeps-call)

  get_ticket_type_by_id-Keeps : (id : ObjectId) → Keeps stock_in (get_ticket_type_by_id id)
  unfolding get_ticket_type_by_id
  get_ticket_type_by_id-Keeps id = search frame_rules

  audit-Keeps :
      (u : Option User) (before after : TicketType)
      → Keeps stock_in (build_update_ticket_type_audit_log u before after >>= create_audit_log)
  unfolding build_update_ticket_type_audit_log new_audit_log create_audit_log
  audit-Keeps u before after = search (frame_rules, Keeps-execute, Keeps-logged)

  end-Keeps :
      (d : UpdateTicketTypeRequest) (before : TicketType) → Keeps stock_in (finish_update d before)
  unfolding finish_update
  end-Keeps d before = search (frame_rules, get_ticket_type_by_id-Keeps, audit-Keeps)

abbrev pub Made : ObjectId → ℕ → List SessionSale → List TicketStock → List TicketStock → Type 0
Made type_id quantity sessions before after =
    (new : List TicketStock) × AreStockFor type_id quantity sessions new × (after ≡ before ++ new)

insert_stock :
    ⦃m : Mongo⦄ ⦃e : Env⦄
    → IsDocumented m
    → (t : TicketStock) (w : World) (u : Unit) → (add_ticket_stock t w).0 ≡ ok u
    → stock_in (add_ticket_stock t w).1.db ≡ stock_in w.db ++ t ∷ []
unfolding add_ticket_stock call execute
insert_stock (lists order p) t w u h = ground arith

module _ ⦃m : Mongo⦄ ⦃e : Env⦄ (d : IsDocumented m) where
  add_stock_for-Made :
      (type_id : ObjectId) (quantity : ℕ) (now : Time) (user : User) (sessions : List SessionSale)
      (w : World) (u : Unit)
      → (add_stock_for type_id quantity now user sessions w).0 ≡ ok u
      → Made type_id quantity sessions
          (stock_in w.db)
          (stock_in (add_stock_for type_id quantity now user sessions w).1.db)
  unfolding add_stock_for new_object_id
  add_stock_for-Made type_id quantity now user [] w u h = ([], no_more, sym (append-nil _))
  add_stock_for-Made type_id quantity now user (s ∷ ss) w u h =
      let t : TicketStock = record {
        id = e.new_object_id w.step;
        session = s.id;
        stock_type = type_id;
        sale_start_at = s.sale_start_at;
        sale_end_at = s.sale_end_at;
        quantity = quantity;
        updated_at = now;
        updated_by = user;
      } in
      let w' = (new_object_id w).1 in
      let (v, one, two, final) =
        bind-eq-ok (add_ticket_stock t) (λ _. add_stock_for type_id quantity now user ss) w' u h in
      let (rest, good, same) =
        add_stock_for-Made type_id quantity now user ss (add_ticket_stock t w').1 u two in
      (
        t ∷ rest,
        one_more refl refl refl (refl, refl) good,
        ap (λ (x : World). stock_in x.db) final
            ∙ same
            ∙ ap (λ l. l ++ rest) (insert_stock d t w' v one)
            ∙ append_assoc (stock_in w.db) (t ∷ []) rest,
      )

  sync_sessions-Made :
      (r : UpdateTicketTypeRequest) (now : Time) (w : World)
      → (sync_sessions r now w).0 ≡ ok tt
      → Made r.id r.quantity r.sessions (stock_in w.db) (stock_in (sync_sessions r now w).1.db)
  unfolding sync_sessions
  sync_sessions-Made r now w h =
      let (v, _, h1, final) = bind-eq-ok (delete_ticket_stock_by_type r.id) _ w tt h in
      let w' = (delete_ticket_stock_by_type r.id w).1 in
      let (user, _, h2, final') =
        bind-eq-ok (deref r.updated_by) (λ u. add_stock_for r.id r.quantity now u r.sessions) w' tt
          h1 in
      let w'' = (deref r.updated_by w').1 in
      let (new, good, same) = add_stock_for-Made r.id r.quantity now user r.sessions w'' tt h2 in
      (
        new,
        good,
        ap (λ (x : World). stock_in x.db) (final ∙ final')
            ∙ same
            ∙ ap (λ l. l ++ new)
                ((Keeps-deref {f = stock_in} r.updated_by).at w'
                  ∙ delete_ticket_stock_by_type_keeps d r.id w),
      )

  -- An UpdateTicketType that returns a nil error, on a documented server, keeps every stock that
  -- was there, also those of the ticket type, and adds one for each session of the request.
  pub update_ticket_type-Made :
      (r : UpdateTicketTypeRequest) (w : World)
      → (update_ticket_type r w).0 ≡ ok tt
      → Made r.id r.quantity r.sessions (stock_in w.db) (stock_in (update_ticket_type r w).1.db)
  unfolding update_ticket_type
  update_ticket_type-Made r w h =
      let (before, _, h1, f1) = bind-eq-ok (get_ticket_type_by_id r.id) _ w tt h in
      let w1 = (get_ticket_type_by_id r.id w).1 in
      let (now, _, h2, f2) = bind-eq-ok time_now _ w1 tt h1 in
      let w2 = (time_now w1).1 in
      let (_, _, h3, f3) = bind-eq-ok (write_type (type_of_request r now)) _ w2 tt h2 in
      let w3 = (write_type (type_of_request r now) w2).1 in
      let (_, synced, h4, f4) =
        bind-eq-ok (sync_sessions r now) (λ _. finish_update r before) w3 tt h3 in
      let (new, good, same) = sync_sessions-Made r now w3 synced in
      (
        new,
        good,
        ap (λ (x : World). stock_in x.db) (f1 ∙ f2 ∙ f3 ∙ f4)
            ∙ (end-Keeps r before).at (sync_sessions r now w3).1
            ∙ same
            ∙ ap (λ l. l ++ new)
                ((write_type-Keeps (type_of_request r now)).at w2
                  ∙ (Keeps-time_now {f = stock_in}).at w1
                  ∙ (get_ticket_type_by_id-Keeps r.id).at w),
      )
