-- ===== src/Logic/Recalculate/Liveness.antt =====
-- internal/logic/orders.go: `recalculateOrderStatus` returns as a whole, where nothing fails.
use cicd_demo.Base.{
  ℕ, ◌≤◌, String, Bool, true, false, some, List, [], ◌∷◌, ◌≡◌, refl, ap, ◌∙◌, ◌⊎◌, inl, inr, map,
  head?, keep, any, Bool-cases, ◌==◌,
}
use cicd_demo.Models.{ObjectId, User, Order, OrderWithItems}
use cicd_demo.Platform.{
  Mongo, Env, Error, or_raise, no_documents, IsDocumented, lists, World, Outcome, ok, call, query,
}
use cicd_demo.Platform.Frame.{bind-eq}
use cicd_demo.Platform.Returns.{Returns}
use cicd_demo.Dao.Orders.{get_order_with_items_by_id}
use cicd_demo.Logic.Publisher.{TicketEventPublisher}
use cicd_demo.Logic.Recalculate.Machine.{get_order_with_items_by_id-Keeps}
use cicd_demo.Logic.Recalculate.{recalculate_by_status, recalculate_order_status}
use cicd_demo.Logic.Recalculate.Steps.{IsComputed, has_order}
use cicd_demo.Logic.Recalculate.Returning.{
  unpaid-Returns, partially_paid-Returns, pending_refund-Returns, paid-Returns, completed-Returns,
  return_in_progress-Returns, partially_returned-Returns,
}

-- The statuses that a case of the switch names.
abbrev pub IsLive : String → Type 0
IsLive s =
    (s ≡ "unpaid")
    ⊎ ((s ≡ "partially_paid")
        ⊎ ((s ≡ "pending_refund")
            ⊎ ((s ≡ "paid")
                ⊎ ((s ≡ "completed") ⊎ ((s ≡ "return_in_progress") ⊎ (s ≡ "partially_returned"))))))

module _ ⦃m : Mongo⦄ ⦃e : Env⦄ (d : IsDocumented m) (never : (n : ℕ) → e.fails n ≡ false)
    (id : ObjectId) (u : User) (p : TicketEventPublisher) where
  by_status-Returns :
      (w : OrderWithItems)
      → IsLive w.order.status
      → IsComputed e w.order
      → w.order.returned_items_count ≤ w.order.items_count
      → Returns (has_order id) (recalculate_by_status id w (some u) (some p))
  unfolding recalculate_by_status
  by_status-Returns w (inl s) k h = simp s (unpaid-Returns d never id u p w k)
  by_status-Returns w (inr (inl s)) k h = simp s (partially_paid-Returns d never id u p w k)
  by_status-Returns w (inr (inr (inl s))) k h = simp s (pending_refund-Returns d never id u p w k)
  by_status-Returns w (inr (inr (inr (inl s)))) k h = simp s (paid-Returns d never id u p w)
  by_status-Returns w (inr (inr (inr (inr (inl s))))) k h =
      simp s (completed-Returns d never id u p w)
  by_status-Returns w (inr (inr (inr (inr (inr (inl s)))))) k h =
      simp s (return_in_progress-Returns d never id u p w h)
  by_status-Returns w (inr (inr (inr (inr (inr (inr s)))))) k h =
      simp s (partially_returned-Returns d never id u p w)

found_any :
    {A B : Type 0} (f : A → B) (test : A → Bool) (xs : List A) (x : Error) (w : World) (b : B)
    → (or_raise (head? (map f (keep test xs))) x w).0 ≡ ok b
    → any test xs ≡ true
found_any f test [] x w b h = cc
found_any f test (a ∷ xs) x w b h = elim (Bool-cases (test a)) [
  | inl first ↦ rw first refl
  | inr other ↦ rw other (found_any f test xs x w b (rw other at h))
]

-- An order that is read is there.
read-has_order :
    ⦃m : Mongo⦄ ⦃e : Env⦄
    → IsDocumented m
    → (id : ObjectId) (W : World) (w : OrderWithItems) → (get_order_with_items_by_id id W).0 ≡ ok w
    → has_order id W.db ≡ true
unfolding get_order_with_items_by_id query call
read-has_order ⦃e = e⦄ (lists s p) id W w = elim (Bool-cases (e.fails W.step)) [
  | inl failed ↦ rw failed (λ h. cc)
  | inr done ↦ rw done (found_any _ (λ (o : Order). o.id == id) W.db.orders no_documents _ w)
]

-- recalculateOrderStatus returns a nil error, on a documented server that never fails, with an
-- operator and a publisher, when the order that it reads has a status that its switch names, the
-- sums and comparisons of that order's amounts have results, and no more items are returned than
-- there are.
pub recalculate_order_status-Returns :
    ⦃m : Mongo⦄ ⦃e : Env⦄
    → IsDocumented m
    → ((n : ℕ) → e.fails n ≡ false)
    → (id : ObjectId) (u : User) (p : TicketEventPublisher) (W : World) (w : OrderWithItems)
    → (get_order_with_items_by_id id W).0 ≡ ok w
    → IsLive w.order.status
    → IsComputed e w.order
    → w.order.returned_items_count ≤ w.order.items_count
    → (recalculate_order_status id (some u) (some p) W).0 ≡ ok tt
unfolding recalculate_order_status
recalculate_order_status-Returns d never id u p W w read live computed counts =
    let W' = (get_order_with_items_by_id id W).1 in
    let there : has_order id W'.db ≡ true =
      ap (λ os. any (λ (o : Order). o.id == id) os) ((get_order_with_items_by_id-Keeps id).at W)
      ∙ read-has_order d id W w read in
    let (a, returned, kept) =
      (by_status-Returns d never id u p w live computed counts).at W' there in
    ap (λ (r : Outcome Unit × World). r.0)
      (bind-eq (get_order_with_items_by_id id) (λ v. recalculate_by_status id v (some u) (some p)) W
        w read)
    ∙ returned
