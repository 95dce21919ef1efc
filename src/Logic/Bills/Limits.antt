-- ===== src/Logic/Bills/Limits.antt =====
-- internal/logic/bill.go: `CreateBill` bills no more than is owed, in the arithmetic of the helper.
use cicd_demo.Base.{
  Bool-cases, inl, inr, true, false, List, [], ◌∷◌, ◌≡◌, ◌≢◌, ◌⊎◌, ◌||◌, refl, sym, subst,
  if◌then◌else◌,
}
use cicd_demo.Constants.BillStatus
use cicd_demo.Constants.BillStatus.{BillStatus}
use cicd_demo.Constants.OrderStatus
use cicd_demo.Constants.OrderStatus.{OrderStatus}
use cicd_demo.Models.{ObjectId, Decimal128, Order, Bill}
use cicd_demo.Helper.{Checked, good, bad, compare_decimal128, add_decimal128, sub_decimal128}
use cicd_demo.Platform.{Mongo, Env, Comparison, ok, World, pure}
use cicd_demo.Platform.Frame.{bind-eq-ok, raise_if-ok}
use cicd_demo.Dao.Orders.{get_order_by_id}
use cicd_demo.Dao.Bills.{get_bills_by_order_id}
use cicd_demo.Logic.Publisher.{PaymentEventPublisher}
use cicd_demo.Logic.Recalculate.{checked}
use cicd_demo.Logic.Bills.{
  CreateBillRequest, is_committed, takes_bills, exceeds, zero_decimal, committed_amount,
  check_amount, create_bill,
}

checked-ok : {A : Type 0} (c : Checked A) (w : World) (a : A) → (checked c w).0 ≡ ok a → c ≡ good a
checked-ok (good b) w a h = cc
checked-ok (bad x) w a h = cc

pure-ok : {A : Type 0} (a b : A) (w : World) → (pure a w).0 ≡ ok b → a ≡ b
pure-ok a b w h = cc

-- A bill that is paid or may still be.
abbrev pub IsOpen : BillStatus → Type 0
IsOpen s = (s ≡ BillStatus.paid) ⊎ (s ≡ BillStatus.pending)

is_committed-IsOpen : (b : Bill) → is_committed b ≡ true → IsOpen (BillStatus.parse b.status)
is_committed-IsOpen b = by_status (BillStatus.parse b.status)
  where
    by_status :
        (s : BillStatus)
        → (BillStatus.same s BillStatus.paid || BillStatus.same s BillStatus.pending) ≡ true
        → IsOpen s
    by_status BillStatus.paid h = inl refl
    by_status BillStatus.pending h = inr refl
    by_status BillStatus.unknown h = cc
    by_status BillStatus.refunded h = cc
    by_status BillStatus.failed h = cc
    by_status BillStatus.canceled h = cc

not_committed : (b : Bill) → is_committed b ≡ false → ¬ IsOpen (BillStatus.parse b.status)
not_committed b = by_status (BillStatus.parse b.status)
  where
    by_status :
        (s : BillStatus)
        → (BillStatus.same s BillStatus.paid || BillStatus.same s BillStatus.pending) ≡ false
        → ¬ IsOpen s
    by_status BillStatus.paid h = cc
    by_status BillStatus.pending h = cc
    by_status BillStatus.unknown h = λ k. elim k [ inl p ↦ cc | inr p ↦ cc ]
    by_status BillStatus.refunded h = λ k. elim k [ inl p ↦ cc | inr p ↦ cc ]
    by_status BillStatus.failed h = λ k. elim k [ inl p ↦ cc | inr p ↦ cc ]
    by_status BillStatus.canceled h = λ k. elim k [ inl p ↦ cc | inr p ↦ cc ]

-- An order that takes a payment.
abbrev pub IsUnpaid : OrderStatus → Type 0
IsUnpaid s = (s ≡ OrderStatus.unpaid) ⊎ (s ≡ OrderStatus.partially_paid)

takes_bills-IsUnpaid : (s : OrderStatus) → takes_bills s ≡ true → IsUnpaid s
takes_bills-IsUnpaid OrderStatus.unpaid h = inl refl
takes_bills-IsUnpaid OrderStatus.partially_paid h = inr refl
takes_bills-IsUnpaid _ h = cc

not_above : (c : Comparison) → exceeds c ≡ false → c ≢ Comparison.greater
not_above Comparison.less h = λ p. cc
not_above Comparison.equal h = λ p. cc
not_above Comparison.greater h = cc

module _ ⦃m : Mongo⦄ ⦃e : Env⦄ where
  -- The sum of what is paid or may still be, from a sum of the bills before.
  pub data Committed : Decimal128 → List Bill → Decimal128 → Type 0 where
    no_more : (sum : Decimal128) → Committed sum [] sum
    counted :
        (sum next total : Decimal128) (b : Bill) (bills : List Bill)
        → IsOpen (BillStatus.parse b.status)
        → add_decimal128 sum b.amount ≡ good next
        → Committed next bills total
        → Committed sum (b ∷ bills) total
    left_out :
        (sum total : Decimal128) (b : Bill) (bills : List Bill)
        → ¬ IsOpen (BillStatus.parse b.status)
        → Committed sum bills total
        → Committed sum (b ∷ bills) total

  committed_amount-Committed :
      (sum : Decimal128) (bills : List Bill) (w : World) (total : Decimal128)
      → (committed_amount sum bills w).0 ≡ ok total
      → Committed sum bills total
  unfolding committed_amount
  committed_amount-Committed sum [] w total h =
      subst (Committed sum []) (pure-ok sum total w h) (no_more sum)
  committed_amount-Committed sum (b ∷ bills) w total h =
      let (next, one, rest, _) =
        bind-eq-ok (if is_committed b then checked (add_decimal128 sum b.amount) else pure sum) _ w
          total h in
      let later = committed_amount-Committed next bills _ total rest in
      elim (Bool-cases (is_committed b)) [
        | inl is_open ↦
            counted sum next total b bills (is_committed-IsOpen b is_open)
              (checked-ok (add_decimal128 sum b.amount) w next (
                subst
                  (λ c.
                    ((if c then checked (add_decimal128 sum b.amount) else pure sum) w).0 ≡ ok next)
                  is_open one))
              later
        | inr closed ↦ left_out sum total b bills (not_committed b closed) (
            subst (λ s. Committed s bills total)
              (sym (
                pure-ok sum next w (
                  subst
                    (λ c.
                      ((if c then checked (add_decimal128 sum b.amount) else pure sum) w).0
                      ≡ ok next)
                    closed one)))
              later)
      ]

  -- The amount is covered by what is owed, in the state in which the order has been read.
  pub record IsCovered (d : CreateBillRequest) (o : Order) (w : World) : Type 0 where
    pub bills : List Bill
    pub committed : Decimal128
    pub owed : Decimal128
    pub comparison : Comparison
    pub takes : IsUnpaid (OrderStatus.parse o.status)
    pub listed : (get_bills_by_order_id d.order_id w).0 ≡ ok bills
    pub summed : Committed zero_decimal bills committed
    pub difference : sub_decimal128 o.total committed ≡ good owed
    pub compared : compare_decimal128 d.amount owed ≡ good comparison
    pub within : comparison ≢ Comparison.greater

  covered :
      (d : CreateBillRequest) (o : Order) (w : World)
      → (check_amount d o w).0 ≡ ok tt
      → IsCovered d o w
  unfolding check_amount
  covered d o w = elim (Bool-cases (takes_bills (OrderStatus.parse o.status))) [
    | inr closed ↦ rw closed (λ h. cc)
    | inl takes ↦ rw takes (λ h.
        let (bills, listed, h1, _) = bind-eq-ok (get_bills_by_order_id d.order_id) _ w tt h in
        let (committed, summed, h2, _) =
          bind-eq-ok (committed_amount zero_decimal bills) _ _ tt h1 in
        let (owed, difference, h3, _) =
          bind-eq-ok (checked (sub_decimal128 o.total committed)) _ _ tt h2 in
        let (c, compared, h4, _) =
          bind-eq-ok (checked (compare_decimal128 d.amount owed)) _ _ tt h3 in
        record {
          bills = bills;
          committed = committed;
          owed = owed;
          comparison = c;
          takes = takes_bills-IsUnpaid _ takes;
          listed = listed;
          summed = committed_amount-Committed _ _ _ _ summed;
          difference = checked-ok _ _ _ difference;
          compared = checked-ok _ _ _ compared;
          within = not_above c (raise_if-ok (exceeds c) _ _ tt h4).0;
        })
  ]

  -- When CreateBill returns a bill, the order that it has read is unpaid or partially paid, and the
  -- amount does not compare as greater than what is owed: the total less the sum of the amounts of
  -- the paid and the pending bills that it has read. Sum, difference and comparison are those of
  -- AddDecimal128, SubDecimal128 and CompareDecimal128, which may round.
  pub create_bill-IsCovered :
      (p : PaymentEventPublisher) (d : CreateBillRequest) (w : World) (id : ObjectId)
      → (create_bill p d w).0 ≡ ok id
      → (o : Order) × ((get_order_by_id d.order_id w).0 ≡ ok o)
        × IsCovered d o (get_order_by_id d.order_id w).1
  unfolding create_bill
  create_bill-IsCovered p d w id h =
      let (o, read, h1, _) = bind-eq-ok (get_order_by_id d.order_id) _ w id h in
      let (_, passed, h2, _) = bind-eq-ok (check_amount d o) _ _ id h1 in
      (o, read, covered d o (get_order_by_id d.order_id w).1 passed)
