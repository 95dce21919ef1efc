-- ===== src/Logic/Bills/Processing.antt =====
-- internal/logic/bill.go: `ProcessPaymentUpdate` settles a bill.
use cicd_demo.Base.{
  suc, String, Bool, true, false, Option, none, some, List, [], ◌∷◌, ◌++◌, ◌≡◌, refl, ap, sym, ◌⊎◌,
  inl, inr, not, head?, keep, any, any-keep, change_first, Bool-cases, ◌==◌, str_eq, arith,
  if◌then◌else◌,
}
use cicd_demo.Constants.{bill_type_payment, bill_type_refund}
use cicd_demo.Constants.BillStatus
use cicd_demo.Constants.BillStatus.{BillStatus}
use cicd_demo.Models.{ObjectId, Time, Bill}
use cicd_demo.Platform.{
  Mongo, Env, IsDocumented, lists, Error, or_raise, not_found, World, ok, call, query, time_now,
  pure, raise_if,
}
use cicd_demo.Platform.Frame.{bind-eq-ok, raise_if-ok}
use cicd_demo.Repository.{
  UpdateOption, UpdateOptions, apply_options, new_update_options, update_bill_fields, with_status,
  with_updated_at, with_payment_id, has_set,
}
use cicd_demo.Dao.Orders.{update_order}
use cicd_demo.Dao.Bills.{get_bill_by_id, update_bill, write_bill}
use cicd_demo.Logic.Bills.{payment_option, settle_order, process_bill, process_payment_update}

-- The first entry that passes a test is a changed one, after the first that does is changed.
head-keep-change_first :
    {A : Type 0} (test : A → Bool) (f : A → A) (xs : List A) (x : Error) (w : World) (b : A)
    → ((a : A) → test (f a) ≡ test a)
    → (or_raise (head? (keep test (change_first test f xs))) x w).0 ≡ ok b
    → (a : A) × (b ≡ f a)
head-keep-change_first test f [] x w b same = λ h. cc
head-keep-change_first test f (a ∷ xs) x w b same = elim (Bool-cases (test a)) [
  | inl first ↦ rw (first, same a, first) (λ h. let eq : b ≡ f a = cc in (a, eq))
  | inr other ↦ rw (other, other) (head-keep-change_first test f xs x w b same)
]

written :
    ⦃m : Mongo⦄ ⦃e : Env⦄
    → IsDocumented m
    → (id : ObjectId) (u : UpdateOptions) (s : String) (w : World) (b : Bill) → u.status ≡ some s
    → (write_bill id u w).0 ≡ ok tt
    → (get_bill_by_id id (write_bill id u w).1).0 ≡ ok b
    → b.status ≡ s
unfolding write_bill get_bill_by_id call query
written ⦃e = e⦄ (lists l p) id u s w b hs = rw hs (elim (Bool-cases (e.fails w.step)) [
  | inl failed ↦ rw failed (λ h. cc)
  | inr done ↦
      rw (done, any-keep (λ (b : Bill). b.id == id) w.db.bills)
        (elim (Bool-cases (any (λ (b : Bill). b.id == id) w.db.bills)) [
          | inr missing ↦ rw missing (λ h. cc)
          | inl there ↦ rw there (λ h. elim (Bool-cases (e.fails (suc w.step))) [
            | inl failed ↦ rw failed (λ q. cc)
            | inr read ↦ rw read (λ q.
                let (a, same) =
                  head-keep-change_first (λ (b : Bill). b.id == id)
                    (update_bill_fields (record u { status = some s })) w.db.bills not_found _ b
                    (λ a. refl) q in
                ap (λ (c : Bill). c.status) same)
          ])
        ])
])

status_after :
    (o : Option ObjectId) (s : String)
    → (apply_options
        (elim o [ none ↦ [] | some p ↦ with_payment_id (some p) ∷ [] ] ++ with_status s ∷ [])
        new_update_options).status
      ≡ some s
status_after none s = refl
status_after (some p) s = refl

module _ ⦃m : Mongo⦄ ⦃e : Env⦄ where
  payment_status :
      (payment_id : String) (s : String)
      → (apply_options (payment_option payment_id ++ with_status s ∷ []) new_update_options).status
        ≡ some s
  payment_status payment_id s = elim (Bool-cases (str_eq payment_id "")) [
    | inl empty ↦ rw empty refl
    | inr given ↦ rw given (status_after (e.object_id_from_hex payment_id) s)
  ]

  updated_status :
      (b : Bool) (now : Time) (u : UpdateOptions) (s : String)
      → u.status ≡ some s
      → (if b then with_updated_at now u else u).status ≡ some s
  updated_status true now u s h = h
  updated_status false now u s h = h

  updated :
      IsDocumented m
      → (id : ObjectId) (opts : List UpdateOption) (s : String) (w : World) (b : Bill)
      → (apply_options opts new_update_options).status ≡ some s
      → (update_bill id opts w).0 ≡ ok tt
      → (get_bill_by_id id (update_bill id opts w).1).0 ≡ ok b
      → b.status ≡ s
  unfolding update_bill time_now
  updated d id opts s w b hs first second =
      let chosen = apply_options opts new_update_options in
      written d id (if has_set chosen then with_updated_at (e.now w.step) chosen else chosen) s
        (record w { step = suc w.step }) b
        (updated_status (has_set chosen) (e.now w.step) chosen s hs) first second

  -- The status of a bill that ProcessPaymentUpdate has processed.
  abbrev pub IsOutcome : Bool → String → Type 0
  IsOutcome true s = (s ≡ "paid") ⊎ (s ≡ "refunded")
  IsOutcome false s = s ≡ "failed"

  settled :
      (b : Bill) (now : Time) (w : World) (s : BillStatus)
      → (settle_order b now w).0 ≡ ok s
      → IsOutcome true (BillStatus.to_string s)
  unfolding settle_order
  settled b now w s = elim (Bool-cases (str_eq b.bill_type bill_type_payment)) [
    | inl pays ↦ rw pays (λ h.
        let (a, one, two, _) = bind-eq-ok (update_order b.order _) _ w s h in
        let same : BillStatus.paid ≡ s = cc in inl (ap BillStatus.to_string (sym same)))
    | inr other ↦ rw other (elim (Bool-cases (str_eq b.bill_type bill_type_refund)) [
      | inl refunds ↦ rw refunds (λ h.
          let (a, one, two, _) = bind-eq-ok (update_order b.order _) _ w s h in
          let same : BillStatus.refunded ≡ s = cc in inr (ap BillStatus.to_string (sym same)))
      | inr unknown_type ↦ rw unknown_type (λ h. cc)
    ])
  ]

  chosen-IsOutcome :
      (b : Bool) (bill : Bill) (now : Time) (w : World) (s : BillStatus)
      → ((if b then settle_order bill now else pure BillStatus.failed) w).0 ≡ ok s
      → IsOutcome b (BillStatus.to_string s)
  chosen-IsOutcome true bill now w s h = settled bill now w s h
  chosen-IsOutcome false bill now w s h =
      let same : BillStatus.failed ≡ s = cc in ap BillStatus.to_string (sym same)

  processed :
      IsDocumented m
      → (id : ObjectId) (payment_id : String) (is_successful : Bool) (w : World) (bill b : Bill)
      → (process_bill id payment_id is_successful bill w).0 ≡ ok b
      → (str_eq bill.status "pending" ≡ true) × IsOutcome is_successful b.status
  unfolding process_bill
  processed d id payment_id is_successful w bill b h =
      let (a, guard, h1, _) =
        bind-eq-ok (raise_if (not (str_eq bill.status "pending")) _) _ w b h in
      let (now, timed, h2, _) = bind-eq-ok time_now _ _ b h1 in
      let (s, chosen, h3, _) =
        bind-eq-ok (if is_successful then settle_order bill now else pure BillStatus.failed) _ _ b
          h2 in
      let (c, updates, h4, _) = bind-eq-ok (update_bill id _) _ _ b h3 in
      let same =
        updated d id _ (BillStatus.to_string s) _ b (payment_status payment_id _) updates h4 in
      (
        ground (arith, (raise_if-ok _ _ _ _ guard).0),
        rw same (chosen-IsOutcome is_successful bill now _ s chosen),
      )

  -- When ProcessPaymentUpdate returns a bill, on a documented server, the bill that it read first
  -- was pending, and the one that it returns is paid or refunded, if the payment was successful,
  -- and failed otherwise.
  pub process_payment_update-IsOutcome :
      IsDocumented m
      → (id : ObjectId) (payment_id : String) (is_successful : Bool) (w : World) (b : Bill)
      → (process_payment_update id payment_id is_successful w).0 ≡ ok b
      → (bill : Bill) × ((get_bill_by_id id w).0 ≡ ok bill)
        × (str_eq bill.status "pending" ≡ true)
        × IsOutcome is_successful b.status
  unfolding process_payment_update
  process_payment_update-IsOutcome d id payment_id is_successful w b h =
      let (bill, read, h1, _) = bind-eq-ok (get_bill_by_id id) _ w b h in
      let (pending, outcome) =
        processed d id payment_id is_successful (get_bill_by_id id w).1 bill b h1 in
      (bill, read, pending, outcome)
