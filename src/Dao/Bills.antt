-- ===== src/Dao/Bills.antt =====
-- internal/dao/mongodb/bill.go and audit_log.go.
use cicd_demo.Base.{
  Bool, none, some, List, [], ◌∷◌, ◌&&◌, ◌||◌, not, head?, any, leb, ◌==◌, str_eq, if◌then◌else◌,
}
use cicd_demo.Constants.{bill_type_refund}
use cicd_demo.Models.{ObjectId, Bill}
use cicd_demo.Platform.{
  Mongo, Env, M, pure, raise, or_raise, ◌>>=◌, ◌>>◌, not_found, call, query, execute, time_now,
  logged, AuditLog,
}
use cicd_demo.Repository.{
  UpdateOption, UpdateOptions, new_update_options, apply_options, has_set, has_inc,
  update_bill_fields, with_updated_at,
}

abbrev pub oldest_first : Bill → Bill → Bool
oldest_first a b = leb a.created_at b.created_at

abbrev is_refund_of : ObjectId → Bill → Bool
is_refund_of item_id b =
    elim b.order_item_id [ none ↦ Bool.false | some i ↦ i == item_id ]
    && str_eq b.bill_type bill_type_refund

module _ ⦃m : Mongo⦄ ⦃e : Env⦄ where
  unfoldable pub create_bill : Bill → M ObjectId
  create_bill b = do
    execute (λ d. record d { bills = m.insert_many Bill (b ∷ []) d.bills })
    pure b.id

  unfoldable pub get_bills_by_order_id : ObjectId → M (List Bill)
  get_bills_by_order_id order_id =
      query (λ d. m.sort Bill oldest_first (m.find Bill (λ b. b.order == order_id) d.bills))

  unfoldable pub get_bill_by_id : ObjectId → M Bill
  get_bill_by_id id = do
    found ← query (λ d. head? (m.find Bill (λ b. b.id == id) d.bills))
    or_raise found not_found

  -- The update with the chosen options, unless there are none.
  unfoldable pub write_bill : ObjectId → UpdateOptions → M Unit
  write_bill id u = if not (has_set u || has_inc u) then pure tt else do
    matched ← call (λ d.
        let mine = λ (b : Bill). b.id == id in
        (
          any (λ _. Bool.true) (m.find Bill mine d.bills),
          record d { bills = m.update_one Bill mine (update_bill_fields u) d.bills },
        ))
    if matched then pure tt else raise not_found

  -- `updated_at` is set whenever another field is.
  unfoldable pub update_bill : ObjectId → List UpdateOption → M Unit
  update_bill id opts = do
    now ← time_now
    let chosen = apply_options opts new_update_options
    write_bill id (if has_set chosen then with_updated_at now chosen else chosen)

  unfoldable pub get_refunds_by_order_item_id : ObjectId → M (List Bill)
  get_refunds_by_order_item_id item_id = query (λ d. m.find Bill (is_refund_of item_id) d.bills)

  -- AuditLogDAO.Create logs an error of the insertion, and returns nil all the same.
  unfoldable pub create_audit_log : AuditLog → M Unit
  create_audit_log log =
      logged tt
        (execute (λ d. record d { audit_logs = m.insert_many AuditLog (log ∷ []) d.audit_logs }))
