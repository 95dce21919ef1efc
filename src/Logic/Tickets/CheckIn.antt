-- ===== src/Logic/Tickets/CheckIn.antt =====
-- internal/logic/tickets.go: a ticket is checked in at most once, while it is valid.
use cicd_demo.Base.{
  ℕ, suc, String, Bool, true, false, Option, List, ◌≡◌, refl, ap, ◌∙◌, ◌⊎◌, inl, inr, Bool-cases,
  str_eq, eq_iff, length, keep,
}
use cicd_demo.Models.{ObjectId, User, Ticket}
use cicd_demo.Platform.{
  Mongo, Env, IsDocumented, Error, Outcome, ok, err, panic, Db, World, M, time_now, pure, raise,
  ticket_not_found, ◌>>=◌, Snapshot, AuditLog,
}
use cicd_demo.Platform.Frame.{Keeps, Keeps-execute, Keeps-logged, bind-eq-ok, frame_rules}
use cicd_demo.Dao.Bills.{create_audit_log}
use cicd_demo.Dao.Tickets.{is_usable, get_ticket_by_id, mark_ticket_as_used}
use cicd_demo.Dao.Tickets.Validity.{tickets_of, usable_count, mark_ticket_as_used_count}
use cicd_demo.Logic.Audit.{new_audit_log, AuditLogOption, build_check_in_ticket_audit_log}
use cicd_demo.Logic.Tickets.{
  if_missing, found_or, is_outside, finish_check_in, use_ticket, check_in, check_in_ticket,
}

-- The two ways on after a search, of a run that returns.
if_missing-ok :
    {A B : Type 0} (absent : M B) (present : A → M B) (r : Outcome A × World) (b : B)
    → (if_missing absent present r).0 ≡ ok b
    → ((a : A) × (r.0 ≡ ok a)
        × ((present a r.1).0 ≡ ok b)
        × (if_missing absent present r ≡ present a r.1))
      ⊎ (((absent r.1).0 ≡ ok b) × (if_missing absent present r ≡ absent r.1))
if_missing-ok absent present (ok a, w) b h = inl (a, refl, h, refl)
if_missing-ok absent present (err Error.no_documents, w) b h = inr (h, refl)
if_missing-ok absent present (err x, w) b h = cc
if_missing-ok absent present (panic p, w) b h = cc

module _ ⦃m : Mongo⦄ ⦃e : Env⦄ where
  get_ticket_by_id-Keeps : (id : ObjectId) → Keeps tickets_of (get_ticket_by_id id)
  unfolding get_ticket_by_id
  get_ticket_by_id-Keeps id = search frame_rules

  create_audit_log-Keeps : (log : AuditLog) → Keeps tickets_of (create_audit_log log)
  unfolding create_audit_log
  create_audit_log-Keeps log = Keeps-logged _ _ (Keeps-execute _ (λ d. refl))

  new_audit_log-Keeps :
      (u : Option User) (action kind : String) (id : ObjectId) (before after : Snapshot)
      (opts : List AuditLogOption)
      → Keeps tickets_of (new_audit_log u action kind id before after opts)
  unfolding new_audit_log
  new_audit_log-Keeps u action kind id before after opts = search frame_rules

  finish_check_in-Keeps :
      (id : ObjectId) (u : Option User) (t : Ticket) → Keeps tickets_of (finish_check_in id u t)
  unfolding finish_check_in build_check_in_ticket_audit_log
  finish_check_in-Keeps id u t =
      search (frame_rules, get_ticket_by_id-Keeps, create_audit_log-Keeps, new_audit_log-Keeps)

  -- The ticket as it stands, after a mark that found none to mark.
  abbrev already_used : ObjectId → M (Ticket × Bool)
  already_used id = do latest ← get_ticket_by_id id; pure (latest, false)

  marked :
      IsDocumented m
      → (id : ObjectId) (u : Option User) (t after : Ticket) (w : World) (now : ℕ)
      → (found_or
          (mark_ticket_as_used id now u)
          (already_used id)
          (λ _. finish_check_in id u t)
          w).0
        ≡ ok (after, true)
      → suc (
          usable_count id
            (found_or
              (mark_ticket_as_used id now u)
              (already_used id)
              (λ _. finish_check_in id u t)
              w).1.db)
        ≡ usable_count id w.db
  marked d id u t after w now h =
      let mark = mark_ticket_as_used id now u in
      elim (if_missing-ok (already_used id) (λ _. finish_check_in id u t) (mark w) (after, true)
        h) [
          | inl (a, first, second, final) ↦
              ap (λ (v : Outcome (Ticket × Bool) × World). suc (usable_count id v.1.db)) final
              ∙ ap (λ l. suc (length (keep (is_usable id) l)))
                  ((finish_check_in-Keeps id u t).at (mark w).1)
              ∙ mark_ticket_as_used_count d id now u w first
          | inr (second, final) ↦
              let (latest, read, same, rest) =
                bind-eq-ok (get_ticket_by_id id) (λ latest. pure (latest, false)) (mark w).1
                  (after, true) second in
              cc
        ]

  -- What a check-in that takes place has met and done, from the state in which it has read the
  -- ticket.
  abbrev IsUse : ObjectId → Ticket → World → Db → Type 0
  IsUse id t w after =
      (t.status ≡ "valid")
      × (is_outside (e.now w.step) t ≡ false)
      × (suc (usable_count id after) ≡ usable_count id w.db)

  used :
      IsDocumented m
      → (id : ObjectId) (u : Option User) (t after : Ticket) (w : World) → t.status ≡ "valid"
      → (use_ticket id u t w).0 ≡ ok (after, true)
      → IsUse id t w (use_ticket id u t w).1.db
  unfolding use_ticket time_now
  used d id u t after w st = elim (Bool-cases (is_outside (e.now w.step) t)) [
    | inl outside ↦ rw outside (λ h. cc)
    | inr inside ↦
        rw inside
          (λ h. (st, refl, marked d id u t after (record w { step = suc w.step }) (e.now w.step) h))
  ]

  checked_in :
      IsDocumented m
      → (id : ObjectId) (u : Option User) (t after : Ticket) (w : World)
      → (check_in id u t w).0 ≡ ok (after, true)
      → IsUse id t w (check_in id u t w).1.db
  unfolding check_in
  checked_in d id u t after w = elim (Bool-cases (str_eq t.status "valid")) [
    | inl is_valid ↦ rw is_valid (used d id u t after w ((eq_iff _ _).0 is_valid))
    | inr other ↦ rw other (λ h. cc)
  ]

  -- A check-in that takes place, on a documented server: the ticket that was read was valid, and
  -- the time, read next, was within its period, bounds included; and of the valid tickets with the
  -- ID there is one fewer afterwards.
  pub check_in_ticket_once :
      IsDocumented m
      → (id : ObjectId) (u : Option User) (w : World) (after : Ticket)
      → (check_in_ticket id u w).0 ≡ ok (after, true)
      → (t : Ticket) × ((get_ticket_by_id id w).0 ≡ ok t)
        × (t.status ≡ "valid")
        × (is_outside (e.now (get_ticket_by_id id w).1.step) t ≡ false)
        × (suc (usable_count id (check_in_ticket id u w).1.db) ≡ usable_count id w.db)
  unfolding check_in_ticket
  check_in_ticket_once d id u w after h =
      let w' = (get_ticket_by_id id w).1 in
      elim (if_missing-ok (raise ticket_not_found) (check_in id u) (get_ticket_by_id id w)
        (after, true) h) [
          | inl (t, first, second, final) ↦
              let (st, inside, fewer) = checked_in d id u t after w' second in
              (
                t,
                first,
                st,
                inside,
                ap (λ (v : Outcome (Ticket × Bool) × World). suc (usable_count id v.1.db)) final
                    ∙ fewer
                    ∙ ap (λ l. length (keep (is_usable id) l)) ((get_ticket_by_id-Keeps id).at w),
              )
          | inr (second, final) ↦ cc
        ]
