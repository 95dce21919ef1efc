-- ===== src/Dao/Tickets/Validity.antt =====
-- internal/dao/mongodb/tickets.go: tickets that are used, and tickets that expire.
use cicd_demo.Base.{
  ℕ, suc, ◌+◌, String, Bool, true, false, Option, ◌≡◌, refl, sym, ap, ◌∙◌, ◌&&◌, inl, inr,
  Bool-cases, List, length, any, keep, ltb, str_eq, eq_iff, arith, any-keep,
  length-keep-change_first, any-change_all, length-keep-change_all,
}
use cicd_demo.Constants.TicketStatus
use cicd_demo.Constants.TicketStatus.{TicketStatus}
use cicd_demo.Models.{ObjectId, Time, User, Ticket}
use cicd_demo.Platform.{Mongo, Env, IsDocumented, lists, Db, World, ok, call, time_now}
use cicd_demo.Dao.Tickets.{is_usable, is_overdue, set_expired, expire_tickets, mark_ticket_as_used}

abbrev pub tickets_of : Db → List Ticket
tickets_of d = d.tickets

-- The valid tickets with an ID, the overdue ones, and the expired ones.
abbrev pub usable_count : ObjectId → Db → ℕ
usable_count id d = length (keep (is_usable id) d.tickets)

abbrev is_expired : Ticket → Bool
is_expired t = str_eq t.status (TicketStatus.to_string TicketStatus.expired)

abbrev pub expired_count : Db → ℕ
expired_count d = length (keep is_expired d.tickets)

valid_is_not_expired :
    (s : String) (b : Bool) → (str_eq s "valid" && b) ≡ true → str_eq s "expired" ≡ false
valid_is_not_expired s b = elim (Bool-cases (str_eq s "valid")) [
  | inl is_valid ↦ λ h. let same : s ≡ "valid" = (eq_iff s "valid").0 is_valid in rw same refl
  | inr other ↦ rw other (λ h. cc)
]

expired_by_change :
    (now : Time) (t : Ticket)
    → is_overdue now t ≡ true
    → (is_expired t ≡ false) × (is_expired (set_expired now t) ≡ true)
expired_by_change now t h = (valid_is_not_expired t.status (ltb t.valid_until now) h, refl)

-- A successful ExpireTickets, on a documented server, leaves no valid ticket that is overdue,
-- returns how many there were, and makes that many more tickets expired.
pub expire_tickets_lem :
    ⦃m : Mongo⦄ ⦃e : Env⦄
    → IsDocumented m
    → (now : Time) (w : World) (n : ℕ) → (expire_tickets now w).0 ≡ ok n
    → (n ≡ length (keep (is_overdue now) w.db.tickets))
      × (any (is_overdue now) (expire_tickets now w).1.db.tickets ≡ false)
      × (expired_count (expire_tickets now w).1.db ≡ n + expired_count w.db)
unfolding expire_tickets call
expire_tickets_lem ⦃e = e⦄ (lists s p) now w n =
    let none_left = any-change_all (is_overdue now) (set_expired now) w.db.tickets (λ t o. refl) in
    let more =
      length-keep-change_all (is_overdue now) is_expired (set_expired now) w.db.tickets
        (expired_by_change now) in
    elim (Bool-cases (e.fails w.step)) [
      | inl failed ↦ rw failed (λ h. cc)
      | inr done ↦ rw done (λ h.
          let same : length (keep (is_overdue now) w.db.tickets) ≡ n = cc in
          (sym same, none_left, more ∙ ap (λ k. k + expired_count w.db) same))
    ]

-- A successful MarkTicketAsUsed, on a documented server, makes one valid ticket with the ID fewer.
pub mark_ticket_as_used_count :
    ⦃m : Mongo⦄ ⦃e : Env⦄
    → IsDocumented m
    → (id : ObjectId) (used_at : Time) (u : Option User) (w : World)
    → (mark_ticket_as_used id used_at u w).0 ≡ ok tt
    → suc (usable_count id (mark_ticket_as_used id used_at u w).1.db) ≡ usable_count id w.db
unfolding mark_ticket_as_used call time_now
mark_ticket_as_used_count ⦃e = e⦄ (lists s p) id used_at u w =
    elim (Bool-cases (e.fails (suc w.step))) [
      | inl failed ↦ rw failed (λ h. cc)
      | inr done ↦
          rw (done, any-keep (is_usable id) w.db.tickets)
            (elim (Bool-cases (any (is_usable id) w.db.tickets)) [
              | inl found ↦ rw found (λ h.
                  length-keep-change_first (is_usable id) _ w.db.tickets (λ t o. ground arith)
                    found)
              | inr missing ↦ rw missing (λ h. cc)
            ])
    ]
