-- ===== src/Dao/Outbox/Claims.antt =====
-- internal/dao/mongodb/outbox.go: a pending message is claimed by one worker.
use cicd_demo.Base.{
  ℕ, suc, false, List, ◌≡◌, ◌≢◌, ap, ◌∙◌, inl, inr, Bool-cases, any, arith, any-change_all,
  length-keep-none,
}
use cicd_demo.Models.{ObjectId}
use cicd_demo.Platform.{Mongo, Env, IsDocumented, lists, Db, World, ok, call, time_now}
use cicd_demo.Dao.Outbox.{is_claimable, claim}

-- A claim that succeeds, on a documented server, leaves nothing that the same IDs could claim.
claimed_once :
    ⦃m : Mongo⦄ ⦃e : Env⦄
    → IsDocumented m
    → (ids : List ObjectId) (c : ObjectId) (w : World) (n : ℕ) → (claim ids c w).0 ≡ ok n
    → any (is_claimable ids) (claim ids c w).1.db.outbox ≡ false
unfolding claim call time_now
claimed_once ⦃e = e⦄ (lists s p) ids c w n = elim (Bool-cases (e.fails (suc w.step))) [
  | inl failed ↦ rw failed (λ h. cc)
  | inr done ↦ rw done (λ h. any-change_all (is_claimable ids) _ w.db.outbox (λ x o. ground arith))
]

nothing_left :
    ⦃m : Mongo⦄ ⦃e : Env⦄
    → IsDocumented m
    → (ids : List ObjectId) (c : ObjectId) (w : World) (n : ℕ)
    → any (is_claimable ids) w.db.outbox ≡ false
    → (claim ids c w).0 ≡ ok n
    → n ≡ 0
unfolding claim call time_now
nothing_left ⦃e = e⦄ (lists s p) ids c w n none_left = elim (Bool-cases (e.fails (suc w.step))) [
  | inl failed ↦ rw failed (λ h. cc)
  | inr done ↦ rw (done, length-keep-none (is_claimable ids) w.db.outbox none_left) (λ h. cc)
]

-- When two workers claim the same candidates one after the other, on a documented server, with
-- nothing in between, and the first claim succeeds, the second does not claim any message, whatever
-- the environment of each is.
pub claim_exclusive :
    ⦃m : Mongo⦄
    → IsDocumented m
    → (one two : Env) (ids : List ObjectId) (c1 c2 : ObjectId) (w v : World) (n k : ℕ)
    → (claim ⦃e = one⦄ ids c1 w).0 ≡ ok n
    → v.db ≡ (claim ⦃e = one⦄ ids c1 w).1.db
    → (claim ⦃e = two⦄ ids c2 v).0 ≢ ok (suc k)
claim_exclusive d one two ids c1 c2 w v n k first next second =
    let zero_count =
      nothing_left ⦃e = two⦄ d ids c2 v (suc k)
        (ap (λ (b : Db). any (is_claimable ids) b.outbox) next
          ∙ claimed_once ⦃e = one⦄ d ids c1 w n first)
        second in
    omega arith
