-- ===== src/Worker/Rounds.antt =====
-- internal/worker/outbox_processor.go: the rounds of the worker leave no message behind.
use cicd_demo.Base.{
  ℕ, zero, suc, some, true, false, List, [], ◌∷◌, ◌≡◌, refl, ap, ==→eq, eq→==, ◌∙◌, sym, subst,
  Bool-cases, inl, inr, ◌==◌, any, keep, change_all, length, arith,
}
use cicd_demo.Models.{ObjectId, OutboxMessage, outbox_processing}
use cicd_demo.Platform.{
  Mongo, Env, IsDocumented, lists, Outcome, ok, err, panic, log_error, World, logged, call, query,
  execute, time_now, new_object_id, outside_call,
}
use cicd_demo.Platform.Frame.{bind-eq}
use cicd_demo.Dao.Outbox.{
  claimed_by, is_claimable, claim, find_candidates, fetch_claimed, claim_candidates,
  claim_and_fetch_events, mark_as_processed, increment_retry,
}
use cicd_demo.Worker.{process_event, process_claimed, process_events, start}
use cicd_demo.Worker.Messages.{
  has_id, is_processing, Distinct, IsSettled, settle_any, settle_named, change_first-Distinct,
  claimed_any, change_all-Distinct, change_all-none, IsClaimed,
}

process_event-IsSettled :
    ⦃m : Mongo⦄ ⦃e : Env⦄
    → IsDocumented m
    → ((n : ℕ) → e.fails n ≡ false)
    → (x : OutboxMessage) (w : World)
    → ((process_event x w).0 ≡ ok tt) × IsSettled x.id w.db.outbox (process_event x w).1.db.outbox
unfolding process_event outside_call mark_as_processed increment_retry execute call time_now
process_event-IsSettled ⦃e = e⦄ (lists s p) never x w = elim (Bool-cases (e.publishes w.step)) [
  | inl sent ↦
      rw (sent, never (suc (suc w.step)))
        (refl, record { set = _; keeps_id = λ y. refl; settles = λ y. refl; changed = refl })
  | inr unsent ↦
      rw (unsent, never (suc w.step))
        (refl, record { set = _; keeps_id = λ y. refl; settles = λ y. refl; changed = refl })
]

claim_candidates-IsClaimed :
    ⦃m : Mongo⦄ ⦃e : Env⦄
    → IsDocumented m
    → ((n : ℕ) → e.fails n ≡ false)
    → (ids : List ObjectId) (w : World)
    → (xs : List OutboxMessage) × ((claim_candidates ids w).0 ≡ ok xs)
      × IsClaimed w.db.outbox (claim_candidates ids w).1.db.outbox xs
unfolding claim_candidates claim fetch_claimed query call time_now new_object_id
claim_candidates-IsClaimed d never [] w =
    ([], refl, record { distinct = λ h. h; kept = λ i h k. h })
claim_candidates-IsClaimed ⦃e = e⦄ (lists s p) never (i ∷ ids) w =
    let c = e.new_object_id w.step in
    let test = is_claimable (i ∷ ids) in
    let set = λ (x : OutboxMessage). record x {
      status = outbox_processing;
      claim_id = some c;
      updated_at = some (e.now (suc w.step));
    } in
    rw (never (suc (suc w.step))) (elim (Bool-cases (length (keep test w.db.outbox) == 0)) [
      | inl none_left ↦ rw none_left (
        [],
        refl,
        record {
          distinct = change_all-Distinct test set w.db.outbox (λ y. refl);
          kept = λ j h k. rw (change_all-none test set w.db.outbox none_left) h;
        },
      )
      | inr claims ↦
          rw (claims, never (suc (suc (suc w.step))))
            (
              keep (claimed_by c) (change_all test set w.db.outbox),
              refl,
              record {
                distinct = change_all-Distinct test set w.db.outbox (λ y. refl);
                kept = λ j. claimed_any j test (claimed_by c) set w.db.outbox (λ y. eq→== c c refl);
              },
            )
    ])

fetch-IsClaimed :
    ⦃m : Mongo⦄ ⦃e : Env⦄
    → IsDocumented m
    → ((n : ℕ) → e.fails n ≡ false)
    → (limit : ℕ) (w : World)
    → (xs : List OutboxMessage) × ((claim_and_fetch_events limit w).0 ≡ ok xs)
      × IsClaimed w.db.outbox (claim_and_fetch_events limit w).1.db.outbox xs
unfolding claim_and_fetch_events find_candidates query call
fetch-IsClaimed d never limit w =
    rw (never w.step) (claim_candidates-IsClaimed d never _ (record w { step = suc w.step }))

log_error_ok : {A : Type 0} (a b : A) (r : Outcome A × World) → r.0 ≡ ok b → log_error a r ≡ r
log_error_ok a b (ok c, w) h = refl
log_error_ok a b (err x, w) h = cc
log_error_ok a b (panic p, w) h = cc

-- A run that returns, keeps the IDs distinct, and leaves nothing else being processed.
record IsRun (before : List OutboxMessage) (r : Outcome Unit × World) : Type 0 where
  returns : r.0 ≡ ok tt
  distinct : Distinct r.1.db.outbox
  kept :
      (i : ObjectId)
      → any (is_processing i) before ≡ false
      → any (is_processing i) r.1.db.outbox ≡ false

-- And none of the messages that it is given.
record IsWorked (before claimed : List OutboxMessage) (r : Outcome Unit × World) : Type 0 where
  run : IsRun before r
  ended :
      (i : ObjectId) → any (has_id i) claimed ≡ true → any (is_processing i) r.1.db.outbox ≡ false

module _ ⦃m : Mongo⦄ ⦃e : Env⦄ (d : IsDocumented m) (never : (n : ℕ) → e.fails n ≡ false) where
  process_claimed-IsWorked :
      (xs : List OutboxMessage) (w : World)
      → Distinct w.db.outbox
      → IsWorked w.db.outbox xs (process_claimed xs w)
  unfolding process_claimed
  process_claimed-IsWorked [] w apart = record {
    run = record { returns = refl; distinct = apart; kept = λ i h. h };
    ended = λ i h. cc;
  }
  process_claimed-IsWorked (x ∷ xs) w apart =
      let (done, settled) = process_event-IsSettled d never x w in
      let w' = (process_event x w).1 in
      let apart' =
        subst Distinct (sym settled.changed)
          (change_first-Distinct settled.set x.id w.db.outbox settled.keeps_id apart) in
      let rest = process_claimed-IsWorked xs w' apart' in
      let named : any (is_processing x.id) w'.db.outbox ≡ false =
        subst (λ os. any (is_processing x.id) os ≡ false) (sym settled.changed)
          (settle_named settled.set settled.settles x.id w.db.outbox apart) in
      subst (IsWorked w.db.outbox (x ∷ xs))
        (sym (bind-eq (process_event x) (λ _. process_claimed xs) w tt done))
        (record {
          run = record {
            returns = rest.run.returns;
            distinct = rest.run.distinct;
            kept = λ i h. rest.run.kept i (
                subst (λ os. any (is_processing i) os ≡ false) (sym settled.changed)
                  (settle_any settled.set settled.settles i x.id w.db.outbox h));
          };
          ended = λ i h. elim (Bool-cases (x.id == i)) [
            | inl same ↦
                rest.run.kept i (
                  subst (λ k. any (is_processing k) w'.db.outbox ≡ false) (==→eq x.id i same) named)
            | inr other ↦ rest.ended i (ground (arith, other, h))
          ];
        })

  process_events-IsRun :
      (batch_size : ℕ) (w : World)
      → Distinct w.db.outbox
      → IsRun w.db.outbox (process_events batch_size w)
  unfolding process_events
  process_events-IsRun batch_size w apart =
      let fetch = claim_and_fetch_events batch_size in
      let (xs, found, claim) = fetch-IsClaimed d never batch_size w in
      let w' = (fetch w).1 in
      let same = log_error_ok [] xs (fetch w) found in
      let worked = process_claimed-IsWorked xs w' (claim.distinct apart) in
      let joined : process_events batch_size w ≡ process_claimed xs w' =
        bind-eq (logged [] fetch) process_claimed w xs (ap (λ r. r.0) same ∙ found)
        ∙ ap (λ (r : Outcome (List OutboxMessage) × World). process_claimed xs r.1) same in
      subst (IsRun w.db.outbox) (sym joined) (record {
        returns = worked.run.returns;
        distinct = worked.run.distinct;
        kept = λ i h. elim (Bool-cases (any (has_id i) xs)) [
          | inl mine ↦ worked.ended i mine
          | inr other ↦ worked.run.kept i (claim.kept i h other)
        ];
      })

  start-IsRun :
      (batch_size ticks : ℕ) (w : World)
      → Distinct w.db.outbox
      → IsRun w.db.outbox (start batch_size ticks w)
  unfolding start
  start-IsRun batch_size zero w apart = record { returns = refl; distinct = apart; kept = λ i h. h }
  start-IsRun batch_size (suc ticks) w apart =
      let one = process_events-IsRun batch_size w apart in
      let rest = start-IsRun batch_size ticks (process_events batch_size w).1 one.distinct in
      subst (IsRun w.db.outbox)
        (sym (bind-eq (process_events batch_size) (λ _. start batch_size ticks) w tt one.returns))
        (record {
          returns = rest.returns;
          distinct = rest.distinct;
          kept = λ i h. rest.kept i (one.kept i h);
        })

  -- The worker, after any number of ticks, on a documented server that never fails, in an outbox
  -- with distinct IDs: it returns, and a message that was not in processing before is not left in
  -- processing, whatever the worker has claimed and whichever messages the queue refuses.
  pub start_settles :
      (batch_size ticks : ℕ) (w : World) (i : ObjectId)
      → Distinct w.db.outbox
      → any (is_processing i) w.db.outbox ≡ false
      → ((start batch_size ticks w).0 ≡ ok tt)
        × (any (is_processing i) (start batch_size ticks w).1.db.outbox ≡ false)
  start_settles batch_size ticks w i apart h =
      let run = start-IsRun batch_size ticks w apart in (run.returns, run.kept i h)
