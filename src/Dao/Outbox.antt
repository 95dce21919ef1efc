-- ===== src/Dao/Outbox.antt =====
-- internal/dao/mongodb/outbox.go: the outbox of messages, and the claim of a batch of them.
pub mod Claims
use cicd_demo.Base.{
  ℕ, ◌+◌, String, Bool, none, some, List, [], ◌∷◌, ◌&&◌, map, length, any, take, leb, ◌==◌, str_eq,
  if◌then◌else◌,
}
use cicd_demo.Models.{ObjectId, OutboxMessage, outbox_pending, outbox_processing, outbox_processed}
use cicd_demo.Platform.{Mongo, Env, M, pure, ◌>>=◌, call, query, execute, time_now, new_object_id}

abbrev pub is_pending : OutboxMessage → Bool
is_pending x = str_eq x.status outbox_pending

abbrev oldest_first : OutboxMessage → OutboxMessage → Bool
oldest_first a b = leb a.created_at b.created_at

-- `{"_id": {"$in": ids}, "status": "PENDING"}`
abbrev pub is_claimable : List ObjectId → OutboxMessage → Bool
is_claimable ids x = any (λ i. x.id == i) ids && is_pending x

abbrev pub claimed_by : ObjectId → OutboxMessage → Bool
claimed_by claim_id x = elim x.claim_id [ none ↦ Bool.false | some c ↦ c == claim_id ]

module _ ⦃m : Mongo⦄ ⦃e : Env⦄ where
  unfoldable pub create : OutboxMessage → M Unit
  create x = execute (λ d. record d { outbox = m.insert_many OutboxMessage (x ∷ []) d.outbox })

  -- Phase 1: the IDs of the oldest pending messages, at most `limit`; a limit of 0 is no limit.
  unfoldable pub find_candidates : ℕ → M (List ObjectId)
  find_candidates limit = query (λ d.
      let sorted = m.sort OutboxMessage oldest_first (m.find OutboxMessage is_pending d.outbox) in
      map (λ (x : OutboxMessage). x.id) (if limit == 0 then sorted else take limit sorted))

  -- Phase 2: those of them that are still pending are marked with the claim.
  unfoldable pub claim : List ObjectId → ObjectId → M ℕ
  claim ids claim_id = do
    now ← time_now
    let set = λ (x : OutboxMessage). record x {
      status = outbox_processing;
      claim_id = some claim_id;
      updated_at = some now;
    }
    call (λ d. (
      length (m.find OutboxMessage (is_claimable ids) d.outbox),
      record d { outbox = m.update_many OutboxMessage (is_claimable ids) set d.outbox },
    ))

  -- Phase 3: the messages of this claim.
  unfoldable pub fetch_claimed : ObjectId → M (List OutboxMessage)
  fetch_claimed claim_id = query (λ d. m.find OutboxMessage (claimed_by claim_id) d.outbox)

  -- What phases 2 and 3 do to the candidates of phase 1.
  unfoldable pub claim_candidates : List ObjectId → M (List OutboxMessage)
  claim_candidates [] = pure []
  claim_candidates (i ∷ ids) = do
    claim_id ← new_object_id
    modified ← claim (i ∷ ids) claim_id
    if modified == 0 then pure [] else fetch_claimed claim_id

  unfoldable pub claim_and_fetch_events : ℕ → M (List OutboxMessage)
  claim_and_fetch_events limit = do ids ← find_candidates limit; claim_candidates ids

  unfoldable pub mark_as_processed : ObjectId → M Unit
  mark_as_processed id = do
    now ← time_now
    let set = λ (x : OutboxMessage). record x { status = outbox_processed; processed_at = some now }
    execute (λ d. record d { outbox = m.update_one OutboxMessage (λ x. x.id == id) set d.outbox })

  unfoldable pub increment_retry : ObjectId → String → M Unit
  increment_retry id error_message =
      let set = λ (x : OutboxMessage). record x {
        status = outbox_pending;
        error = error_message;
        retries = x.retries + 1;
      } in
      execute (λ d. record d { outbox = m.update_one OutboxMessage (λ x. x.id == id) set d.outbox })
