-- ===== src/Worker.antt =====
-- internal/worker/outbox_processor.go: the outbox worker, and its rounds.
pub mod Expirer
pub mod Messages
pub mod Rounds
use cicd_demo.Base.{ℕ, zero, suc, List, [], ◌∷◌, if◌then◌else◌}
use cicd_demo.Models.{OutboxMessage}
use cicd_demo.Platform.{Mongo, Env, M, pure, ◌>>=◌, ◌>>◌, logged, outside_call}
use cicd_demo.Dao.Outbox.{claim_and_fetch_events, mark_as_processed, increment_retry}

module _ ⦃m : Mongo⦄ ⦃e : Env⦄ where
  -- A message is published, and marked or put back; errors of either are only logged.
  unfoldable pub process_event : OutboxMessage → M Unit
  process_event x = do
    published ← outside_call e.publishes
    if published
        then logged tt (mark_as_processed x.id)
        else logged tt (increment_retry x.id "publish error")

  unfoldable pub process_claimed : List OutboxMessage → M Unit
  process_claimed [] = pure tt
  process_claimed (x ∷ xs) = do process_event x; process_claimed xs

  unfoldable pub process_events : ℕ → M Unit
  process_events batch_size = do
    claimed ← logged [] (claim_and_fetch_events batch_size)
    process_claimed claimed

  -- `Start`, for the ticks that come before the context is done.
  unfoldable pub start : ℕ → ℕ → M Unit
  start batch_size zero = pure tt
  start batch_size (suc ticks) = do process_events batch_size; start batch_size ticks
