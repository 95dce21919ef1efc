-- ===== src/Worker/Expirer.antt =====
-- internal/worker/ticket_expirer.go: the worker that expires tickets.
use cicd_demo.Base.{ℕ, zero, suc}
use cicd_demo.Platform.{Mongo, Env, Outcome, ok, err, panic, World, M, pure, ◌>>◌}
use cicd_demo.Logic.Tickets.{expire_overdue_tickets}

-- An error is logged, and a panic is recovered from.
abbrev pub reported : Outcome ℕ × World → Outcome Unit × World
reported (ok n, w) = (ok tt, w)
reported (err x, w) = (ok tt, w)
reported (panic p, w) = (ok tt, w)

module _ ⦃m : Mongo⦄ ⦃e : Env⦄ where
  unfoldable pub run_expiration : M Unit
  run_expiration w = reported (expire_overdue_tickets w)

  -- `Start`, for the ticks that come before it is stopped.
  unfoldable pub start_expirer : ℕ → M Unit
  start_expirer zero = pure tt
  start_expirer (suc ticks) = do run_expiration; start_expirer ticks
