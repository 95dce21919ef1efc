-- ===== src/Service/Tickets/Commit.antt =====
-- internal/service/tickets_admin.go: the response of `CheckInTicket` and the end of its transaction.
use cicd_demo.Base.{Bool, false, Option, none, some, ◌≡◌}
use cicd_demo.Models.{Ticket}
use cicd_demo.Platform.{Mongo, Env, Db, Error, Outcome, ok, err, World}
use cicd_demo.Logic.Tickets.{check_in_ticket as check_in_now}
use cicd_demo.Service.Tickets.CheckIn.{CheckInReply, check_in_reply}

module _ ⦃m : Mongo⦄ ⦃e : Env⦄ where
  -- How a check-in may have ended that is answered with a response, by what its body returned: it
  -- is committed, and reported without a message; the time was not within the period of the ticket,
  -- which is reported as not checked in now, with a message; or it is not committed, and reported
  -- as the body returned it, with a message.
  pub data IsReported (before : Db) (body : Outcome (Ticket × Bool) × World) (after : Db)
      (reply : CheckInReply × Option Error) : Type 0 where
    done :
        (r : Ticket × Bool)
        → body.0 ≡ ok r
        → after ≡ body.1.db
        → reply ≡ (check_in_reply r, none)
        → IsReported before body after reply
    outside_period :
        (t : Ticket) (x : Error)
        → body.0 ≡ err (Error.not_within_validity t)
        → after ≡ before
        → reply ≡ (check_in_reply (t, false), some x)
        → IsReported before body after reply
    uncommitted :
        (r : Ticket × Bool) (x : Error)
        → body.0 ≡ ok r
        → after ≡ before
        → reply ≡ (check_in_reply r, some x)
        → IsReported before body after reply
