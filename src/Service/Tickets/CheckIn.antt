-- ===== src/Service/Tickets/CheckIn.antt =====
-- internal/service/tickets_admin.go: `CheckInTicket`.
use cicd_demo.Base.{suc, Bool, true, false, Option, none, some, String, if◌then◌else◌}
use cicd_demo.Models.{ObjectId, Time, User, Ticket}
use cicd_demo.Platform.{
  Mongo, Env, TokenReply, payload_id, expired, not_valid_yet, malformed, signature_invalid, invalid,
  Error, Outcome, ok, err, panic, World, M, refused,
}
use cicd_demo.Consumer.{with_transaction}
use cicd_demo.Consumer.Atomicity.{begun}
use cicd_demo.Logic.Tickets.{check_in_ticket as check_in_now}
use cicd_demo.Service.{
  unauthenticated, invalid_argument, not_found, failed_precondition, deadline_exceeded, internal,
  Answer, success, failed, Rpc, succeed, respond_error, Context, authenticated, parse_object_id,
  addressed_user, convert_pointer_to_proto_timestamp, ◌>>=◌,
}
use cicd_demo.Service.Replies.{UserReply}

pub record CheckInReply : Type 0 where
  pub ticket_id : String
  pub status : String
  pub used_at : Option Time
  pub customer : UserReply
  pub order_item_name : String
  pub checked_in_now : Bool

-- The code for each error of the parser, and the text of the ID of the payload.
abbrev pub claimed_id : TokenReply → Rpc String
claimed_id (payload_id (some id)) = succeed id
claimed_id (payload_id none) = respond_error invalid_argument (refused "invalid ticket payload")
claimed_id expired = respond_error deadline_exceeded (refused "token is expired")
claimed_id not_valid_yet = respond_error failed_precondition (refused "token is not yet valid")
claimed_id malformed = respond_error invalid_argument (refused "token is malformed")
claimed_id signature_invalid = respond_error invalid_argument (refused "token signature is invalid")
claimed_id invalid = respond_error unauthenticated (refused "token is invalid")

-- The variables `ticket` and `wasCheckedInNow`, which the body of the transaction sets, as it has
-- left them: what the logic returns, also beside an error.
abbrev pub captured : Outcome (Ticket × Bool) → Option (Ticket × Bool)
captured (ok r) = some r
captured (err (Error.not_within_validity t)) = some (t, false)
captured (err _) = none
captured (panic p) = none

abbrev pub is_not_found : Error → Bool
is_not_found Error.ticket_not_found = true
is_not_found _ = false

module _ ⦃m : Mongo⦄ ⦃e : Env⦄ where
  abbrev pub check_in_reply : Ticket × Bool → CheckInReply
  check_in_reply (t, now) = record {
    ticket_id = e.object_id_hex t.id;
    status = t.status;
    used_at = convert_pointer_to_proto_timestamp t.used_at;
    customer = record {
      user_id = e.object_id_hex t.customer.user_id;
      name = t.customer.name;
      email = t.customer.email;
      avatar = "";
    };
    order_item_name = t.order_item.name;
    checked_in_now = now;
  }

  -- The body runs where the session has started.
  abbrev pub body_result : M (Ticket × Bool) → World → Option (Ticket × Bool)
  body_result body w = if e.fails w.step then none else captured (body (begun w)).0

  -- An error is fatal only where no ticket has been captured; else its text goes with the response.
  abbrev pub respond :
      Option (Ticket × Bool)
      → Outcome (Ticket × Bool) × World
      → Outcome (Answer (CheckInReply × Option Error)) × World
  respond known (ok r, w) = (ok (success (check_in_reply r, none)), w)
  respond (some r) (err x, w) = (ok (success (check_in_reply r, some x)), w)
  respond none (err x, w) =
      if is_not_found x
      then (ok (failed not_found x), w)
      else (ok (failed internal (refused "failed to process ticket check-in")), w)
  respond known (panic p, w) = (panic p, w)

  unfoldable pub check_in_by_id : ObjectId → User → Rpc (CheckInReply × Option Error)
  check_in_by_id id operator w =
      let body = check_in_now id (some operator) in
      respond (body_result body w) (with_transaction body w)

  unfoldable pub read_code : String → Rpc String
  read_code qr_code w = claimed_id (e.parse_qr_code w.step qr_code) (record w { step = suc w.step })

  unfoldable pub check_in_ticket : Context → String → Rpc (CheckInReply × Option Error)
  check_in_ticket c qr_code = do
    uid ← authenticated c
    text ← read_code qr_code
    id ← parse_object_id text
    check_in_by_id id (addressed_user uid c)
