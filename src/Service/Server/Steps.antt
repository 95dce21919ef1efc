-- ===== src/Service/Server/Steps.antt =====
-- internal/service: the steps of the handlers that change nothing, and the check-in, which changes
-- nothing unless it answers with success.
use cicd_demo.Base.{
  suc, Bool, Option, none, some, String, List, [], ◌∷◌, ◌≡◌, ◌≢◌, refl, ◌∙◌, ap, arith,
}
use cicd_demo.Models.{ObjectId, User, Order, Ticket}
use cicd_demo.Helper.{Checked, good, bad}
use cicd_demo.Platform.{
  Mongo, Env, IsDocumented, Db, Error, Outcome, ok, err, panic, World, TokenReply, payload_id,
}
use cicd_demo.Platform.Frame.{Keeps, frame_rules}
use cicd_demo.Consumer.{with_transaction}
use cicd_demo.Consumer.Atomicity.{with_transaction-IsAtomic, IsAtomic, whole, nothing}
use cicd_demo.Dao.Orders.{get_order_by_id}
use cicd_demo.Logic.Listing.{get_order}
use cicd_demo.Logic.Tickets.{check_in_ticket as check_in_now}
use cicd_demo.Service.{success, Context, get_user_id}
use cicd_demo.Service.Safe.{all_data, IsSafe, Keeps-respond_if, step_rules}
use cicd_demo.Service.Orders.{
  ItemMessage, compare_owner, check_owner, authorize, authorize_order_consumer, order_lines,
  owner_or_denied, unless_denied,
}
use cicd_demo.Service.Tickets.{SessionMessage, request_sessions, ids_or_error}
use cicd_demo.Service.Tickets.CheckIn.{
  CheckInReply, claimed_id, read_code, check_in_by_id, check_in_reply, body_result, respond,
}

module _ ⦃m : Mongo⦄ ⦃e : Env⦄ where
  get_order-Keeps : (id : ObjectId) → Keeps all_data (get_order id)
  unfolding get_order get_order_by_id
  get_order-Keeps id = search frame_rules

  compare_owner-end :
      (uid : ObjectId) (u : Option User) (w : World) → (compare_owner uid u w).1.db ≡ w.db
  compare_owner-end uid none w = refl
  compare_owner-end uid (some u) w = ground arith

  check_owner-end : (uid : ObjectId) (r : Outcome Order × World) → (check_owner uid r).1.db ≡ r.1.db
  check_owner-end uid (ok o, w) = compare_owner-end uid o.user w
  check_owner-end uid (err x, w) = refl
  check_owner-end uid (panic p, w) = refl

  authorize-Keeps : (oid : ObjectId) (u : Option ObjectId) → Keeps all_data (authorize oid u)
  authorize-Keeps oid none = record { at = λ w. refl }
  authorize-Keeps oid (some uid) = record {
    at = λ w. check_owner-end uid (get_order oid w) ∙ (get_order-Keeps oid).at w;
  }

  pub authorize_order_consumer-Keeps :
      (c : Context) (oid : ObjectId) → Keeps all_data (authorize_order_consumer c oid)
  unfolding authorize_order_consumer
  authorize_order_consumer-Keeps c oid = authorize-Keeps oid (get_user_id c)

  pub owner_or_denied-Keeps : (a : ObjectId × Option Error) → Keeps all_data (owner_or_denied a)
  owner_or_denied-Keeps (u, none) = record { at = λ w. refl }
  owner_or_denied-Keeps (u, some x) = record { at = λ w. refl }

  pub unless_denied-Keeps : (a : ObjectId × Option Error) → Keeps all_data (unless_denied a)
  unless_denied-Keeps (u, none) = record { at = λ w. refl }
  unless_denied-Keeps (u, some x) = record { at = λ w. ground arith }

  pub order_lines-Keeps :
      (seen : List ObjectId) (items : List ItemMessage) → Keeps all_data (order_lines seen items)
  unfolding order_lines
  order_lines-Keeps seen [] = search step_rules
  order_lines-Keeps seen (i ∷ is) =
      search (step_rules, Keeps-respond_if, λ (l : List ObjectId). order_lines-Keeps l is)

  pub request_sessions-Keeps :
      (before : List String) (ss : List SessionMessage)
      → Keeps all_data (request_sessions before ss)
  unfolding request_sessions
  request_sessions-Keeps before [] = search step_rules
  request_sessions-Keeps before (s ∷ ss) =
      search (step_rules, Keeps-respond_if, λ (l : List String). request_sessions-Keeps l ss)

  pub ids_or_error-Keeps : (r : Checked (List ObjectId)) → Keeps all_data (ids_or_error r)
  ids_or_error-Keeps (good ids) = record { at = λ w. refl }
  ids_or_error-Keeps (bad x) = record { at = λ w. refl }

  claimed_id-Keeps : (r : TokenReply) → Keeps all_data (claimed_id r)
  claimed_id-Keeps (payload_id (some id)) = record { at = λ w. refl }
  claimed_id-Keeps (payload_id none) = record { at = λ w. refl }
  claimed_id-Keeps TokenReply.expired = record { at = λ w. refl }
  claimed_id-Keeps TokenReply.not_valid_yet = record { at = λ w. refl }
  claimed_id-Keeps TokenReply.malformed = record { at = λ w. refl }
  claimed_id-Keeps TokenReply.signature_invalid = record { at = λ w. refl }
  claimed_id-Keeps TokenReply.invalid = record { at = λ w. refl }

  respond-end :
      (known : Option (Ticket × Bool)) (r : Outcome (Ticket × Bool) × World)
      → (respond known r).1 ≡ r.1
  respond-end known (ok a, w) = refl
  respond-end (some a) (err x, w) = refl
  respond-end none (err x, w) = ground arith
  respond-end known (panic q, w) = refl

  respond-ok :
      (known : Option (Ticket × Bool)) (r : Outcome (Ticket × Bool) × World) (a : Ticket × Bool)
      → r.0 ≡ ok a
      → (respond known r).0 ≡ ok (success (check_in_reply a, none))
  respond-ok known (ok b, w) a h = cc
  respond-ok known (err x, w) a h = cc
  respond-ok known (panic q, w) a h = cc

  respond-settled :
      (before : Db) (body : Outcome (Ticket × Bool) × World) (known : Option (Ticket × Bool))
      (r : Outcome (Ticket × Bool) × World)
      → IsAtomic before body r
      → ((a : CheckInReply × Option Error) → (respond known r).0 ≢ ok (success a))
      → (respond known r).1.db ≡ before
  respond-settled before body known r (whole a done _ _) other =
      absurd (other (check_in_reply a, none) (respond-ok known r a done))
  respond-settled before body known r (nothing _ same) other =
      ap (λ (v : World). v.db) (respond-end known r) ∙ same

module _ ⦃m : Mongo⦄ ⦃e : Env⦄ (d : IsDocumented m) where
  pub check_in_by_id-IsSafe : (id : ObjectId) (u : User) → IsSafe (check_in_by_id id u)
  unfolding check_in_by_id
  check_in_by_id-IsSafe id u = record {
    at = λ w other.
        let body = check_in_now id (some u) in
        respond-settled w.db _ (body_result body w) (with_transaction body w)
          (with_transaction-IsAtomic d body w) other;
  }

  pub read_code-Keeps : (code : String) → Keeps all_data (read_code code)
  unfolding read_code
  read_code-Keeps code = record {
    at = λ w. (claimed_id-Keeps (e.parse_qr_code w.step code)).at (record w { step = suc w.step });
  }
