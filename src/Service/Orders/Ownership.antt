-- ===== src/Service/Orders/Ownership.antt =====
-- internal/service/order_public.go: whether a handler acts only for the owner of an order.
use cicd_demo.Base.{
  Option, none, some, String, ◌≡◌, refl, ◌==◌, ==→eq, arith, Option-cases, Bool-cases, inl, inr,
  subst,
}
use cicd_demo.Models.{ObjectId, User, Order}
use cicd_demo.Platform.{Mongo, Env, Error, Outcome, ok, err, panic, World}
use cicd_demo.Logic.Publisher.{PaymentEventPublisher}
use cicd_demo.Logic.Listing.{get_order}
use cicd_demo.Service.{
  invalid_argument, internal, success, attempt, Context, get_user_id, parse_object_id,
  bind-eq-success, parsed_or-success, attempt-success,
}
use cicd_demo.Service.Orders.{
  authorize, authorize_order_consumer, check_owner, owner_or_denied, cancel_order,
}

module _ ⦃m : Mongo⦄ ⦃e : Env⦄ where
  -- The order that a call names was read, and belongs to the user of the call.
  pub record Owns (c : Context) (order : String) (w : World) : Type 0 where
    pub oid : ObjectId
    pub uid : ObjectId
    pub owned : Order
    pub owner : User
    pub names : e.object_id_from_hex order ≡ some oid
    pub calls : get_user_id c ≡ some uid
    pub reads : (get_order oid w).0 ≡ ok owned
    pub belongs : owned.user ≡ some owner
    pub is_caller : owner.user_id ≡ uid

  owner_of :
      (uid uid' : ObjectId) (r : Outcome Order × World)
      → (check_owner uid r).0 ≡ ok (uid', none)
      → (o : Order) × (u : User) × (r.0 ≡ ok o) × (o.user ≡ some u) × (u.user_id ≡ uid)
  owner_of uid uid' (ok o, w) h = elim (Option-cases o.user) [
    | inl missing ↦ ground (arith, missing)
    | inr (u, found) ↦ elim (Bool-cases (u.user_id == uid)) [
      | inl same ↦ (o, u, refl, found, ==→eq _ _ same)
      | inr other ↦ ground (arith, found, other)
    ]
  ]
  owner_of uid uid' (err x, w) h = cc
  owner_of uid uid' (panic p, w) h = cc

  owner_or_denied-none :
      (a : ObjectId × Option Error) (w : World) (uid : ObjectId)
      → (owner_or_denied a w).0 ≡ ok (success uid)
      → a.1 ≡ none
  owner_or_denied-none (u, none) w uid h = refl
  owner_or_denied-none (u, some x) w uid h = cc

  authorized_owner :
      (c : Context) (order : String) (oid : ObjectId) (w : World) (user : Option ObjectId)
      (a : ObjectId × Option Error)
      → e.object_id_from_hex order ≡ some oid
      → get_user_id c ≡ user
      → (authorize oid user w).0 ≡ ok a
      → a.1 ≡ none
      → Owns c order w
  authorized_owner c order oid w none a names calls h k = cc
  authorized_owner c order oid w (some uid) (uid', x) names calls h k =
      let (o, u, read, belongs, same) =
        owner_of uid uid' (get_order oid w)
          (subst (λ y. (check_owner uid (get_order oid w)).0 ≡ ok (uid', y)) k h) in
      record {
        oid = oid;
        uid = uid;
        owned = o;
        owner = u;
        names = names;
        calls = calls;
        reads = read;
        belongs = belongs;
        is_caller = same;
      }

  -- A CancelOrder of a buyer that answers with success has read the order that the call names, and
  -- that order is the caller's.
  pub cancel_order-Owns :
      (p : PaymentEventPublisher) (c : Context) (order reason : String) (w : World)
      → (cancel_order p c order reason w).0 ≡ ok (success tt)
      → Owns c order w
  unfolding cancel_order authorize_order_consumer
  cancel_order-Owns p c order reason w h =
      let (oid, parsed, h1, _) = bind-eq-success (parse_object_id order) _ w tt h in
      let (names, same) =
        parsed_or-success (e.object_id_from_hex order) invalid_argument _ w oid parsed in
      let w1 = (parse_object_id order w).1 in
      let (a, checked, h2, _) =
        bind-eq-success (attempt internal (authorize_order_consumer c oid)) _ w1 tt h1 in
      let (authorized, _) =
        attempt-success (λ _. internal) (authorize_order_consumer c oid w1) a checked in
      let (uid, allowed, _, _) = bind-eq-success (owner_or_denied a) _ _ tt h2 in
      subst (Owns c order) same (
        authorized_owner c order oid w1 (get_user_id c) a names refl authorized
          (owner_or_denied-none a _ uid allowed))
