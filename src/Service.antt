-- ===== src/Service.antt =====
-- internal/service: what the handlers of the two gRPC servers share. request.go reads the user from
-- the metadata of a call, and response.go makes the answers.
pub mod Interceptors
pub mod Replies
pub mod Safe
pub mod Orders
pub mod OrdersAdmin
pub mod Export
pub mod Bills
pub mod Tickets
pub mod Server
use cicd_demo.Base.{
  String, Bool, Option, none, some, List, head?, ◌≡◌, refl, ap, if◌then◌else◌, ltb,
}
use cicd_demo.Models.{ObjectId, Time, User}
use cicd_demo.Platform.{Env, Error, Outcome, ok, err, panic, World, M, pure, refused}

-- The codes of google.golang.org/grpc/codes that the handlers use.
pub data Code : Type 0 where
  unauthenticated permission_denied invalid_argument not_found already_exists failed_precondition
        deadline_exceeded internal :
      Code

-- The answer of a handler: a successful response, or a status error.
pub data Answer (A : Type 0) : Type 0 where
  success : A → Answer A
  failed : Code → Error → Answer A

abbrev pub Rpc : Type 0 → Type 0
Rpc A = M (Answer A)

module _ {A : Type 0} where
  -- `ResponseSuccess`, for a message that can be packed, and `ResponseError`
  abbrev pub succeed : A → Rpc A
  succeed a = pure (success a)

  abbrev pub respond_error : Code → Error → Rpc A
  respond_error c x = pure (failed c x)

  -- What is parsed, or the answer to what is not.
  abbrev pub parsed_or : Option A → Code → Error → Rpc A
  parsed_or none c x = respond_error c x
  parsed_or (some a) c x = succeed a

  abbrev pub answered : (Error → Code) → Outcome A × World → Outcome (Answer A) × World
  answered code (ok a, w) = (ok (success a), w)
  answered code (err x, w) = (ok (failed (code x) x), w)
  answered code (panic p, w) = (panic p, w)

  -- A call of the logic layer, with the code that answers each of its errors.
  abbrev pub attempt_by : (Error → Code) → M A → Rpc A
  attempt_by code action w = answered code (action w)

  abbrev pub attempt : Code → M A → Rpc A
  attempt c action = attempt_by (λ _. c) action

module _ {A B : Type 0} where
  abbrev pub continue_answer : (A → Rpc B) → Answer A → Rpc B
  continue_answer k (success a) = k a
  continue_answer k (failed c x) = respond_error c x

  abbrev pub continue_rpc : (A → Rpc B) → Outcome (Answer A) × World → Outcome (Answer B) × World
  continue_rpc k (ok a, w) = continue_answer k a w
  continue_rpc k (err x, w) = (err x, w)
  continue_rpc k (panic p, w) = (panic p, w)

  infixl 5 ◌>>=◌ ◌>>◌
  abbrev pub ◌>>=◌ : Rpc A → (A → Rpc B) → Rpc B
  ◌>>=◌ m k w = continue_rpc k (m w)

  abbrev pub ◌>>◌ : Rpc A → Rpc B → Rpc B
  m >> k = m >>= λ _. k

-- `if test { return ResponseError(code, err) }`
abbrev pub respond_if : Bool → Code → Error → Rpc Unit
respond_if test c x = if test then respond_error c x else succeed tt

-- The headers of a call, by the names that are read: the values of each.
pub record Metadata : Type 0 where
  pub user_id : List String
  pub user_email : List String
  pub user_name : List String
  pub user_avatar : List String

-- The context of a call, which may carry no metadata.
abbrev pub Context : Type 0
Context = Option Metadata

abbrev header : (Metadata → List String) → Context → Option String
header f none = none
header f (some md) = head? (f md)

abbrev text_or_empty : Option String → String
text_or_empty none = ""
text_or_empty (some s) = s

abbrev pub get_user_email : Context → String
get_user_email c = text_or_empty (header (λ md. md.user_email) c)

abbrev pub get_user_name : Context → String
get_user_name c = text_or_empty (header (λ md. md.user_name) c)

abbrev pub get_user_avatar : Context → String
get_user_avatar c = text_or_empty (header (λ md. md.user_avatar) c)

-- `&models.User{...}` with the fields that a handler fills.
abbrev pub named_user : ObjectId → Context → User
named_user uid c = record { user_id = uid; name = get_user_name c; email = ""; avatar = "" }

abbrev pub addressed_user : ObjectId → Context → User
addressed_user uid c = record {
  user_id = uid;
  name = get_user_name c;
  email = get_user_email c;
  avatar = "";
}

abbrev pub full_user : ObjectId → Context → User
full_user uid c = record {
  user_id = uid;
  name = get_user_name c;
  email = get_user_email c;
  avatar = get_user_avatar c;
}

-- `helper.ConvertTimeToProtoTimestamp`, of a time and of a pointer: none for the zero time.
abbrev pub convert_time_to_proto_timestamp : Time → Option Time
convert_time_to_proto_timestamp t = if ltb 0 t then some t else none

abbrev pub convert_pointer_to_proto_timestamp : Option Time → Option Time
convert_pointer_to_proto_timestamp none = none
convert_pointer_to_proto_timestamp (some t) = convert_time_to_proto_timestamp t

module _ ⦃e : Env⦄ where
  abbrev parsed_header : Option String → Option ObjectId
  parsed_header none = none
  parsed_header (some s) = e.object_id_from_hex s

  -- `getUserId`: none for an error, which is always that the call is unauthenticated.
  abbrev pub get_user_id : Context → Option ObjectId
  get_user_id c = parsed_header (header (λ md. md.user_id) c)

  -- The first step of most handlers.
  abbrev pub authenticated : Context → Rpc ObjectId
  authenticated c = parsed_or (get_user_id c) unauthenticated (refused "unauthenticated")

  abbrev pub parse_object_id : String → Rpc ObjectId
  parse_object_id s =
      parsed_or (e.object_id_from_hex s) invalid_argument (refused "invalid ObjectID")

module _ {A B : Type 0} where
  -- A handler that answers with success has done so in both of its steps.
  continue_rpc-success :
      (k : A → Rpc B) (r : Outcome (Answer A) × World) (b : B)
      → (continue_rpc k r).0 ≡ ok (success b)
      → (a : A) × (r.0 ≡ ok (success a))
        × ((k a r.1).0 ≡ ok (success b))
        × (continue_rpc k r ≡ k a r.1)
  continue_rpc-success k (ok (success a), w) b h = (a, refl, h, refl)
  continue_rpc-success k (ok (failed c x), w) b h = cc
  continue_rpc-success k (err x, w) b h = cc
  continue_rpc-success k (panic p, w) b h = cc

  pub bind-eq-success :
      (m : Rpc A) (k : A → Rpc B) (w : World) (b : B)
      → ((m >>= k) w).0 ≡ ok (success b)
      → (a : A) × ((m w).0 ≡ ok (success a))
        × ((k a (m w).1).0 ≡ ok (success b))
        × ((m >>= k) w ≡ k a (m w).1)
  bind-eq-success m k w b h = continue_rpc-success k (m w) b h

  continue_rpc-at :
      (k : A → Rpc B) (r : Outcome (Answer A) × World) (a : A)
      → r.0 ≡ ok (success a)
      → continue_rpc k r ≡ k a r.1
  continue_rpc-at k (ok (success b), w) a h = let same : b ≡ a = cc in ap (λ x. k x w) same
  continue_rpc-at k (ok (failed c x), w) a h = cc
  continue_rpc-at k (err x, w) a h = cc
  continue_rpc-at k (panic p, w) a h = cc

  -- A step that is known to succeed.
  pub bind-eq-at :
      (m : Rpc A) (k : A → Rpc B) (w : World) (a : A)
      → (m w).0 ≡ ok (success a)
      → (m >>= k) w ≡ k a (m w).1
  bind-eq-at m k w a h = continue_rpc-at k (m w) a h

pub parsed_or-success :
    {A : Type 0} (o : Option A) (c : Code) (x : Error) (w : World) (a : A)
    → (parsed_or o c x w).0 ≡ ok (success a)
    → (o ≡ some a) × ((parsed_or o c x w).1 ≡ w)
parsed_or-success none c x w a h = cc
parsed_or-success (some b) c x w a h = let same : b ≡ a = cc in (ap some same, refl)

pub attempt-success :
    {A : Type 0} (code : Error → Code) (r : Outcome A × World) (a : A)
    → (answered code r).0 ≡ ok (success a)
    → (r.0 ≡ ok a) × ((answered code r).1 ≡ r.1)
attempt-success code (ok b, w) a h = let same : b ≡ a = cc in (ap ok same, refl)
attempt-success code (err x, w) a h = cc
attempt-success code (panic p, w) a h = cc

-- UnaryPanicInterceptor: a panic of a handler is answered.
module _ {A : Type 0} where
  abbrev recovered : Outcome (Answer A) × World → Outcome (Answer A) × World
  recovered (ok a, w) = (ok a, w)
  recovered (err x, w) = (err x, w)
  recovered (panic p, w) = (ok (failed internal (refused "Internal server error")), w)

  abbrev pub unary_panic_interceptor : Rpc A → Rpc A
  unary_panic_interceptor handler w = recovered (handler w)
