-- ===== src/Service/Interceptors.antt =====
-- internal/middleware/grpc: the interceptors that authenticate a call and that validate its request.
use cicd_demo.Base.{Option, none, some, String, head?}
use cicd_demo.Models.{ObjectId}
use cicd_demo.Platform.{Env, Error, refused}
use cicd_demo.Service.{unauthenticated, invalid_argument, internal, Rpc, respond_error, Context}

-- What protovalidate says of a request: the validator cannot be made, or there is a violation.
pub data Validation : Type 0 where
  passes unavailable : Validation
  violates : Error → Validation

module _ ⦃e : Env⦄ {A : Type 0} where
  abbrev pub known_id : Option ObjectId → Rpc A → Rpc A
  known_id none next =
      respond_error unauthenticated (refused "unauthenticated: invalid user id format")
  known_id (some uid) next = next

  abbrev pub known_user : Option String → Rpc A → Rpc A
  known_user none next = respond_error unauthenticated (refused "unauthenticated: missing user id")
  known_user (some hex) next = known_id (e.object_id_from_hex hex) next

  -- `AuthInterceptor`; the user ID that it adds to the context is read by nothing.
  abbrev pub auth_interceptor : Context → Rpc A → Rpc A
  auth_interceptor none next =
      respond_error unauthenticated (refused "unauthenticated: missing metadata")
  auth_interceptor (some md) next = known_user (head? md.user_id) next

module _ {A : Type 0} where
  abbrev pub unary_validator_interceptor : Validation → Rpc A → Rpc A
  unary_validator_interceptor Validation.passes next = next
  unary_validator_interceptor Validation.unavailable next =
      respond_error internal (refused "internal server error")
  unary_validator_interceptor (Validation.violates x) next = respond_error invalid_argument x
