-- ===== src/Limiter.antt =====
-- internal/limiter: the token buckets that Redis keeps, one for each user, and the limiters of the
-- configured policies. A time is a number of nanoseconds.
pub mod Policies
use Prim.Native.String.{◌++◌}
use cicd_demo.Base.{
  ℕ, zero, suc, ◌+◌, ◌*◌, ◌/◌, ◌%◌, Bool, true, false, Option, none, some, String, List, [], ◌∷◌,
  ltb, leb, str_eq, if◌then◌else◌,
}
use cicd_demo.Models.{Time}
use cicd_demo.Helper.{Checked, good, bad, ◌>>=◌}
use cicd_demo.Platform.{refused}
use cicd_demo.Pagination.{ℤ, pos, negsuc, wrap64}
use cicd_demo.Pagination.Cursor.{second}

-- internal/conf/config.go: a policy, and those that are configured, by their names.
pub record RateLimiterPolicy : Type 0 where
  pub interval : String
  pub limit : ℤ

pub record RateLimiterConfig : Type 0 where
  pub default_policy : RateLimiterPolicy
  pub policies : List (String × RateLimiterPolicy)

-- A float64 of Go, and a number of Lua, is its 64 bits; the arithmetic on them is a parameter.
abbrev pub Float64 : Type 0
Float64 = ℕ

pub record FloatArithmetic : Type 0 where
  pub float_of : ℤ → Float64
  pub float_add : Float64 → Float64 → Float64
  pub float_sub : Float64 → Float64 → Float64
  pub float_mul : Float64 → Float64 → Float64
  pub float_div : Float64 → Float64 → Float64
  pub is_less : Float64 → Float64 → Bool
  pub is_at_most : Float64 → Float64 → Bool
  pub ceil : Float64 → ℤ

-- A time.Duration is an int64.
pub record RedisRateLimiter : Type 0 where
  pub namespace : String
  pub rate : Float64
  pub bucket_size : Float64
  pub key_expiration : ℤ

-- What Redis holds under a key, up to the time at which the key expires.
pub record Bucket : Type 0 where
  pub tokens : Float64
  pub last_refill : Float64
  pub expires_at : Time

abbrev pub Redis : Type 0
Redis = String → Option Bucket

-- One call: the clocks of the program and of Redis, whether the script is run, and whether its
-- answer arrives.
pub record Moment : Type 0 where
  pub now : Time
  pub redis_now : Time
  pub is_run : Bool
  pub is_answered : Bool

abbrev minus : ℕ → ℤ
minus zero = pos 0
minus (suc n) = negsuc n

-- `duration * 2`, which wraps.
abbrev twice : ℕ → ℤ
twice duration = wrap64 (duration * 2)

abbrev live : Time → Option Bucket → Option Bucket
live redis_now none = none
live redis_now (some b) = if leb b.expires_at redis_now then none else some b

-- EXPIRE: a key that expires in no or in a negative number of seconds is deleted.
abbrev expire : Time → Float64 → Float64 → ℤ → Option Bucket
expire redis_now tokens last_refill (pos zero) = none
expire redis_now tokens last_refill (pos (suc n)) =
    some (record {
      tokens = tokens;
      last_refill = last_refill;
      expires_at = redis_now + suc n * second;
    })
expire redis_now tokens last_refill (negsuc n) = none

module _ ⦃f : FloatArithmetic⦄ where
  -- `Duration.Seconds`: the whole seconds, and the rest, which are rounded towards 0.
  abbrev seconds : ℤ → Float64
  seconds (pos n) =
      f.float_add (f.float_of (pos (n / second)))
        (f.float_div (f.float_of (pos (n % second))) (f.float_of (pos second)))
  seconds (negsuc n) =
      f.float_add (f.float_of (minus (suc n / second)))
        (f.float_div (f.float_of (minus (suc n % second))) (f.float_of (pos second)))

  -- The limiter that `createLimiter` makes, for a positive limit and a positive duration.
  abbrev pub new_redis_rate_limiter : String → ℕ → ℕ → RedisRateLimiter
  new_redis_rate_limiter namespace limit duration = record {
    namespace = namespace;
    rate = f.float_div (f.float_of (pos limit)) (seconds (pos duration));
    bucket_size = f.float_of (pos limit);
    key_expiration = twice duration;
  }

  -- The clock of the program, in seconds.
  abbrev unix_seconds : Time → Float64
  unix_seconds now = f.float_div (f.float_of (wrap64 now)) (f.float_of (pos second))

  abbrev at_most : Float64 → Float64 → Float64
  at_most size n = if f.is_less size n then size else n

  abbrev refilled : RedisRateLimiter → Float64 → Option Bucket → Float64
  refilled l now none = l.bucket_size
  refilled l now (some b) =
      at_most l.bucket_size
        (f.float_add b.tokens (f.float_mul (f.float_sub now b.last_refill) l.rate))

  abbrev expire_seconds : RedisRateLimiter → ℤ
  expire_seconds l = f.ceil (seconds l.key_expiration)

  -- The end of the Lua script, for the tokens that there are.
  abbrev take_token :
      RedisRateLimiter → Float64 → Time → Float64 → Option Bucket → Bool × Option Bucket
  take_token l now redis_now tokens b =
      if f.is_at_most (f.float_of (pos 1)) tokens
      then (true, expire redis_now (f.float_sub tokens (f.float_of (pos 1))) now (expire_seconds l))
      else (false, b)

  -- The Lua script, on what is stored under its key.
  unfoldable pub run_script :
      RedisRateLimiter → Float64 → Time → Option Bucket → Bool × Option Bucket
  run_script l now redis_now b = take_token l now redis_now (refilled l now (live redis_now b)) b

  -- `Allow`, on what is stored under the key of the user: none is an error.
  unfoldable pub allow_at : RedisRateLimiter → Moment → Option Bucket → Option Bool × Option Bucket
  allow_at l t b =
      if t.is_run
      then (let (allowed, b') = run_script l (unix_seconds t.now) t.redis_now b in
          (if t.is_answered then some allowed else none, b'))
      else (none, b)

abbrev pub redis_key : RedisRateLimiter → String → String
redis_key l identifier = l.namespace ++ "ratelimit:" ++ identifier

unfoldable pub allow :
    ⦃f : FloatArithmetic⦄ → RedisRateLimiter → String → Moment → Redis → Option Bool × Redis
allow l identifier t redis =
    let key = redis_key l identifier in
    let (answer, b) = allow_at l t (redis key) in (answer, λ k. if str_eq k key then b else redis k)

abbrev pub Manager : Type 0
Manager = List (String × RedisRateLimiter)

-- `Get`, with the limiter of the name if there is one, else the default one; none is nil.
abbrev pub named : String → Manager → Option RedisRateLimiter
named name [] = none
named name ((n, l) ∷ ls) = if str_eq n name then some l else named name ls

abbrev pub default_policy_name : String
default_policy_name = "default"

abbrev or_default : Manager → Option RedisRateLimiter → Option RedisRateLimiter
or_default m (some l) = some l
or_default m none = named default_policy_name m

unfoldable pub get : Manager → String → Option RedisRateLimiter
get m name = or_default m (named name m)

-- `createLimiter` and `NewManager`, over time.ParseDuration.
module _ ⦃f : FloatArithmetic⦄ (parse_duration : String → Option ℤ) (namespace : String) where
  abbrev with_duration : ℕ → Option ℤ → Checked RedisRateLimiter
  with_duration limit none = bad (refused "invalid policy interval format")
  with_duration limit (some (negsuc d)) = bad (refused "policy interval must be positive")
  with_duration limit (some (pos d)) =
      if ltb 0 d
      then good (new_redis_rate_limiter namespace limit d)
      else bad (refused "policy interval must be positive")

  abbrev with_limit : String → ℤ → Checked RedisRateLimiter
  with_limit interval (pos n) =
      if ltb 0 n
      then with_duration n (parse_duration interval)
      else bad (refused "policy limit must be positive")
  with_limit interval (negsuc n) = bad (refused "policy limit must be positive")

  unfoldable pub create_limiter : RateLimiterPolicy → Checked RedisRateLimiter
  create_limiter p = with_limit p.interval p.limit

  -- The loop over the policies: a later entry of a name replaces an earlier one.
  unfoldable pub add_policies : Manager → List (String × RateLimiterPolicy) → Checked Manager
  add_policies m [] = good m
  add_policies m ((name, p) ∷ ps) = do l ← create_limiter p; add_policies ((name, l) ∷ m) ps

  unfoldable pub new_manager : Option RateLimiterConfig → Checked Manager
  new_manager none = bad (refused "rate limiter config is nil")
  new_manager (some config) = do
    l ← create_limiter config.default_policy
    add_policies ((default_policy_name, l) ∷ []) config.policies
