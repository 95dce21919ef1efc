-- ===== src/Examples/Limits.antt =====
-- The limiter and the export behind it, at concrete arguments.
use cicd_demo.Base.{
  ℕ, ◌+◌, ◌-◌, ◌*◌, ◌/◌, true, false, Option, none, some, String, [], ◌∷◌, ◌≡◌, refl, ltb, leb,
  str_eq, if◌then◌else◌,
}
use cicd_demo.Pagination.{ℤ, pos, negsuc}
use cicd_demo.Pagination.Cursor.{second}
use cicd_demo.Limiter.{
  FloatArithmetic, RateLimiterPolicy, RateLimiterConfig, RedisRateLimiter, Moment, Redis, Manager,
  allow, allow_at, get, new_redis_rate_limiter,
}
use cicd_demo.Limiter.Policies.{IsUsable, get-new_manager}
use cicd_demo.Service.Export.{export_route-limited}
use cicd_demo.Examples.Data.{server, env, world}

-- Numbers that are whole, and rounded down.
abbrev whole_numbers : FloatArithmetic
whole_numbers = record {
  float_of = λ n. elim n [ pos k ↦ k | negsuc k ↦ 0 ];
  float_add = λ a b. a + b;
  float_sub = λ a b. a - b;
  float_mul = λ a b. a * b;
  float_div = λ a b. a / b;
  is_less = ltb;
  is_at_most = leb;
  ceil = pos;
}

-- Two calls in a second.
abbrev limiter : RedisRateLimiter
limiter = new_redis_rate_limiter ⦃f = whole_numbers⦄ "partivo:" 2 second

abbrev at_time : ℕ → Moment
at_time n = record { now = n; redis_now = n; is_run = true; is_answered = true }

abbrev no_buckets : Redis
no_buckets key = none

abbrev parse_second : String → Option ℤ
parse_second s = if str_eq s "1s" then some (pos second) else none

abbrev policy : RateLimiterPolicy
policy = record { interval = "1s"; limit = pos 2 }

abbrev manager : Manager
manager = ("export_orders", limiter) ∷ ("default", limiter) ∷ []

get-new_manager_example :
    (l : RedisRateLimiter) × (get manager "bills" ≡ some l)
    × IsUsable ⦃f = whole_numbers⦄ "partivo:" l
unfolding cicd_demo.Limiter.new_manager cicd_demo.Limiter.create_limiter
    cicd_demo.Limiter.add_policies
get-new_manager_example =
    get-new_manager ⦃f = whole_numbers⦄ parse_second "partivo:"
      (some (record { default_policy = policy; policies = ("export_orders", policy) ∷ [] })) manager
      "bills" refl

export_route-limited_example :
    (str_eq "5" "" ≡ false)
    × ((l : RedisRateLimiter) × (get manager "export_orders" ≡ some l)
        × ((allow ⦃f = whole_numbers⦄ l "5" (at_time 5) no_buckets).0 ≡ some true))
unfolding cicd_demo.Service.Export.export_route cicd_demo.Service.Export.auth_middleware
    cicd_demo.Service.Export.create_rate_limit_middleware get allow allow_at
    cicd_demo.Limiter.run_script cicd_demo.Service.OrdersAdmin.serve_export
    cicd_demo.Service.OrdersAdmin.export_month cicd_demo.Logic.Listing.export_event_orders_by_month
    cicd_demo.Dao.Orders.get_orders_between cicd_demo.Platform.Monad.query
    cicd_demo.Logic.Listing.order_rows
export_route-limited_example =
    export_route-limited ⦃m = server⦄ ⦃e = env⦄ ⦃f = whole_numbers⦄ manager (at_time 5) "5" "7"
      "2024" "5" (some 2024) (some (pos 5)) no_buckets (world "paid" "paid" "payment" "paid")
      "orders.csv" "" refl
