-- ===== src/Service/Export.antt =====
-- internal/middleware/http and internal/app/router.go: the route of the export, behind the
-- middleware that asks for a user and the one that limits how often the user may call.
use cicd_demo.Base.{
  ℕ, Bool, true, false, Option, none, some, String, ◌≡◌, refl, str_eq, if◌then◌else◌,
}
use cicd_demo.Platform.{Mongo, Env, Outcome, ok, panic, World, M, nil_dereference}
use cicd_demo.Pagination.{ℤ}
use cicd_demo.Limiter.{FloatArithmetic, RedisRateLimiter, Moment, Redis, Manager, allow, get}
use cicd_demo.Service.OrdersAdmin.{HttpReply, http_error, csv_file, serve_export}

-- What a handler does to the data, with the buckets that Redis holds beside them.
abbrev pub Handler : Type 0
Handler = Redis × World → Outcome HttpReply × Redis × World

abbrev pub write_http_error : ℕ → String → Handler
write_http_error code message (redis, w) = (ok (http_error code message), redis, w)

-- A handler behind the middleware, which knows nothing of Redis.
abbrev pub behind : M HttpReply → Handler
behind next (redis, w) = let (r, w') = next w in (r, redis, w')

-- What the answer of the limiter leads to.
abbrev pub admit : Option Bool → M HttpReply → Handler
admit none next = write_http_error 500 "Failed to check rate limit."
admit (some false) next = write_http_error 429 "Too Many Requests"
admit (some true) next = behind next

abbrev pub check_limit :
    ⦃f : FloatArithmetic⦄ → RedisRateLimiter → String → Moment → M HttpReply → Handler
check_limit l user t next (redis, w) =
    let (answer, redis') = allow l user t redis in admit answer next (redis', w)

-- `CreateRateLimitMiddleware`, for the user that the context holds; a nil limiter is dereferenced.
abbrev pub limit_user :
    ⦃f : FloatArithmetic⦄ → Option RedisRateLimiter → String → Moment → M HttpReply → Handler
limit_user none user t next (redis, w) = (panic nil_dereference, redis, w)
limit_user (some l) user t next (redis, w) = check_limit l user t next (redis, w)

unfoldable pub create_rate_limit_middleware :
    ⦃f : FloatArithmetic⦄ → Manager → String → Option String → Moment → M HttpReply → Handler
create_rate_limit_middleware m policy none t next =
    write_http_error 401 "Unauthorized: User ID not found in context."
create_rate_limit_middleware m policy (some user) t next =
    if str_eq user ""
    then write_http_error 401 "Unauthorized: User ID not found in context."
    else limit_user (get m policy) user t next

-- `NewAuthMiddleware`, for the header X-User-Id.
unfoldable pub auth_middleware : String → (Option String → Handler) → Handler
auth_middleware user next =
    if str_eq user ""
    then write_http_error 401 "Unauthorized: Missing X-User-Id header"
    else next (some user)

admitted :
    (answer : Option Bool) (next : M HttpReply) (redis : Redis) (w : World) (name text : String)
    → (admit answer next (redis, w)).0 ≡ ok (csv_file name text)
    → answer ≡ some true
admitted none next redis w name text h = cc
admitted (some false) next redis w name text h = cc
admitted (some true) next redis w name text h = refl

limited :
    ⦃f : FloatArithmetic⦄ (limiter : Option RedisRateLimiter) (user : String) (t : Moment)
    (next : M HttpReply) (redis : Redis) (w : World) (name text : String)
    → (limit_user limiter user t next (redis, w)).0 ≡ ok (csv_file name text)
    → (l : RedisRateLimiter) × (limiter ≡ some l) × ((allow l user t redis).0 ≡ some true)
limited none user t next redis w name text h = cc
limited (some l) user t next redis w name text h =
    (l, refl, admitted _ next (allow l user t redis).1 w name text h)

guarded :
    (b : Bool) (message : String) (next : Handler) (redis : Redis) (w : World) (name text : String)
    → ((if b then write_http_error 401 message else next) (redis, w)).0 ≡ ok (csv_file name text)
    → (b ≡ false) × ((next (redis, w)).0 ≡ ok (csv_file name text))
guarded true message next redis w name text h = cc
guarded false message next redis w name text h = (refl, h)

module _ ⦃m : Mongo⦄ ⦃e : Env⦄ ⦃f : FloatArithmetic⦄ where
  unfoldable pub export_route :
      Manager → Moment → String → String → String → String → Option ℕ → Option ℤ → Handler
  export_route manager t user event year_text month_text year month = auth_middleware user (λ known.
      create_rate_limit_middleware manager "export_orders" known t
        (serve_export event year_text month_text year month))

  -- The export answers with a file only to a user that the request names, and whose call the
  -- limiter of the route has allowed.
  pub export_route-limited :
      (manager : Manager) (t : Moment) (user event year_text month_text : String) (year : Option ℕ)
      (month : Option ℤ) (redis : Redis) (w : World) (name text : String)
      → (export_route manager t user event year_text month_text year month (redis, w)).0
        ≡ ok (csv_file name text)
      → (str_eq user "" ≡ false)
        × ((l : RedisRateLimiter) × (get manager "export_orders" ≡ some l)
            × ((allow l user t redis).0 ≡ some true))
  unfolding export_route auth_middleware create_rate_limit_middleware
  export_route-limited manager t user event year_text month_text year month redis w name text h =
      let (named, h1) = guarded (str_eq user "") _ _ redis w name text h in
      let (_, h2) = guarded (str_eq user "") _ _ redis w name text h1 in
      (named, limited (get manager "export_orders") user t _ redis w name text h2)
