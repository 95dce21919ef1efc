-- ===== src/Limiter/Policies.antt =====
-- internal/limiter/limiter_manager.go: the limiters that a manager hands out.
use cicd_demo.Base.{
  ℕ, ◌<◌, ◌⊎◌, Bool, true, false, Option, none, some, String, List, [], ◌∷◌, ◌≡◌, refl, str_eq, ltb,
  ltb→lt, if◌then◌else◌, arith, Option-cases, Bool-cases, inl, inr, subst, sym, All,
}
use cicd_demo.Helper.{good, Checked-cases}
use cicd_demo.Pagination.{ℤ, pos, negsuc}
use cicd_demo.Limiter.{
  FloatArithmetic, RateLimiterPolicy, RateLimiterConfig, RedisRateLimiter, Manager, named,
  default_policy_name, get, new_redis_rate_limiter, with_duration, with_limit, create_limiter,
  add_policies, new_manager,
}

-- A limiter that is made for the namespace, a positive limit and a positive interval.
pub record IsUsable ⦃f : FloatArithmetic⦄ (namespace : String) (l : RedisRateLimiter) : Type 0 where
  pub limit : ℕ
  pub duration : ℕ
  pub limit_positive : 0 < limit
  pub duration_positive : 0 < duration
  pub made : l ≡ new_redis_rate_limiter namespace limit duration

abbrev AllUsable : ⦃f : FloatArithmetic⦄ → String → Manager → Type 0
AllUsable namespace = All (λ (entry : String × RedisRateLimiter). IsUsable namespace entry.1)

good-eq : {A : Type 0} (a b : A) → good a ≡ good b → a ≡ b
good-eq a b h = cc

first_or_later :
    (b : Bool) (k l : RedisRateLimiter) (later : Option RedisRateLimiter)
    → (if b then some k else later) ≡ some l
    → (k ≡ l) ⊎ (later ≡ some l)
first_or_later true k l later h = inl cc
first_or_later false k l later h = inr h

named-IsUsable :
    ⦃f : FloatArithmetic⦄ (namespace name : String) (m : Manager) (l : RedisRateLimiter)
    → AllUsable namespace m
    → named name m ≡ some l
    → IsUsable namespace l
named-IsUsable namespace name [] l all h = cc
named-IsUsable namespace name ((n, k) ∷ m) l (usable, all) h =
    elim (first_or_later (str_eq n name) k l (named name m) h) [
      | inl same ↦ subst (IsUsable namespace) same usable
      | inr later ↦ named-IsUsable namespace name m l all later
    ]

-- A manager has a limiter of a name.
abbrev Has : String → Manager → Type 0
Has name m = (l : RedisRateLimiter) × (named name m ≡ some l)

one_of_both :
    (b : Bool) (l : RedisRateLimiter) (later : Option RedisRateLimiter)
    → (k : RedisRateLimiter) × (later ≡ some k)
    → (k : RedisRateLimiter) × ((if b then some l else later) ≡ some k)
one_of_both true l later (k, h) = (l, refl)
one_of_both false l later (k, h) = (k, h)

module _ ⦃f : FloatArithmetic⦄ (parse_duration : String → Option ℤ) (namespace : String) where
  with_duration-IsUsable :
      (n : ℕ) (d : Option ℤ) (l : RedisRateLimiter)
      → 0 < n
      → with_duration parse_duration namespace n d ≡ good l
      → IsUsable namespace l
  with_duration-IsUsable n none l h made = cc
  with_duration-IsUsable n (some (negsuc d)) l h made = cc
  with_duration-IsUsable n (some (pos d)) l h made = elim (Bool-cases (ltb 0 d)) [
    | inl positive ↦ record {
      limit = n;
      duration = d;
      limit_positive = h;
      duration_positive = ltb→lt 0 d positive;
      made =
          sym (good-eq (new_redis_rate_limiter namespace n d) l (ground (arith, positive, made)));
    }
    | inr zero ↦ ground (arith, zero, made)
  ]

  with_limit-IsUsable :
      (interval : String) (limit : ℤ) (l : RedisRateLimiter)
      → with_limit parse_duration namespace interval limit ≡ good l
      → IsUsable namespace l
  with_limit-IsUsable interval (negsuc n) l made = cc
  with_limit-IsUsable interval (pos n) l made = elim (Bool-cases (ltb 0 n)) [
    | inl positive ↦
        with_duration-IsUsable n (parse_duration interval) l (ltb→lt 0 n positive)
          (ground (arith, positive, made))
    | inr zero ↦ ground (arith, zero, made)
  ]

  create_limiter-IsUsable :
      (p : RateLimiterPolicy) (l : RedisRateLimiter)
      → create_limiter parse_duration namespace p ≡ good l
      → IsUsable namespace l
  unfolding create_limiter
  create_limiter-IsUsable p l = with_limit-IsUsable p.interval p.limit l

  add_policies-IsUsable :
      (ps : List (String × RateLimiterPolicy)) (m m' : Manager)
      → AllUsable namespace m
      → Has default_policy_name m
      → add_policies parse_duration namespace m ps ≡ good m'
      → AllUsable namespace m' × Has default_policy_name m'
  unfolding add_policies
  add_policies-IsUsable [] m m' all has made = (
    subst (AllUsable namespace) (good-eq m m' made) all,
    subst (Has default_policy_name) (good-eq m m' made) has,
  )
  add_policies-IsUsable ((name, p) ∷ ps) m m' all has made =
      elim (Checked-cases (create_limiter parse_duration namespace p)) [
        | inl (l, created) ↦
            add_policies-IsUsable ps ((name, l) ∷ m) m' (create_limiter-IsUsable p l created, all)
              (one_of_both (str_eq name default_policy_name) l (named default_policy_name m) has)
              (ground (arith, created, made))
        | inr (x, failed) ↦ ground (arith, failed, made)
      ]

  -- A manager that NewManager returns has a limiter for every name, of a policy or not: Get never
  -- returns nil, and the limiter has the namespace, and is made for a positive limit and a positive
  -- interval.
  pub get-new_manager :
      (config : Option RateLimiterConfig) (m : Manager) (name : String)
      → new_manager parse_duration namespace config ≡ good m
      → (l : RedisRateLimiter) × (get m name ≡ some l) × IsUsable namespace l
  unfolding new_manager get
  get-new_manager none m name made = cc
  get-new_manager (some config) m name made =
      elim (Checked-cases (create_limiter parse_duration namespace config.default_policy)) [
        | inl (l, created) ↦
            let (all, (k, has)) =
              add_policies-IsUsable config.policies ((default_policy_name, l) ∷ []) m
                (create_limiter-IsUsable config.default_policy l created, tt) (l, refl)
                (ground (arith, created, made)) in
            elim (Option-cases (named name m)) [
              | inl missing ↦ (
                k,
                ground (arith, missing, has),
                named-IsUsable namespace default_policy_name m k all has,
              )
              | inr (k', found) ↦
                  (k', ground (arith, found), named-IsUsable namespace name m k' all found)
            ]
        | inr (x, failed) ↦ ground (arith, failed, made)
      ]
