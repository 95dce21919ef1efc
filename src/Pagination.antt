-- ===== src/Pagination.antt =====
-- pkg/pagination/page.go: the pages of a result, over the int of Go, which has 64 bits.
pub mod Pages
pub mod Cursor
use cicd_demo.Base.{ℕ, zero, suc, ◌+◌, ◌-◌, ◌*◌, ◌/◌, ◌%◌, ◌^◌, ltb, if◌then◌else◌}

pub data ℤ : Type 0 where
  pos : ℕ → ℤ
  negsuc : ℕ → ℤ

abbrev pub default_page : ℕ
default_page = 1

abbrev pub default_page_size : ℕ
default_page_size = 10

abbrev pub max_page_size : ℕ
max_page_size = 100

-- After the constructor neither field is below 1.
pub record PageRequest : Type 0 where
  pub page : ℕ
  pub page_size : ℕ

-- `x <= 0` is replaced by the default.
abbrev at_least_one : ℤ → ℕ → ℕ
at_least_one (pos n) default = if ltb 0 n then n else default
at_least_one (negsuc n) default = default

abbrev at_most : ℕ → ℕ → ℕ
at_most bound n = if ltb bound n then bound else n

unfoldable pub new_page_request : ℤ → ℤ → PageRequest
new_page_request page page_size = record {
  page = at_least_one page default_page;
  page_size = at_most max_page_size (at_least_one page_size default_page_size);
}

-- A result of the arithmetic of int, in two's complement of 64 bits.
abbrev pub wrap64 : ℕ → ℤ
wrap64 n = let r = n % 2 ^ 64 in if ltb r (2 ^ 63) then pos r else negsuc (2 ^ 64 - 1 - r)

unfoldable pub get_offset : PageRequest → ℤ
get_offset p = wrap64 ((p.page - 1) * p.page_size)

unfoldable pub get_limit : PageRequest → ℕ
get_limit p = p.page_size

-- The quotient as a whole number, rounded to the nearest, and to the even one of two.
abbrev pub nearest_even : ℕ → ℕ → ℕ
nearest_even n d =
    let q = n / d in
    let r = n % d in if ltb (2 * r) d then q else if ltb d (2 * r) then q + 1 else q + q % 2

-- The quotient, of at least 2^52, in the 53 bits that a float64 has: twice that of a half, as often
-- as it takes to fit. The number of times is a bound, which is enough below 2^53 * 2^bound.
unfoldable pub rounded : ℕ → ℕ → ℕ → ℕ
rounded zero n d = nearest_even n d
rounded (suc bound) n d =
    let half = rounded bound n (2 * d) in if ltb n (2 ^ 53 * d) then nearest_even n d else 2 * half

-- `float64(n)`, of an int64
abbrev pub float64 : ℕ → ℕ
float64 n = rounded 11 n 1

-- The quotient of two positive float64 below 2^64, times 2^116, so that it is at least 2^52.
abbrev pub float64_quotient : ℕ → ℕ → ℕ
float64_quotient a b = rounded 128 (a * 2 ^ 116) b

-- `int(math.Ceil(float64(total) / float64(size)))`
unfoldable pub total_pages : ℕ → PageRequest → ℕ
total_pages total p =
    if ltb 0 total
    then (if ltb 0 p.page_size
        then (float64_quotient (float64 total) (float64 p.page_size) + 2 ^ 116 - 1) / 2 ^ 116
        else 0)
    else 0

-- PageResult, and `NewPageResult`.
pub record PageResult {ℓ} (A : Type ℓ) : Type ℓ where
  pub rows : A
  pub total : ℕ
  pub page : ℕ
  pub page_size : ℕ
  pub total_pages : ℕ

unfoldable pub new_page_result {ℓ} : {A : Type ℓ} → A → ℕ → PageRequest → PageResult A
new_page_result rows total p = record {
  rows = rows;
  total = total;
  page = p.page;
  page_size = p.page_size;
  total_pages = total_pages total p;
}
