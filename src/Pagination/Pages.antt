-- ===== src/Pagination/Pages.antt =====
-- pkg/pagination/page.go: the bounds of a page request, and the pages that cover a result.
use cicd_demo.Base.{
  ℕ, ◌+◌, ◌-◌, ◌*◌, ◌/◌, ◌^◌, ◌≤◌, ◌<◌, ◌≡◌, ap, ◌∙◌, arith, zero, suc, ◌%◌, leb, leb→le, ltb,
  Bool-cases, inl, inr,
}
use native.Mathlib.Nat.{add-mul, one-mul, mod-lt, mod-add-div', mul-le-mul_right}
use cicd_demo.Pagination.{
  ℤ, pos, negsuc, PageRequest, new_page_request, get_offset, get_limit, total_pages, wrap64,
  nearest_even, rounded, float64_quotient,
}

-- Whatever page and size are asked for, the page is at least 1, and its size is between 1 and 100.
pub new_page_request_bounds :
    (page page_size : ℤ)
    → (1 ≤ (new_page_request page page_size).page)
      × (1 ≤ get_limit (new_page_request page page_size))
      × (get_limit (new_page_request page page_size) ≤ 100)
unfolding new_page_request get_limit
new_page_request_bounds (pos a) (pos b) = ground arith
new_page_request_bounds (pos a) (negsuc b) = ground arith
new_page_request_bounds (negsuc a) (pos b) = ground arith
new_page_request_bounds (negsuc a) (negsuc b) = ground arith

offset_small : (n : ℕ) → n < 2 ^ 63 → wrap64 n ≡ pos n
offset_small n h = ground arith

abbrev pub page_of : ℕ → ℕ → PageRequest
page_of i size = record { page = i / size + 1; page_size = size }

plus_minus : (n : ℕ) → n + 1 - 1 ≡ n
plus_minus n = omega arith

-- How close a rounded quotient is.
nearest_even-close : (n d : ℕ) → 1 ≤ d → 2 * n ≤ 2 * (nearest_even n d * d) + d
nearest_even-close n d h =
    let parts = mod-add-div' n d in
    elim (Bool-cases (ltb (2 * (n % d)) d)) [
      | inl below ↦ rw below (ground (arith, below, parts))
      | inr not_below ↦
          let low : d ≤ 2 * (n % d) = ground (arith, not_below) in
          rw not_below (elim (Bool-cases (ltb d (2 * (n % d)))) [
            | inl above ↦
                rw above (omega (arith, parts, add-mul (n / d) 1 d, one-mul d, mod-lt n h))
            | inr half ↦
                let high : 2 * (n % d) ≤ d = ground (arith, half) in
                rw half (omega (arith, parts, low, high, add-mul (n / d) (n / d % 2) d))
          ])
    ]

-- Where `step` is twice the spacing of the numbers around the quotient, at least.
rounded-close :
    (bound n d step : ℕ)
    → 1 ≤ d
    → d ≤ step
    → n ≤ 2 ^ 52 * step
    → 2 * n ≤ 2 * (rounded bound n d * d) + step
unfolding rounded
rounded-close zero n d step hd hs hn = let c = nearest_even-close n d hd in omega (arith, c)
rounded-close (suc bound) n d step hd hs hn = elim (Bool-cases (ltb n (2 ^ 53 * d))) [
  | inl fits ↦ rw fits (omega (arith, nearest_even-close n d hd))
  | inr wide ↦
      let large : 2 ^ 53 * d ≤ n = ground (arith, wide) in
      let later = rounded-close bound n (2 * d) step (omega arith) (omega (arith, large)) hn in
      rw wide (omega (arith, later))
]

rounded_exact : (bound n : ℕ) → n < 2 ^ 53 → rounded bound n 1 ≡ n
unfolding rounded
rounded_exact zero n h = ground arith
rounded_exact (suc bound) n h = ground (arith, h)

above_page : (q k size : ℕ) → k * size * 2 ^ 116 < q * size → k * 2 ^ 116 < q
above_page q k size h = elim (Bool-cases (leb q (k * 2 ^ 116))) [
  | inl below ↦
      absurd (ground (arith, below, h, mul-le-mul_right size (leb→le q (k * 2 ^ 116) below)))
  | inr above ↦ ground (arith, above)
]

below_row : (i size : ℕ) → 1 ≤ size → (i / size * size ≤ i) × (i < i / size * size + size)
below_row i size hs = grind arith

page_exists :
    (i total size : ℕ)
    → 1 ≤ size
    → i < total
    → total < 2 ^ 53
    → size < 2 ^ 53
    → i / size + 1 ≤ (float64_quotient total size + 2 ^ 116 - 1) / 2 ^ 116
page_exists i total size hs hi ht hb =
    let q = float64_quotient total size in
    let close =
      rounded-close 128 (total * 2 ^ 116) size (2 * 2 ^ 116 - 1) hs (omega arith) (omega arith) in
    let above = above_page q (i / size) size (omega (arith, close, (below_row i size hs).0)) in
    omega (arith, above)

-- Row `i` of `total` rows is on the page `i / size + 1`: that page is one of the `total_pages`, its
-- offset is at most `i`, and `i` is below the offset plus the limit, where the number of rows and
-- the size are below 2^53.
pub row_on_page :
    (i total size : ℕ)
    → 1 ≤ size
    → i < total
    → total < 2 ^ 53
    → size < 2 ^ 53
    → (i / size + 1 ≤ total_pages total (page_of i size))
      × (get_offset (page_of i size) ≡ pos (i / size * size))
      × (i / size * size ≤ i)
      × (i < i / size * size + get_limit (page_of i size))
unfolding total_pages get_offset get_limit
row_on_page i total size hs hi ht hb =
    let exists = page_exists i total size hs hi ht hb in
    let total_fits = rounded_exact 11 total ht in
    let size_fits = rounded_exact 11 size hb in
    let below = below_row i size hs in
    (
      rw total_fits (rw size_fits (ground (arith, exists))),
      ap (λ (n : ℕ). wrap64 (n * size)) (plus_minus (i / size))
          ∙ offset_small (i / size * size) (omega arith),
      below.0,
      below.1,
    )
