-- ===== src/Base/Lists.antt =====
-- Lists: lengths over the native numbers, Boolean quantifiers, and the four ways in which a list of
-- documents is read or changed by a test.
use Prim.Native.Nat.{ℕ, zero, suc, ◌+◌, ◌≤◌}
use mathlib.Core.Path.{◌≡◌, refl}
use mathlib.Core.Bool.{Bool, true, false, ◌&&◌, ◌||◌}
use mathlib.Core.Option.{Option, none, some}
use mathlib.Core.List.{List, [], ◌∷◌, ◌++◌}
use native.Mathlib.Omega.{arith}
use cicd_demo.Base.Tests.{if◌then◌else◌}

-- A predicate of every entry of a list.
abbrev pub All {ℓ κ} : {A : Type ℓ} → (A → Type κ) → List A → Type κ
All P [] = Unit
All P (x ∷ xs) = P x × All P xs

module _ {ℓ} {A : Type ℓ} where
  abbrev pub length : List A → ℕ
  length [] = 0
  length (x ∷ xs) = suc (length xs)

  abbrev pub head? : List A → Option A
  head? [] = none
  head? (x ∷ xs) = some x

  abbrev pub any : (A → Bool) → List A → Bool
  any p [] = false
  any p (x ∷ xs) = p x || any p xs

  abbrev pub all : (A → Bool) → List A → Bool
  all p [] = true
  all p (x ∷ xs) = p x && all p xs

  -- The entries that pass the test, in their order.
  abbrev pub keep : (A → Bool) → List A → List A
  keep p [] = []
  keep p (x ∷ xs) = if p x then x ∷ keep p xs else keep p xs

  -- The entries that fail it.
  abbrev pub discard : (A → Bool) → List A → List A
  discard p [] = []
  discard p (x ∷ xs) = if p x then discard p xs else x ∷ discard p xs

  abbrev pub discard_first : (A → Bool) → List A → List A
  discard_first p [] = []
  discard_first p (x ∷ xs) = if p x then xs else x ∷ discard_first p xs

  abbrev pub change_first : (A → Bool) → (A → A) → List A → List A
  change_first p f [] = []
  change_first p f (x ∷ xs) = if p x then f x ∷ xs else x ∷ change_first p f xs

  abbrev pub change_all : (A → Bool) → (A → A) → List A → List A
  change_all p f [] = []
  change_all p f (x ∷ xs) = (if p x then f x else x) ∷ change_all p f xs

  -- The first entries, as many as the number says.
  abbrev pub take : ℕ → List A → List A
  take _ [] = []
  take n (x ∷ xs) = elim n [ zero ↦ [] | suc k ↦ x ∷ take k xs ]

  abbrev pub drop : ℕ → List A → List A
  drop _ [] = []
  drop n (x ∷ xs) = elim n [ zero ↦ x ∷ xs | suc k ↦ drop k xs ]

  abbrev pub replicate : ℕ → A → List A
  replicate n x = elim n [ zero ↦ [] | suc (k → r) ↦ x ∷ r ]

  pub length-append : (xs ys : List A) → length (xs ++ ys) ≡ length xs + length ys
  length-append [] ys = omega arith
  length-append (x ∷ xs) ys = omega (arith, length-append xs ys)

  pub length-change_first :
      (p : A → Bool) (f : A → A) (xs : List A) → length (change_first p f xs) ≡ length xs
  length-change_first p f [] = refl
  length-change_first p f (x ∷ xs) = ground (arith, length-change_first p f xs)

  pub length-keep : (p : A → Bool) (xs : List A) → length (keep p xs) ≤ length xs
  length-keep p [] = omega arith
  length-keep p (x ∷ xs) = ground (arith, length-keep p xs)

  pub length-take : (n : ℕ) (xs : List A) → length (take n xs) ≤ n
  length-take n [] = omega arith
  length-take zero (x ∷ xs) = omega arith
  length-take (suc k) (x ∷ xs) = omega (arith, length-take k xs)

  pub any-keep : (p : A → Bool) (xs : List A) → any (λ _. true) (keep p xs) ≡ any p xs
  any-keep p [] = refl
  any-keep p (x ∷ xs) = ground (arith, any-keep p xs)

  -- A test that a change leaves as it was is passed by as many entries as before.
  pub any-change_first :
      (q p : A → Bool) (f : A → A) (xs : List A)
      → ((x : A) → q (f x) ≡ q x)
      → any q (change_first p f xs) ≡ any q xs
  any-change_first q p f [] h = refl
  any-change_first q p f (x ∷ xs) h = ground (arith, h x, any-change_first q p f xs h)

  -- A change of the first entry that passes, after which it fails: one fewer passes.
  pub length-keep-change_first :
      (p : A → Bool) (f : A → A) (xs : List A)
      → ((x : A) → p x ≡ true → p (f x) ≡ false)
      → any p xs ≡ true
      → suc (length (keep p (change_first p f xs))) ≡ length (keep p xs)
  length-keep-change_first p f [] h found = cc
  length-keep-change_first p f (x ∷ xs) h found =
      ground (arith, h x, length-keep-change_first p f xs h)

  -- A change of all entries that pass, after which they fail: none is left.
  pub any-change_all :
      (p : A → Bool) (f : A → A) (xs : List A)
      → ((x : A) → p x ≡ true → p (f x) ≡ false)
      → any p (change_all p f xs) ≡ false
  any-change_all p f [] h = refl
  any-change_all p f (x ∷ xs) h = ground (arith, h x, any-change_all p f xs h)

  -- A change of all entries that pass a test into entries that pass another, which excludes it.
  pub length-keep-change_all :
      (p q : A → Bool) (f : A → A) (xs : List A)
      → ((x : A) → p x ≡ true → (q x ≡ false) × (q (f x) ≡ true))
      → length (keep q (change_all p f xs)) ≡ length (keep p xs) + length (keep q xs)
  length-keep-change_all p q f [] h = refl
  length-keep-change_all p q f (x ∷ xs) h = ground (arith, h x, length-keep-change_all p q f xs h)

  -- Where no entry passes, none is kept.
  pub length-keep-none : (p : A → Bool) (xs : List A) → any p xs ≡ false → length (keep p xs) ≡ 0
  length-keep-none p [] h = refl
  length-keep-none p (x ∷ xs) h = ground (arith, length-keep-none p xs)
