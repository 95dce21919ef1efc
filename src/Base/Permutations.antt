-- ===== src/Base/Permutations.antt =====
-- Boolean quantifiers over a list that is sorted, filtered, cut or mapped.
use mathlib.Core.List.{Perm, Permᴰ, List, [], ◌∷◌, map}
use mathlib.Core.Logic.{∥∥₁_elim}
use mathlib.Core.Path.{◌≡◌, refl, ap, ◌∙◌}
use mathlib.Core.Bool.{Bool, Bool-set, true}
use Prim.Native.Nat.{ℕ, zero, suc}
use native.Mathlib.Omega.{arith}
use cicd_demo.Base.Lists.{all, keep, take, length}

module _ {A : Type 0} (p : A → Bool) where
  all-Permᴰ : {xs ys : List A} → Permᴰ xs ys → all p xs ≡ all p ys
  all-Permᴰ Permᴰ.nil = refl
  all-Permᴰ (Permᴰ.cons same d) = ground (arith, ap p same, all-Permᴰ d)
  all-Permᴰ (Permᴰ.swap one two) = ground (arith, ap p one, ap p two)
  all-Permᴰ (Permᴰ.trans d d') = all-Permᴰ d ∙ all-Permᴰ d'

  pub all-Perm : {xs ys : List A} → Perm xs ys → all p xs ≡ all p ys
  all-Perm d = ∥∥₁_elim d (Bool-set _ _) (λ c. all-Permᴰ c)

  pub all-keep :
      (q : A → Bool) (xs : List A) → ((x : A) → q x ≡ true → p x ≡ true) → all p (keep q xs) ≡ true
  all-keep q [] h = refl
  all-keep q (x ∷ xs) h = ground (arith, h x, all-keep q xs h)

  pub all-keep-all : (q : A → Bool) (xs : List A) → all p xs ≡ true → all p (keep q xs) ≡ true
  all-keep-all q [] h = refl
  all-keep-all q (x ∷ xs) h = ground (arith, all-keep-all q xs)

  pub all-take : (n : ℕ) (xs : List A) → all p xs ≡ true → all p (take n xs) ≡ true
  all-take n [] h = refl
  all-take zero (x ∷ xs) h = refl
  all-take (suc n) (x ∷ xs) h = ground (arith, all-take n xs)

pub all-map :
    {A B : Type 0} (p : B → Bool) (f : A → B) (xs : List A)
    → all p (map f xs) ≡ all (λ x. p (f x)) xs
all-map p f [] = refl
all-map p f (x ∷ xs) = ground (arith, all-map p f xs)

pub length-map : {A B : Type 0} (f : A → B) (xs : List A) → length (map f xs) ≡ length xs
length-map f [] = refl
length-map f (x ∷ xs) = ap suc (length-map f xs)
