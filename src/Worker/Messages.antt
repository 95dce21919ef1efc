-- ===== src/Worker/Messages.antt =====
-- internal/worker/outbox_processor.go: the messages of the outbox, and how those that are being
-- processed change.
use cicd_demo.Base.{
  Bool, true, false, List, [], ◌∷◌, ◌≡◌, refl, ==→eq, ◌∙◌, subst, Bool-cases, inl, inr, ◌==◌, ◌&&◌,
  any, keep, change_first, change_all, length, str_eq, any-change_first, arith,
}
use cicd_demo.Models.{ObjectId, OutboxMessage, outbox_processing}

abbrev pub has_id : ObjectId → OutboxMessage → Bool
has_id i x = x.id == i

abbrev pub is_processing : ObjectId → OutboxMessage → Bool
is_processing i x = (x.id == i) && str_eq x.status outbox_processing

-- No two messages have the same ID.
abbrev pub Distinct : List OutboxMessage → Type 0
Distinct [] = Unit
Distinct (x ∷ xs) = (any (has_id x.id) xs ≡ false) × Distinct xs

-- One message is changed, which is not being processed afterwards.
pub record IsSettled (id : ObjectId) (before after : List OutboxMessage) : Type 0 where
  pub set : OutboxMessage → OutboxMessage
  pub keeps_id : (x : OutboxMessage) → (set x).id ≡ x.id
  pub settles : (x : OutboxMessage) → str_eq (set x).status outbox_processing ≡ false
  pub changed : after ≡ change_first (has_id id) set before

module _ (set : OutboxMessage → OutboxMessage)
    (settles : (x : OutboxMessage) → str_eq (set x).status outbox_processing ≡ false) where
  pub settle_any :
      (i id : ObjectId) (xs : List OutboxMessage)
      → any (is_processing i) xs ≡ false
      → any (is_processing i) (change_first (has_id id) set xs) ≡ false
  settle_any i id [] h = refl
  settle_any i id (x ∷ xs) h = ground (arith, settles x, settle_any i id xs, h)

  others :
      (id : ObjectId) (xs : List OutboxMessage)
      → any (has_id id) xs ≡ false
      → any (is_processing id) xs ≡ false
  others id [] h = refl
  others id (x ∷ xs) h = ground (arith, h, others id xs)

  pub settle_named :
      (id : ObjectId) (xs : List OutboxMessage)
      → Distinct xs
      → any (is_processing id) (change_first (has_id id) set xs) ≡ false
  settle_named id [] d = refl
  settle_named id (x ∷ xs) (only, d) = elim (Bool-cases (x.id == id)) [
    | inl named ↦
        let same : x.id ≡ id = ==→eq x.id id named in
        let rest = others id xs (subst (λ k. any (has_id k) xs ≡ false) same only) in
        rw named (ground (arith, settles x, rest))
    | inr other ↦ rw other (ground (arith, other, settle_named id xs d))
  ]

pub change_first-Distinct :
    (set : OutboxMessage → OutboxMessage) (id : ObjectId) (xs : List OutboxMessage)
    → ((x : OutboxMessage) → (set x).id ≡ x.id)
    → Distinct xs
    → Distinct (change_first (has_id id) set xs)
change_first-Distinct set id [] keeps d = tt
change_first-Distinct set id (x ∷ xs) keeps (only, d) =
    let rest = any-change_first (has_id x.id) (has_id id) set xs (λ y. rw (keeps y) refl) ∙ only in
    elim (Bool-cases (x.id == id)) [
      | inl named ↦ rw (named, keeps x) (only, d)
      | inr other ↦ rw other (rest, change_first-Distinct set id xs keeps d)
    ]

any-change_all-same :
    (q p : OutboxMessage → Bool) (set : OutboxMessage → OutboxMessage) (xs : List OutboxMessage)
    → ((x : OutboxMessage) → q (set x) ≡ q x)
    → any q (change_all p set xs) ≡ any q xs
any-change_all-same q p set [] h = refl
any-change_all-same q p set (x ∷ xs) h = ground (arith, h x, any-change_all-same q p set xs h)

pub claimed_any :
    (i : ObjectId) (p q : OutboxMessage → Bool) (set : OutboxMessage → OutboxMessage)
    (xs : List OutboxMessage)
    → ((x : OutboxMessage) → q (set x) ≡ true)
    → any (is_processing i) xs ≡ false
    → any (has_id i) (keep q (change_all p set xs)) ≡ false
    → any (is_processing i) (change_all p set xs) ≡ false
claimed_any i p q set [] c h k = refl
claimed_any i p q set (x ∷ xs) c h k = ground (arith, c x, h, k, claimed_any i p q set xs c)

pub change_all-Distinct :
    (p : OutboxMessage → Bool) (set : OutboxMessage → OutboxMessage) (xs : List OutboxMessage)
    → ((x : OutboxMessage) → (set x).id ≡ x.id)
    → Distinct xs
    → Distinct (change_all p set xs)
change_all-Distinct p set [] keeps d = tt
change_all-Distinct p set (x ∷ xs) keeps (only, d) =
    let rest = any-change_all-same (has_id x.id) p set xs (λ y. rw (keeps y) refl) ∙ only in
    elim (Bool-cases (p x)) [
      | inl changes ↦ rw (changes, keeps x) (rest, change_all-Distinct p set xs keeps d)
      | inr stays ↦ rw stays (rest, change_all-Distinct p set xs keeps d)
    ]

-- What is being processed after a claim was so before, or is returned.
pub record IsClaimed (before after claimed : List OutboxMessage) : Type 0 where
  pub distinct : Distinct before → Distinct after
  pub kept :
      (i : ObjectId)
      → any (is_processing i) before ≡ false
      → any (has_id i) claimed ≡ false
      → any (is_processing i) after ≡ false

pub change_all-none :
    (p : OutboxMessage → Bool) (set : OutboxMessage → OutboxMessage) (xs : List OutboxMessage)
    → (length (keep p xs) == 0) ≡ true
    → change_all p set xs ≡ xs
change_all-none p set [] h = refl
change_all-none p set (x ∷ xs) h = ground (arith, h, change_all-none p set xs)
