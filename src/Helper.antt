-- ===== src/Helper.antt =====
-- internal/helper/helper.go: arithmetic on Decimal128 by way of math/big, and ObjectIDs from text.
use cicd_demo.Base.{
  ◌≡◌, refl, ◌⊎◌, inl, inr, ℕ, ◌^◌, ◌-◌, String, Bool, true, false, Option, none, some, List, [],
  ◌∷◌, ◌||◌, leb, if◌then◌else◌,
}
use cicd_demo.Models.{ObjectId, Decimal128}
use cicd_demo.Platform.{Env, Comparison, Error, refused}

-- An error is a value here: these functions touch no state.
pub data Checked {ℓ} (A : Type ℓ) : Type ℓ where
  good : A → Checked A
  bad : Error → Checked A

infixl 5 ◌>>=◌
abbrev pub ◌>>=◌ {ℓ κ} : {A : Type ℓ} {B : Type κ} → Checked A → (A → Checked B) → Checked B
good a >>= f = f a
bad e >>= f = bad e

abbrev pub or_bad {ℓ} : {A : Type ℓ} → Option A → String → Checked A
or_bad none s = bad (refused s)
or_bad (some a) s = good a

pub Checked-cases {ℓ} :
    {A : Type ℓ} (r : Checked A) → ((a : A) × (r ≡ good a)) ⊎ ((x : Error) × (r ≡ bad x))
Checked-cases (good a) = inl (a, refl)
Checked-cases (bad x) = inr (x, refl)

-- big.MaxPrec, and the precision that Parse takes where none is set
abbrev pub max_precision : ℕ
max_precision = 4294967295

abbrev pub default_precision : ℕ
default_precision = 64

-- int64, as the sign and the size of a number
abbrev pub fits_int64 : Bool → ℕ → Bool
fits_int64 true n = leb n (2 ^ 63)
fits_int64 false n = leb n (2 ^ 63 - 1)

-- The conversion to an int64, once `IsInt64` is known.
abbrev in_range : Bool → ℕ → Checked (Bool × ℕ)
in_range negative n =
    if fits_int64 negative n then good (negative, n) else bad (refused "out of int64 range")

module _ ⦃e : Env⦄ where
  abbrev pub parse_at : ℕ → Decimal128 → String → Checked e.Float
  parse_at precision d message = or_bad (e.float_parse precision (e.decimal_string d)) message

  abbrev pub to_decimal : e.Float → Checked Decimal128
  to_decimal f = or_bad (e.parse_decimal128 (e.float_string f)) "failed to convert to Decimal128"

  unfoldable pub compare_decimal128 : Decimal128 → Decimal128 → Checked Comparison
  compare_decimal128 d1 d2 = do
    f1 ← parse_at default_precision d1 "failed to convert d1"
    f2 ← parse_at default_precision d2 "failed to convert d2"
    good (e.float_cmp f1 f2)

  unfoldable pub sub_decimal128 : Decimal128 → Decimal128 → Checked Decimal128
  sub_decimal128 d1 d2 = do
    f1 ← parse_at max_precision d1 "failed to convert d1"
    f2 ← parse_at max_precision d2 "failed to convert d2"
    to_decimal (e.float_sub f1 f2)

  unfoldable pub add_decimal128 : Decimal128 → Decimal128 → Checked Decimal128
  add_decimal128 d1 d2 = do
    f1 ← parse_at max_precision d1 "failed to convert d1"
    f2 ← parse_at max_precision d2 "failed to convert d2"
    to_decimal (e.float_add f1 f2)

  unfoldable pub negate_decimal128 : Decimal128 → Checked Decimal128
  negate_decimal128 d = do
    f ← parse_at max_precision d "failed to convert d"
    to_decimal (e.float_mul f e.float_minus_one)

  -- An int64, as its sign and its size.
  unfoldable pub decimal128_to_int64 : Decimal128 → Checked (Bool × ℕ)
  decimal128_to_int64 d =
      if e.is_nan d || e.is_inf d then bad (refused "cannot convert special value") else do
        f ← parse_at max_precision d "failed to parse"
        n ← or_bad (e.float_integer_part f) "failed to convert big.Float to big.Int"
        in_range (e.float_is_negative f) n

  convert_all : List String → Checked (List ObjectId)
  convert_all [] = good []
  convert_all (s ∷ rest) = do
    oid ← or_bad (e.object_id_from_hex s) "include invalid string"
    oids ← convert_all rest
    good (oid ∷ oids)

  unfoldable pub convert_strings_to_object_id : List String → Checked (List ObjectId)
  unfolding convert_all
  convert_strings_to_object_id [] = bad (refused "empty slice")
  convert_strings_to_object_id (s ∷ rest) = convert_all (s ∷ rest)
