-- ===== src/Foundation/Money.antt =====
-- packages/foundation/src/money.ts
pub mod Currency
pub mod Arithmetic
pub mod Rounding
use taymex.Prelude.{
  ℕ, suc, ◌+◌, ◌-◌, ◌*◌, ◌/◌, ◌%◌, ◌^◌, max, String, Text, codes, Option, none, some, Bool, true,
  false, ◌&&◌, ◌||◌, not, List, [], ◌∷◌, ◌++◌, ltb, leb, ◌==◌, trim, text_eq, if◌then◌else◌, ℤ, pos,
  signed, is_negative, abs, ◌+ℤ◌, ltb_ℤ,
}
use taymex.Foundation.Errors.{
  Category, money_error, ApplicationError, Error, type_error, application_error, Result, ok, err,
  ◌>>=◌, ◌>>◌, Number, nat, safe_from,
}
use taymex.Foundation.Validation.{matches}
use taymex.Foundation.Decimal.{
  DecimalParts, DecimalOptions, parse_decimal, no_options, format_decimal, rescale_coefficient,
}

pub record Money : Type 0 where
  pub amount : Text
  pub currency : Text

-- MoneyRoundingMode
pub data RoundingMode : Type 0 where
  half_up half_even down up : RoundingMode

-- the constructor of `MoneyError`, at its two categories
unfoldable pub validation_failure : String → Error
validation_failure code = application_error (record {
  class = money_error;
  code = code;
  category = Category.validation;
  safe_message_key = "errors.money.validation";
  field = none;
})

unfoldable pub conflict_failure : String → Error
conflict_failure code = application_error (record {
  class = money_error;
  code = code;
  category = Category.conflict;
  safe_message_key = "errors.money.conflict";
  field = none;
})

-- `toUpperCase` of one unit. Beyond ASCII these are the units whose upper case is ASCII: the long
-- s, the dotless i, the sharp s and the ligatures; any other one stays outside ASCII, where the
-- pattern refuses it whatever it is.
unfoldable pub to_upper : ℕ → Text
to_upper c =
    if leb b'a' c && leb c b'z'
    then (c - 32) ∷ []
    else if c == 0x131
    then codes "I"
    else if c == 0x17f
    then codes "S"
    else if c == 0xdf
    then codes "SS"
    else if c == 0xfb00
    then codes "FF"
    else if c == 0xfb01
    then codes "FI"
    else if c == 0xfb02
    then codes "FL"
    else if c == 0xfb03
    then codes "FFI"
    else if c == 0xfb04
    then codes "FFL"
    else if c == 0xfb05 || c == 0xfb06
    then codes "ST"
    else c ∷ []

unfoldable pub to_upper_case : Text → Text
to_upper_case [] = []
to_upper_case (c ∷ s) = to_upper c ++ to_upper_case s

abbrev pub upper : ℕ → Bool
upper c = leb b'A' c && leb c b'Z'

-- CURRENCY_PATTERN
unfoldable pub is_currency : Text → Bool
is_currency = matches (upper ∷ upper ∷ upper ∷ [])

unfoldable pub currency_code : Text → Result Text
currency_code raw =
    let normalized = to_upper_case (trim raw) in
    if is_currency normalized
    then ok normalized
    else err (validation_failure "MONEY_INVALID_CURRENCY")

abbrev pub money_options : DecimalOptions → DecimalOptions
money_options o = record {
  max_scale = elim o.max_scale [ none ↦ some (nat 18) | some n ↦ some n ];
  allow_negative = elim o.allow_negative [ none ↦ some true | some b ↦ some b ];
}

-- Whatever the parser throws becomes one code.
abbrev pub amount_of : Result DecimalParts → Result Text
amount_of (ok parts) = ok parts.normalized
amount_of (err e) = err (validation_failure "MONEY_INVALID_AMOUNT")

unfoldable pub money : Text → Text → DecimalOptions → Result Money
money raw_amount raw_currency options = do
  amount ← amount_of (parse_decimal raw_amount (money_options options))
  currency ← currency_code raw_currency
  ok (record { amount = amount; currency = currency })

unfoldable pub require_same_currency : Money → Money → Result (Unit {0})
require_same_currency left right =
    if text_eq left.currency right.currency
    then ok tt
    else err (conflict_failure "MONEY_CURRENCY_MISMATCH")

unfoldable pub add_money : Money → Money → Result Money
add_money left right = do
  require_same_currency left right
  a ← parse_decimal left.amount no_options
  b ← parse_decimal right.amount no_options
  let scale = max a.scale b.scale
  x ← rescale_coefficient a scale
  y ← rescale_coefficient b scale
  amount ← format_decimal (x +ℤ y) scale
  ok (record { amount = amount; currency = left.currency })

-- the three answers -1, 0 and 1
pub data Comparison : Type 0 where
  less equal greater : Comparison

abbrev pub compare_ℤ : ℤ → ℤ → Comparison
compare_ℤ a b = if ltb_ℤ a b then less else if ltb_ℤ b a then greater else equal

unfoldable pub compare_money : Money → Money → Result Comparison
compare_money left right = do
  require_same_currency left right
  a ← parse_decimal left.amount no_options
  b ← parse_decimal right.amount no_options
  let scale = max a.scale b.scale
  x ← rescale_coefficient a scale
  y ← rescale_coefficient b scale
  ok (compare_ℤ x y)

-- the test for one step away from zero, on the quotient and the remainder
unfoldable pub increments : RoundingMode → ℕ → ℕ → ℕ → Bool
increments mode quotient remainder divisor = not (remainder == 0) && elim mode [
  | up ↦ true
  | half_up ↦ leb divisor (remainder * 2)
  | half_even ↦ ltb divisor (remainder * 2) || (remainder * 2 == divisor && quotient % 2 == 1)
  | down ↦ false
]

unfoldable pub round_quotient : RoundingMode → ℕ → ℕ → ℕ
round_quotient mode value divisor =
    if increments mode (value / divisor) (value % divisor) divisor
    then value / divisor + 1
    else value / divisor

unfoldable pub checked_target : Number → Option ℕ
checked_target target = elim (safe_from 0 target) [
  | none ↦ none
  | some n ↦ if ltb 18 n then none else some n
]

-- the rounded coefficient at the target scale
unfoldable pub round_parts : DecimalParts → ℕ → RoundingMode → Result ℤ
round_parts parts target mode =
    if leb parts.scale target
    then rescale_coefficient parts target
    else ok (
        signed (is_negative parts.coefficient)
          (round_quotient mode (abs parts.coefficient) (10 ^ (parts.scale - target))))

unfoldable pub round_money : Money → Number → RoundingMode → Result Money
round_money value target_scale mode = elim (checked_target target_scale) [
  | none ↦ err (type_error "targetScale must be an integer from 0 to 18.")
  | some target ↦ do
    parts ← parse_decimal value.amount no_options
    coefficient ← round_parts parts target mode
    amount ← format_decimal coefficient target
    ok (record { amount = amount; currency = value.currency })
]
