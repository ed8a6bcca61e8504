-- ===== src/Foundation/Decimal.antt =====
-- packages/foundation/src/decimal.ts: exact decimals as an integer coefficient and a scale.
pub mod Digits
pub mod Normal
pub mod RoundTrip
pub mod Formatted
use taymex.Prelude.{
  ℕ, zero, suc, ◌+◌, ◌-◌, ◌*◌, ◌/◌, ◌%◌, ◌^◌, Text, Option, none, some, Bool, true, false, ◌&&◌,
  ◌||◌, not, List, [], ◌∷◌, ◌++◌, ltb, leb, ◌==◌, length, all, take, drop, replicate, trim,
  if◌then◌else◌, ℤ, pos, signed, is_negative, abs, times,
}
use taymex.Foundation.Errors.{
  Error, type_error, range_error, Result, ok, err, ◌>>=◌, Number, safe_from,
}

-- DecimalParts
pub record DecimalParts : Type 0 where
  pub coefficient : ℤ
  pub scale : ℕ
  pub normalized : Text

-- the options of `parseDecimal`
pub record DecimalOptions : Type 0 where
  pub max_scale : Option Number
  pub allow_negative : Option Bool

abbrev pub digit : ℕ → Bool
digit c = leb b'0' c && leb c b'9'

abbrev cons_head : ℕ → List Text → List Text
cons_head c [] = (c ∷ []) ∷ []
cons_head c (s ∷ ss) = (c ∷ s) ∷ ss

-- `s.split(sep)`, for a separator of one unit
unfoldable pub split_on : ℕ → Text → List Text
split_on sep [] = [] ∷ []
split_on sep (c ∷ s) = let rest = split_on sep s in if c == sep then [] ∷ rest else cons_head c rest

abbrev pub digits : Text → Bool
digits [] = false
digits (c ∷ s) = digit c && all digit s

-- DECIMAL_PATTERN behind the sign: digits, and at most one point with digits behind it
abbrev pub decimal_parts : List Text → Bool
decimal_parts (whole ∷ []) = digits whole
decimal_parts (whole ∷ fraction ∷ []) = digits whole && digits fraction
decimal_parts _ = false

abbrev pub starts_with_minus : Text → Bool
starts_with_minus [] = false
starts_with_minus (c ∷ s) = c == b'-'

abbrev pub tail : Text → Text
tail [] = []
tail (c ∷ s) = s

unfoldable pub unsigned : Text → Text
unsigned value = if starts_with_minus value then tail value else value

-- the two parts that the destructuring of `unsigned.split('.')` takes
abbrev pub whole_part : List Text → Text
whole_part [] = b'0' ∷ []
whole_part (whole ∷ parts) = whole

abbrev pub fraction_part : List Text → Text
fraction_part [] = []
fraction_part (whole ∷ []) = []
fraction_part (whole ∷ fraction ∷ parts) = fraction

-- `.replace(/^0+(?=\d)/, '')`
unfoldable pub strip_zeros : Text → Text
strip_zeros [] = []
strip_zeros (c ∷ []) = c ∷ []
strip_zeros (c ∷ d ∷ s) =
    let rest = strip_zeros (d ∷ s) in if c == b'0' && digit d then rest else c ∷ d ∷ s

abbrev pub or_zero : Text → Text
or_zero [] = b'0' ∷ []
or_zero (c ∷ s) = c ∷ s

-- `BigInt(digits)`, from a number that stands before the digits
unfoldable pub big_int_from : ℕ → Text → ℕ
big_int_from n [] = n
big_int_from n (c ∷ s) = big_int_from (n * 10 + (c - b'0')) s

abbrev pub point : Text → Text
point [] = []
point (c ∷ s) = b'.' ∷ c ∷ s

abbrev pub minus : Bool → Text → Text
minus true s = b'-' ∷ s
minus false s = s

-- `.replace(/^-0(?=\.?0*$)/, '0')`
abbrev zeros_after_point : Text → Bool
zeros_after_point [] = true
zeros_after_point (c ∷ s) = (c == b'.' || c == b'0') && all (λ d. d == b'0') s

unfoldable pub drop_minus_zero : Text → Text
drop_minus_zero (c ∷ d ∷ s) =
    if c == b'-' && d == b'0' && zeros_after_point s then b'0' ∷ s else c ∷ d ∷ s
drop_minus_zero s = s

-- the parts with their value, and the text with its sign
unfoldable pub with_value : Bool → ℕ → Text → Text → DecimalParts
with_value negative value whole fraction =
    let coefficient = if negative && not (value == 0) then signed true value else pos value in
    record {
      coefficient = coefficient;
      scale = length fraction;
      normalized = drop_minus_zero (minus (is_negative coefficient) (whole ++ point fraction));
    }

-- the parts, once the text has the form of a decimal
unfoldable pub decimal_of : Bool → Text → Text → DecimalParts
decimal_of negative whole_raw fraction =
    let whole = or_zero (strip_zeros whole_raw) in
    with_value negative (big_int_from 0 (or_zero (strip_zeros (whole ++ fraction)))) whole fraction

abbrev or_default : Option Number → ℕ → Number
or_default none n = Number.nat n
or_default (some n) _ = n

abbrev refuses_negative : Option Bool → Bool
refuses_negative (some false) = true
refuses_negative _ = false

-- The `maxScale` option, if it is an integer from 0 to 30.
unfoldable pub checked_scale : Option Number → Option ℕ
checked_scale max_scale = elim (safe_from 0 (or_default max_scale 18)) [
  | none ↦ none
  | some n ↦ if ltb 30 n then none else some n
]

-- The checks, in their order, on the sign and on the text behind it, split at its points.
unfoldable pub parse_parts : Bool → List Text → DecimalOptions → Result DecimalParts
parse_parts negative parts options =
    if not (decimal_parts parts)
    then err (type_error "Invalid decimal value")
    else if negative && refuses_negative options.allow_negative
    then err (range_error "Negative decimal values are not allowed.")
    else elim (checked_scale options.max_scale) [
      | none ↦ err (type_error "maxScale must be an integer from 0 to 30.")
      | some max_scale ↦
          if ltb max_scale (length (fraction_part parts))
          then err (range_error "Decimal scale exceeds maximum")
          else ok (decimal_of negative (whole_part parts) (fraction_part parts))
    ]

unfoldable pub parse_decimal : Text → DecimalOptions → Result DecimalParts
parse_decimal raw options =
    let value = trim raw in
    parse_parts (starts_with_minus value) (split_on b'.' (unsigned value)) options

abbrev pub no_options : DecimalOptions
no_options = record { max_scale = none; allow_negative = none }

-- `n.toString()`, with fuel
unfoldable pub print_from : ℕ → ℕ → Text
print_from zero n = []
print_from (suc fuel) n =
    let rest = print_from fuel (n / 10) in (if ltb n 10 then [] else rest) ++ (n % 10 + b'0') ∷ []

unfoldable pub print : ℕ → Text
unfolding print_from
print n = print_from (suc n) n

abbrev pub pad_start : ℕ → Text → Text
pad_start n s = replicate (n - length s) b'0' ++ s

-- the sign, the digits before the last `scale` of them, and those behind a point
unfoldable pub format_digits : Bool → ℕ → Text → Text
format_digits negative scale raw =
    minus negative (take (length raw - scale) raw ++ point (drop (length raw - scale) raw))

unfoldable pub format_decimal : ℤ → ℕ → Result Text
format_decimal coefficient scale =
    if ltb 30 scale
    then err (type_error "scale must be an integer from 0 to 30.")
    else ok (
        format_digits (is_negative coefficient) scale
          (pad_start (scale + 1) (print (abs coefficient))))

unfoldable pub rescale_coefficient : DecimalParts → ℕ → Result ℤ
rescale_coefficient parts target_scale =
    if ltb target_scale parts.scale
    then err (range_error "Target scale would discard precision.")
    else ok (times parts.coefficient (10 ^ (target_scale - parts.scale)))
