-- ===== src/Foundation/Examples.antt =====
-- The theorems on packages/foundation at concrete inputs.
use taymex.Prelude.{
  ◌≡◌, refl, Text, codes, true, trim, is_space, trim_start, pos, negsuc, ◌+ℤ◌, arith, text_eq,
  times,
}
use taymex.Foundation.Errors.{ok, nat, safe_from}
use taymex.Foundation.Validation.{require_uuid, require_non_blank, to_lower, is_uuid, matches}
use taymex.Foundation.Decimal.{
  DecimalParts, parse_decimal, no_options, parse_parts, split_on, unsigned, strip_zeros,
  big_int_from, drop_minus_zero, with_value, decimal_of, checked_scale, format_decimal,
  format_digits, print, print_from, rescale_coefficient,
}
use taymex.Foundation.Decimal.Formatted.{parse-format_decimal}
use taymex.Foundation.Decimal.RoundTrip.{
  parse_decimal_idempotent, format-parse_decimal, Admits-no_options,
}
use taymex.Foundation.Quantity.{
  watt, kilowatt, convert_quantity, dimension, decimal_exponent, shifted, strip_fraction,
  drop_zeros,
}
use taymex.Foundation.Money.{
  Money, money, currency_code, to_upper, to_upper_case, is_currency, RoundingMode, half_even,
  add_money, compare_money, less, require_same_currency, round_money,
}
use taymex.Foundation.Money.Arithmetic.{add_money_exact, round_money_exact, at_scale, rounded}

abbrev padded_id : Text
padded_id = codes " 0190F3C2-7A11-7ABC-8DEF-00112233AABB "

abbrev upper_id : Text
upper_id = codes "0190F3C2-7A11-7ABC-8DEF-00112233AABB"

abbrev canonical_id : Text
canonical_id = codes "0190f3c2-7a11-7abc-8def-00112233aabb"

padded_id-canonical : require_uuid padded_id "id" ≡ ok canonical_id
unfolding require_uuid require_non_blank trim trim_start is_space safe_from to_lower is_uuid matches
padded_id-canonical = refl

padded_id-trimmed : require_non_blank padded_id "id" (nat 64) ≡ ok upper_id
unfolding require_non_blank trim trim_start is_space safe_from
padded_id-trimmed = refl

-- " -007.50 " is -7.50.
abbrev raw_amount : Text
raw_amount = codes " -007.50 "

abbrev amount : Text
amount = codes "-7.50"

abbrev amount_parts : DecimalParts
amount_parts = record { coefficient = negsuc 749; scale = 2; normalized = amount }

raw_amount-parsed : parse_decimal raw_amount no_options ≡ ok amount_parts
unfolding parse_decimal parse_parts split_on unsigned strip_zeros big_int_from drop_minus_zero
    with_value decimal_of checked_scale safe_from trim trim_start is_space
raw_amount-parsed = refl

amount-parsed : parse_decimal amount no_options ≡ ok amount_parts
amount-parsed = parse_decimal_idempotent raw_amount no_options raw_amount-parsed

format-parse_decimal_example : format_decimal (negsuc 749) 2 ≡ ok amount
format-parse_decimal_example = format-parse_decimal raw_amount no_options raw_amount-parsed

five_thousandths : format_decimal (negsuc 4) 3 ≡ ok (codes "-0.005")
unfolding format_decimal format_digits print print_from
five_thousandths = refl

parse-format_decimal_example :
    parse_decimal (codes "-0.005") no_options
    ≡ ok (record { coefficient = negsuc 4; scale = 3; normalized = codes "-0.005" })
parse-format_decimal_example =
    parse-format_decimal (negsuc 4) 3 no_options five_thousandths
      (Admits-no_options true 3 (omega arith))

abbrev debt : Money
debt = record { amount = amount; currency = codes "EUR" }

abbrev credit : Money
credit = record { amount = codes "10.005"; currency = codes "EUR" }

abbrev credit_parts : DecimalParts
credit_parts = record { coefficient = pos 10005; scale = 3; normalized = codes "10.005" }

credit-parsed : parse_decimal (codes "10.005") no_options ≡ ok credit_parts
unfolding parse_decimal parse_parts split_on unsigned strip_zeros big_int_from drop_minus_zero
    with_value decimal_of checked_scale safe_from trim trim_start is_space
credit-parsed = refl

debt-accepted : money raw_amount (codes " eur") no_options ≡ ok debt
unfolding money currency_code to_upper_case to_upper is_currency matches parse_decimal parse_parts
    split_on unsigned strip_zeros big_int_from drop_minus_zero with_value decimal_of checked_scale
    safe_from trim trim_start is_space
debt-accepted = refl

add_money_exact_example :
    (s : Money) × (add_money debt credit ≡ ok s)
    × (s.currency ≡ codes "EUR")
    × (parse_decimal s.amount no_options
        ≡ ok (record {
          coefficient = at_scale amount_parts 3 +ℤ at_scale credit_parts 3;
          scale = 3;
          normalized = s.amount;
        }))
add_money_exact_example = add_money_exact debt credit refl amount-parsed credit-parsed

debt-less : compare_money debt credit ≡ ok less
unfolding compare_money require_same_currency text_eq rescale_coefficient times parse_decimal
    parse_parts split_on unsigned strip_zeros big_int_from drop_minus_zero with_value decimal_of
    checked_scale safe_from trim trim_start is_space
debt-less = refl

-- 10.005 at two places, half to even
round_money_exact_example :
    (m : Money) × (round_money credit (nat 2) half_even ≡ ok m)
    × (m.currency ≡ codes "EUR")
    × (parse_decimal m.amount no_options
        ≡ ok (record {
          coefficient = rounded credit_parts 2 half_even;
          scale = 2;
          normalized = m.amount;
        }))
    × ((again : RoundingMode) → round_money m (nat 2) again ≡ ok m)
round_money_exact_example = round_money_exact credit credit-parsed 2 (omega arith) half_even

-- 1.5 kW are 1500 W, and the other way round.
kilowatts :
    convert_quantity (record { value = codes "1.5"; unit = kilowatt }) watt
    ≡ ok (record { value = codes "1500"; unit = watt })
unfolding convert_quantity dimension decimal_exponent shifted strip_fraction drop_zeros
    format_decimal format_digits print print_from times parse_decimal parse_parts split_on unsigned
    strip_zeros big_int_from drop_minus_zero with_value decimal_of checked_scale safe_from trim
    trim_start is_space
kilowatts = refl

watts :
    convert_quantity (record { value = codes "1500"; unit = watt }) kilowatt
    ≡ ok (record { value = codes "1.5"; unit = kilowatt })
unfolding convert_quantity dimension decimal_exponent shifted strip_fraction drop_zeros
    format_decimal format_digits print print_from times parse_decimal parse_parts split_on unsigned
    strip_zeros big_int_from drop_minus_zero with_value decimal_of checked_scale safe_from trim
    trim_start is_space
watts = refl
