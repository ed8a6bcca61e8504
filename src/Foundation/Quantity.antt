-- ===== src/Foundation/Quantity.antt =====
-- packages/foundation/src/quantity.ts. A unit is one of the ten by type, so the checks that it is
-- one do not appear.
use mathlib.Core.List.{reverse}
use taymex.Prelude.{
  ℕ, ◌+◌, ◌-◌, ◌^◌, String, Text, none, some, Bool, true, false, [], ◌∷◌, any, ltb, ◌==◌,
  if◌then◌else◌, times,
}
use taymex.Foundation.Errors.{
  Category, quantity_error, Error, application_error, Result, ok, err, ◌>>=◌, ◌>>◌, guard, nat,
}
use taymex.Foundation.Decimal.{DecimalParts, DecimalOptions, parse_decimal, format_decimal}

pub data UnitCode : Type 0 where
  watt kilowatt watt_hour kilowatt_hour volt ampere ampere_hour volt_ampere kilovolt_ampere
        percent :
      UnitCode

pub data Dimension : Type 0 where
  power energy voltage current charge apparent_power ratio_percent : Dimension

-- UNIT_DEFINITIONS
unfoldable pub dimension : UnitCode → Dimension
dimension watt = power
dimension kilowatt = power
dimension watt_hour = energy
dimension kilowatt_hour = energy
dimension volt = voltage
dimension ampere = current
dimension ampere_hour = charge
dimension volt_ampere = apparent_power
dimension kilovolt_ampere = apparent_power
dimension percent = ratio_percent

unfoldable pub decimal_exponent : UnitCode → ℕ
decimal_exponent kilowatt = 3
decimal_exponent kilowatt_hour = 3
decimal_exponent kilovolt_ampere = 3
decimal_exponent _ = 0

pub record Quantity : Type 0 where
  pub value : Text
  pub unit : UnitCode

-- the constructor of `QuantityError`
unfoldable pub quantity_failure : String → Error
quantity_failure code = application_error (record {
  class = quantity_error;
  code = code;
  category = Category.validation;
  safe_message_key = "errors.quantity.validation";
  field = none;
})

abbrev quantity_options : DecimalOptions → DecimalOptions
quantity_options o = record {
  max_scale = elim o.max_scale [ none ↦ some (nat 12) | some n ↦ some n ];
  allow_negative = elim o.allow_negative [ none ↦ some true | some b ↦ some b ];
}

-- Whatever the parser throws becomes one code.
abbrev value_of : Result DecimalParts → Result Text
value_of (ok parts) = ok parts.normalized
value_of (err e) = err (quantity_failure "QUANTITY_INVALID_VALUE")

unfoldable pub quantity : Text → UnitCode → DecimalOptions → Result Quantity
quantity raw_value unit options = do
  value ← value_of (parse_decimal raw_value (quantity_options options))
  ok (record { value = value; unit = unit })

abbrev same_dimension : Dimension → Dimension → Bool
same_dimension power power = true
same_dimension energy energy = true
same_dimension voltage voltage = true
same_dimension current current = true
same_dimension charge charge = true
same_dimension apparent_power apparent_power = true
same_dimension ratio_percent ratio_percent = true
same_dimension _ _ = false

abbrev same_unit : UnitCode → UnitCode → Bool
same_unit watt watt = true
same_unit kilowatt kilowatt = true
same_unit watt_hour watt_hour = true
same_unit kilowatt_hour kilowatt_hour = true
same_unit volt volt = true
same_unit ampere ampere = true
same_unit ampere_hour ampere_hour = true
same_unit volt_ampere volt_ampere = true
same_unit kilovolt_ampere kilovolt_ampere = true
same_unit percent percent = true
same_unit _ _ = false

-- `.replace(/0+$/, '').replace(/\.$/, '')`, on the text from its end
unfoldable pub drop_zeros : Text → Text
drop_zeros [] = []
drop_zeros (c ∷ s) = let rest = drop_zeros s in if c == b'0' then rest else c ∷ s

abbrev drop_point : Text → Text
drop_point [] = []
drop_point (c ∷ s) = if c == b'.' then s else c ∷ s

unfoldable pub strip_fraction : Text → Text
strip_fraction formatted =
    if any (λ c. c == b'.') formatted
    then reverse (drop_point (drop_zeros (reverse formatted)))
    else formatted

-- the value at the other unit's power of ten
unfoldable pub shifted : DecimalParts → ℕ → ℕ → Result Text
shifted parts source target =
    if ltb target source
    then format_decimal (times parts.coefficient (10 ^ (source - target))) parts.scale
    else format_decimal parts.coefficient (parts.scale + (target - source))

unfoldable pub convert_quantity : Quantity → UnitCode → Result Quantity
convert_quantity value target =
    guard (same_dimension (dimension value.unit) (dimension target))
      (quantity_failure "QUANTITY_INCOMPATIBLE_UNITS")
    >> (if same_unit value.unit target then ok value else do
      parts ←
          parse_decimal value.value (record { max_scale = some (nat 18); allow_negative = none })
      formatted ← shifted parts (decimal_exponent value.unit) (decimal_exponent target)
      ok (record { value = strip_fraction formatted; unit = target }))
