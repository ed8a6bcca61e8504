-- ===== src/Foundation/Money/Currency.antt =====
-- Normalised money: the currency is three upper-case letters, and normalising again changes nothing.
use taymex.Prelude.{ℕ, ◌≡◌, refl, ◌∙◌, Text, true, false, [], ◌∷◌, is_space, arith}
use taymex.Foundation.Errors.{Result, ok, err, >>=-eq-ok}
use taymex.Foundation.Validation.{matches}
use taymex.Foundation.Validation.Trim.{trim_of_no_space}
use taymex.Foundation.Decimal.{DecimalParts, DecimalOptions, parse_decimal}
use taymex.Foundation.Decimal.RoundTrip.{parse_decimal_idempotent}
use taymex.Foundation.Money.{
  Money, to_upper, to_upper_case, upper, is_currency, currency_code, money, money_options,
  amount_of,
}

to_upper_of_upper : (c : ℕ) → upper c ≡ true → to_upper c ≡ c ∷ []
unfolding to_upper
to_upper_of_upper c h = ground arith

not_space_of_upper : (c : ℕ) → upper c ≡ true → is_space c ≡ false
unfolding is_space
not_space_of_upper c h = ground arith

-- Three upper-case letters are their own code.
currency_code_of_is_currency : (s : Text) → is_currency s ≡ true → currency_code s ≡ ok s
unfolding currency_code is_currency matches to_upper_case
currency_code_of_is_currency [] h = cc
currency_code_of_is_currency (a ∷ []) h = ground arith
currency_code_of_is_currency (a ∷ b ∷ []) h = ground arith
currency_code_of_is_currency (a ∷ b ∷ c ∷ []) h =
    let x : upper a ≡ true = ground arith in
    let y : upper b ≡ true = ground arith in
    let z : upper c ≡ true = ground arith in
    rw (
      trim_of_no_space (a ∷ b ∷ c ∷ [])
          (not_space_of_upper a x, (not_space_of_upper b y, (not_space_of_upper c z, tt))),
      to_upper_of_upper a x,
      to_upper_of_upper b y,
      to_upper_of_upper c z,
      x,
      y,
      z,
    )
currency_code_of_is_currency (a ∷ b ∷ c ∷ d ∷ s) h = ground arith

pub currency_code-is_currency :
    (raw : Text) {code : Text} → currency_code raw ≡ ok code → is_currency code ≡ true
unfolding currency_code
currency_code-is_currency raw h = ground arith

amount_of-ok :
    (r : Result DecimalParts) {a : Text}
    → amount_of r ≡ ok a
    → (p : DecimalParts) × (r ≡ ok p) × (p.normalized ≡ a)
amount_of-ok (ok p) h = (p, refl, ground arith)
amount_of-ok (err e) h = cc

amount_of-again :
    (raw : Text) (o : DecimalOptions) {a : Text}
    → amount_of (parse_decimal raw o) ≡ ok a
    → amount_of (parse_decimal a o) ≡ ok a
amount_of-again raw o h =
    let (p, e, n) = amount_of-ok (parse_decimal raw o) h in
    rw (← n, parse_decimal_idempotent raw o e)

-- Accepted money has a canonical amount and three upper-case letters for its currency, and making
-- money of it again, under the same options, returns it unchanged.
pub money_idempotent :
    (raw_amount raw_currency : Text) (o : DecimalOptions) {m : Money}
    → money raw_amount raw_currency o ≡ ok m
    → (is_currency m.currency ≡ true) × (money m.amount m.currency o ≡ ok m)
unfolding money
money_idempotent raw_amount raw_currency o h =
    let (a, e, k) = >>=-eq-ok (amount_of (parse_decimal raw_amount (money_options o))) _ h in
    let (c, f, l) = >>=-eq-ok (currency_code raw_currency) _ k in
    let code = currency_code-is_currency raw_currency f in
    ground (
      arith,
      code,
      amount_of-again raw_amount (money_options o) e,
      currency_code_of_is_currency c code,
    )

-- The amount of accepted money is the normalised text of a decimal that the options admit.
pub money-amount :
    (raw_amount raw_currency : Text) (o : DecimalOptions) {m : Money}
    → money raw_amount raw_currency o ≡ ok m
    → (p : DecimalParts) × (parse_decimal m.amount (money_options o) ≡ ok p)
      × (p.normalized ≡ m.amount)
unfolding money
money-amount raw_amount raw_currency o {m} h =
    let (a, e, k) = >>=-eq-ok (amount_of (parse_decimal raw_amount (money_options o))) _ h in
    let (c, f, l) = >>=-eq-ok (currency_code raw_currency) _ k in
    let same : a ≡ m.amount = ground arith in
    let (p, q, n) = amount_of-ok (parse_decimal raw_amount (money_options o)) e in
    (p, rw (← same, ← n) (parse_decimal_idempotent raw_amount (money_options o) q), n ∙ same)
