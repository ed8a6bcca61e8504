-- ===== src/Foundation/Money/Arithmetic.antt =====
-- Sums, comparisons and roundings of money are exact.
use mathlib.Core.Path.{ap₂}
use native.Mathlib.Nat.{max_comm}
use taymex.Prelude.{
  ℕ, suc, ◌+◌, ◌-◌, ◌*◌, ◌^◌, ◌≤◌, ◌≡◌, refl, sym, ap, ◌∙◌, max, Text, some, true, leb,
  if◌then◌else◌, arith, ℤ, pos, negsuc, signed, is_negative, abs, times, ◌+ℤ◌, +ℤ_comm,
  text_eq_refl,
}
use taymex.Foundation.Errors.{Result, ok, err, ◌>>=◌, nat, safe_from}
use taymex.Foundation.Decimal.{
  DecimalParts, parse_decimal, no_options, format_decimal, format_digits, pad_start, print,
  rescale_coefficient,
}
use taymex.Foundation.Decimal.Formatted.{parse-format_decimal}
use taymex.Foundation.Decimal.RoundTrip.{scale-le-18, Admits-no_options, format-parse_decimal}
use taymex.Foundation.Money.{
  Money, RoundingMode, require_same_currency, add_money, compare_money, Comparison, less, equal,
  greater, compare_ℤ, round_quotient, round_parts, round_money, checked_target,
}

rescale-ok :
    (p : DecimalParts) (target : ℕ)
    → p.scale ≤ target
    → rescale_coefficient p target ≡ ok (times p.coefficient (10 ^ (target - p.scale)))
unfolding rescale_coefficient
rescale-ok p target h = ground arith

format_some : (z : ℤ) (n : ℕ) → n ≤ 18 → (t : Text) × (format_decimal z n ≡ ok t)
unfolding format_decimal
format_some z n h =
    (format_digits (is_negative z) n (pad_start (n + 1) (print (abs z))), ground arith)

-- An integer at an admissible scale has a text, which parses back to it.
format-ok :
    (z : ℤ) (n : ℕ)
    → n ≤ 18
    → (t : Text) × (format_decimal z n ≡ ok t)
      × (parse_decimal t no_options ≡ ok (record { coefficient = z; scale = n; normalized = t }))
format-ok z n h =
    let (t, e) = format_some z n h in
    (t, e, parse-format_decimal z n no_options e (Admits-no_options (is_negative z) n h))

-- the coefficient at a scale that is no smaller
abbrev pub at_scale : DecimalParts → ℕ → ℤ
at_scale p scale = times p.coefficient (10 ^ (scale - p.scale))

module _ (l r : Money) {a b : DecimalParts} (same : l.currency ≡ r.currency)
    (left : parse_decimal l.amount no_options ≡ ok a)
    (right : parse_decimal r.amount no_options ≡ ok b) where
  same_currency : require_same_currency l r ≡ ok tt
  unfolding require_same_currency
  same_currency = rw (same, text_eq_refl)

  pub add_money_value : add_money l r ≡ (do
    amount ←
        format_decimal
          (at_scale a (max a.scale b.scale) +ℤ at_scale b (max a.scale b.scale))
          (max a.scale b.scale)
    ok (record { amount = amount; currency = l.currency }))
  unfolding add_money
  add_money_value =
      let n = max a.scale b.scale in
      rw (same_currency, left, right, rescale-ok a n (omega arith), rescale-ok b n (omega arith))

  -- Two amounts in one currency have a sum: the exact sum of the two values, at the larger of
  -- their scales, in that currency.
  pub add_money_exact :
      (s : Money) × (add_money l r ≡ ok s)
      × (s.currency ≡ l.currency)
      × (parse_decimal s.amount no_options
          ≡ ok (record {
            coefficient = at_scale a (max a.scale b.scale) +ℤ at_scale b (max a.scale b.scale);
            scale = max a.scale b.scale;
            normalized = s.amount;
          }))
  unfolding add_money
  add_money_exact =
      let n = max a.scale b.scale in
      let (t, e, p) =
        format-ok (at_scale a n +ℤ at_scale b n) n
          (omega (arith, scale-le-18 l.amount left, scale-le-18 r.amount right)) in
      (
        record { amount = t; currency = l.currency },
        rw (
          same_currency,
          left,
          right,
          rescale-ok a n (omega arith),
          rescale-ok b n (omega arith),
          e,
        ),
        refl,
        p,
      )

  -- The comparison is that of the values, brought to one scale.
  pub compare_money_exact :
      compare_money l r
      ≡ ok (compare_ℤ (at_scale a (max a.scale b.scale)) (at_scale b (max a.scale b.scale)))
  unfolding compare_money
  compare_money_exact =
      let n = max a.scale b.scale in
      rw (same_currency, left, right, rescale-ok a n (omega arith), rescale-ok b n (omega arith))

abbrev total : DecimalParts → DecimalParts → Text → ℕ → Result Money
total a b currency n = do
  amount ← format_decimal (at_scale a n +ℤ at_scale b n) n
  ok (record { amount = amount; currency = currency })

total_comm : (a b : DecimalParts) (c : Text) (n : ℕ) → total a b c n ≡ total b a c n
total_comm a b c n = rw (+ℤ_comm (at_scale a n) (at_scale b n))

abbrev pub flip : Comparison → Comparison
flip less = greater
flip equal = equal
flip greater = less

compare_ℤ-flip : (x y : ℤ) → compare_ℤ y x ≡ flip (compare_ℤ x y)
compare_ℤ-flip x y = ground arith

abbrev flip_result : Result Comparison → Result Comparison
flip_result (ok c) = ok (flip c)
flip_result (err e) = err e

module _ (l r : Money) {a b : DecimalParts} (same : l.currency ≡ r.currency)
    (left : parse_decimal l.amount no_options ≡ ok a)
    (right : parse_decimal r.amount no_options ≡ ok b) where
  -- Addition does not depend on the order of two amounts in one currency.
  pub add_money_comm : add_money l r ≡ add_money r l
  add_money_comm =
      add_money_value l r same left right
      ∙ total_comm a b l.currency (max a.scale b.scale)
      ∙ ap₂ (total b a) same (max_comm a.scale b.scale)
      ∙ sym (add_money_value r l (sym same) right left)

  -- Comparing in the other order gives the opposite answer.
  pub compare_money-flip :
      (c : Comparison) → compare_money l r ≡ ok c → compare_money r l ≡ ok (flip c)
  compare_money-flip c h =
      compare_money_exact r l (sym same) right left
      ∙ ap (λ n. ok (compare_ℤ (at_scale b n) (at_scale a n))) (max_comm b.scale a.scale)
      ∙ ap ok (compare_ℤ-flip (at_scale a (max a.scale b.scale)) (at_scale b (max a.scale b.scale)))
      ∙ ap flip_result (sym (compare_money_exact l r same left right) ∙ h)

times-one : (z : ℤ) → times z 1 ≡ z
unfolding times
times-one (pos n) = ap pos (omega arith)
times-one (negsuc n) = let e : suc n * 1 ≡ suc n = omega arith in rw e

-- The coefficient that rounding computes.
abbrev pub rounded : DecimalParts → ℕ → RoundingMode → ℤ
rounded p target mode =
    if leb p.scale target
    then at_scale p target
    else signed (is_negative p.coefficient)
        (round_quotient mode (abs p.coefficient) (10 ^ (p.scale - target)))

round_parts-ok :
    (p : DecimalParts) (target : ℕ) (mode : RoundingMode)
    → round_parts p target mode ≡ ok (rounded p target mode)
unfolding round_parts rescale_coefficient
round_parts-ok p target mode = ground arith

round_parts_same :
    (p : DecimalParts) (target : ℕ) (mode : RoundingMode)
    → p.scale ≡ target
    → round_parts p target mode ≡ ok p.coefficient
round_parts_same p target mode h =
    let least : leb p.scale target ≡ true = ground arith in
    let none_left : target - p.scale ≡ 0 = omega arith in
    round_parts-ok p target mode ∙ ap ok (rw (least, none_left) (times-one p.coefficient))

checked_target-le : (n : ℕ) → n ≤ 18 → checked_target (nat n) ≡ some n
checked_target-le n h = unfold checked_target safe_from in ground arith

module _ (v : Money) {p : DecimalParts} (parsed : parse_decimal v.amount no_options ≡ ok p)
    (target : ℕ) (h : target ≤ 18) where
  round_money_value :
      (mode : RoundingMode)
      → round_money v (nat target) mode ≡ (do
        amount ← format_decimal (rounded p target mode) target
        ok (record { amount = amount; currency = v.currency }))
  unfolding round_money
  round_money_value mode =
      rw (checked_target-le target h, round_money, parsed, round_parts-ok p target mode)

  -- An amount that is at the target scale already is left alone by every mode.
  round_money_fixed :
      (mode : RoundingMode)
      → p.scale ≡ target
      → p.normalized ≡ v.amount
      → round_money v (nat target) mode ≡ ok v
  unfolding round_money
  round_money_fixed mode e n =
      let f : format_decimal p.coefficient target ≡ ok v.amount =
        ap (format_decimal p.coefficient) (sym e)
        ∙ format-parse_decimal v.amount no_options parsed
        ∙ ap ok n in
      rw (checked_target-le target h, round_money, parsed, round_parts_same p target mode e, f)

module _ (v : Money) {p : DecimalParts} (parsed : parse_decimal v.amount no_options ≡ ok p)
    (target : ℕ) (h : target ≤ 18) (mode : RoundingMode) where
  -- Rounding to an admissible scale succeeds and keeps the currency; the result stands at that
  -- scale with the coefficient that the mode gives; and rounding the result to that scale again,
  -- in any mode, changes nothing.
  pub round_money_exact :
      (m : Money) × (round_money v (nat target) mode ≡ ok m)
      × (m.currency ≡ v.currency)
      × (parse_decimal m.amount no_options
          ≡ ok (record {
            coefficient = rounded p target mode;
            scale = target;
            normalized = m.amount;
          }))
      × ((again : RoundingMode) → round_money m (nat target) again ≡ ok m)
  round_money_exact =
      let (t, e, q) = format-ok (rounded p target mode) target h in
      let m : Money = record { amount = t; currency = v.currency } in
      (
        m,
        rw (round_money_value v parsed target h mode, e),
        refl,
        q,
        λ again. round_money_fixed m q target h again refl refl,
      )
