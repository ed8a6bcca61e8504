-- ===== src/Foundation/Decimal/Formatted.antt =====
-- A formatted integer parses back to itself.
use taymex.Prelude.{
  ℕ, zero, suc, ◌+◌, ◌-◌, ◌≤◌, ◌<◌, ◌≡◌, ◌≢◌, sym, ap, ◌∙◌, Text, true, false, ◌&&◌, [], ◌∷◌, ◌++◌,
  leb, length, all, take, drop, replicate, arith, Bool-cases, inl, inr, length-append,
  length-replicate, take-append-drop, length-take, length-drop, ℤ, pos, negsuc, signed, is_negative,
  abs, signed-abs,
}
use taymex.Foundation.Errors.{ok}
use taymex.Foundation.Decimal.{
  DecimalOptions, digit, big_int_from, point, minus, parse_decimal, print, pad_start, format_digits,
  format_decimal,
}
use taymex.Foundation.Decimal.Digits.{
  IsCanonical, all-append, all-print, all-replicate, big_int_from-print, big_int_from-replicate,
  print-IsCanonical, pad_start_none,
}
use taymex.Foundation.Decimal.Normal.{IsNormal}
use taymex.Foundation.Decimal.RoundTrip.{Admits, parse_decimal-normal}

IsCanonical-take : (k : ℕ) (s : Text) → IsCanonical s → 0 < k → IsCanonical (take k s)
IsCanonical-take zero s h k = elim k [ ]
IsCanonical-take (suc k) [] h l = absurd h
IsCanonical-take (suc zero) (c ∷ s) h l = tt
IsCanonical-take (suc (suc k)) (c ∷ []) h l = tt
IsCanonical-take (suc (suc k)) (c ∷ d ∷ s) h l = h

IsCanonical-of_length : (s : Text) → length s ≡ 1 → IsCanonical s
IsCanonical-of_length [] h = absurd (omega arith)
IsCanonical-of_length (c ∷ []) h = tt
IsCanonical-of_length (c ∷ d ∷ s) h = absurd (omega arith)

not-leb→lt : (a b : ℕ) → leb a b ≡ false → b < a
not-leb→lt a b h = ground arith

abs-ne-zero : (z : ℤ) → is_negative z ≡ true → abs z ≢ 0
abs-ne-zero (pos n) h = cc
abs-ne-zero (negsuc n) h = omega arith

-- What `formatDecimal` cuts the padded digits into.
module _ (z : ℤ) (n : ℕ) where
  abbrev raw : Text
  raw = pad_start (n + 1) (print (abs z))

  abbrev whole_of : Text
  whole_of = take (length raw - n) raw

  abbrev fraction_of : Text
  fraction_of = drop (length raw - n) raw

  length-raw : n + 1 ≤ length raw
  length-raw = omega (
    arith,
    length-append (replicate (n + 1 - length (print (abs z))) b'0') (print (abs z)),
    length-replicate {A = ℕ} (n + 1 - length (print (abs z))) b'0',
  )

  length-fraction_of : length fraction_of ≡ n
  length-fraction_of = omega (arith, length-drop (length raw - n) raw, length-raw)

  all-raw : all digit raw ≡ true
  all-raw =
      rw
        (
          all-append (replicate (n + 1 - length (print (abs z))) b'0') (print (abs z)),
          all-replicate (n + 1 - length (print (abs z))),
        )
        (all-print (abs z))

  all-parts : (all digit whole_of && all digit fraction_of) ≡ true
  all-parts =
      sym (all-append whole_of fraction_of)
      ∙ ap (all digit) (take-append-drop (length raw - n) raw)
      ∙ all-raw

  value_of_parts : big_int_from 0 (whole_of ++ fraction_of) ≡ abs z
  value_of_parts =
      ap (big_int_from 0) (take-append-drop (length raw - n) raw)
      ∙ big_int_from-replicate (n + 1 - length (print (abs z))) (print (abs z))
      ∙ big_int_from-print (abs z)

  IsCanonical-whole_of : IsCanonical whole_of
  IsCanonical-whole_of = elim (Bool-cases (leb (n + 1) (length (print (abs z))))) [
    | inl long ↦
        let e : raw ≡ print (abs z) = pad_start_none (n + 1) (print (abs z)) (ground arith) in
        IsCanonical-take (length raw - n) raw (rw e (print-IsCanonical (abs z)))
          (omega (arith, length-raw))
    | inr short ↦ IsCanonical-of_length whole_of (
        omega (
          arith,
          length-take (length raw - n) raw,
          not-leb→lt (n + 1) (length (print (abs z))) short,
          length-append (replicate (n + 1 - length (print (abs z))) b'0') (print (abs z)),
          length-replicate {A = ℕ} (n + 1 - length (print (abs z))) b'0',
        ))
  ]

  IsNormal-parts : IsNormal (is_negative z) whole_of fraction_of
  IsNormal-parts = record {
    canonical = IsCanonical-whole_of;
    whole_digits = ground (arith, all-parts);
    fraction_digits = ground (arith, all-parts);
    sign = λ s e. abs-ne-zero z s (sym value_of_parts ∙ e);
  }

-- The text that is formatted, in its parts.
format_decimal-ok :
    (z : ℤ) (n : ℕ) {t : Text}
    → format_decimal z n ≡ ok t
    → t ≡ minus (is_negative z) (whole_of z n ++ point (fraction_of z n))
unfolding format_decimal format_digits
format_decimal-ok z n h = ground arith

-- Formatting an integer at a scale and parsing the text gives the integer, the scale and the text.
pub parse-format_decimal :
    (z : ℤ) (n : ℕ) (o : DecimalOptions) {t : Text}
    → format_decimal z n ≡ ok t
    → Admits o (is_negative z) n
    → parse_decimal t o ≡ ok (record { coefficient = z; scale = n; normalized = t })
parse-format_decimal z n o {t} h a =
    let e = format_decimal-ok z n h in
    let m : Admits o (is_negative z) (length (fraction_of z n)) = rw (length-fraction_of z n) a in
    let c : signed (is_negative z) (big_int_from 0 (whole_of z n ++ fraction_of z n)) ≡ z =
      ap (signed (is_negative z)) (value_of_parts z n) ∙ signed-abs z in
    ap (λ x. parse_decimal x o) e
    ∙ parse_decimal-normal (is_negative z) (whole_of z n) (fraction_of z n) o (IsNormal-parts z n) m
    ∙ λ i. ok (record { coefficient = c i; scale = length-fraction_of z n i; normalized = sym e i })
