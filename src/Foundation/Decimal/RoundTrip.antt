-- ===== src/Foundation/Decimal/RoundTrip.antt =====
-- Parsing normalises a decimal, to the text that formatting prints.
use taymex.Prelude.{
  ℕ, zero, suc, ◌≤◌, ◌≡◌, refl, ap, ◌∙◌, Text, Option, none, some, Bool, true, false, ◌&&◌, List,
  [], ◌∷◌, ◌++◌, ltb, length, all, arith, Option-cases, inl, inr, trim, signed, is_negative, abs,
}
use taymex.Foundation.Errors.{ok, Number, safe_from}
use taymex.Foundation.Decimal.{
  DecimalParts, DecimalOptions, digit, digits, starts_with_minus, unsigned, split_on, parse_parts,
  whole_part, fraction_part, decimal_parts, big_int_from, point, minus, decimal_of, checked_scale,
  refuses_negative, parse_decimal, no_options, format_decimal,
}
use taymex.Foundation.Decimal.Digits.{strip_zeros-canonical}
use taymex.Foundation.Decimal.Normal.{
  IsNormal, normal_parts, parts_of, kept_sign, decimal_of-digits, kept-IsNormal, format-normal,
  split_on-normal, trim-normal, starts_with_minus-normal, unsigned-normal, digits_of_canonical,
  is_negative-signed_of_ne,
}

-- What the pattern says of the parts.
decimal_parts_lem :
    (ps : List Text)
    → decimal_parts ps ≡ true
    → (digits (whole_part ps) ≡ true) × (all digit (fraction_part ps) ≡ true)
decimal_parts_lem [] h = cc
decimal_parts_lem (w ∷ []) h = (h, refl)
decimal_parts_lem (w ∷ [] ∷ []) h = ground arith
decimal_parts_lem (w ∷ (c ∷ f) ∷ []) h = ground arith
decimal_parts_lem (w ∷ f ∷ g ∷ ps) h = cc

-- The options let a normal text through.
pub record Admits (o : DecimalOptions) (negative : Bool) (scale : ℕ) : Type 0 where
  pub most : ℕ
  pub checked : checked_scale o.max_scale ≡ some most
  pub scale_fits : scale ≤ most
  pub sign_allowed : (negative && refuses_negative o.allow_negative) ≡ false

-- What an accepted text is.
record IsParsed (o : DecimalOptions) (p : DecimalParts) : Type 0 where
  negative : Bool
  whole : Text
  fraction : Text
  normal : IsNormal negative whole fraction
  parts : p ≡ normal_parts negative whole fraction
  admits : Admits o negative (length fraction)

module _ (b : Bool) (ps : List Text) (o : DecimalOptions) {p : DecimalParts} where
  parse_parts-ok :
      parse_parts b ps o ≡ ok p
      → (decimal_parts ps ≡ true)
        × (p ≡ decimal_of b (whole_part ps) (fraction_part ps))
        × Admits o b (length (fraction_part ps))
  unfolding parse_parts
  parse_parts-ok h = elim (Option-cases (checked_scale o.max_scale)) [
    | inl none_given ↦ ground arith
    | inr (most, checked) ↦ (
      ground arith,
      ground arith,
      record {
        most = most;
        checked = checked;
        scale_fits = ground arith;
        sign_allowed = ground arith;
      },
    )
  ]

kept-Admits : (o : DecimalOptions) (b c : Bool) (n : ℕ) → Admits o b n → Admits o (b && c) n
kept-Admits o b c n a = record {
  most = a.most;
  checked = a.checked;
  scale_fits = a.scale_fits;
  sign_allowed = ground (arith, a.sign_allowed);
}

parse_decimal-IsParsed :
    (raw : Text) (o : DecimalOptions) {p : DecimalParts} → parse_decimal raw o ≡ ok p → IsParsed o p
unfolding parse_decimal
parse_decimal-IsParsed raw o {p} h =
    let value = trim raw in
    let b = starts_with_minus value in
    let ps = split_on b'.' (unsigned value) in
    let (pattern, parts, admits) = parse_parts-ok b ps o h in
    let (w, f) = decimal_parts_lem ps pattern in
    record {
      negative = kept_sign b _;
      whole = _;
      fraction = fraction_part ps;
      normal = kept-IsNormal b (whole_part ps) (fraction_part ps) w f;
      parts = parts ∙ decimal_of-digits b (whole_part ps) (fraction_part ps) w f;
      admits = kept-Admits o b _ _ admits;
    }

decimal_parts-parts_of :
    (w f : Text) → digits w ≡ true → all digit f ≡ true → decimal_parts (parts_of w f) ≡ true
decimal_parts-parts_of w [] h k = h
decimal_parts-parts_of w (c ∷ f) h k = ground arith

whole_part-parts_of : (w f : Text) → whole_part (parts_of w f) ≡ w
whole_part-parts_of w [] = refl
whole_part-parts_of w (c ∷ f) = refl

fraction_part-parts_of : (w f : Text) → fraction_part (parts_of w f) ≡ f
fraction_part-parts_of w [] = refl
fraction_part-parts_of w (c ∷ f) = refl

-- A normal text keeps its sign and its digits.
kept_sign-normal : (b : Bool) (w f : Text) → IsNormal b w f → kept_sign b (w ++ f) ≡ b
kept_sign-normal true w f n = ground (arith, n.sign refl)
kept_sign-normal false w f n = refl

decimal_of-normal : (b : Bool) (w f : Text) → IsNormal b w f → decimal_of b w f ≡ normal_parts b w f
decimal_of-normal b w f n =
    decimal_of-digits b w f (digits_of_canonical w n.canonical n.whole_digits) n.fraction_digits
    ∙ ap (λ v. normal_parts (kept_sign b (v ++ f)) v f) (strip_zeros-canonical w n.canonical)
    ∙ ap (λ c. normal_parts c w f) (kept_sign-normal b w f n)

parse_parts-normal :
    (b : Bool) (w f : Text) (o : DecimalOptions)
    → IsNormal b w f
    → Admits o b (length f)
    → parse_parts b (parts_of w f) o ≡ ok (normal_parts b w f)
unfolding parse_parts
parse_parts-normal b w f o n a =
    rw
      (
        decimal_parts-parts_of w f (digits_of_canonical w n.canonical n.whole_digits)
            n.fraction_digits,
        a.sign_allowed,
        a.checked,
        whole_part-parts_of w f,
        fraction_part-parts_of w f,
        decimal_of-normal b w f n,
      )
      (ground (arith, a.scale_fits))

pub parse_decimal-normal :
    (b : Bool) (w f : Text) (o : DecimalOptions)
    → IsNormal b w f
    → Admits o b (length f)
    → parse_decimal (minus b (w ++ point f)) o ≡ ok (normal_parts b w f)
unfolding parse_decimal
parse_decimal-normal b w f o n a =
    rw
      (
        trim-normal b w f n,
        starts_with_minus-normal b w f n,
        unsigned-normal b w f n,
        split_on-normal w f n.whole_digits n.fraction_digits,
      )
      (parse_parts-normal b w f o n a)

checked_scale-le : (m : Option Number) (most : ℕ) → checked_scale m ≡ some most → most ≤ 30
unfolding checked_scale
checked_scale-le m most h = ground arith

abs-signed : (b : Bool) (n : ℕ) → abs (signed b n) ≡ n
abs-signed true zero = refl
abs-signed true (suc n) = refl
abs-signed false n = refl

pub format_decimal-normal :
    (b : Bool) (w f : Text)
    → IsNormal b w f
    → length f ≤ 30
    → format_decimal (signed b (big_int_from 0 (w ++ f))) (length f) ≡ ok (minus b (w ++ point f))
unfolding format_decimal
format_decimal-normal b w f n h =
    let v = big_int_from 0 (w ++ f) in
    let small : ltb 30 (length f) ≡ false = ground arith in
    rw (small, is_negative-signed_of_ne b v n.sign, abs-signed b v) (ap ok (format-normal b w f n))

default_scale : (most : ℕ) → checked_scale none ≡ some most → most ≡ 18
unfolding checked_scale safe_from
default_scale most h = ground arith

-- The normalised text of a parsed decimal is its value as `formatDecimal` prints it: no leading
-- zeros, no sign on zero, and every digit of the fraction.
pub format-parse_decimal :
    (raw : Text) (o : DecimalOptions) {p : DecimalParts}
    → parse_decimal raw o ≡ ok p
    → format_decimal p.coefficient p.scale ≡ ok p.normalized
format-parse_decimal raw o {p} h =
    let q = parse_decimal-IsParsed raw o h in
    let most = checked_scale-le o.max_scale q.admits.most q.admits.checked in
    rw q.parts (
      format_decimal-normal q.negative q.whole q.fraction q.normal
        (omega (arith, most, q.admits.scale_fits)))

-- Without options the scale is at most 18.
pub scale-le-18 :
    (raw : Text) {p : DecimalParts} → parse_decimal raw no_options ≡ ok p → p.scale ≤ 18
scale-le-18 raw h =
    let q = parse_decimal-IsParsed raw no_options h in
    let e : q.admits.most ≡ 18 = default_scale q.admits.most q.admits.checked in
    rw q.parts (omega (arith, e, q.admits.scale_fits))

pub Admits-no_options : (b : Bool) (n : ℕ) → n ≤ 18 → Admits no_options b n
Admits-no_options b n h = record {
  most = 18;
  checked = unfold checked_scale safe_from in refl;
  scale_fits = h;
  sign_allowed = ground arith;
}

-- An accepted decimal keeps to the options: its scale to the limit, its sign to what is allowed.
pub parse_decimal-Admits :
    (raw : Text) (o : DecimalOptions) {p : DecimalParts}
    → parse_decimal raw o ≡ ok p
    → Admits o (is_negative p.coefficient) p.scale
parse_decimal-Admits raw o h =
    let q = parse_decimal-IsParsed raw o h in
    let s =
      is_negative-signed_of_ne q.negative (big_int_from 0 (q.whole ++ q.fraction)) q.normal.sign in
    rw (q.parts, s) q.admits

-- Parsing the normalised text again, under the same options, returns the same parts.
pub parse_decimal_idempotent :
    (raw : Text) (o : DecimalOptions) {p : DecimalParts}
    → parse_decimal raw o ≡ ok p
    → parse_decimal p.normalized o ≡ ok p
parse_decimal_idempotent raw o {p} h =
    let q = parse_decimal-IsParsed raw o h in
    rw q.parts (parse_decimal-normal q.negative q.whole q.fraction o q.normal q.admits)
