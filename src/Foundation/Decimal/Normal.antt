-- ===== src/Foundation/Decimal/Normal.antt =====
-- The normal form of a decimal text: how it is split, trimmed and formatted.
use mathlib.Core.List.{append-nil}
use taymex.Prelude.{
  ℕ, zero, suc, ◌+◌, ◌-◌, ◌≡◌, ◌≢◌, refl, ap, ◌∙◌, Text, Bool, true, false, not, ◌&&◌, List, [],
  ◌∷◌, ◌++◌, ◌==◌, length, all, if◌then◌else◌, arith, Bool-cases, inl, inr, length-append,
  take-append, drop-append, All, All-append, is_space, trim, pos, signed, is_negative,
}
use taymex.Foundation.Validation.Trim.{trim_of_no_space}
use taymex.Foundation.Decimal.{
  DecimalParts, digit, digits, starts_with_minus, unsigned, split_on, strip_zeros, or_zero,
  big_int_from, point, minus, drop_minus_zero, with_value, decimal_of, print, pad_start,
  format_digits,
}
use taymex.Foundation.Decimal.Digits.{
  IsCanonical, all-append, big_int_from-strip_zeros, print-canonical, IsCanonical-strip_zeros,
  all-strip_zeros, pad_start_none, pad_start-print,
}

-- A whole part with no leading zero, a fraction, and a sign on a value that is not zero.
pub record IsNormal (negative : Bool) (whole fraction : Text) : Type 0 where
  pub canonical : IsCanonical whole
  pub whole_digits : all digit whole ≡ true
  pub fraction_digits : all digit fraction ≡ true
  pub sign : negative ≡ true → big_int_from 0 (whole ++ fraction) ≢ 0

or_zero-canonical : (s : Text) → IsCanonical s → or_zero s ≡ s
or_zero-canonical [] h = elim h [ ]
or_zero-canonical (c ∷ s) h = refl

big_int_from-zeros : (s : Text) → all (λ d. d == b'0') s ≡ true → big_int_from 0 s ≡ 0
unfolding big_int_from
big_int_from-zeros [] h = refl
big_int_from-zeros (c ∷ s) h =
    ap (λ n. big_int_from n s) (ground arith) ∙ big_int_from-zeros s (ground arith)

-- A value that is not zero never reads `-0`.
drop_minus_zero-normal :
    (b : Bool) (w f : Text)
    → IsNormal b w f
    → drop_minus_zero (minus b (w ++ point f)) ≡ minus b (w ++ point f)
unfolding drop_minus_zero
drop_minus_zero-normal b [] f h = absurd h.canonical
drop_minus_zero-normal false (c ∷ []) [] h = refl
drop_minus_zero-normal false (c ∷ []) (d ∷ f) h = ground (arith, h.whole_digits)
drop_minus_zero-normal false (c ∷ d ∷ w) f h = ground (arith, h.whole_digits)
drop_minus_zero-normal true (c ∷ []) [] h = ground (arith, h.sign refl, big_int_from-zeros (c ∷ []))
drop_minus_zero-normal true (c ∷ []) (d ∷ f) h =
    ground (arith, h.sign refl, big_int_from-zeros (c ∷ d ∷ f))
drop_minus_zero-normal true (c ∷ d ∷ w) f h = ground (arith, h.canonical)

abbrev pub normal_parts : Bool → Text → Text → DecimalParts
normal_parts negative whole fraction = record {
  coefficient = signed negative (big_int_from 0 (whole ++ fraction));
  scale = length fraction;
  normalized = minus negative (whole ++ point fraction);
}

all_of_digits : (s : Text) → digits s ≡ true → all digit s ≡ true
all_of_digits [] h = cc
all_of_digits (c ∷ s) h = h

pub digits_of_canonical : (s : Text) → IsCanonical s → all digit s ≡ true → digits s ≡ true
digits_of_canonical [] h k = absurd h
digits_of_canonical (c ∷ s) h k = k

digits-append : (s t : Text) → digits s ≡ true → all digit t ≡ true → digits (s ++ t) ≡ true
digits-append [] t h k = cc
digits-append (c ∷ s) t h k = ground (arith, all-append s t)

-- The sign that is kept: a zero has none.
abbrev pub kept_sign : Bool → Text → Bool
kept_sign b s = b && not (big_int_from 0 s == 0)

-- The value of the digits, with the zeros in front of the whole part stripped.
stripped_value :
    (w f : Text)
    → digits w ≡ true
    → all digit f ≡ true
    → big_int_from 0 (or_zero (strip_zeros (strip_zeros w ++ f)))
      ≡ big_int_from 0 (strip_zeros w ++ f)
stripped_value w f h k =
    let c = IsCanonical-strip_zeros w h in
    let d = digits_of_canonical (strip_zeros w) c (all-strip_zeros w (all_of_digits w h)) in
    ap (big_int_from 0) (
      or_zero-canonical _
        (IsCanonical-strip_zeros (strip_zeros w ++ f) (digits-append (strip_zeros w) f d k)))
    ∙ big_int_from-strip_zeros (strip_zeros w ++ f)

pub is_negative-signed_of_ne :
    (b : Bool) (n : ℕ) → (b ≡ true → n ≢ 0) → is_negative (signed b n) ≡ b
is_negative-signed_of_ne true zero h = absurd (h refl refl)
is_negative-signed_of_ne true (suc n) h = refl
is_negative-signed_of_ne false n h = refl

signed-kept :
    (b : Bool) (n : ℕ)
    → (if b && not (n == 0) then signed true n else pos n) ≡ signed (b && not (n == 0)) n
signed-kept true n = elim (Bool-cases (n == 0)) [ inl e ↦ rw e (ground arith) | inr e ↦ rw e ]
signed-kept false n = refl

with_value-normal :
    (b : Bool) (w f : Text)
    → IsNormal (kept_sign b (w ++ f)) w f
    → with_value b (big_int_from 0 (w ++ f)) w f ≡ normal_parts (kept_sign b (w ++ f)) w f
with_value-normal b w f h =
    let n = big_int_from 0 (w ++ f) in
    let s = is_negative-signed_of_ne (kept_sign b (w ++ f)) n h.sign in
    unfold with_value in
    rw (signed-kept b n, s, drop_minus_zero-normal (kept_sign b (w ++ f)) w f h)

module _ (b : Bool) (w f : Text) (h : digits w ≡ true) (k : all digit f ≡ true) where
  pub kept-IsNormal : IsNormal (kept_sign b (strip_zeros w ++ f)) (strip_zeros w) f
  kept-IsNormal = record {
    canonical = IsCanonical-strip_zeros w h;
    whole_digits = all-strip_zeros w (all_of_digits w h);
    fraction_digits = k;
    sign = λ s. ground arith;
  }

  pub decimal_of-digits :
      decimal_of b w f ≡ normal_parts (kept_sign b (strip_zeros w ++ f)) (strip_zeros w) f
  unfolding decimal_of
  decimal_of-digits =
      ap (λ whole. with_value b (big_int_from 0 (or_zero (strip_zeros (whole ++ f)))) whole f)
        (or_zero-canonical (strip_zeros w) (IsCanonical-strip_zeros w h))
      ∙ ap (λ n. with_value b n (strip_zeros w) f) (stripped_value w f h k)
      ∙ with_value-normal b (strip_zeros w) f kept-IsNormal

-- What is padded to the fraction and one digit is the text itself.
pad_start-normal :
    (b : Bool) (w f : Text)
    → IsNormal b w f
    → pad_start (length f + 1) (print (big_int_from 0 (w ++ f))) ≡ w ++ f
pad_start-normal b [] f h = absurd h.canonical
pad_start-normal b (c ∷ []) f h =
    let e : length f + 1 ≡ length (c ∷ f) = omega arith in
    rw e (pad_start-print (c ∷ f) (ground (arith, h.whole_digits, h.fraction_digits)))
pad_start-normal b (c ∷ d ∷ w) f h =
    let a : all digit (c ∷ d ∷ w ++ f) ≡ true =
      ground (arith, all-append w f, h.whole_digits, h.fraction_digits) in
    rw (print-canonical (c ∷ d ∷ w ++ f) h.canonical a)
      (pad_start_none _ (c ∷ d ∷ w ++ f) (omega (arith, length-append w f)))

-- Formatting the value prints the text.
pub format-normal :
    (b : Bool) (w f : Text)
    → IsNormal b w f
    → format_digits b (length f) (pad_start (length f + 1) (print (big_int_from 0 (w ++ f))))
      ≡ minus b (w ++ point f)
unfolding format_digits
format-normal b w f h =
    let e : length (w ++ f) - length f ≡ length w = omega (arith, length-append w f) in
    rw (pad_start-normal b w f h, e, take-append, drop-append)

split_on-digits : (s : Text) → all digit s ≡ true → split_on b'.' s ≡ s ∷ []
unfolding split_on
split_on-digits [] h = refl
split_on-digits (c ∷ s) h = rw (split_on-digits s (ground arith)) (ground arith)

split_on-point :
    (w f : Text)
    → all digit w ≡ true
    → all digit f ≡ true
    → split_on b'.' (w ++ b'.' ∷ f) ≡ w ∷ f ∷ []
unfolding split_on
split_on-point [] f h k = rw (split_on-digits f k)
split_on-point (c ∷ w) f h k = rw (split_on-point w f (ground arith) k) (ground arith)

-- A decimal has no white space.
not_space_of_digit : (c : ℕ) → digit c ≡ true → is_space c ≡ false
unfolding is_space
not_space_of_digit c h = ground arith

All-digits : (s : Text) → all digit s ≡ true → All (λ c. is_space c ≡ false) s
All-digits [] h = tt
All-digits (c ∷ s) h = (not_space_of_digit c (ground arith), All-digits s (ground arith))

All-point :
    (w f : Text)
    → all digit w ≡ true
    → all digit f ≡ true
    → All (λ c. is_space c ≡ false) (w ++ point f)
All-point w [] h k = All-append _ w [] (All-digits w h) tt
All-point w (c ∷ f) h k =
    All-append _ w (point (c ∷ f)) (All-digits w h) (unfold is_space in refl, All-digits (c ∷ f) k)

All-minus :
    (b : Bool) (s : Text)
    → All (λ c. is_space c ≡ false) s
    → All (λ c. is_space c ≡ false) (minus b s)
All-minus true s h = (unfold is_space in refl, h)
All-minus false s h = h

pub trim-normal :
    (b : Bool) (w f : Text)
    → IsNormal b w f
    → trim (minus b (w ++ point f)) ≡ minus b (w ++ point f)
trim-normal b w f h =
    trim_of_no_space _ (All-minus b _ (All-point w f h.whole_digits h.fraction_digits))

-- The parts that a normal text is split into.
abbrev pub parts_of : Text → Text → List Text
parts_of w [] = w ∷ []
parts_of w (c ∷ f) = w ∷ (c ∷ f) ∷ []

pub split_on-normal :
    (w f : Text)
    → all digit w ≡ true
    → all digit f ≡ true
    → split_on b'.' (w ++ point f) ≡ parts_of w f
split_on-normal w [] h k = rw (append-nil w) (split_on-digits w h)
split_on-normal w (c ∷ f) h k = split_on-point w (c ∷ f) h k

pub starts_with_minus-normal :
    (b : Bool) (w f : Text) → IsNormal b w f → starts_with_minus (minus b (w ++ point f)) ≡ b
starts_with_minus-normal true w f h = refl
starts_with_minus-normal false [] f h = absurd h.canonical
starts_with_minus-normal false (c ∷ w) f h = ground (arith, h.whole_digits)

pub unsigned-normal :
    (b : Bool) (w f : Text) → IsNormal b w f → unsigned (minus b (w ++ point f)) ≡ w ++ point f
unfolding unsigned
unsigned-normal true w f h = refl
unsigned-normal false w f h = rw (starts_with_minus-normal false w f h)
