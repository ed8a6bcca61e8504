-- ===== src/Foundation/Decimal/Digits.antt =====
-- Printing and reading digits are inverse to each other.
use taymex.Prelude.{
  ℕ, zero, suc, ◌+◌, ◌-◌, ◌*◌, ◌/◌, ◌%◌, ◌≤◌, ◌<◌, ◌≡◌, ◌≢◌, refl, sym, ap, ◌∙◌, Text, true, ◌&&◌,
  [], ◌∷◌, ◌++◌, ◌==◌, length, all, replicate, arith, ◌⊎◌, length-replicate, Bool-cases, inl, inr,
  length-append,
}
use mathlib.Core.Path.{ap₂}
use mathlib.Core.List.{append_assoc, append-nil}
use taymex.Foundation.Decimal.{
  digit, digits, big_int_from, print_from, print, strip_zeros, pad_start,
}

big_int_from-append :
    (n : ℕ) (s t : Text) → big_int_from n (s ++ t) ≡ big_int_from (big_int_from n s) t
unfolding big_int_from
big_int_from-append n [] t = refl
big_int_from-append n (c ∷ s) t = big_int_from-append (n * 10 + (c - b'0')) s t

print_from-small : (f n : ℕ) → n < 10 → print_from (suc f) n ≡ (n + b'0') ∷ []
unfolding print_from
print_from-small f n h = ground arith

print_from-large :
    (f n : ℕ) → 10 ≤ n → print_from (suc f) n ≡ print_from f (n / 10) ++ (n % 10 + b'0') ∷ []
unfolding print_from
print_from-large f n h = ground arith

split_10 : (n : ℕ) → (n < 10) ⊎ (10 ≤ n)
split_10 n = omega arith

-- With enough fuel, what is printed reads as the number.
big_int_from-print_from : (fuel n : ℕ) → n < fuel → big_int_from 0 (print_from fuel n) ≡ n
big_int_from-print_from zero n h = elim h [ ]
big_int_from-print_from (suc fuel) n h = elim (split_10 n) [
  | inl small ↦ rw (print_from-small fuel n small) (unfold big_int_from in omega arith)
  | inr large ↦
      rw
        (
          print_from-large fuel n large,
          big_int_from-append,
          big_int_from-print_from fuel (n / 10) (omega arith),
        )
        (unfold big_int_from in omega arith)
]

pub big_int_from-print : (n : ℕ) → big_int_from 0 (print n) ≡ n
unfolding print
big_int_from-print n = big_int_from-print_from (suc n) n (omega arith)

pub all-append : (s t : Text) → all digit (s ++ t) ≡ (all digit s && all digit t)
all-append [] t = refl
all-append (c ∷ s) t = ground (arith, all-append s t)

all-print_from : (fuel n : ℕ) → all digit (print_from fuel n) ≡ true
all-print_from zero n = unfold print_from in refl
all-print_from (suc fuel) n = elim (split_10 n) [
  | inl small ↦ rw (print_from-small fuel n small) (ground arith)
  | inr large ↦
      rw (print_from-large fuel n large, all-append, all-print_from fuel (n / 10)) (ground arith)
]

pub all-print : (n : ℕ) → all digit (print n) ≡ true
unfolding print
all-print n = all-print_from (suc n) n

-- Fuel beyond the number makes no difference.
print_from-fuel : (f g n : ℕ) → n < f → n < g → print_from f n ≡ print_from g n
print_from-fuel zero g n h k = elim h [ ]
print_from-fuel (suc f) zero n h k = elim k [ ]
print_from-fuel (suc f) (suc g) n h k = elim (split_10 n) [
  | inl small ↦ print_from-small f n small ∙ sym (print_from-small g n small)
  | inr large ↦
      print_from-large f n large
      ∙ ap (λ s. s ++ (n % 10 + b'0') ∷ [])
          (print_from-fuel f g (n / 10) (omega arith) (omega arith))
      ∙ sym (print_from-large g n large)
]

print-step : (v d : ℕ) → 0 < v → d < 10 → print (v * 10 + d) ≡ print v ++ (d + b'0') ∷ []
unfolding print
print-step v d h k =
    let q : (v * 10 + d) / 10 ≡ v = omega arith in
    let r : (v * 10 + d) % 10 ≡ d = omega arith in
    print_from-large (v * 10 + d) (v * 10 + d) (omega arith)
    ∙ ap₂ (λ a b. print_from (v * 10 + d) a ++ (b + b'0') ∷ []) q r
    ∙ ap (λ s. s ++ (d + b'0') ∷ [])
        (print_from-fuel (v * 10 + d) (suc v) v (omega arith) (omega arith))

print-digit : (d : ℕ) → d < 10 → print d ≡ (d + b'0') ∷ []
unfolding print
print-digit d h = print_from-small d d h

-- Reading digits behind a positive number and printing the result appends them.
print-big_int_from :
    (v : ℕ) (s : Text) → 0 < v → all digit s ≡ true → print (big_int_from v s) ≡ print v ++ s
unfolding big_int_from
print-big_int_from v [] h k = sym (append-nil (print v))
print-big_int_from v (c ∷ s) h k =
    let d : c - b'0' < 10 = ground arith in
    let e : c - b'0' + b'0' ≡ c = ground arith in
    print-big_int_from (v * 10 + (c - b'0')) s (omega arith) (ground arith)
    ∙ ap (λ t. t ++ s) (print-step v (c - b'0') h d)
    ∙ append_assoc (print v) ((c - b'0' + b'0') ∷ []) s
    ∙ ap (λ x. print v ++ x ∷ s) e

-- Digits with no leading zero are what is printed for their number.
abbrev pub IsCanonical : Text → Type 0
IsCanonical [] = ⊥
IsCanonical (c ∷ []) = Unit
IsCanonical (c ∷ d ∷ s) = c ≢ b'0'

big_int_from-first : (c : ℕ) (s : Text) → big_int_from 0 (c ∷ s) ≡ big_int_from (c - b'0') s
unfolding big_int_from
big_int_from-first c s = ap (λ n. big_int_from n s) (omega arith)

pub print-canonical : (s : Text) → IsCanonical s → all digit s ≡ true → print (big_int_from 0 s) ≡ s
print-canonical [] h k = elim h [ ]
print-canonical (c ∷ []) h k =
    let e : c - b'0' + b'0' ≡ c = ground arith in
    ap print (big_int_from-first c [])
    ∙ unfold big_int_from in print-digit (c - b'0') (ground arith) ∙ ap (λ x. x ∷ []) e
print-canonical (c ∷ d ∷ s) h k =
    let e : c - b'0' + b'0' ≡ c = ground arith in
    ap print (big_int_from-first c (d ∷ s))
    ∙ print-big_int_from (c - b'0') (d ∷ s) (ground arith) (ground arith)
    ∙ ap (λ t. t ++ d ∷ s) (print-digit (c - b'0') (ground arith))
    ∙ ap (λ x. x ∷ d ∷ s) e

pub strip_zeros-canonical : (s : Text) → IsCanonical s → strip_zeros s ≡ s
unfolding strip_zeros
strip_zeros-canonical [] h = elim h [ ]
strip_zeros-canonical (c ∷ []) h = refl
strip_zeros-canonical (c ∷ d ∷ s) h = ground arith

pub IsCanonical-strip_zeros : (s : Text) → digits s ≡ true → IsCanonical (strip_zeros s)
unfolding strip_zeros
IsCanonical-strip_zeros [] h = cc
IsCanonical-strip_zeros (c ∷ []) h = tt
IsCanonical-strip_zeros (c ∷ d ∷ s) h = elim (Bool-cases (c == b'0' && digit d)) [
  | inl more ↦ rw more (IsCanonical-strip_zeros (d ∷ s) (ground arith))
  | inr done ↦ rw done (ground arith)
]

pub all-strip_zeros : (s : Text) → all digit s ≡ true → all digit (strip_zeros s) ≡ true
unfolding strip_zeros
all-strip_zeros [] h = refl
all-strip_zeros (c ∷ []) h = h
all-strip_zeros (c ∷ d ∷ s) h = ground (arith, all-strip_zeros (d ∷ s))

big_int_from-zero : (c : ℕ) (s : Text) → c ≡ b'0' → big_int_from 0 (c ∷ s) ≡ big_int_from 0 s
unfolding big_int_from
big_int_from-zero c s h = ap (λ n. big_int_from n s) (omega arith)

-- Leading zeros do not count.
pub big_int_from-strip_zeros : (s : Text) → big_int_from 0 (strip_zeros s) ≡ big_int_from 0 s
unfolding strip_zeros
big_int_from-strip_zeros [] = refl
big_int_from-strip_zeros (c ∷ []) = refl
big_int_from-strip_zeros (c ∷ d ∷ s) = elim (Bool-cases (c == b'0' && digit d)) [
  | inl more ↦
      rw more (big_int_from-strip_zeros (d ∷ s) ∙ sym (big_int_from-zero c (d ∷ s) (ground arith)))
  | inr done ↦ rw done
]

pub pad_start_none : (n : ℕ) (s : Text) → n ≤ length s → pad_start n s ≡ s
pad_start_none n s h = let e : n - length s ≡ 0 = omega arith in rw e

pad_start-suc : (n : ℕ) (s : Text) → length s ≤ n → pad_start (suc n) s ≡ b'0' ∷ pad_start n s
pad_start-suc n s h = let e : suc n - length s ≡ suc (n - length s) = omega arith in rw e

-- The padding does not cut.
length-le_of_pad_start : (n : ℕ) (s t : Text) → pad_start n s ≡ t → length t ≡ n → length s ≤ n
length-le_of_pad_start n s t h k = omega (
  arith,
  ap length h,
  length-append (replicate (n - length s) b'0') s,
  length-replicate {A = ℕ} (n - length s) b'0',
)

-- Any digits are their number, printed and padded to their length.
pub pad_start-print :
    (s : Text) → digits s ≡ true → pad_start (length s) (print (big_int_from 0 s)) ≡ s
pad_start-print [] h = cc
pad_start-print (c ∷ []) h =
    rw (print-canonical (c ∷ []) tt (ground arith)) (pad_start_none 1 (c ∷ []) (omega arith))
pad_start-print (c ∷ d ∷ s) h = elim (Bool-cases (c == b'0')) [
  | inl leads ↦
      let ih = pad_start-print (d ∷ s) (ground arith) in
      rw (big_int_from-zero c (d ∷ s) (ground arith)) (
        pad_start-suc (length (d ∷ s)) _ (length-le_of_pad_start _ _ (d ∷ s) ih refl)
        ∙ ap₂ (λ (x : ℕ) (t : Text). x ∷ t) (ground arith) ih)
  | inr other ↦
      rw (print-canonical (c ∷ d ∷ s) (ground arith) (ground arith))
        (pad_start_none (length (c ∷ d ∷ s)) (c ∷ d ∷ s) (omega arith))
]

-- The digits of a positive number do not begin with a zero.
abbrev NonZeroHead : Text → Type 0
NonZeroHead [] = ⊥
NonZeroHead (c ∷ s) = c ≢ b'0'

NonZeroHead-append : (s t : Text) → NonZeroHead s → NonZeroHead (s ++ t)
NonZeroHead-append [] t h = absurd h
NonZeroHead-append (c ∷ s) t h = h

print_from-NonZeroHead : (f n : ℕ) → 0 < n → n < f → NonZeroHead (print_from f n)
print_from-NonZeroHead zero n h k = elim k [ ]
print_from-NonZeroHead (suc f) n h k = elim (split_10 n) [
  | inl small ↦ rw (print_from-small f n small) (omega arith)
  | inr large ↦
      rw (print_from-large f n large)
        (NonZeroHead-append _ _ (print_from-NonZeroHead f (n / 10) (omega arith) (omega arith)))
]

IsCanonical-of_NonZeroHead : (s : Text) → NonZeroHead s → IsCanonical s
IsCanonical-of_NonZeroHead [] h = h
IsCanonical-of_NonZeroHead (c ∷ []) h = tt
IsCanonical-of_NonZeroHead (c ∷ d ∷ s) h = h

pub print-IsCanonical : (n : ℕ) → IsCanonical (print n)
print-IsCanonical zero = rw (print-digit 0 (omega arith)) tt
print-IsCanonical (suc n) =
    unfold print in
    IsCanonical-of_NonZeroHead _
      (print_from-NonZeroHead (suc (suc n)) (suc n) (omega arith) (omega arith))

pub big_int_from-replicate :
    (k : ℕ) (s : Text) → big_int_from 0 (replicate k b'0' ++ s) ≡ big_int_from 0 s
big_int_from-replicate zero s = refl
big_int_from-replicate (suc k) s =
    big_int_from-zero b'0' (replicate k b'0' ++ s) refl ∙ big_int_from-replicate k s

pub all-replicate : (k : ℕ) → all digit (replicate k b'0') ≡ true
all-replicate zero = refl
all-replicate (suc k) = all-replicate k
