-- ===== src/Foundation/Money/Rounding.antt =====
-- The four rounding modes against their definitions.
use taymex.Prelude.{ℕ, ◌+◌, ◌*◌, ◌/◌, ◌%◌, ◌≤◌, ◌<◌, ◌≡◌, ◌⊎◌, Bool, if◌then◌else◌, arith}
use mathlib.Core.Path.{subst}
use native.Mathlib.Nat.{mod-lt, div-add-mod'}
use taymex.Foundation.Money.{RoundingMode, half_up, half_even, down, up, increments, round_quotient}

-- What each mode promises of the rounded value: the nearest multiple below, above, or nearest,
-- and which of two nearest ones.
abbrev pub IsRounded : RoundingMode → ℕ → ℕ → ℕ → Type 0
IsRounded down value divisor q = (q * divisor ≤ value) × (value < q * divisor + divisor)
IsRounded up value divisor q = (value ≤ q * divisor) × (q * divisor < value + divisor)
IsRounded half_up value divisor q =
    (q * divisor * 2 ≤ value * 2 + divisor) × (value * 2 < q * divisor * 2 + divisor)
IsRounded half_even value divisor q =
    (q * divisor * 2 ≤ value * 2 + divisor)
    × (value * 2 ≤ q * divisor * 2 + divisor)
    × ((q * divisor * 2 ≡ value * 2 + divisor) ⊎ (value * 2 ≡ q * divisor * 2 + divisor)
        → q % 2 ≡ 0)

-- The value as a quotient and a remainder, one step from the rounded one or none.
abbrev stepped : Bool → ℕ → ℕ
stepped step q = if step then q + 1 else q

module _ (q r d : ℕ) (h : r < d) where
  product : (q + 1) * d ≡ q * d + d
  product = grind arith

  down-IsRounded : IsRounded down (q * d + r) d q
  down-IsRounded = omega arith

  up-IsRounded : IsRounded up (q * d + r) d (stepped (increments up q r d) q)
  unfolding increments
  up-IsRounded = ground (arith, product)

  half_up-IsRounded : IsRounded half_up (q * d + r) d (stepped (increments half_up q r d) q)
  unfolding increments
  half_up-IsRounded = ground (arith, product)

  half_even-within :
      let n = stepped (increments half_even q r d) q in
      (n * d * 2 ≤ (q * d + r) * 2 + d) × ((q * d + r) * 2 ≤ n * d * 2 + d)
  unfolding increments
  half_even-within = ground (arith, product)

  half_even-tie :
      let n = stepped (increments half_even q r d) q in
      (n * d * 2 ≡ (q * d + r) * 2 + d) ⊎ ((q * d + r) * 2 ≡ n * d * 2 + d) → n % 2 ≡ 0
  unfolding increments
  half_even-tie t = ground (arith, product)

by_mode :
    (mode : RoundingMode) (q r d : ℕ)
    → r < d
    → IsRounded mode (q * d + r) d (stepped (increments mode q r d) q)
by_mode down q r d h = unfold increments in ground (arith, down-IsRounded q r d h)
by_mode up q r d h = up-IsRounded q r d h
by_mode half_up q r d h = half_up-IsRounded q r d h
by_mode half_even q r d h = let (a, b) = half_even-within q r d h in (a, b, half_even-tie q r d h)

-- Every mode rounds to the multiple that it names, for every positive divisor.
pub round_quotient-IsRounded :
    (mode : RoundingMode) (value divisor : ℕ)
    → 0 < divisor
    → IsRounded mode value divisor (round_quotient mode value divisor)
unfolding round_quotient
round_quotient-IsRounded mode value divisor h =
    let q = value / divisor in
    let r = value % divisor in
    let small : r < divisor = mod-lt value h in
    subst (λ v. IsRounded mode v divisor (stepped (increments mode q r divisor) q))
      (div-add-mod' value divisor) (by_mode mode q r divisor small)
