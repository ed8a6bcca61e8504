-- ===== src/Notifications/Outbox/Bounds.antt =====
-- The delays between attempts, and the codes that are stored.
use native.Mathlib.Nat.{mul-le-mul_left, one-le-pow, pow-le-pow_right, min-le_left}
use taymex.Prelude.{
  map, trim, codes, ◌≡◌, refl, ℕ, ◌*◌, ◌^◌, ◌≤◌, min, arith, Text, true, Bool-cases, inl, inr,
}
use taymex.Foundation.Errors.{
  Error, provider_error, ok, Number, nat, other, safe_from, Ensures, Ensures-bind, Ensures-ok,
}
use taymex.Notifications.Outbox.{
  ProcessorOptions, ProcessorLimits, processor_limits, retry_delay, bounded_integer,
  is_delivery_code, normalize_error_code, error_code_of, lowered,
}

-- A number within its bounds.
IsWithin : ℕ → ℕ → ℕ → Type 0
IsWithin low high n = (low ≤ n) × (n ≤ high)

bounded_integer-IsWithin :
    (value : Number) (low high : ℕ) {n : ℕ}
    → bounded_integer value low high ≡ ok n
    → IsWithin low high n
unfolding bounded_integer safe_from IsWithin
bounded_integer-IsWithin (nat m) low high h = ground arith
bounded_integer-IsWithin other low high h = cc

-- Limits that the constructor lets pass.
record IsSound (limits : ProcessorLimits) : Type 0 where
  base : 100 ≤ limits.base_retry_delay_ms
  least : limits.base_retry_delay_ms ≤ limits.max_retry_delay_ms
  most : limits.max_retry_delay_ms ≤ 86400000

processor_limits-Ensures : (options : ProcessorOptions) → Ensures IsSound (processor_limits options)
unfolding processor_limits IsWithin
processor_limits-Ensures options = Ensures-bind (bounded_integer _ 1 100) λ batch _.
    Ensures-bind (bounded_integer _ 1000 300000) λ lease _.
      Ensures-bind (bounded_integer _ 1 10) λ attempts _.
        Ensures-bind (bounded_integer _ 100 3600000) λ base hbase.
          Ensures-bind (bounded_integer _ base 86400000) λ most hmost.
            let (least, _) = bounded_integer-IsWithin _ 100 3600000 hbase in
            let (above, under) = bounded_integer-IsWithin _ base 86400000 hmost in
            Ensures-ok (record { base = least; least = above; most = under })

capped_mono : (base most a b : ℕ) → a ≤ b → min most (base * a) ≤ min most (base * b)
capped_mono base most a b h = let k = mul-le-mul_left base h in omega arith

capped_least : (base most a : ℕ) → 1 ≤ a → base ≤ most → base ≤ min most (base * a)
capped_least base most a h k = let l = mul-le-mul_left base h in omega arith

-- The delay before another attempt, under any limits that the constructor lets pass, is at least the
-- base delay of a tenth of a second or more, grows with the attempts, and is never more than the
-- largest delay, which is a day at most.
pub retry_delay-bounds :
    (options : ProcessorOptions) (limits : ProcessorLimits) (m n : ℕ)
    → processor_limits options ≡ ok limits
    → m ≤ n
    → (100 ≤ limits.base_retry_delay_ms)
      × (limits.base_retry_delay_ms ≤ retry_delay limits m)
      × (retry_delay limits m ≤ retry_delay limits n)
      × (retry_delay limits n ≤ limits.max_retry_delay_ms)
      × (limits.max_retry_delay_ms ≤ 86400000)
unfolding retry_delay
retry_delay-bounds options limits m n h le =
    let sound = (processor_limits-Ensures options).at limits h in
    let up : min m 16 ≤ min n 16 = omega arith in
    (
      sound.base,
      capped_least limits.base_retry_delay_ms limits.max_retry_delay_ms (2 ^ min m 16)
          (one-le-pow (min m 16) 2 (omega arith)) sound.least,
      capped_mono limits.base_retry_delay_ms limits.max_retry_delay_ms (2 ^ min m 16) (2 ^ min n 16)
          (pow-le-pow_right (omega arith) up),
      min-le_left limits.max_retry_delay_ms _,
      sound.most,
    )

fallback-accepted : is_delivery_code (codes "provider-error") ≡ true
unfolding is_delivery_code
fallback-accepted = refl

normalize_error_code-accepted :
    (value : Text) → is_delivery_code (normalize_error_code value) ≡ true
unfolding normalize_error_code
normalize_error_code-accepted value =
    elim (Bool-cases (is_delivery_code (map lowered (trim value)))) [
      | inl good ↦ rw good good
      | inr bad ↦ rw bad fallback-accepted
    ]

-- Whatever is thrown, the code that is stored for it is one that the table's constraint on codes
-- takes.
pub error_code_of-accepted : (error : Error) → is_delivery_code (error_code_of error) ≡ true
unfolding error_code_of is_delivery_code
error_code_of-accepted (provider_error code) = normalize_error_code-accepted code
error_code_of-accepted (Error.application e) = refl
error_code_of-accepted Error.authorization_denied = refl
error_code_of-accepted (Error.type_error m) = refl
error_code_of-accepted (Error.range_error m) = refl
error_code_of-accepted (Error.plain_error m) = refl
