-- ===== src/Platform/RateLimiter.antt =====
-- apps/api/src/platform/process-rate-limiter.ts. Times are milliseconds since 1970.
pub mod Bounds
use taymex.Prelude.{
  ℕ, ◌+◌, ◌-◌, ◌/◌, max, Text, Option, none, some, Bool, true, false, not, List, [], ◌∷◌, length,
  filter, ltb, leb, Map, lookup, put, if◌then◌else◌,
}
use taymex.Foundation.Errors.{range_error, Result, ok, err, Number, safe_from}

pub record RateLimitPolicy : Type 0 where
  pub limit : Number
  pub window_ms : Number

-- a policy that `validatePolicy` has accepted
pub record Policy : Type 0 where
  pub limit : ℕ
  pub window_ms : ℕ

pub record Bucket : Type 0 where
  pub count : ℕ
  pub reset_at : ℕ

abbrev pub Buckets : Type 0
Buckets = Map Bucket

pub record Decision : Type 0 where
  pub allowed : Bool
  pub retry_after_seconds : ℕ

abbrev at_most : ℕ → Option ℕ → Option ℕ
at_most high none = none
at_most high (some n) = if leb n high then some n else none

abbrev policy_of : Option ℕ → Option ℕ → Result Policy
policy_of none _ = err (range_error "Invalid rate-limit count.")
policy_of (some l) none = err (range_error "Invalid rate-limit window.")
policy_of (some l) (some w) = ok (record { limit = l; window_ms = w })

unfoldable pub validate_policy : RateLimitPolicy → Result Policy
validate_policy policy =
    policy_of (at_most 10000 (safe_from 1 policy.limit))
      (at_most 3600000 (safe_from 1000 policy.window_ms))

-- the constructor: the capacity, if it is one
unfoldable pub checked_capacity : Number → Result ℕ
checked_capacity max_keys = elim (at_most 100000 (safe_from 100 max_keys)) [
  | none ↦ err (range_error "Invalid rate-limit key capacity.")
  | some n ↦ ok n
]

abbrev pub is_live : ℕ → Text × Bucket → Bool
is_live now entry = ltb now entry.1.reset_at

-- `if (oldest) this.buckets.delete(oldest)`, where an empty key is no key
abbrev pub drop_oldest : Buckets → Buckets
drop_oldest [] = []
drop_oldest (([], bucket) ∷ m) = ([], bucket) ∷ m
drop_oldest ((c ∷ key, bucket) ∷ m) = m

unfoldable pub evict_expired_or_oldest : ℕ → Buckets → ℕ → Buckets
evict_expired_or_oldest max_keys buckets now =
    let live = filter (is_live now) buckets in
    if ltb (length live) max_keys then live else drop_oldest live

-- the map with room for a new key
unfoldable pub with_room : ℕ → Buckets → ℕ → Buckets
with_room max_keys buckets now =
    if leb max_keys (length buckets) then evict_expired_or_oldest max_keys buckets now else buckets

-- the bucket that is counted in, in the map that it is set in
unfoldable pub bucket_for : ℕ → Policy → Buckets → Option Bucket → ℕ → Bucket × Buckets
bucket_for max_keys policy buckets none now =
    (record { count = 0; reset_at = now + policy.window_ms }, with_room max_keys buckets now)
bucket_for max_keys policy buckets (some bucket) now =
    if leb bucket.reset_at now
    then (record { count = 0; reset_at = now + policy.window_ms }, buckets)
    else (bucket, buckets)

abbrev pub counted : Bucket → Bucket
counted bucket = record bucket { count = bucket.count + 1 }

-- Math.max(1, Math.ceil((resetAt - timestamp) / 1000))
abbrev pub retry_after : ℕ → ℕ → ℕ
retry_after reset_at now = max 1 ((reset_at - now + 999) / 1000)

-- `consume` behind the check of the policy
unfoldable pub consume_valid : ℕ → Policy → Buckets → Text → ℕ → Decision × Buckets
consume_valid max_keys policy buckets key now =
    let chosen = bucket_for max_keys policy buckets (lookup buckets key) now in
    let bucket = counted chosen.0 in
    (
      record {
        allowed = leb bucket.count policy.limit;
        retry_after_seconds = retry_after bucket.reset_at now;
      },
      put chosen.1 key bucket,
    )

abbrev consume_checked : ℕ → Result Policy → Buckets → Text → ℕ → Result Decision × Buckets
consume_checked max_keys (err e) buckets key now = (err e, buckets)
consume_checked max_keys (ok policy) buckets key now =
    let (decision, after) = consume_valid max_keys policy buckets key now in (ok decision, after)

unfoldable pub consume : ℕ → Buckets → Text → RateLimitPolicy → ℕ → Result Decision × Buckets
consume max_keys buckets key policy now =
    consume_checked max_keys (validate_policy policy) buckets key now
