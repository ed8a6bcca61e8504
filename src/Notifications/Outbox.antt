-- ===== src/Notifications/Outbox.antt =====
-- packages/notifications/src/outbox.ts: the checks and the limits of the processor.
pub mod Bounds
use taymex.Prelude.{
  ℕ, ◌+◌, ◌*◌, ◌^◌, min, Text, codes, Option, none, some, Bool, true, false, ◌&&◌, ◌||◌, not, List,
  [], ◌∷◌, ◌++◌, map, all, ltb, leb, ◌==◌, length, replicate, trim, text_eq, if◌then◌else◌,
}
use taymex.Foundation.Errors.{
  type_error, range_error, provider_error, Error, Result, ok, err, ◌>>=◌, Number, nat, safe_from,
  Date, at, invalid,
}
use taymex.Foundation.Validation.{matches, to_lower}

abbrev hex : ℕ → Bool
hex c = (leb b'0' c && leb c b'9') || (leb b'a' c && leb c b'f')

abbrev dash : ℕ → Bool
dash c = c == b'-'

-- The version of the id is from 1 to 5 here.
abbrev uuid_pattern : List (ℕ → Bool)
uuid_pattern =
    replicate 8 hex
    ++ (dash ∷ replicate 4 hex)
    ++ (dash ∷ (λ c. leb b'1' c && leb c b'5') ∷ replicate 3 hex)
    ++ (dash ∷ (λ c. c == b'8' || c == b'9' || c == b'a' || c == b'b') ∷ replicate 3 hex)
    ++ (dash ∷ replicate 12 hex)

unfoldable pub require_uuid : Text → Result Text
require_uuid value =
    let normalized = map to_lower (trim value) in
    if matches uuid_pattern normalized
    then ok normalized
    else err (type_error "The id must be a UUID.")

abbrev letter : ℕ → Bool
letter c = (leb b'A' c && leb c b'Z') || (leb b'a' c && leb c b'z')

abbrev alphanumeric : ℕ → Bool
alphanumeric c = letter c || (leb b'0' c && leb c b'9')

-- `(?:-[A-Za-z0-9]{2,8})*`, where `n` units of the part have been read
unfoldable pub is_locale_tail : ℕ → Text → Bool
is_locale_tail n [] = leb 2 n && leb n 8
is_locale_tail n (c ∷ s) =
    let next = is_locale_tail 0 s in
    let more = is_locale_tail (n + 1) s in
    if dash c then leb 2 n && leb n 8 && next else alphanumeric c && more

-- `[A-Za-z]{2,3}` and the parts behind it
unfoldable pub is_locale : ℕ → Text → Bool
is_locale n [] = leb 2 n && leb n 3
is_locale n (c ∷ s) =
    let next = is_locale_tail 0 s in
    let more = is_locale (n + 1) s in
    if dash c then leb 2 n && leb n 3 && next else letter c && more

unfoldable pub require_locale : Text → Result Text
require_locale value =
    if is_locale 0 (trim value)
    then ok (trim value)
    else err (type_error "Notification locale is invalid.")

-- `toLowerCase`, on the units that become an ASCII letter: the Kelvin sign is one of them.
abbrev pub lowered : ℕ → ℕ
lowered c = if c == 8490 then b'k' else to_lower c

abbrev lower : ℕ → Bool
lower c = leb b'a' c && leb c b'z'

abbrev code_tail : ℕ → Bool
code_tail c = lower c || (leb b'0' c && leb c b'9') || dash c

-- the pattern of an error code
unfoldable pub is_delivery_code : Text → Bool
is_delivery_code [] = false
is_delivery_code (c ∷ s) = lower c && all code_tail s && leb (length s) 63

unfoldable pub normalize_error_code : Text → Text
normalize_error_code value =
    let normalized = map lowered (trim value) in
    if is_delivery_code normalized then normalized else codes "provider-error"

-- `error instanceof NotificationProviderError ? … : …`
unfoldable pub error_code_of : Error → Text
error_code_of (provider_error code) = normalize_error_code code
error_code_of _ = codes "provider-error"

unfoldable pub bounded_integer : Number → ℕ → ℕ → Result ℕ
bounded_integer value minimum maximum = elim (safe_from minimum value) [
  | none ↦ err (range_error "The value is out of bounds.")
  | some n ↦ if leb n maximum then ok n else err (range_error "The value is out of bounds.")
]

-- NotificationOutboxProcessorOptions
pub record ProcessorOptions : Type 0 where
  pub batch_size : Option Number
  pub lease_duration_ms : Option Number
  pub max_attempts : Option Number
  pub base_retry_delay_ms : Option Number
  pub max_retry_delay_ms : Option Number

pub record ProcessorLimits : Type 0 where
  pub batch_size : ℕ
  pub lease_duration_ms : ℕ
  pub max_attempts : ℕ
  pub base_retry_delay_ms : ℕ
  pub max_retry_delay_ms : ℕ

-- `given ?? value`
abbrev or_else : Option Number → ℕ → Number
or_else none value = nat value
or_else (some given) value = given

-- the constructor
unfoldable pub processor_limits : ProcessorOptions → Result ProcessorLimits
processor_limits options = do
  batch ← bounded_integer (or_else options.batch_size 25) 1 100
  lease ← bounded_integer (or_else options.lease_duration_ms 30000) 1000 300000
  attempts ← bounded_integer (or_else options.max_attempts 5) 1 10
  base ← bounded_integer (or_else options.base_retry_delay_ms 5000) 100 3600000
  most ← bounded_integer (or_else options.max_retry_delay_ms 300000) base 86400000
  ok (record {
    batch_size = batch;
    lease_duration_ms = lease;
    max_attempts = attempts;
    base_retry_delay_ms = base;
    max_retry_delay_ms = most;
  })

unfoldable pub retry_delay : ProcessorLimits → ℕ → ℕ
retry_delay limits attempt_count =
    min limits.max_retry_delay_ms (limits.base_retry_delay_ms * 2 ^ min attempt_count 16)
