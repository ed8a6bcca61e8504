-- ===== src/Platform/Examples.antt =====
-- The theorems on the limits of a process at concrete requests.
use taymex.Prelude.{
  ℕ, ◌+◌, ◌*◌, ◌≤◌, ◌≡◌, ◌≢◌, refl, Text, codes, some, true, [], ◌∷◌, lookup, text_eq, arith,
}
use taymex.Prelude.{◌++◌}
use taymex.Foundation.Errors.{ok, nat, safe_from}
use taymex.Foundation.Decimal.{print, print_from}
use taymex.Platform.SessionCookie.{single, is_secret, create_session_cookie, read_session_cookie}
use taymex.Platform.SessionCookie.RoundTrip.{name_value, create-read_session_cookie}
use taymex.Platform.RateLimiter.{Policy, Bucket, Buckets, consume_valid, bucket_for}
use taymex.Platform.RateLimiter.Bounds.{
  passed, passed_in_window, retry_after_allows, IsBounded, consume_valid-IsBounded,
}

abbrev policy : Policy
policy = record { limit = 2; window_ms = 60000 }

abbrev client : Text
client = codes "client"

abbrev bucket : Bucket
bucket = record { count = 1; reset_at = 60000 }

abbrev buckets : Buckets
buckets = (client, bucket) ∷ []

client-found : lookup buckets client ≡ some bucket
unfolding lookup text_eq
client-found = refl

passed_in_window_example : passed 100 policy buckets client (5 ∷ 6 ∷ 7 ∷ []) ≡ 1
passed_in_window_example =
    passed_in_window 100 policy buckets client bucket (5 ∷ 6 ∷ 7 ∷ []) client-found (ground arith)

abbrev asked : ℕ
asked = 59000

retry_enough :
    asked + 1000 * (consume_valid 100 policy buckets client asked).0.retry_after_seconds ≤ 60000
unfolding consume_valid bucket_for lookup text_eq
retry_enough = omega arith

retry_after_allows_example :
    (consume_valid 100 policy
      (consume_valid 100 policy buckets client asked).1
      client
      60000).0.allowed
    ≡ true
retry_after_allows_example =
    retry_after_allows 100 policy buckets client asked 60000 (omega arith) retry_enough

client-named : client ≢ []
client-named h = cc

buckets-IsBounded : IsBounded 100 policy buckets
buckets-IsBounded = record { size = omega arith; named = (client-named, tt) }

consume_valid-IsBounded_example :
    IsBounded 100 policy (consume_valid 100 policy buckets (codes "other") asked).1
consume_valid-IsBounded_example =
    consume_valid-IsBounded 100 policy buckets (codes "other") asked (omega arith) (λ h. cc)
      buckets-IsBounded

abbrev secret : Text
secret = codes "0123456789abcdef0123456789ABCDEF"

abbrev cookie : Text
cookie =
    codes
      "__Host-taymex_session=0123456789abcdef0123456789ABCDEF; Path=/; Max-Age=60; HttpOnly; Secure; SameSite=Strict"

secret-accepted : create_session_cookie secret (nat 60) ≡ ok cookie
unfolding create_session_cookie is_secret safe_from print print_from
secret-accepted = refl

create-read_session_cookie_example :
    read_session_cookie (single (name_value cookie ++ b';' ∷ codes " theme=dark")) ≡ some secret
create-read_session_cookie_example =
    create-read_session_cookie secret (nat 60) (codes " theme=dark") cookie secret-accepted refl
