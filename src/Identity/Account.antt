-- ===== src/Identity/Account.antt =====
-- packages/identity/src/account.ts, with the error class of errors.ts. The normal form NFKC is the
-- run time's, and so is lowering to lower case beyond it: `fold` stands for
-- `.normalize('NFKC').toLowerCase()`.
pub mod Lifecycle
use taymex.Prelude.{
  ℕ, ◌+◌, String, Text, codes, Option, none, some, Bool, true, false, ◌&&◌, ◌||◌, not, List, [],
  ◌∷◌, ◌==◌, all, any, is_space, text_eq, if◌then◌else◌,
}
use taymex.Foundation.Errors.{
  Category, identity_error, Error, plain_error, application_error, Result, ok, err, ◌>>=◌, ◌>>◌,
  guard, Number, nat, safe_from, Date, at, invalid,
}
use taymex.Foundation.Validation.{issue, require_non_blank, require_uuid}

-- ACCOUNT_STATUSES
pub data AccountStatus : Type 0 where
  active suspended disabled : AccountStatus

pub record Account : Type 0 where
  pub id : Text
  pub email : Text
  pub normalized_email : Text
  pub status : AccountStatus
  pub email_verified_at : Option ℕ
  pub version : ℕ
  pub created_at : ℕ
  pub updated_at : ℕ

-- the constructor of `IdentityError`, without a field
unfoldable pub identity_failure : String → Category → String → Error
identity_failure code category key = application_error (record {
  class = identity_error;
  code = code;
  category = category;
  safe_message_key = key;
  field = none;
})

abbrev plain : ℕ → Bool
plain c = not (is_space c || c == b'@')

-- `[^\s@]+\.[^\s@]+`, from the second unit on: a point with a unit behind it
abbrev pub point_inside : Text → Bool
point_inside [] = false
point_inside (c ∷ []) = false
point_inside (c ∷ d ∷ s) =
    (c == b'.' && plain d && all plain s) || (plain c && point_inside (d ∷ s))

abbrev pub domain : Text → Bool
domain [] = false
domain (c ∷ s) = plain c && point_inside s

-- `[^\s@]+@` and the domain, from the second unit on
abbrev pub at_sign : Text → Bool
at_sign [] = false
at_sign (c ∷ s) = let rest = at_sign s in if c == b'@' then domain s else plain c && rest

-- EMAIL_PATTERN
unfoldable pub is_email : Text → Bool
is_email [] = false
is_email (c ∷ s) = plain c && at_sign s

unfoldable pub valid_date : Date → String → Result ℕ
valid_date (at time) field = ok time
valid_date invalid field = err (issue field "DATE" "errors.validation.date")

abbrev status_names : List (Text × AccountStatus)
status_names =
    (codes "ACTIVE", active) ∷ (codes "SUSPENDED", suspended) ∷ (codes "DISABLED", disabled) ∷ []

abbrev named : Text → List (Text × AccountStatus) → Option AccountStatus
named value [] = none
named value ((name, s) ∷ names) = if text_eq value name then some s else named value names

-- the test of the status against ACCOUNT_STATUSES
unfoldable pub account_status : Text → Result AccountStatus
account_status value = elim (named value status_names) [
  | none ↦ err (issue "status" "ENUM" "errors.validation.choice")
  | some s ↦ ok s
]

unfoldable pub assert_version : Account → Number → Result (Unit {0})
assert_version account expected_version =
    let conflict =
      identity_failure "IDENTITY_ACCOUNT_VERSION_CONFLICT" Category.conflict
        "errors.identity.versionConflict" in
    elim (safe_from 1 expected_version) [
      | none ↦ err conflict
      | some n ↦ guard (account.version == n) conflict
    ]

unfoldable pub normalize_email : (Text → Text) → Text → Result Text
normalize_email fold value = do
  text ← require_non_blank value "email" (nat 254)
  guard (is_email (fold text)) (issue "email" "EMAIL" "errors.validation.email")
  ok (fold text)

abbrev pub or_active : Option Text → Text
or_active none = codes "ACTIVE"
or_active (some s) = s

unfoldable pub create_account : (Text → Text) → Text → Text → Date → Option Text → Result Account
create_account fold given_id given_email given_now given_status = do
  id ← require_uuid given_id "id"
  email ← normalize_email fold given_email
  now ← valid_date given_now "now"
  status ← account_status (or_active given_status)
  ok (record {
    id = id;
    email = email;
    normalized_email = email;
    status = status;
    email_verified_at = none;
    version = 1;
    created_at = now;
    updated_at = now;
  })

abbrev pub same_status : AccountStatus → AccountStatus → Bool
same_status active active = true
same_status suspended suspended = true
same_status disabled disabled = true
same_status _ _ = false

-- the account with another status, unless it has that one
abbrev with_status : Account → AccountStatus → Date → Result Account
with_status account status given_now = if same_status account.status status then ok account else do
  now ← valid_date given_now "now"
  ok (record account { status = status; version = account.version + 1; updated_at = now })

unfoldable pub change_account_status : Account → Number → Text → Date → Result Account
change_account_status account expected_version given_status given_now = do
  assert_version account expected_version
  status ← account_status given_status
  with_status account status given_now

abbrev pub is_some : Option ℕ → Bool
is_some none = false
is_some (some t) = true

abbrev verified : Account → Date → Result Account
verified account given_now = if is_some account.email_verified_at then ok account else do
  now ← valid_date given_now "now"
  ok (record account {
    email_verified_at = some now;
    version = account.version + 1;
    updated_at = now;
  })

unfoldable pub mark_email_verified : Account → Number → Date → Result Account
mark_email_verified account expected_version given_now = do
  assert_version account expected_version
  verified account given_now

unfoldable pub assert_account_can_authenticate : Account → Bool → Result (Unit {0})
assert_account_can_authenticate account require_verified_email = do
  guard (same_status account.status active) (plain_error "ACCOUNT_UNAVAILABLE")
  guard (not require_verified_email || is_some account.email_verified_at)
      (plain_error "EMAIL_UNVERIFIED")
