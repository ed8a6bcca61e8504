-- ===== src/Identity/Authentication.antt =====
-- packages/identity/src/authentication.ts: what `IdentityService` is built from, its policy, its
-- errors and its private methods. The clock is read once in each method: the time is an argument.
-- The ids, the tokens, the throttle, the sinks and the check of a permission are parameters.
pub mod Accounts
pub mod Atomic
pub mod Passwords
pub mod Sessions
pub mod SignIn
use taymex.Prelude.{
  ℕ, ◌+◌, Text, Option, none, some, Bool, true, false, ◌||◌, List, [], ◌∷◌, leb, if◌then◌else◌,
}
use taymex.Foundation.Errors.{
  Category, type_error, Error, Result, ok, err, Number, nat, safe_from, Date, at, invalid,
}
use taymex.Foundation.Validation.{require_uuid}
use taymex.Effects.{Exec, Query, ◌>>=◌, ◌>>◌, pure, raise, lift, query}
use taymex.Identity.Account.{Account, identity_failure}
use taymex.Identity.Session.{Assurance, is_some, max_time}
use taymex.Identity.Actor.{ActorContext, create_actor_context}
use taymex.Identity.Contracts.{
  IdentityRepository, IdentityChallenge, IdentityChallengeKind, IdentitySecurityEvent,
  SecretDelivery,
}
use taymex.Identity.Password.{PasswordHasher, PasswordPolicy}
use taymex.Identity.Roles.Service.{ResolvedAccountAccess}

pub record IdentityPolicy : Type 0 where
  pub session_ttl_ms : Number
  pub password_reset_ttl_ms : Number
  pub email_verification_ttl_ms : Number
  pub require_verified_email_for_sign_in : Bool
  pub password_policy : PasswordPolicy

-- what SecretTokenService.issue returns
pub record IssuedToken : Type 0 where
  pub secret : Text
  pub hash : Text

-- The fields of the service; `fold` is what `normalizeEmail` lowers an address with.
pub record IdentityService (S : Type 0) : Type 0 where
  pub repository : IdentityRepository S
  pub resolve_access : Text → Query S ResolvedAccountAccess
  pub password_hasher : PasswordHasher S
  pub issue_token : Exec S IssuedToken
  pub token_hash : Text → Text
  pub is_blocked : Text → ℕ → Exec S Bool
  pub record_failure : Text → ℕ → Exec S (Unit {0})
  pub record_success : Text → Exec S (Unit {0})
  pub emit : IdentitySecurityEvent → Exec S (Unit {0})
  pub deliver : SecretDelivery → Exec S (Unit {0})
  pub next_id : Exec S Text
  pub fold : Text → Text
  pub has_permission : ActorContext → Text → Bool
  pub policy : IdentityPolicy

-- validatePolicy, on the three times to live
unfoldable pub validate_ttls : List Number → Result (Unit {0})
validate_ttls [] = ok tt
validate_ttls (ttl ∷ ttls) = elim (safe_from 60000 ttl) [
  | none ↦ err (type_error "Identity TTL values must be at least one minute.")
  | some n ↦ validate_ttls ttls
]

unfoldable pub validate_policy : IdentityPolicy → Result (Unit {0})
validate_policy policy =
    validate_ttls
      (policy.session_ttl_ms ∷ policy.password_reset_ttl_ms ∷ policy.email_verification_ttl_ms ∷ [])

unfoldable pub authentication_failed_error : Error
authentication_failed_error =
    identity_failure "IDENTITY_AUTHENTICATION_FAILED" Category.authentication
      "errors.identity.authenticationFailed"

unfoldable pub session_invalid_error : Error
session_invalid_error =
    identity_failure "IDENTITY_SESSION_INVALID" Category.authentication
      "errors.identity.sessionInvalid"

unfoldable pub account_not_found : Error
account_not_found =
    identity_failure "IDENTITY_ACCOUNT_NOT_FOUND" Category.not_found
      "errors.identity.accountNotFound"

unfoldable pub challenge_invalid_error : Error
challenge_invalid_error =
    identity_failure "IDENTITY_CHALLENGE_INVALID" Category.authentication
      "errors.identity.challengeInvalid"

-- `if (!found) throw …`
abbrev pub found_or {ℓ} : {A : Type ℓ} → Error → Option A → Result A
found_or thrown none = err thrown
found_or thrown (some a) = ok a

-- `try { … } catch { throw … }`
abbrev pub rethrow : Error → Result (Unit {0}) → Result (Unit {0})
rethrow thrown (ok a) = ok a
rethrow thrown (err e) = err thrown

-- `new Date(time)`
abbrev pub date_of : ℕ → Date
date_of time = if leb time max_time then at time else invalid

-- `expiresAt.getTime() <= now`, which an invalid date never is
abbrev pub is_past : Date → ℕ → Bool
is_past (at time) now = leb time now
is_past invalid now = false

-- `now.getTime() + ttlMs`, where the policy has been checked
abbrev pub expiry_after : ℕ → Number → Date
expiry_after now (nat ttl) = date_of (now + ttl)
expiry_after now Number.other = invalid

abbrev pub new_challenge :
    Text → IdentityChallengeKind → Text → Text → ℕ → Number → IdentityChallenge
new_challenge id kind account_id token_hash now ttl_ms = record {
  id = id;
  kind = kind;
  account_id = account_id;
  token_hash = token_hash;
  created_at = now;
  expires_at = expiry_after now ttl_ms;
  consumed_at = none;
  version = 1;
}

module _ {S : Type 0} (service : IdentityService S) where
  unfoldable pub actor_for : Account → Text → Assurance → ℕ → Exec S ActorContext
  actor_for account session_id assurance now = do
    access ← query (service.resolve_access account.id)
    pure (
        create_actor_context account.id session_id access.role_ids access.permissions assurance now)

  unfoldable pub create_challenge :
      IdentityChallengeKind → Text → Number → ℕ → Exec S (IdentityChallenge × Text)
  create_challenge kind given_account_id ttl_ms now = do
    issued ← service.issue_token
    given_id ← service.next_id
    id ← lift (require_uuid given_id "challengeId")
    account_id ← lift (require_uuid given_account_id "accountId")
    let challenge = new_challenge id kind account_id issued.hash now ttl_ms
    service.repository.create_challenge challenge
    pure (challenge, issued.secret)

  abbrev pub active_challenge : ℕ → Option IdentityChallenge → Result IdentityChallenge
  active_challenge now none = err challenge_invalid_error
  active_challenge now (some challenge) =
      if is_some challenge.consumed_at || is_past challenge.expires_at now
      then err challenge_invalid_error
      else ok challenge

  abbrev pub looked_up : ℕ → Result (Option IdentityChallenge) → Result IdentityChallenge
  looked_up now (err e) = err e
  looked_up now (ok found) = active_challenge now found

  unfoldable pub require_active_challenge :
      IdentityChallengeKind → Text → ℕ → Query S IdentityChallenge
  require_active_challenge kind secret now s =
      looked_up now
        (service.repository.find_challenge_by_token_hash kind (service.token_hash secret) s)
