-- ===== src/Identity/Authentication/Passwords.antt =====
-- packages/identity/src/authentication.ts: the methods on passwords.
pub mod Laws
pub mod Reset
use taymex.Prelude.{ℕ, ◌+◌, Text, Option, none, some, Bool, true, false, if◌then◌else◌}
use taymex.Foundation.Errors.{Category, identity_error, Error, application_error, Result, ok, err}
use taymex.Effects.{Exec, Query, ◌>>=◌, ◌>>◌, pure, raise, lift, query, atomic}
use taymex.Identity.Account.{Account, AccountStatus, active, same_status, normalize_email}
use taymex.Identity.Actor.{ActorContext}
use taymex.Identity.Contracts.{
  PasswordCredential, IdentityChallenge, IdentityChallengeKind, IdentitySecurityReason,
  SecretDeliveryPurpose, ConsumeResult, consumed, unavailable, bare_event, IdentityEventId,
  password_reset_requested, password_reset_completed, session_revoked_all,
}
use taymex.Identity.Password.{assert_password_policy}
use taymex.Identity.Authentication.{
  IdentityService, challenge_invalid_error, found_or, create_challenge, require_active_challenge,
}

abbrev pub current_password_invalid : Error
current_password_invalid = application_error (record {
  class = identity_error;
  code = "IDENTITY_CURRENT_PASSWORD_INVALID";
  category = Category.authentication;
  safe_message_key = "errors.identity.currentPasswordInvalid";
  field = some "currentPassword";
})

abbrev next_credential : PasswordCredential → Text → ℕ → PasswordCredential
next_credential credential password_hash now = record {
  account_id = credential.account_id;
  password_hash = password_hash;
  changed_at = now;
  version = credential.version + 1;
}

abbrev pub is_consumed : ConsumeResult → Result (Unit {0})
is_consumed consumed = ok tt
is_consumed unavailable = err challenge_invalid_error

module _ {S : Type 0} (service : IdentityService S) where
  -- `!credential || !verify(…)`
  abbrev pub verified_credential : Text → Option PasswordCredential → Query S PasswordCredential
  verified_credential password none s = err current_password_invalid
  verified_credential password (some credential) s =
      elim (service.password_hasher.verify password credential.password_hash s) [
        | err e ↦ err e
        | ok valid ↦ if valid then ok credential else err current_password_invalid
      ]

  -- what changePassword does in its transaction
  abbrev pub store_changed :
      ActorContext → PasswordCredential → Text → Option Text → ℕ → Exec S (Unit {0})
  store_changed actor credential password_hash correlation_id now = do
    service.repository.replace_password_credential (next_credential credential password_hash now)
    count ← service.repository.revoke_all_sessions_for_account actor.account_id now
    service.emit (record (bare_event IdentityEventId.password_changed now correlation_id) {
      actor_account_id = some actor.account_id;
      subject_account_id = some actor.account_id;
      reason = some IdentitySecurityReason.password_changed;
    })
    service.emit (record (bare_event session_revoked_all now correlation_id) {
      subject_account_id = some actor.account_id;
      reason = some IdentitySecurityReason.password_changed;
    })

  unfoldable pub change_password : ActorContext → Text → Text → Option Text → ℕ → Exec S (Unit {0})
  change_password actor current_password new_password correlation_id now = do
    found ← query (service.repository.find_password_credential actor.account_id)
    credential ← query (verified_credential current_password found)
    password ← lift (assert_password_policy new_password service.policy.password_policy)
    password_hash ← query (service.password_hasher.hash new_password)
    atomic (store_changed actor credential password_hash correlation_id now)

  abbrev pub store_requested : Account → Option Text → ℕ → Exec S (Unit {0})
  store_requested account correlation_id now = do
    challenge ←
        create_challenge service IdentityChallengeKind.password_reset account.id
          service.policy.password_reset_ttl_ms now
    service.emit (record (bare_event password_reset_requested now correlation_id) {
      subject_account_id = some account.id;
    })
    service.deliver (record {
      delivery_id = challenge.0.id;
      purpose = SecretDeliveryPurpose.password_reset;
      account_id = account.id;
      secret = challenge.1;
      expires_at = challenge.0.expires_at;
    })

  -- `account && account.status === 'ACTIVE'`
  abbrev pub is_active : Option Account → Bool
  is_active none = false
  is_active (some account) = same_status account.status active

  abbrev pub request_found : Option Account → Option Text → ℕ → Exec S (Unit {0})
  request_found none correlation_id now = pure tt
  request_found (some account) correlation_id now =
      if is_active (some account)
      then atomic (store_requested account correlation_id now)
      else pure tt

  -- The answer `{ accepted: true }` is the same for every address.
  unfoldable pub request_password_reset : Text → Option Text → ℕ → Exec S (Unit {0})
  request_password_reset email correlation_id now = do
    normalized ← lift (normalize_email service.fold email)
    account ← query (service.repository.find_account_by_normalized_email normalized)
    request_found account correlation_id now

  abbrev pub store_reset :
      IdentityChallenge → PasswordCredential → Text → Option Text → ℕ → Exec S (Unit {0})
  store_reset challenge credential password_hash correlation_id now = do
    result ← service.repository.consume_challenge_if_active challenge.id challenge.version now
    lift (is_consumed result)
    service.repository.replace_password_credential (next_credential credential password_hash now)
    count ← service.repository.revoke_all_sessions_for_account challenge.account_id now
    service.emit (record (bare_event password_reset_completed now correlation_id) {
      subject_account_id = some challenge.account_id;
      reason = some IdentitySecurityReason.password_reset;
    })
    service.emit (record (bare_event session_revoked_all now correlation_id) {
      subject_account_id = some challenge.account_id;
      reason = some IdentitySecurityReason.password_reset;
    })

  unfoldable pub complete_password_reset : Text → Text → Option Text → ℕ → Exec S (Unit {0})
  complete_password_reset token new_password correlation_id now = do
    password ← lift (assert_password_policy new_password service.policy.password_policy)
    challenge ←
        query (require_active_challenge service IdentityChallengeKind.password_reset token now)
    found ← query (service.repository.find_password_credential challenge.account_id)
    credential ← lift (found_or challenge_invalid_error found)
    password_hash ← query (service.password_hasher.hash new_password)
    atomic (store_reset challenge credential password_hash correlation_id now)
