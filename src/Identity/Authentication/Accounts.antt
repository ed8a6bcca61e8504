-- ===== src/Identity/Authentication/Accounts.antt =====
-- packages/identity/src/authentication.ts: the methods on accounts.
use taymex.Prelude.{ℕ, Text, Option, some, if◌then◌else◌}
use taymex.Foundation.Errors.{Category, Error, Result, ok, err, Number, nat, at}
use taymex.Foundation.Validation.{require_uuid}
use taymex.Effects.{Exec, ◌>>=◌, ◌>>◌, pure, lift, query, atomic}
use taymex.Identity.Account.{
  Account, active, same_status, identity_failure, change_account_status, mark_email_verified,
  is_some,
}
use taymex.Identity.Actor.{ActorContext, manage_accounts, require_privileged_identity_operation}
use taymex.Identity.Contracts.{
  IdentityChallenge, IdentityChallengeKind, IdentitySecurityReason, IdentityEventId,
  SecretDeliveryPurpose, ReplaceResult, updated, version_conflict, bare_event,
  email_verification_requested, email_verification_completed,
}
use taymex.Identity.Authentication.{
  IdentityService, account_not_found, challenge_invalid_error, found_or, create_challenge,
  require_active_challenge,
}
use taymex.Identity.Authentication.Passwords.{is_consumed}

abbrev pub conflict_error : Error
conflict_error =
    identity_failure "IDENTITY_ACCOUNT_VERSION_CONFLICT" Category.conflict
      "errors.identity.versionConflict"

-- `if (result !== 'updated') throw …`
abbrev pub updated_or : Error → ReplaceResult → Result (Unit {0})
updated_or thrown updated = ok tt
updated_or thrown version_conflict = err thrown

module _ {S : Type 0} (service : IdentityService S) where
  abbrev pub store_requested : Account → Option Text → ℕ → Exec S (Unit {0})
  store_requested account correlation_id now = do
    challenge ←
        create_challenge service IdentityChallengeKind.email_verification account.id
          service.policy.email_verification_ttl_ms now
    service.emit (record (bare_event email_verification_requested now correlation_id) {
      subject_account_id = some account.id;
    })
    service.deliver (record {
      delivery_id = challenge.0.id;
      purpose = SecretDeliveryPurpose.email_verification;
      account_id = account.id;
      secret = challenge.1;
      expires_at = challenge.0.expires_at;
    })

  abbrev pub request_unverified : Account → Option Text → ℕ → Exec S (Unit {0})
  request_unverified account correlation_id now =
      if is_some account.email_verified_at
      then pure tt
      else atomic (store_requested account correlation_id now)

  unfoldable pub request_email_verification : Text → Option Text → ℕ → Exec S (Unit {0})
  request_email_verification given_account_id correlation_id now = do
    account_id ← lift (require_uuid given_account_id "accountId")
    found ← query (service.repository.find_account_by_id account_id)
    account ← lift (found_or account_not_found found)
    request_unverified account correlation_id now

  abbrev pub store_verified :
      IdentityChallenge → Account → Account → Option Text → ℕ → Exec S Account
  store_verified challenge account verified correlation_id now = do
    result ← service.repository.consume_challenge_if_active challenge.id challenge.version now
    lift (is_consumed result)
    replaced ← service.repository.replace_account_if_version_matches verified (nat account.version)
    lift (updated_or challenge_invalid_error replaced)
    service.emit (record (bare_event email_verification_completed now correlation_id) {
      subject_account_id = some account.id;
    })
    pure verified

  unfoldable pub complete_email_verification : Text → Option Text → ℕ → Exec S Account
  complete_email_verification token correlation_id now = do
    challenge ←
        query (require_active_challenge service IdentityChallengeKind.email_verification token now)
    found ← query (service.repository.find_account_by_id challenge.account_id)
    account ← lift (found_or challenge_invalid_error found)
    verified ← lift (mark_email_verified account (nat account.version) (at now))
    atomic (store_verified challenge account verified correlation_id now)

  -- An account that is not active keeps no session.
  abbrev pub revoke_unless_active : Account → ℕ → Exec S (Unit {0})
  revoke_unless_active changed now =
      if same_status changed.status active
      then pure tt
      else do count ← service.repository.revoke_all_sessions_for_account changed.id now; pure tt

  abbrev pub store_status : ActorContext → Account → Number → Option Text → ℕ → Exec S Account
  store_status actor changed expected_version correlation_id now = do
    result ← service.repository.replace_account_if_version_matches changed expected_version
    lift (updated_or conflict_error result)
    revoke_unless_active changed now
    service.emit (record (bare_event IdentityEventId.account_status_changed now correlation_id) {
      actor_account_id = some actor.account_id;
      subject_account_id = some changed.id;
      reason = some IdentitySecurityReason.account_status_changed;
    })
    pure changed

  unfoldable pub set_account_status :
      ActorContext → Text → Number → Text → Option Text → ℕ → Exec S Account
  set_account_status actor given_account_id expected_version status correlation_id now = do
    lift (require_privileged_identity_operation service.has_permission actor manage_accounts)
    account_id ← lift (require_uuid given_account_id "accountId")
    found ← query (service.repository.find_account_by_id account_id)
    account ← lift (found_or account_not_found found)
    changed ← lift (change_account_status account expected_version status (at now))
    atomic (store_status actor changed expected_version correlation_id now)
