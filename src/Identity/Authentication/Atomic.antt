-- ===== src/Identity/Authentication/Atomic.antt =====
-- What a failed method of the service leaves: the methods that write in one transaction only.
use taymex.Prelude.{◌≡◌, ℕ, Text, Option, none, some, Bool, true, false, if◌then◌else◌}
use taymex.Foundation.Errors.{Error, err, Number, nat, at}
use taymex.Foundation.Validation.{require_uuid}
use taymex.Effects.{Exec, ◌>>=◌, pure}
use taymex.Effects.Safe.{IsSafe, atomic-IsSafe, query-IsSafe, lift-IsSafe, pure-IsSafe, then-IsSafe}
use taymex.Identity.Account.{Account, normalize_email, change_account_status, mark_email_verified}
use taymex.Identity.Session.{SessionRecord, revoke_session}
use taymex.Identity.Actor.{
  ActorContext, manage_accounts, manage_sessions, require_privileged_identity_operation,
}
use taymex.Identity.Contracts.{IdentityChallengeKind}
use taymex.Identity.Password.{assert_password_policy}
use taymex.Identity.Authentication.{
  IdentityService, found_or, account_not_found, challenge_invalid_error, require_active_challenge,
}
use taymex.Identity.Authentication.Sessions.{
  sign_out, sign_out_all, revoke_all_account_sessions, revoke_found, store_revoked, revoke_all,
}
use taymex.Identity.Authentication.Passwords.{
  change_password, request_password_reset, complete_password_reset, store_changed, store_reset,
  verified_credential, request_found, is_active,
}
use taymex.Identity.Authentication.Accounts.{
  request_email_verification, complete_email_verification, set_account_status, store_status,
  store_verified, request_unverified,
}
use taymex.Identity.Authentication.Passwords as Passwords
use taymex.Identity.Authentication.Accounts as Accounts

-- The methods, with what they are given beside the id of the request and the time.
pub data IdentityCommand : Type 0 where
  end_session : Text → IdentityCommand
  end_all_sessions : ActorContext → IdentityCommand
  end_sessions_of : ActorContext → Text → IdentityCommand
  change : ActorContext → Text → Text → IdentityCommand
  ask_reset : Text → IdentityCommand
  reset : Text → Text → IdentityCommand
  ask_verification : Text → IdentityCommand
  verify : Text → IdentityCommand
  set_status : ActorContext → Text → Number → Text → IdentityCommand

module _ {S : Type 0} (service : IdentityService S) where
  abbrev ignore : {A : Type 0} → Exec S A → Exec S (Unit {0})
  ignore m = m >>= λ _. pure tt

  unfoldable pub run : IdentityCommand → Option Text → ℕ → Exec S (Unit {0})
  run (end_session secret) id now = sign_out service secret id now
  run (end_all_sessions actor) id now = ignore (sign_out_all service actor id now)
  run (end_sessions_of actor account_id) id now =
      ignore (revoke_all_account_sessions service actor account_id id now)
  run (change actor current_password new_password) id now =
      change_password service actor current_password new_password id now
  run (ask_reset email) id now = request_password_reset service email id now
  run (reset token new_password) id now = complete_password_reset service token new_password id now
  run (ask_verification account_id) id now = request_email_verification service account_id id now
  run (verify token) id now = ignore (complete_email_verification service token id now)
  run (set_status actor account_id expected_version status) id now =
      ignore (set_account_status service actor account_id expected_version status id now)

  if-IsSafe :
      {A : Type 0} (b : Bool) (m n : Exec S A) → IsSafe m → IsSafe n → IsSafe (if b then m else n)
  if-IsSafe true m n h k = h
  if-IsSafe false m n h k = k

  revoke_found-IsSafe :
      (found : Option SessionRecord) (id : Option Text) (now : ℕ)
      → IsSafe (revoke_found service found id now)
  revoke_found-IsSafe none id now = pure-IsSafe tt
  revoke_found-IsSafe (some current) id now = if-IsSafe _ (pure tt) _ (pure-IsSafe tt) (
      lift-IsSafe (revoke_session current (at now))
        λ revoked. atomic-IsSafe (store_revoked service current revoked id now))

  request_found-IsSafe :
      (account : Option Account) (id : Option Text) (now : ℕ)
      → IsSafe (request_found service account id now)
  request_found-IsSafe none id now = pure-IsSafe tt
  request_found-IsSafe (some account) id now =
      if-IsSafe _ _ (pure tt) (atomic-IsSafe (Passwords.store_requested service account id now))
        (pure-IsSafe tt)

  run-IsSafe :
      (command : IdentityCommand) (id : Option Text) (now : ℕ) → IsSafe (run command id now)
  unfolding run sign_out sign_out_all revoke_all_account_sessions change_password
      request_password_reset complete_password_reset request_email_verification
      complete_email_verification set_account_status
  run-IsSafe (end_session secret) id now =
      query-IsSafe (service.repository.find_session_by_token_hash (service.token_hash secret))
        λ found. revoke_found-IsSafe found id now
  run-IsSafe (end_all_sessions actor) id now =
      then-IsSafe _ tt (atomic-IsSafe (revoke_all service actor.account_id actor.account_id id now))
  run-IsSafe (end_sessions_of actor given) id now = then-IsSafe _ tt (
      lift-IsSafe
        (require_privileged_identity_operation service.has_permission actor manage_sessions)
        λ _.
          lift-IsSafe (require_uuid given "accountId")
            λ account_id. atomic-IsSafe (revoke_all service actor.account_id account_id id now))
  run-IsSafe (change actor current_password new_password) id now =
      query-IsSafe (service.repository.find_password_credential actor.account_id) λ found.
        query-IsSafe (verified_credential service current_password found) λ credential.
          lift-IsSafe (assert_password_policy new_password service.policy.password_policy) λ _.
            query-IsSafe (service.password_hasher.hash new_password)
              λ hash. atomic-IsSafe (store_changed service actor credential hash id now)
  run-IsSafe (ask_reset email) id now =
      lift-IsSafe (normalize_email service.fold email) λ normalized.
        query-IsSafe (service.repository.find_account_by_normalized_email normalized)
          λ account. request_found-IsSafe account id now
  run-IsSafe (reset token new_password) id now =
      lift-IsSafe (assert_password_policy new_password service.policy.password_policy) λ _.
        query-IsSafe
          (require_active_challenge service IdentityChallengeKind.password_reset token now)
          λ challenge.
            query-IsSafe (service.repository.find_password_credential challenge.account_id) λ found.
              lift-IsSafe (found_or challenge_invalid_error found) λ credential.
                query-IsSafe (service.password_hasher.hash new_password)
                  λ hash. atomic-IsSafe (store_reset service challenge credential hash id now)
  run-IsSafe (ask_verification given) id now =
      lift-IsSafe (require_uuid given "accountId") λ account_id.
        query-IsSafe (service.repository.find_account_by_id account_id) λ found.
          lift-IsSafe (found_or account_not_found found) λ account.
            if-IsSafe _ (pure tt) _ (pure-IsSafe tt)
              (atomic-IsSafe (Accounts.store_requested service account id now))
  run-IsSafe (verify token) id now = then-IsSafe _ tt (
      query-IsSafe
        (require_active_challenge service IdentityChallengeKind.email_verification token now)
        λ challenge.
          query-IsSafe (service.repository.find_account_by_id challenge.account_id) λ found.
            lift-IsSafe (found_or challenge_invalid_error found) λ account.
              lift-IsSafe (mark_email_verified account (nat account.version) (at now)) λ verified.
                atomic-IsSafe (store_verified service challenge account verified id now))
  run-IsSafe (set_status actor given expected_version status) id now = then-IsSafe _ tt (
      lift-IsSafe
        (require_privileged_identity_operation service.has_permission actor manage_accounts)
        λ _. lift-IsSafe (require_uuid given "accountId") λ account_id.
          query-IsSafe (service.repository.find_account_by_id account_id) λ found.
            lift-IsSafe (found_or account_not_found found) λ account.
              lift-IsSafe (change_account_status account expected_version status (at now))
                λ changed.
                  atomic-IsSafe (store_status service actor changed expected_version id now))

  -- Signing out, ending the sessions of an account, changing or resetting a password, asking for a
  -- reset or a verification, verifying an address and setting the status of an account: whichever
  -- fails, and wherever, in the checks, the repository or a sink, leaves the state as it was.
  pub run-err :
      (command : IdentityCommand) (id : Option Text) (now : ℕ) (s : S) (e : Error)
      → (run command id now s).0 ≡ err e
      → (run command id now s).1 ≡ s
  run-err command id now s e h = (run-IsSafe command id now).at s e h
