-- ===== src/Identity/Authentication/Sessions.antt =====
-- packages/identity/src/authentication.ts: the methods on sessions.
pub mod Laws
pub mod Revoked
use taymex.Prelude.{ℕ, Text, Option, none, some, Bool, true, false, List, map, if◌then◌else◌}
use taymex.Foundation.Errors.{Result, ok, err, at}
use taymex.Foundation.Validation.{require_uuid}
use taymex.Effects.{Exec, Query, ◌>>=◌, ◌>>◌, pure, raise, lift, query, atomic}
use taymex.Identity.Account.{Account, assert_account_can_authenticate}
use taymex.Identity.Session.{
  SessionRecord, SessionView, assert_session_active, rotate_session, revoke_session, is_some,
  to_session_view,
}
use taymex.Identity.Actor.{ActorContext, manage_sessions, require_privileged_identity_operation}
use taymex.Identity.Contracts.{
  ReplaceResult, updated, version_conflict, session_invalid, bare_event, sign_in_failed,
  session_rotated, session_revoked, session_revoked_all,
}
use taymex.Identity.Authentication.{
  IdentityService, session_invalid_error, found_or, rethrow, actor_for,
}
use taymex.Identity.Authentication.SignIn.{SignedIn}

module _ {S : Type 0} (service : IdentityService S) where
  -- the account of a session, if it can authenticate
  abbrev pub entitled : SessionRecord → Exec S Account
  entitled session = do
    found ← query (service.repository.find_account_by_id session.account_id)
    account ← lift (found_or session_invalid_error found)
    lift (
        rethrow session_invalid_error (
          assert_account_can_authenticate account
            service.policy.require_verified_email_for_sign_in))
    pure account

  abbrev pub unknown_session : ℕ → Option Text → Exec S ActorContext
  unknown_session now correlation_id = do
    service.emit
        (record (bare_event sign_in_failed now correlation_id) { reason = some session_invalid })
    raise session_invalid_error

  -- `try { assertSessionActive(…) } catch { … }`
  abbrev pub refuse_inactive :
      SessionRecord → ℕ → Option Text → Result (Unit {0}) → Exec S (Unit {0})
  refuse_inactive session now correlation_id (ok a) = pure tt
  refuse_inactive session now correlation_id (err e) = do
    service.emit (record (bare_event sign_in_failed now correlation_id) {
      subject_account_id = some session.account_id;
      session_id = some session.id;
      reason = some session_invalid;
    })
    raise session_invalid_error

  abbrev pub authenticated : Option SessionRecord → ℕ → Option Text → Exec S ActorContext
  authenticated none now correlation_id = unknown_session now correlation_id
  authenticated (some session) now correlation_id = do
    refuse_inactive session now correlation_id (assert_session_active session (at now))
    account ← entitled session
    actor_for service account session.id session.assurance now

  unfoldable pub authenticate_session : Text → Option Text → ℕ → Exec S ActorContext
  authenticate_session session_secret correlation_id now = do
    found ←
        query (service.repository.find_session_by_token_hash (service.token_hash session_secret))
    authenticated found now correlation_id

  abbrev pub is_updated : ReplaceResult → Exec S (Unit {0})
  is_updated updated = pure tt
  is_updated version_conflict = raise session_invalid_error

  abbrev pub store_rotated :
      SessionRecord → SessionRecord → Account → Text → Option Text → ℕ → Exec S SignedIn
  store_rotated current rotated account secret correlation_id now = do
    result ← service.repository.replace_session_if_version_matches rotated current.version
    is_updated result
    service.emit (record (bare_event session_rotated now correlation_id) {
      subject_account_id = some account.id;
      session_id = some current.id;
    })
    actor ← actor_for service account current.id current.assurance now
    pure (record { session_secret = secret; actor = actor })

  unfoldable pub rotate_current_session : Text → Option Text → ℕ → Exec S SignedIn
  rotate_current_session session_secret correlation_id now = do
    found ←
        query (service.repository.find_session_by_token_hash (service.token_hash session_secret))
    current ← lift (found_or session_invalid_error found)
    lift (rethrow session_invalid_error (assert_session_active current (at now)))
    account ← entitled current
    issued ← service.issue_token
    rotated ← lift (rotate_session current issued.hash (at now))
    atomic (store_rotated current rotated account issued.secret correlation_id now)

  abbrev pub announce_revoked : SessionRecord → Option Text → ℕ → ReplaceResult → Exec S (Unit {0})
  announce_revoked current correlation_id now version_conflict = pure tt
  announce_revoked current correlation_id now updated =
      service.emit (record (bare_event session_revoked now correlation_id) {
        subject_account_id = some current.account_id;
        session_id = some current.id;
      })

  abbrev pub store_revoked : SessionRecord → SessionRecord → Option Text → ℕ → Exec S (Unit {0})
  store_revoked current revoked correlation_id now = do
    result ← service.repository.replace_session_if_version_matches revoked current.version
    announce_revoked current correlation_id now result

  abbrev pub revoke_found : Option SessionRecord → Option Text → ℕ → Exec S (Unit {0})
  revoke_found none correlation_id now = pure tt
  revoke_found (some current) correlation_id now =
      if is_some current.revoked_at then pure tt else do
        revoked ← lift (revoke_session current (at now))
        atomic (store_revoked current revoked correlation_id now)

  unfoldable pub sign_out : Text → Option Text → ℕ → Exec S (Unit {0})
  sign_out session_secret correlation_id now = do
    found ←
        query (service.repository.find_session_by_token_hash (service.token_hash session_secret))
    revoke_found found correlation_id now

  abbrev pub revoke_all : Text → Text → Option Text → ℕ → Exec S ℕ
  revoke_all actor_account_id account_id correlation_id now = do
    count ← service.repository.revoke_all_sessions_for_account account_id now
    service.emit (record (bare_event session_revoked_all now correlation_id) {
      actor_account_id = some actor_account_id;
      subject_account_id = some account_id;
    })
    pure count

  unfoldable pub sign_out_all : ActorContext → Option Text → ℕ → Exec S ℕ
  sign_out_all actor correlation_id now =
      atomic (revoke_all actor.account_id actor.account_id correlation_id now)

  unfoldable pub revoke_all_account_sessions : ActorContext → Text → Option Text → ℕ → Exec S ℕ
  revoke_all_account_sessions actor given_account_id correlation_id now = do
    lift (require_privileged_identity_operation service.has_permission actor manage_sessions)
    account_id ← lift (require_uuid given_account_id "accountId")
    atomic (revoke_all actor.account_id account_id correlation_id now)

  unfoldable pub list_sessions : ActorContext → Exec S (List SessionView)
  list_sessions actor = do
    sessions ← query (service.repository.list_sessions_for_account actor.account_id)
    pure (map (λ session. to_session_view session (some actor.session_id)) sessions)
