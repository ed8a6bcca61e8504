-- ===== src/Identity/Authentication/SignIn.antt =====
-- packages/identity/src/authentication.ts: `provisionPasswordAccount` and `signIn`.
pub mod Laws
use taymex.Prelude.{ℕ, Text, codes, Option, none, some, Bool, true, false, text_eq, if◌then◌else◌}
use taymex.Foundation.Errors.{
  Category, Error, plain_error, identity_error, application_error, Result, ok, err, nat, at,
}
use taymex.Effects.{Exec, Query, ◌>>=◌, ◌>>◌, pure, raise, lift, query, atomic}
use taymex.Identity.Account.{
  Account, create_account, normalize_email, assert_account_can_authenticate,
}
use taymex.Identity.Session.{SessionRecord, create_session, aal1}
use taymex.Identity.Actor.{ActorContext}
use taymex.Identity.Contracts.{
  PasswordCredential, CreateResult, created, duplicate_email, IdentitySecurityReason,
  IdentitySecurityEvent, IdentityEventId, unknown_account, wrong_password, account_unavailable,
  email_unverified, throttled, bare_event, account_provisioned, sign_in_failed, sign_in_succeeded,
  session_issued,
}
use taymex.Identity.Password.{assert_password_policy}
use taymex.Identity.Authentication.{
  IdentityService, IssuedToken, authentication_failed_error, actor_for,
}

pub record ProvisionInput : Type 0 where
  pub email : Text
  pub password : Text
  pub correlation_id : Option Text

pub record SignInInput : Type 0 where
  pub email : Text
  pub password : Text
  pub client_label : Option Text
  pub correlation_id : Option Text

pub record SignedIn : Type 0 where
  pub session_secret : Text
  pub actor : ActorContext

abbrev email_conflict : Error
email_conflict = application_error (record {
  class = identity_error;
  code = "IDENTITY_ACCOUNT_EMAIL_CONFLICT";
  category = Category.conflict;
  safe_message_key = "errors.identity.accountEmailConflict";
  field = some "email";
})

abbrev is_created : CreateResult → Result (Unit {0})
is_created created = ok tt
is_created duplicate_email = err email_conflict

-- what assertAccountCanAuthenticate throws, as a reason
abbrev unavailable_reason : Result (Unit {0}) → Option IdentitySecurityReason
unavailable_reason (ok a) = none
unavailable_reason (err (plain_error message)) =
    if text_eq (codes message) (codes "EMAIL_UNVERIFIED")
    then some email_unverified
    else some account_unavailable
unavailable_reason (err e) = some account_unavailable

-- failureReason
unfoldable pub failure_reason :
    Bool → Option Account → Option PasswordCredential → Bool → Option IdentitySecurityReason
failure_reason require_verified none credential valid = some unknown_account
failure_reason require_verified (some account) none valid = some unknown_account
failure_reason require_verified (some account) (some credential) false = some wrong_password
failure_reason require_verified (some account) (some credential) true =
    unavailable_reason (assert_account_can_authenticate account require_verified)

abbrev id_of : Option Account → Option Text
id_of none = none
id_of (some account) = some account.id

abbrev pub session_event :
    IdentityEventId → Account → SessionRecord → SignInInput → ℕ → IdentitySecurityEvent
session_event event_id account session input now =
    record (bare_event event_id now input.correlation_id) {
      subject_account_id = some account.id;
      session_id = some session.id;
    }

abbrev pub refused_event :
    SignInInput → ℕ → Option Account → IdentitySecurityReason → IdentitySecurityEvent
refused_event input now account reason =
    record (bare_event sign_in_failed now input.correlation_id) {
      subject_account_id = id_of account;
      reason = some reason;
    }

module _ {S : Type 0} (service : IdentityService S) where
  abbrev provisioned : ProvisionInput → Account → Text → ℕ → Exec S Account
  provisioned input account password_hash now = do
    created_account ← service.repository.create_account account
    lift (is_created created_account)
    service.repository.replace_password_credential (record {
      account_id = account.id;
      password_hash = password_hash;
      changed_at = now;
      version = 1;
    })
    service.emit (record (bare_event account_provisioned now input.correlation_id) {
      subject_account_id = some account.id;
    })
    pure account

  unfoldable pub provision_password_account : ProvisionInput → ℕ → Exec S Account
  provision_password_account input now = do
    id ← service.next_id
    account ← lift (create_account service.fold id input.email (at now) none)
    password ← lift (assert_password_policy input.password service.policy.password_policy)
    password_hash ← query (service.password_hasher.hash input.password)
    atomic (provisioned input account password_hash now)

  -- `account ? findPasswordCredential(account.id) : null`
  abbrev pub credential_of : Option Account → Query S (Option PasswordCredential)
  credential_of none s = ok none
  credential_of (some account) s = service.repository.find_password_credential account.id s

  -- `credential?.passwordHash ?? dummyHash()`
  abbrev pub hash_of : Option PasswordCredential → Exec S Text
  hash_of none = service.password_hasher.dummy_hash
  hash_of (some credential) = pure credential.password_hash

  abbrev pub refuse :
      Text → SignInInput → ℕ → Option Account → IdentitySecurityReason → Exec S SignedIn
  refuse principal input now account reason = do
    service.record_failure principal now
    service.emit (refused_event input now account reason)
    raise authentication_failed_error

  -- what signIn does in its transaction
  abbrev pub issue_session : Account → SessionRecord → Text → SignInInput → ℕ → Exec S SignedIn
  issue_session account session secret input now = do
    service.repository.create_session session
    actor ← actor_for service account session.id session.assurance now
    service.emit (session_event session_issued account session input now)
    service.emit (session_event sign_in_succeeded account session input now)
    pure (record { session_secret = secret; actor = actor })

  abbrev pub admit : Text → SignInInput → ℕ → Account → Exec S SignedIn
  admit principal input now account = do
    service.record_success principal
    issued ← service.issue_token
    id ← service.next_id
    session ← lift (
        create_session (record {
          id = id;
          account_id = account.id;
          token_hash = issued.hash;
          assurance = aal1;
          client_label = input.client_label;
          now = at now;
          ttl_ms = service.policy.session_ttl_ms;
        }))
    atomic (issue_session account session issued.secret input now)

  -- `if (failureReason || !account || !credential)`, where a credential has an account
  abbrev pub decide :
      Text → SignInInput → ℕ → Option Account → Option IdentitySecurityReason → Exec S SignedIn
  decide principal input now account (some reason) = refuse principal input now account reason
  decide principal input now none none = refuse principal input now none unknown_account
  decide principal input now (some account) none = admit principal input now account

  -- the method behind the throttle
  abbrev pub verified_sign_in : Text → SignInInput → ℕ → Exec S SignedIn
  verified_sign_in principal input now = do
    account ← query (service.repository.find_account_by_normalized_email principal)
    credential ← query (credential_of account)
    password_hash ← hash_of credential
    valid ← query (service.password_hasher.verify input.password password_hash)
    decide principal input now account
        (failure_reason service.policy.require_verified_email_for_sign_in account credential valid)

  abbrev pub throttled_sign_in : SignInInput → ℕ → Exec S SignedIn
  throttled_sign_in input now = do
    service.emit
        (record (bare_event sign_in_failed now input.correlation_id) { reason = some throttled })
    raise authentication_failed_error

  unfoldable pub sign_in : SignInInput → ℕ → Exec S SignedIn
  sign_in input now = do
    principal ← lift (normalize_email service.fold input.email)
    blocked ← service.is_blocked principal now
    if blocked then throttled_sign_in input now else verified_sign_in principal input now
