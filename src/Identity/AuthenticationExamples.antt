-- ===== src/Identity/AuthenticationExamples.antt =====
-- The theorems on authentication at two accounts, over the tables.
use taymex.Prelude.{
  update_where, ◌≡◌, ◌≢◌, refl, ℕ, Text, codes, none, some, true, false, List, [], ◌∷◌, ◌++◌,
  text_eq, trim, trim_start, is_space,
}
use taymex.Foundation.Errors.{ok, err, nat, at, safe_from}
use taymex.Foundation.Validation.{require_non_blank, require_uuid, is_uuid, to_lower, matches}
use taymex.Effects.{atomic}
use taymex.Identity.Account.{
  Account, active, assert_account_can_authenticate, normalize_email, is_email,
}
use taymex.Identity.Session.{
  SessionRecord, aal1, assert_session_active, clone_date, create_session, revoke_session,
  normalize_client_label,
}
use taymex.Identity.Actor.{ActorContext, create_actor_context, sorted_set, unique, insert}
use taymex.Identity.Contracts.{
  PasswordCredential, IdentityChallenge, IdentityChallengeKind, IdentitySecurityEvent,
}
use taymex.Identity.Password.{assert_password_policy}
use taymex.Identity.Authentication.{
  IdentityService, authentication_failed_error, require_active_challenge, actor_for,
  challenge_invalid_error,
}
use taymex.Identity.Authentication.Sessions.{authenticate_session, sign_out}
use taymex.Identity.Authentication.Sessions.Revoked.{IsRevoking}
use taymex.Identity.Authentication.Sessions.Laws.{IsAdmitted, authenticate_session-IsAdmitted}
use taymex.Identity.Authentication.SignIn.{SignInInput, sign_in, failure_reason}
use taymex.Identity.Authentication.SignIn.Laws.{IsVerified, sign_in-IsVerified}
use taymex.Identity.Authentication.Passwords.{change_password, complete_password_reset}
use taymex.Identity.Authentication.Passwords.Laws.{change_password-lockout, IsConsuming}
use taymex.Identity.Authentication.Passwords.Reset.{
  complete_password_reset_once, complete_password_reset-lockout,
}
use taymex.Identity.Authentication.Atomic.{end_session, run, run-err}
use taymex.Identity.Persistence.Tables.{
  replaced_credentials, distinct, require_initial_version, require_next_version,
}
use taymex.Identity.Persistence.Promises.{over_tables, postgres-IsRevoking, postgres-IsConsuming}
use taymex.Identity.Persistence.Laws.{challenge_ids}
use taymex.Identity.Persistence as Persistence
use taymex.Identity.Persistence.{
  Database, postgres_identity_repository, find_account_by_id, find_account_by_normalized_email,
  find_password_credential, replace_password_credential, find_session_by_token_hash,
  revoke_all_sessions_for_account, find_challenge_by_token_hash, consume_challenge_if_active,
  replace_session_if_version_matches,
}

abbrev World : Type 0
World = Database (List IdentitySecurityEvent)

abbrev user : Text → Account
user id = record {
  id = id;
  email = id ++ codes "@b.c";
  normalized_email = id ++ codes "@b.c";
  status = active;
  email_verified_at = none;
  version = 1;
  created_at = 0;
  updated_at = 0;
}

abbrev session_of : Text → SessionRecord
session_of id = record {
  id = id ++ id;
  account_id = id;
  token_hash = id;
  assurance = aal1;
  client_label = none;
  created_at = 0;
  expires_at = 90000;
  rotated_at = none;
  revoked_at = none;
  version = 1;
}

abbrev credential_for : Text → PasswordCredential
credential_for id = record {
  account_id = id;
  password_hash = codes "first";
  changed_at = 0;
  version = 1;
}

abbrev challenge_for : Text → IdentityChallenge
challenge_for id = record {
  id = id;
  kind = IdentityChallengeKind.password_reset;
  account_id = id;
  token_hash = codes "token";
  created_at = 0;
  expires_at = at 5000;
  consumed_at = none;
  version = 1;
}

abbrev ann : Text
ann = codes "a"

abbrev ben : Text
ben = codes "b"

abbrev before : World
before = (
  record {
    accounts = user ann ∷ user ben ∷ [];
    credentials = credential_for ann ∷ credential_for ben ∷ [];
    sessions = session_of ann ∷ session_of ben ∷ [];
    challenges = challenge_for ann ∷ [];
  },
  [],
)

-- a log of events beside the tables, a hasher that keeps the password, and fixed ids
abbrev base : IdentityService World
base = record {
  repository = postgres_identity_repository (List IdentitySecurityEvent);
  resolve_access = λ id s. ok (record { role_ids = []; permissions = [] });
  password_hasher = record {
    hash = λ password s. ok password;
    verify = λ password hash s. ok (text_eq password hash);
    dummy_hash = λ s. (ok [], s);
  };
  issue_token = λ s. (ok (record { secret = codes "new"; hash = codes "new" }), s);
  token_hash = λ secret. secret;
  is_blocked = λ principal now s. (ok false, s);
  record_failure = λ principal now s. (ok tt, s);
  record_success = λ principal s. (ok tt, s);
  emit = λ event s. (ok tt, (s.0, event ∷ s.1));
  deliver = λ delivery s. (ok tt, s);
  next_id = λ s. (ok (codes "id"), s);
  fold = λ t. t;
  has_permission = λ actor permission. true;
  policy = record {
    session_ttl_ms = nat 60000;
    password_reset_ttl_ms = nat 60000;
    email_verification_ttl_ms = nat 60000;
    require_verified_email_for_sign_in = false;
    password_policy = record { min_length = nat 4; max_length = nat 9 };
  };
}

abbrev service : IdentityService World
service = over_tables base

quiet : (event : IdentitySecurityEvent) (s : World) → (base.emit event s).1.0 ≡ s.0
quiet event s = refl

abbrev actor_of : Text → ℕ → ActorContext
actor_of id now = record {
  id = id;
  account_id = id;
  session_id = id ++ id;
  role_ids = [];
  permissions = [];
  assurance = aal1;
  authenticated_at = now;
}

ben_authenticates : authenticate_session service ben none 7 before ≡ (ok (actor_of ben 7), before)
unfolding authenticate_session find_session_by_token_hash find_account_by_id actor_for
    assert_session_active clone_date assert_account_can_authenticate create_actor_context sorted_set
    unique insert text_eq
ben_authenticates = refl

authenticate_session-IsAdmitted_example :
    (session : SessionRecord) × (account : Account) × (find_session_by_token_hash ben before
      ≡ ok (some session))
    × IsAdmitted service before 7 session account (actor_of ben 7)
    × (before ≡ before)
authenticate_session-IsAdmitted_example =
    authenticate_session-IsAdmitted service ben none 7 before before {actor = actor_of ben 7}
      ben_authenticates

abbrev changed : World
changed = (change_password service (actor_of ann 0) (codes "first") (codes "later") none 9 before).1

ann_changes :
    change_password service (actor_of ann 0) (codes "first") (codes "later") none 9 before
    ≡ (ok tt, changed)
unfolding change_password find_password_credential assert_password_policy safe_from atomic
    replace_password_credential replaced_credentials update_where revoke_all_sessions_for_account
    text_eq
ann_changes = refl

ben_still_authenticates :
    authenticate_session service ben none 11 changed ≡ (ok (actor_of ben 11), changed)
unfolding authenticate_session find_session_by_token_hash find_account_by_id actor_for
    assert_session_active clone_date assert_account_can_authenticate create_actor_context sorted_set
    unique insert change_password find_password_credential assert_password_policy safe_from atomic
    replace_password_credential replaced_credentials update_where revoke_all_sessions_for_account
    text_eq
ben_still_authenticates = refl

change_password-lockout_example : ben ≢ ann
change_password-lockout_example =
    change_password-lockout service (postgres-IsRevoking base quiet) (actor_of ann 0)
      (codes "first") (codes "later") none 9 before changed ann_changes ben none 11 changed
      (actor_of ben 11) ben_still_authenticates

abbrev was_reset : World
was_reset = (complete_password_reset service (codes "token") (codes "later") none 9 before).1

ann_resets :
    complete_password_reset service (codes "token") (codes "later") none 9 before
    ≡ (ok tt, was_reset)
unfolding complete_password_reset require_active_challenge find_challenge_by_token_hash
    find_password_credential assert_password_policy safe_from atomic consume_challenge_if_active
    replace_password_credential replaced_credentials update_where revoke_all_sessions_for_account
    text_eq
ann_resets = refl

accepted_later :
    assert_password_policy (codes "other") (service.policy.password_policy) ≡ ok (codes "other")
unfolding assert_password_policy safe_from
accepted_later = refl

apart : distinct challenge_ids before.0.challenges ≡ true
apart = refl

complete_password_reset_once_example :
    complete_password_reset service (codes "token") (codes "other") none 10 was_reset
    ≡ (err challenge_invalid_error, was_reset)
complete_password_reset_once_example =
    complete_password_reset_once service (codes "token") (codes "later") (codes "other") none none 9
      10 before was_reset (postgres-IsConsuming base quiet before apart) ann_resets accepted_later

ann_challenge :
    find_challenge_by_token_hash IdentityChallengeKind.password_reset (codes "token") before
    ≡ ok (some (challenge_for ann))
unfolding find_challenge_by_token_hash text_eq
ann_challenge = refl

ben_authenticates_after_reset :
    authenticate_session service ben none 11 was_reset ≡ (ok (actor_of ben 11), was_reset)
unfolding authenticate_session find_session_by_token_hash find_account_by_id actor_for
    assert_session_active clone_date assert_account_can_authenticate create_actor_context sorted_set
    unique insert complete_password_reset require_active_challenge find_challenge_by_token_hash
    find_password_credential assert_password_policy safe_from atomic consume_challenge_if_active
    replace_password_credential replaced_credentials update_where revoke_all_sessions_for_account
    text_eq
ben_authenticates_after_reset = refl

complete_password_reset-lockout_example : ben ≢ ann
complete_password_reset-lockout_example =
    complete_password_reset-lockout service (postgres-IsRevoking base quiet) (codes "token")
      (codes "later") none 9 before was_reset (challenge_for ann) ann_challenge ann_resets ben none
      11 was_reset (actor_of ben 11) ben_authenticates_after_reset

postgres-IsRevoking_example : IsRevoking service
postgres-IsRevoking_example = postgres-IsRevoking base quiet

postgres-IsConsuming_example : IsConsuming service before
postgres-IsConsuming_example = postgres-IsConsuming base quiet before apart

abbrev attempt : Text → SignInInput
attempt password = record {
  email = codes "a@b.c";
  password = password;
  client_label = none;
  correlation_id = none;
}

abbrev carl : Text
carl = codes "a0000000-0000-1000-8000-000000000001"

-- An account with a canonical id, which a session needs.
abbrev one_account : World
one_account = (
  record {
    accounts = record (user ann) { id = carl } ∷ [];
    credentials = credential_for carl ∷ [];
    sessions = [];
    challenges = [];
  },
  [],
)

abbrev issuing : IdentityService World
issuing = record service { next_id = λ s. (ok carl, s) }

abbrev signed_in : World
signed_in = (sign_in issuing (attempt (codes "first")) 9 one_account).1

carl_signs_in : sign_in issuing (attempt (codes "first")) 9 one_account ≡ (
  ok (record {
    session_secret = codes "new";
    actor = record (actor_of carl 9) { session_id = carl };
  }),
  signed_in,
)
unfolding sign_in normalize_email require_non_blank trim trim_start is_space safe_from is_email
    find_account_by_normalized_email text_eq find_password_credential failure_reason
    assert_account_can_authenticate create_session clone_date require_uuid is_uuid to_lower matches
    normalize_client_label atomic Persistence.create_session require_initial_version actor_for
    create_actor_context insert sorted_set unique
carl_signs_in = refl

sign_in-IsVerified_example :
    (principal : Text) × (checked : World) × (normalize_email (λ t. t) (codes "a@b.c")
      ≡ ok principal)
    × (issuing.is_blocked principal 9 one_account ≡ (ok false, checked))
    × IsVerified issuing checked principal
        (attempt (codes "first"))
        (record (actor_of carl 9) { session_id = carl })
sign_in-IsVerified_example =
    sign_in-IsVerified issuing (attempt (codes "first")) 9 one_account signed_in
      {signed = record {
        session_secret = codes "new";
        actor = record (actor_of carl 9) { session_id = carl };
      }}
      carl_signs_in

-- A sink that refuses every event: the session has been revoked by then.
abbrev mute : IdentityService World
mute = record service { emit = λ event s. (err authentication_failed_error, s) }

ben_stays : (run mute (end_session ben) none 9 before).0 ≡ err authentication_failed_error
unfolding run sign_out find_session_by_token_hash text_eq revoke_session clone_date atomic
    replace_session_if_version_matches require_next_version safe_from update_where
ben_stays = refl

run-err_example : (run mute (end_session ben) none 9 before).1 ≡ before
run-err_example = run-err mute (end_session ben) none 9 before authentication_failed_error ben_stays
