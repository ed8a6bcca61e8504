-- ===== src/Identity/Contracts.antt =====
-- packages/identity/src/contracts.ts, with the event ids of generated/events.generated.ts. Methods
-- that look something up are queries: they read the state and may throw.
use taymex.Prelude.{ℕ, Text, Option, none, List}
use taymex.Foundation.Errors.{Number, Date}
use taymex.Effects.{Exec, Query}
use taymex.Identity.Account.{Account}
use taymex.Identity.Session.{SessionRecord}

pub record PasswordCredential : Type 0 where
  pub account_id : Text
  pub password_hash : Text
  pub changed_at : ℕ
  pub version : ℕ

-- CHALLENGE_KINDS
pub data IdentityChallengeKind : Type 0 where
  password_reset email_verification : IdentityChallengeKind

-- The expiry may be an invalid date, when it is past the largest time of a date.
pub record IdentityChallenge : Type 0 where
  pub id : Text
  pub kind : IdentityChallengeKind
  pub account_id : Text
  pub token_hash : Text
  pub created_at : ℕ
  pub expires_at : Date
  pub consumed_at : Option ℕ
  pub version : ℕ

pub data CreateResult : Type 0 where
  created duplicate_email : CreateResult

pub data ReplaceResult : Type 0 where
  updated version_conflict : ReplaceResult

pub data ConsumeResult : Type 0 where
  consumed unavailable : ConsumeResult

pub record IdentityRepository (S : Type 0) : Type 0 where
  pub find_account_by_id : Text → Query S (Option Account)
  pub find_account_by_normalized_email : Text → Query S (Option Account)
  pub create_account : Account → Exec S CreateResult
  pub replace_account_if_version_matches : Account → Number → Exec S ReplaceResult
  pub find_password_credential : Text → Query S (Option PasswordCredential)
  pub replace_password_credential : PasswordCredential → Exec S (Unit {0})
  pub create_session : SessionRecord → Exec S (Unit {0})
  pub find_session_by_token_hash : Text → Query S (Option SessionRecord)
  pub replace_session_if_version_matches : SessionRecord → ℕ → Exec S ReplaceResult
  pub list_sessions_for_account : Text → Query S (List SessionRecord)
  pub revoke_all_sessions_for_account : Text → ℕ → Exec S ℕ
  pub create_challenge : IdentityChallenge → Exec S (Unit {0})
  pub find_challenge_by_token_hash :
      IdentityChallengeKind → Text → Query S (Option IdentityChallenge)
  pub consume_challenge_if_active : Text → ℕ → ℕ → Exec S ConsumeResult

pub data IdentitySecurityReason : Type 0 where
  unknown_account wrong_password account_unavailable email_unverified throttled session_invalid :
      IdentitySecurityReason
  password_changed password_reset account_status_changed : IdentitySecurityReason

-- GeneratedIdentityEventId, less that of the service of roles
pub data IdentityEventId : Type 0 where
  account_provisioned account_status_changed email_verification_completed : IdentityEventId
  email_verification_requested password_reset_completed password_reset_requested : IdentityEventId
  password_changed session_issued session_revoked session_revoked_all : IdentityEventId
  session_rotated sign_in_failed sign_in_succeeded : IdentityEventId

pub record IdentitySecurityEvent : Type 0 where
  pub event_id : IdentityEventId
  pub occurred_at : ℕ
  pub subject_account_id : Option Text
  pub actor_account_id : Option Text
  pub session_id : Option Text
  pub reason : Option IdentitySecurityReason
  pub correlation_id : Option Text

-- an event without any of the fields that it may have
abbrev pub bare_event : IdentityEventId → ℕ → Option Text → IdentitySecurityEvent
bare_event event_id occurred_at correlation_id = record {
  event_id = event_id;
  occurred_at = occurred_at;
  subject_account_id = none;
  actor_account_id = none;
  session_id = none;
  reason = none;
  correlation_id = correlation_id;
}

pub data SecretDeliveryPurpose : Type 0 where
  password_reset email_verification : SecretDeliveryPurpose

pub record SecretDelivery : Type 0 where
  pub delivery_id : Text
  pub purpose : SecretDeliveryPurpose
  pub account_id : Text
  pub secret : Text
  pub expires_at : Date
