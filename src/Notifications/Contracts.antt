-- ===== src/Notifications/Contracts.antt =====
-- packages/notifications/src/contracts.ts. There is one event, so a record's event id is left out.
use taymex.Prelude.{ℕ, Text, Option, List}
use taymex.Foundation.Errors.{Result, Date}
use taymex.Effects.{Exec}
use taymex.Identity.Contracts.{SecretDeliveryPurpose}

-- OUTBOX_STATUSES
pub data OutboxStatus : Type 0 where
  pending processing delivered dead : OutboxStatus

pub record EncryptedNotificationPayload : Type 0 where
  pub iv_base64 : Text
  pub ciphertext_base64 : Text
  pub auth_tag_base64 : Text

pub record SecretNotificationPayload : Type 0 where
  pub purpose : SecretDeliveryPurpose
  pub secret : Text
  pub expires_at : Date

pub record NotificationOutboxRecord : Type 0 where
  pub id : Text
  pub event_version : ℕ
  pub dedupe_key : Text
  pub recipient_account_id : Text
  pub payload : EncryptedNotificationPayload
  pub created_at : ℕ
  pub available_at : ℕ
  pub attempt_count : ℕ
  pub status : OutboxStatus
  pub lease_token : Option Text
  pub lease_expires_at : Option ℕ
  pub last_error_code : Option Text
  pub delivered_at : Option ℕ

pub data EnqueueResult : Type 0 where
  enqueued duplicate : EnqueueResult

pub data UpdateResult : Type 0 where
  updated lease_lost : UpdateResult

pub data FailResult : Type 0 where
  retried buried lease_lost : FailResult

pub record ClaimInput : Type 0 where
  pub now : ℕ
  pub limit : ℕ
  pub lease_token : Text
  pub lease_duration_ms : ℕ

pub record FailInput : Type 0 where
  pub id : Text
  pub lease_token : Text
  pub error_code : Text
  pub next_available_at : Date
  pub max_attempts : ℕ

pub record NotificationOutboxStore (S : Type 0) : Type 0 where
  pub enqueue : NotificationOutboxRecord → Exec S EnqueueResult
  pub claim_batch : ClaimInput → Exec S (List NotificationOutboxRecord)
  pub mark_delivered : Text → Text → ℕ → Exec S UpdateResult
  pub mark_failed : FailInput → Exec S FailResult
  pub mark_dead : Text → Text → Text → Exec S UpdateResult

-- Encryption draws what it needs; both directions are bound to the record's id.
pub record NotificationPayloadCodec (S : Type 0) : Type 0 where
  pub encrypt : SecretNotificationPayload → Text → Exec S EncryptedNotificationPayload
  pub decrypt : EncryptedNotificationPayload → Text → Result SecretNotificationPayload

-- The one channel is email.
pub record NotificationRecipient : Type 0 where
  pub address : Text
  pub locale : Text

pub data TemplateId : Type 0 where
  identity_password_reset identity_email_verification : TemplateId

pub record NotificationProviderRequest : Type 0 where
  pub delivery_id : Text
  pub idempotency_key : Text
  pub recipient : NotificationRecipient
  pub template_id : TemplateId
  pub locale : Text
  pub secret : Text
  pub expires_at : Date
