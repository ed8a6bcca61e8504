-- ===== src/Notifications/Processor.antt =====
-- packages/notifications/src/outbox.ts: the sink that fills the outbox, the processor that empties it
-- and the resolver of recipients. The clock, the ids, the codec, the provider and the store are
-- parameters over one state.
pub mod Counters
pub mod Jobs
pub mod Pass
use taymex.Prelude.{
  ℕ, ◌+◌, Text, codes, Option, none, some, Bool, true, false, List, [], ◌∷◌, ◌++◌, leb, length,
  if◌then◌else◌,
}
use taymex.Foundation.Errors.{type_error, Error, Result, ok, err, Date, at, invalid}
use taymex.Effects.{Exec, ◌>>=◌, ◌>>◌, pure, raise, lift, query, catch}
use taymex.Identity.Account.{Account, active, same_status}
use taymex.Identity.Authentication.{is_past, date_of}
use taymex.Identity.Contracts.{
  SecretDelivery, SecretDeliveryPurpose, password_reset, email_verification, IdentityRepository,
}
use taymex.Notifications.Contracts.{
  NotificationOutboxRecord, NotificationOutboxStore, NotificationPayloadCodec,
  NotificationRecipient, NotificationProviderRequest, identity_password_reset,
  identity_email_verification, TemplateId, SecretNotificationPayload, EncryptedNotificationPayload,
  UpdateResult, updated, ClaimInput, FailResult, FailInput, retried, buried, pending,
}
use taymex.Notifications.Outbox.{
  ProcessorLimits, retry_delay, require_uuid, require_locale, error_code_of,
}

-- the three counters of a pass
pub record Counts : Type 0 where
  pub delivered : ℕ
  pub retried : ℕ
  pub dead : ℕ

abbrev pub one_delivered : Counts → Counts
one_delivered c = record c { delivered = c.delivered + 1 }

abbrev pub one_retried : Counts → Counts
one_retried c = record c { retried = c.retried + 1 }

abbrev pub one_dead : Counts → Counts
one_dead c = record c { dead = c.dead + 1 }

-- `if (outcome === 'DEAD') dead += 1; else if (outcome === 'PENDING') retried += 1;`
abbrev pub after_failure : FailResult → Counts → Counts
after_failure retried c = one_retried c
after_failure buried c = one_dead c
after_failure FailResult.lease_lost c = c

-- `if (… === 'updated') … += 1;`
abbrev pub if_updated : (Counts → Counts) → UpdateResult → Counts → Counts
if_updated add updated c = add c
if_updated add UpdateResult.lease_lost c = c

-- `{ claimed: jobs.length, delivered, retried, dead }`
pub record Summary : Type 0 where
  pub claimed : ℕ
  pub counts : Counts

abbrev pub no_counts : Counts
no_counts = record { delivered = 0; retried = 0; dead = 0 }

-- A pass runs over the state and its own counters, which what is called does not see.
abbrev pub on_state : {S A : Type 0} → Exec S A → Exec (S × Counts) A
on_state m p = ((m p.0).0, ((m p.0).1, p.1))

abbrev pub count : {S : Type 0} → (Counts → Counts) → Exec (S × Counts) (Unit {0})
count add p = (ok tt, (p.0, add p.1))

abbrev template_for : SecretDeliveryPurpose → TemplateId
template_for password_reset = identity_password_reset
template_for email_verification = identity_email_verification

-- The fields of the processor.
pub record Processor (S : Type 0) : Type 0 where
  pub store : NotificationOutboxStore S
  pub codec : NotificationPayloadCodec S
  pub resolve : Text → Exec S (Option NotificationRecipient)
  pub send : NotificationProviderRequest → Exec S (Unit {0})
  pub now : Exec S ℕ
  pub next_lease_token : Exec S Text
  pub limits : ProcessorLimits

-- `new Date(time)` that is in the future
abbrev in_future : Date → ℕ → Bool
in_future (at time) now = leb (now + 1) time
in_future invalid now = false

abbrev if_future : Date → ℕ → Result (Unit {0})
if_future expires_at now =
    if in_future expires_at now
    then ok tt
    else err (type_error "Secret delivery expiry must be in the future.")

abbrev pub new_record :
    Text → Text → Text → EncryptedNotificationPayload → ℕ → NotificationOutboxRecord
new_record id delivery_id account_id payload created_at = record {
  id = id;
  event_version = 1;
  dedupe_key = codes "secret-delivery:" ++ delivery_id;
  recipient_account_id = account_id;
  payload = payload;
  created_at = created_at;
  available_at = created_at;
  attempt_count = 0;
  status = pending;
  lease_token = none;
  lease_expires_at = none;
  last_error_code = none;
  delivered_at = none;
}

-- SecretDeliveryOutboxSink.deliver
unfoldable pub deliver :
    {S : Type 0}
    → NotificationOutboxStore S
    → NotificationPayloadCodec S
    → Exec S ℕ
    → Exec S Text
    → SecretDelivery
    → Exec S (Unit {0})
deliver store codec read_clock next_id delivery = do
  given_id ← next_id
  id ← lift (require_uuid given_id)
  delivery_id ← lift (require_uuid delivery.delivery_id)
  account_id ← lift (require_uuid delivery.account_id)
  created_at ← read_clock
  lift (if_future delivery.expires_at created_at)
  payload ←
      codec.encrypt
        (record {
          purpose = delivery.purpose;
          secret = delivery.secret;
          expires_at = delivery.expires_at;
        })
        id
  result ← store.enqueue (new_record id delivery_id account_id payload created_at)
  pure tt

module _ {S : Type 0} (processor : Processor S) where
  abbrev pub failure : NotificationOutboxRecord → Text → Text → ℕ → FailInput
  failure job lease_token error_code now = record {
    id = job.id;
    lease_token = lease_token;
    error_code = error_code;
    next_available_at = date_of (now + retry_delay processor.limits job.attempt_count);
    max_attempts = processor.limits.max_attempts;
  }

  abbrev pub fail : NotificationOutboxRecord → Text → Text → ℕ → Exec (S × Counts) (Unit {0})
  fail job lease_token error_code now = do
    outcome ← on_state (processor.store.mark_failed (failure job lease_token error_code now))
    count (after_failure outcome)

  abbrev pub request_for :
      NotificationOutboxRecord
      → SecretNotificationPayload
      → NotificationRecipient
      → Text
      → NotificationProviderRequest
  request_for job payload recipient locale = record {
    delivery_id = job.id;
    idempotency_key = job.dedupe_key;
    recipient = recipient;
    template_id = template_for payload.purpose;
    locale = locale;
    secret = payload.secret;
    expires_at = payload.expires_at;
  }

  abbrev pub send_to :
      NotificationOutboxRecord
      → Text
      → SecretNotificationPayload
      → ℕ
      → Option NotificationRecipient
      → Exec (S × Counts) (Unit {0})
  send_to job lease_token payload now none =
      fail job lease_token (codes "recipient-unavailable") now
  send_to job lease_token payload now (some recipient) = do
    locale ← lift (require_locale recipient.locale)
    sent ← on_state (processor.send (request_for job payload recipient locale))
    outcome ← on_state (processor.store.mark_delivered job.id lease_token now)
    count (if_updated one_delivered outcome)

  abbrev pub bury_expired : NotificationOutboxRecord → Text → Exec (S × Counts) (Unit {0})
  bury_expired job lease_token = do
    outcome ← on_state (processor.store.mark_dead job.id lease_token (codes "delivery-expired"))
    count (if_updated one_dead outcome)

  abbrev pub send_in_time :
      NotificationOutboxRecord → Text → SecretNotificationPayload → ℕ → Exec (S × Counts) (Unit {0})
  send_in_time job lease_token payload now = do
    recipient ← on_state (processor.resolve job.recipient_account_id)
    send_to job lease_token payload now recipient

  abbrev pub send_or_bury :
      NotificationOutboxRecord → Text → SecretNotificationPayload → ℕ → Exec (S × Counts) (Unit {0})
  send_or_bury job lease_token payload now =
      if is_past payload.expires_at now
      then bury_expired job lease_token
      else send_in_time job lease_token payload now

  -- the block that is tried
  abbrev pub try_job : NotificationOutboxRecord → Text → Exec (S × Counts) (Unit {0})
  try_job job lease_token = do
    payload ← lift (processor.codec.decrypt job.payload job.id)
    now ← on_state processor.now
    send_or_bury job lease_token payload now

  -- the handler
  abbrev pub handle : NotificationOutboxRecord → Text → Error → Exec (S × Counts) (Unit {0})
  handle job lease_token error = do
    now ← on_state processor.now
    fail job lease_token (error_code_of error) now

  abbrev pub process_job : NotificationOutboxRecord → Text → Exec (S × Counts) (Unit {0})
  process_job job lease_token = catch (try_job job lease_token) (handle job lease_token)

  -- the loop
  unfoldable pub process_jobs : List NotificationOutboxRecord → Text → Exec (S × Counts) (Unit {0})
  process_jobs [] lease_token = pure tt
  process_jobs (job ∷ jobs) lease_token =
      process_job job lease_token >> process_jobs jobs lease_token

  abbrev pub summary_of : ℕ → Result (Unit {0}) × (S × Counts) → Result Summary × S
  summary_of claimed (ok done, (s, counts)) =
      (ok (record { claimed = claimed; counts = counts }), s)
  summary_of claimed (err e, (s, counts)) = (err e, s)

  abbrev pub run_jobs : List NotificationOutboxRecord → Text → Exec S Summary
  run_jobs jobs lease_token s =
      summary_of (length jobs) (process_jobs jobs lease_token (s, no_counts))

  abbrev pub claim_input : ℕ → Text → ClaimInput
  claim_input claim_time lease_token = record {
    now = claim_time;
    limit = processor.limits.batch_size;
    lease_token = lease_token;
    lease_duration_ms = processor.limits.lease_duration_ms;
  }

  unfoldable pub process_once : Exec S Summary
  process_once = do
    claim_time ← processor.now
    given_token ← processor.next_lease_token
    lease_token ← lift (require_uuid given_token)
    jobs ← processor.store.claim_batch (claim_input claim_time lease_token)
    run_jobs jobs lease_token

abbrev recipient_of : Text → Option Account → Result (Option NotificationRecipient)
recipient_of default_locale none = ok none
recipient_of default_locale (some account) =
    if same_status account.status active
    then located account (require_locale default_locale)
    else ok none
  where
    located : Account → Result Text → Result (Option NotificationRecipient)
    located account (ok locale) = ok (some (record { address = account.email; locale = locale }))
    located account (err e) = err e

-- IdentityRepositoryRecipientResolver.resolve
unfoldable pub resolve_recipient :
    {S : Type 0} → IdentityRepository S → Text → Text → Exec S (Option NotificationRecipient)
resolve_recipient repository default_locale given_id = do
  account_id ← lift (require_uuid given_id)
  account ← query (repository.find_account_by_id account_id)
  lift (recipient_of default_locale account)
