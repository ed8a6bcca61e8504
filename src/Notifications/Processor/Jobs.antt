-- ===== src/Notifications/Processor/Jobs.antt =====
-- What a pass over the outbox does with one job, and what it counts.
use mathlib.Core.Path.{subst}
use taymex.Prelude.{
  ◌≡◌, refl, ap, ◌∙◌, ℕ, Text, codes, Option, none, some, Bool, true, false, if◌then◌else◌,
}
use taymex.Foundation.Errors.{Error, ok, err}
use taymex.Effects.Runs.{lift-ok}
use taymex.Identity.Authentication.{is_past}
use taymex.Notifications.Contracts.{
  NotificationOutboxRecord, FailResult, UpdateResult, SecretNotificationPayload,
  NotificationRecipient,
}
use taymex.Notifications.Outbox.{require_locale, error_code_of}
use taymex.Notifications.Processor.{
  Processor, Counts, one_delivered, one_dead, after_failure, if_updated, failure, fail, request_for,
  send_to, bury_expired, send_in_time, send_or_bury, try_job,
}
use taymex.Notifications.Processor.Counters.{
  DeliveredAs, BuriedAs, FailedAs, DeliveredAs-if_updated, BuriedAs-if_updated,
  FailedAs-after_failure, on_state-ok, count-ok, IsUncounted, count-IsUncounted,
  on_state-IsUncounted, lift-IsUncounted,
}

module _ {S : Type 0} (processor : Processor S) where
  -- What is done with a job, from a state with its counts to another: it is sent in time and
  -- reported as delivered, it is expired and buried, it has no recipient or what was tried threw,
  -- and a failure is reported. One report is made last, and its answer is what is counted.
  pub data IsDone (job : NotificationOutboxRecord) (lease_token : Text) (s : S) (c : Counts) (t : S)
      (d : Counts) : Type 0 where
    sent :
        (payload : SecretNotificationPayload) (time : ℕ) (s1 : S)
        (recipient : NotificationRecipient) (s2 : S) (locale : Text) (s3 : S) (r : UpdateResult)
        → processor.codec.decrypt job.payload job.id ≡ ok payload
        → processor.now s ≡ (ok time, s1)
        → is_past payload.expires_at time ≡ false
        → processor.resolve job.recipient_account_id s1 ≡ (ok (some recipient), s2)
        → require_locale recipient.locale ≡ ok locale
        → processor.send (request_for processor job payload recipient locale) s2 ≡ (ok tt, s3)
        → processor.store.mark_delivered job.id lease_token time s3 ≡ (ok r, t)
        → DeliveredAs r c d
        → IsDone job lease_token s c t d
    expired :
        (payload : SecretNotificationPayload) (time : ℕ) (s1 : S) (r : UpdateResult)
        → processor.codec.decrypt job.payload job.id ≡ ok payload
        → processor.now s ≡ (ok time, s1)
        → is_past payload.expires_at time ≡ true
        → processor.store.mark_dead job.id lease_token (codes "delivery-expired") s1 ≡ (ok r, t)
        → BuriedAs r c d
        → IsDone job lease_token s c t d
    unavailable :
        (payload : SecretNotificationPayload) (time : ℕ) (s1 s2 : S) (r : FailResult)
        → processor.codec.decrypt job.payload job.id ≡ ok payload
        → processor.now s ≡ (ok time, s1)
        → is_past payload.expires_at time ≡ false
        → processor.resolve job.recipient_account_id s1 ≡ (ok none, s2)
        → processor.store.mark_failed
            (failure processor job lease_token (codes "recipient-unavailable") time)
            s2
          ≡ (ok r, t)
        → FailedAs r c d
        → IsDone job lease_token s c t d
    thrown :
        (e : Error) (u : S) (time : ℕ) (v : S) (r : FailResult)
        → try_job processor job lease_token (s, c) ≡ (err e, (u, c))
        → processor.now u ≡ (ok time, v)
        → processor.store.mark_failed (failure processor job lease_token (error_code_of e) time) v
          ≡ (ok r, t)
        → FailedAs r c d
        → IsDone job lease_token s c t d

  pub fail-ok :
      (job : NotificationOutboxRecord) (lease_token code : Text) (time : ℕ) (s t : S) (c d : Counts)
      → fail processor job lease_token code time (s, c) ≡ (ok tt, (t, d))
      → (r : FailResult) × (processor.store.mark_failed
            (failure processor job lease_token code time)
            s
          ≡ (ok r, t))
        × FailedAs r c d
  fail-ok job lease_token code time s t c d h =
      let (r, u, told, k) =
        on_state-ok (processor.store.mark_failed (failure processor job lease_token code time)) _ s
          c h in
      let (there, counted) = count-ok (after_failure r) u t c d k in
      (
        r,
        told ∙ ap (λ x. (ok r, x)) there,
        subst (FailedAs r c) counted (FailedAs-after_failure r c),
      )

  send_to-ok :
      (job : NotificationOutboxRecord) (lease_token : Text) (payload : SecretNotificationPayload)
      (time : ℕ) (o : Option NotificationRecipient) (s s1 s2 t : S) (c d : Counts)
      → processor.codec.decrypt job.payload job.id ≡ ok payload
      → processor.now s ≡ (ok time, s1)
      → is_past payload.expires_at time ≡ false
      → processor.resolve job.recipient_account_id s1 ≡ (ok o, s2)
      → send_to processor job lease_token payload time o (s2, c) ≡ (ok tt, (t, d))
      → IsDone job lease_token s c t d
  send_to-ok job lease_token payload time none s s1 s2 t c d opened ticked live found h =
      let (r, told, counted) =
        fail-ok job lease_token (codes "recipient-unavailable") time s2 t c d h in
      unavailable payload time s1 s2 r opened ticked live found told counted
  send_to-ok job lease_token payload time (some recipient) s s1 s2 t c d opened ticked live found
        h =
      let (locale, spoken, k) = lift-ok (require_locale recipient.locale) _ (s2, c) h in
      let (done, s3, gone, l) =
        on_state-ok (processor.send (request_for processor job payload recipient locale)) _ s2 c
          k in
      let (r, u, told, m) =
        on_state-ok (processor.store.mark_delivered job.id lease_token time) _ s3 c l in
      let (there, counted) = count-ok (if_updated one_delivered r) u t c d m in
      sent payload time s1 recipient s2 locale s3 r opened ticked live found spoken gone
        (told ∙ ap (λ x. (ok r, x)) there)
        (subst (DeliveredAs r c) counted (DeliveredAs-if_updated r c))

  pub try_job-ok :
      (job : NotificationOutboxRecord) (lease_token : Text) (s t : S) (c d : Counts)
      → try_job processor job lease_token (s, c) ≡ (ok tt, (t, d))
      → IsDone job lease_token s c t d
  try_job-ok job lease_token s t c d h =
      let (payload, opened, k) = lift-ok (processor.codec.decrypt job.payload job.id) _ (s, c) h in
      let (time, s1, ticked, l) = on_state-ok processor.now _ s c k in
      go payload time s1 opened ticked (is_past payload.expires_at time) refl l
    where
      go :
          (payload : SecretNotificationPayload) (time : ℕ) (s1 : S)
          → processor.codec.decrypt job.payload job.id ≡ ok payload
          → processor.now s ≡ (ok time, s1)
          → (b : Bool) → is_past payload.expires_at time ≡ b
          → (if b
                then bury_expired processor job lease_token
                else send_in_time processor job lease_token payload time)
              (s1, c)
            ≡ (ok tt, (t, d))
          → IsDone job lease_token s c t d
      go payload time s1 opened ticked true late k =
          let (r, u, told, l) =
            on_state-ok (processor.store.mark_dead job.id lease_token (codes "delivery-expired")) _
              s1 c k in
          let (there, counted) = count-ok (if_updated one_dead r) u t c d l in
          expired payload time s1 r opened ticked late (told ∙ ap (λ x. (ok r, x)) there)
            (subst (BuriedAs r c) counted (BuriedAs-if_updated r c))
      go payload time s1 opened ticked false live k =
          let (o, s2, found, l) =
            on_state-ok (processor.resolve job.recipient_account_id) _ s1 c k in
          send_to-ok job lease_token payload time o s s1 s2 t c d opened ticked live found l

  fail-IsUncounted :
      (job : NotificationOutboxRecord) (lease_token code : Text) (time : ℕ)
      → IsUncounted (fail processor job lease_token code time)
  fail-IsUncounted job lease_token code time =
      on_state-IsUncounted _ (λ r. count-IsUncounted (after_failure r))

  send_to-IsUncounted :
      (job : NotificationOutboxRecord) (lease_token : Text) (payload : SecretNotificationPayload)
      (time : ℕ) (o : Option NotificationRecipient)
      → IsUncounted (send_to processor job lease_token payload time o)
  send_to-IsUncounted job lease_token payload time none =
      fail-IsUncounted job lease_token (codes "recipient-unavailable") time
  send_to-IsUncounted job lease_token payload time (some recipient) =
      lift-IsUncounted (require_locale recipient.locale) (λ locale.
        on_state-IsUncounted (processor.send (request_for processor job payload recipient locale))
          (λ done.
            on_state-IsUncounted (processor.store.mark_delivered job.id lease_token time)
              (λ r. count-IsUncounted (if_updated one_delivered r))))

  send_or_bury-IsUncounted :
      (job : NotificationOutboxRecord) (lease_token : Text) (payload : SecretNotificationPayload)
      (time : ℕ)
      → IsUncounted (send_or_bury processor job lease_token payload time)
  send_or_bury-IsUncounted job lease_token payload time = go (is_past payload.expires_at time)
    where
      go :
          (b : Bool)
          → IsUncounted (
              if b
              then bury_expired processor job lease_token
              else send_in_time processor job lease_token payload time)
      go true =
          on_state-IsUncounted
            (processor.store.mark_dead job.id lease_token (codes "delivery-expired"))
            (λ r. count-IsUncounted (if_updated one_dead r))
      go false =
          on_state-IsUncounted (processor.resolve job.recipient_account_id)
            (λ o. send_to-IsUncounted job lease_token payload time o)

  pub try_job-IsUncounted :
      (job : NotificationOutboxRecord) (lease_token : Text)
      → IsUncounted (try_job processor job lease_token)
  try_job-IsUncounted job lease_token =
      lift-IsUncounted (processor.codec.decrypt job.payload job.id) (λ payload.
        on_state-IsUncounted processor.now
          (λ time. send_or_bury-IsUncounted job lease_token payload time))
