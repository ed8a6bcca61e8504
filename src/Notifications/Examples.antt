-- ===== src/Notifications/Examples.antt =====
-- The theorems on the outbox at concrete messages.
use taymex.Prelude.{
  ◌≡◌, refl, sym, ap, ◌∙◌, ℕ, length, Text, sort_by, insert_by, update_where, ◌≤◌, arith, codes,
  none, some, true, false, List, [], ◌∷◌, any, text_eq, trim, trim_start, is_space,
}
use taymex.Foundation.Errors.{Error, provider_error, Result, ok, err, nat, at, safe_from}
use taymex.Foundation.Validation.{matches, to_lower}
use taymex.Identity.Contracts.{SecretDeliveryPurpose}
use taymex.Notifications.Contracts.{
  NotificationOutboxRecord, OutboxStatus, pending, delivered, FailInput, FailResult,
}
use taymex.Notifications.Outbox.{
  ProcessorOptions, ProcessorLimits, processor_limits, bounded_integer, retry_delay, require_uuid,
  is_delivery_code, error_code_of, normalize_error_code, require_locale, is_locale, is_locale_tail,
}
use taymex.Notifications.Outbox.Bounds.{retry_delay-bounds}
use taymex.Notifications.Processor.{
  Processor, Summary, Counts, no_counts, claim_input, process_once, process_jobs, new_record,
}
use taymex.Notifications.Processor.Pass.{
  IsPass, IsAnswering, process_once-IsPass, process_jobs-returns,
}
use taymex.Notifications.Store.{
  Outbox, candidates, claim_batch, mark_failed, failing, postgres_notification_outbox_store,
}
use taymex.Notifications.Store.Attempts.{Terms, fail_times, fail_times-dead}
use taymex.Notifications.Store.Settled.{is_settled, has_id}
use taymex.Notifications.Store.Lifecycle.{
  OutboxOperation, deliver, claim, apply_all, apply_all-settled,
}

abbrev defaults : ProcessorOptions
defaults = record {
  batch_size = none;
  lease_duration_ms = none;
  max_attempts = some (nat 3);
  base_retry_delay_ms = none;
  max_retry_delay_ms = none;
}

abbrev limits : ProcessorLimits
limits = record {
  batch_size = 25;
  lease_duration_ms = 30000;
  max_attempts = 3;
  base_retry_delay_ms = 5000;
  max_retry_delay_ms = 300000;
}

defaults-limits : processor_limits defaults ≡ ok limits
unfolding processor_limits bounded_integer safe_from
defaults-limits = refl

retry_delay-bounds_example :
    (100 ≤ 5000)
    × (5000 ≤ retry_delay limits 1)
    × (retry_delay limits 1 ≤ retry_delay limits 7)
    × (retry_delay limits 7 ≤ 300000)
    × (300000 ≤ 86400000)
retry_delay-bounds_example = retry_delay-bounds defaults limits 1 7 defaults-limits (omega arith)

abbrev row : NotificationOutboxRecord
row =
    new_record (codes "m1") (codes "d1") (codes "a1")
      (record { iv_base64 = []; ciphertext_base64 = []; auth_tag_base64 = [] }) 10

abbrev lease : Text
lease = codes "a0000000-0000-1000-8000-000000000001"

abbrev World : Type 0
World = Outbox (Unit {0})

abbrev start : World
start = (row ∷ [], tt)

-- The store over its table, a clock that stands, and a provider that is down.
abbrev processor : Processor World
processor = record {
  store = postgres_notification_outbox_store (Unit {0});
  codec = record {
    encrypt = λ payload id s. (ok (row.payload), s);
    decrypt = λ payload id. ok (record {
      purpose = SecretDeliveryPurpose.password_reset;
      secret = codes "secret";
      expires_at = at 900;
    });
  };
  resolve = λ id s. (ok (some (record { address = codes "a@b.c"; locale = codes "en" })), s);
  send = λ request s. (err (provider_error (codes "down")), s);
  now = λ s. (ok 20, s);
  next_lease_token = λ s. (ok lease, s);
  limits = limits;
}

abbrev put_off : Counts
put_off = record { delivered = 0; retried = 1; dead = 0 }

abbrev summary : Summary
summary = record { claimed = 1; counts = put_off }

abbrev failed : NotificationOutboxRecord
failed = record row {
  attempt_count = 1;
  available_at = 5020;
  last_error_code = some (codes "down");
}

passed : process_once processor start ≡ (ok summary, (failed ∷ [], tt))
unfolding process_once process_jobs require_uuid trim trim_start is_space matches to_lower
    require_locale is_locale is_locale_tail error_code_of normalize_error_code is_delivery_code
    retry_delay mark_failed claim_batch candidates text_eq sort_by insert_by update_where
passed = refl

process_once-IsPass_example :
    (time : ℕ) × (lease_token : Text) × (jobs : List NotificationOutboxRecord) × (u v : World)
    × (processor.store.claim_batch (claim_input processor time lease_token) u ≡ (ok jobs, v))
    × (1 ≡ length jobs)
    × IsPass processor lease_token jobs v no_counts (failed ∷ [], tt) put_off
process_once-IsPass_example = process_once-IsPass processor start (failed ∷ [], tt) summary passed

answers :
    (input : FailInput) (time : ℕ) (u : World)
    → is_delivery_code input.error_code ≡ true
    → input.next_available_at ≡ at time
    → (r : FailResult) × ((mark_failed input u).0 ≡ ok r)
unfolding mark_failed
answers input time u accepted valid = go (mark_failed input u).0 refl
  where
    go :
        (r : Result FailResult)
        → (mark_failed input u).0 ≡ r
        → (r : FailResult) × ((mark_failed input u).0 ≡ ok r)
    go (ok r) k = (r, k)
    go (err e) k = absurd (differ (sym k ∙ ap (λ d. (failing input d u).0) valid))
      where
        differ : {a : FailResult} {e : Error} → err e ≡ ok a → ⊥
        differ x = cc

processor-IsAnswering : IsAnswering processor
processor-IsAnswering = record { ticks = λ u. (20, refl, omega arith); answers = answers }

process_jobs-returns_example :
    (t : World) × (d : Counts) × (process_jobs processor (row ∷ []) lease (start, no_counts)
      ≡ (ok tt, (t, d)))
    × IsPass processor lease (row ∷ []) start no_counts t d
process_jobs-returns_example =
    process_jobs-returns processor processor-IsAnswering (row ∷ []) lease start no_counts

abbrev terms : ℕ → Terms
terms n = record {
  lease_token = codes "t";
  lease_expires_at = 30000;
  error_code = codes "down";
  next_available_at = 5000;
}

fail_times-dead_example :
    ((fail_times 3 terms 2 row).status ≡ pending)
    × ((fail_times 3 terms 3 row).status ≡ OutboxStatus.dead)
    × ((fail_times 3 terms 3 row).attempt_count ≡ 3)
fail_times-dead_example = fail_times-dead 3 terms row 2 refl refl (omega arith)

abbrev done : NotificationOutboxRecord
done = record row { status = delivered; delivered_at = some 30 }

abbrev again : List OutboxOperation
again =
    claim (record { now = 50; limit = 5; lease_token = codes "t"; lease_duration_ms = 1000 })
    ∷ deliver (codes "m1") (codes "t") 60
    ∷ []

done-settled : is_settled (codes "m1") (done ∷ []) ≡ true
unfolding is_settled text_eq
done-settled = refl

apply_all-settled_example :
    (is_settled (codes "m1") (apply_all again (done ∷ [], tt {0})).0 ≡ true)
    × (any (has_id (codes "m1")) (candidates 99 10 (apply_all again (done ∷ [], tt {0})).0) ≡ false)
apply_all-settled_example =
    apply_all-settled (codes "m1") again (done ∷ [], tt {0}) 99 10 done-settled
