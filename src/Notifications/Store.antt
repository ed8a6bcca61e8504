-- ===== src/Notifications/Store.antt =====
-- packages/notifications/src/postgres-store.ts, over the table of
-- packages/data-postgres/migrations/0003_f7_outbox.sql as the list of its rows. Each statement is one
-- step. Beside the table stands the state of the rest of the program, which no statement touches.
pub mod Attempts
pub mod Lifecycle
pub mod Settled
use taymex.Prelude.{
  ℕ, ◌+◌, Text, Option, none, some, Bool, true, false, ◌&&◌, ◌||◌, not, List, [], ◌∷◌, ◌++◌, map,
  any, filter, find, length, take, ltb, leb, ◌==◌, text_eq, text_ltb, update_where, sort_by,
  if◌then◌else◌,
}
use taymex.Foundation.Errors.{
  range_error, plain_error, Error, Result, ok, err, guard, Date, at, invalid,
}
use taymex.Effects.{Exec, ◌>>=◌, ◌>>◌, pure, raise, lift}
use taymex.Notifications.Contracts.{
  NotificationOutboxRecord, NotificationOutboxStore, OutboxStatus, pending, processing, delivered,
  dead, EnqueueResult, enqueued, duplicate, UpdateResult, updated, FailResult, retried, buried,
  ClaimInput, FailInput,
}

abbrev pub same_status : OutboxStatus → OutboxStatus → Bool
same_status pending pending = true
same_status processing processing = true
same_status delivered delivered = true
same_status dead dead = true
same_status _ _ = false

-- `lease_expires_at <= $1`, which NULL is not
abbrev is_expired : Option ℕ → ℕ → Bool
is_expired none now = false
is_expired (some time) now = leb time now

abbrev pub claimable : ℕ → NotificationOutboxRecord → Bool
claimable now row =
    leb row.available_at now
    && (same_status row.status pending
        || (same_status row.status processing && is_expired row.lease_expires_at now))

-- `ORDER BY available_at ASC, created_at ASC, id ASC`
abbrev before : NotificationOutboxRecord → NotificationOutboxRecord → Bool
before a b =
    ltb a.available_at b.available_at
    || (a.available_at == b.available_at
        && (ltb a.created_at b.created_at || (a.created_at == b.created_at && text_ltb a.id b.id)))

-- the candidates of a claim
unfoldable pub candidates : ℕ → ℕ → List NotificationOutboxRecord → List NotificationOutboxRecord
candidates now limit rows = take limit (sort_by before (filter (claimable now) rows))

abbrev pub is_one_of : List NotificationOutboxRecord → NotificationOutboxRecord → Bool
is_one_of chosen row = any (λ (c : NotificationOutboxRecord). text_eq c.id row.id) chosen

abbrev pub claimed_row : Text → ℕ → NotificationOutboxRecord → NotificationOutboxRecord
claimed_row lease_token lease_expires_at row = record row {
  status = processing;
  lease_token = some lease_token;
  lease_expires_at = some lease_expires_at;
}

-- `lease_token=$2`, which NULL is not
abbrev is_lease : Option Text → Text → Bool
is_lease none lease_token = false
is_lease (some token) lease_token = text_eq token lease_token

-- `WHERE id=$1 AND status='PROCESSING' AND lease_token=$2`
abbrev pub leased : Text → Text → NotificationOutboxRecord → Bool
leased id lease_token row =
    text_eq row.id id && same_status row.status processing && is_lease row.lease_token lease_token

abbrev pub delivered_row : ℕ → NotificationOutboxRecord → NotificationOutboxRecord
delivered_row delivered_at row = record row {
  status = delivered;
  delivered_at = some delivered_at;
  lease_token = none;
  lease_expires_at = none;
  last_error_code = none;
}

abbrev pub failed_row : Text → ℕ → ℕ → NotificationOutboxRecord → NotificationOutboxRecord
failed_row error_code next_available_at max_attempts row =
    let last = leb max_attempts (row.attempt_count + 1) in
    record row {
      attempt_count = row.attempt_count + 1;
      status = if last then dead else pending;
      available_at = if last then row.available_at else next_available_at;
      last_error_code = some error_code;
      lease_token = none;
      lease_expires_at = none;
    }

abbrev pub dead_row : Text → NotificationOutboxRecord → NotificationOutboxRecord
dead_row error_code row = record row {
  status = dead;
  attempt_count = row.attempt_count + 1;
  last_error_code = some error_code;
  lease_token = none;
  lease_expires_at = none;
}

-- `rowCount === 1 ? … : …`
abbrev updated_if : Bool → UpdateResult
updated_if true = updated
updated_if false = UpdateResult.lease_lost

abbrev fail_result : List NotificationOutboxRecord → FailResult
fail_result [] = FailResult.lease_lost
fail_result (row ∷ rows) =
    if same_status row.status pending
    then retried
    else if same_status row.status dead
    then buried
    else FailResult.lease_lost

abbrev pub limit_check : ClaimInput → Result (Unit {0})
limit_check input =
    guard (leb 1 input.limit && leb input.limit 100)
      (range_error "Outbox claim limit must be between 1 and 100.")

abbrev pub lease_check : ClaimInput → Result (Unit {0})
lease_check input =
    guard (leb 1000 input.lease_duration_ms && leb input.lease_duration_ms 300000)
      (range_error "Outbox lease duration is out of bounds.")

abbrev pub Outbox : Type 0 → Type 0
Outbox W = List NotificationOutboxRecord × W

module _ {W : Type 0} where
  unfoldable pub enqueue : NotificationOutboxRecord → Exec (Outbox W) EnqueueResult
  enqueue row s =
      if any (λ (r : NotificationOutboxRecord). text_eq r.dedupe_key row.dedupe_key) s.0
      then (ok duplicate, s)
      else if any (λ (r : NotificationOutboxRecord). text_eq r.id row.id) s.0
      then (err (plain_error "constraint violated"), s)
      else (ok enqueued, (s.0 ++ row ∷ [], s.1))

  abbrev pub claim_rows : ClaimInput → Exec (Outbox W) (List NotificationOutboxRecord)
  claim_rows input s =
      let chosen = is_one_of (candidates input.now input.limit s.0) in
      let claim = claimed_row input.lease_token (input.now + input.lease_duration_ms) in
      (ok (map claim (filter chosen s.0)), (update_where chosen claim s.0, s.1))

  unfoldable pub claim_batch : ClaimInput → Exec (Outbox W) (List NotificationOutboxRecord)
  claim_batch input = do lift (limit_check input); lift (lease_check input); claim_rows input

  abbrev update_leased :
      Text
      → Text
      → (NotificationOutboxRecord → NotificationOutboxRecord)
      → Exec (Outbox W) UpdateResult
  update_leased id lease_token change s = (
    ok (updated_if (length (filter (leased id lease_token) s.0) == 1)),
    (update_where (leased id lease_token) change s.0, s.1),
  )

  unfoldable pub mark_delivered : Text → Text → ℕ → Exec (Outbox W) UpdateResult
  mark_delivered id lease_token delivered_at =
      update_leased id lease_token (delivered_row delivered_at)

  abbrev fail_at : FailInput → ℕ → Exec (Outbox W) FailResult
  fail_at input next_available_at s =
      let change = failed_row input.error_code next_available_at input.max_attempts in
      (
        ok (fail_result (map change (filter (leased input.id input.lease_token) s.0))),
        (update_where (leased input.id input.lease_token) change s.0, s.1),
      )

  -- An invalid date is no parameter of a statement.
  abbrev pub failing : FailInput → Date → Exec (Outbox W) FailResult
  failing input (at time) = fail_at input time
  failing input invalid = raise (plain_error "invalid date")

  unfoldable pub mark_failed : FailInput → Exec (Outbox W) FailResult
  mark_failed input = failing input input.next_available_at

  unfoldable pub mark_dead : Text → Text → Text → Exec (Outbox W) UpdateResult
  mark_dead id lease_token error_code = update_leased id lease_token (dead_row error_code)

-- PostgresNotificationOutboxStore
abbrev pub postgres_notification_outbox_store : (W : Type 0) → NotificationOutboxStore (Outbox W)
postgres_notification_outbox_store W = record {
  enqueue = enqueue;
  claim_batch = claim_batch;
  mark_delivered = mark_delivered;
  mark_failed = mark_failed;
  mark_dead = mark_dead;
}
