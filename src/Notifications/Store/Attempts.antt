-- ===== src/Notifications/Store/Attempts.antt =====
-- A message that fails at every attempt.
use taymex.Prelude.{
  ◌≡◌, refl, ap, ◌∙◌, ℕ, zero, suc, ◌+◌, ◌≤◌, ◌<◌, arith, Text, leb, true, false, if◌then◌else◌,
}
use taymex.Notifications.Contracts.{NotificationOutboxRecord, pending, dead}
use taymex.Notifications.Store.{claimed_row, failed_row}

-- A message that is claimed and fails, again and again: at each attempt with the token, the end of
-- the lease, the code and the next time that `terms` gives for it.
pub record Terms : Type 0 where
  pub lease_token : Text
  pub lease_expires_at : ℕ
  pub error_code : Text
  pub next_available_at : ℕ

unfoldable pub fail_times :
    ℕ → (ℕ → Terms) → ℕ → NotificationOutboxRecord → NotificationOutboxRecord
fail_times max_attempts terms zero row = row
fail_times max_attempts terms (suc n) row =
    let before = fail_times max_attempts terms n row in
    failed_row (terms n).error_code (terms n).next_available_at max_attempts
      (claimed_row (terms n).lease_token (terms n).lease_expires_at before)

fail_times-attempt_count :
    (max_attempts : ℕ) (terms : ℕ → Terms) (n : ℕ) (row : NotificationOutboxRecord)
    → (fail_times max_attempts terms n row).attempt_count ≡ row.attempt_count + n
unfolding fail_times
fail_times-attempt_count max_attempts terms zero row = omega arith
fail_times-attempt_count max_attempts terms (suc n) row =
    let rest = fail_times-attempt_count max_attempts terms n row in omega arith

fail_times-status :
    (max_attempts : ℕ) (terms : ℕ → Terms) (n : ℕ) (row : NotificationOutboxRecord)
    → row.attempt_count ≡ 0
    → (fail_times max_attempts terms (suc n) row).status
      ≡ (if leb max_attempts (n + 1) then dead else pending)
unfolding fail_times
fail_times-status max_attempts terms n row fresh =
    let count = fail_times-attempt_count max_attempts terms n row in
    let tried : (fail_times max_attempts terms n row).attempt_count ≡ n = omega arith in
    ap (λ k. if leb max_attempts (k + 1) then dead else pending) tried

still_pending :
    (max_attempts : ℕ) (terms : ℕ → Terms) (n : ℕ) (row : NotificationOutboxRecord)
    → row.attempt_count ≡ 0
    → row.status ≡ pending
    → n < max_attempts
    → (fail_times max_attempts terms n row).status ≡ pending
unfolding fail_times
still_pending max_attempts terms zero row fresh is_pending less = is_pending
still_pending max_attempts terms (suc n) row fresh is_pending less =
    let early : leb max_attempts (n + 1) ≡ false = ground arith in
    fail_times-status max_attempts terms n row fresh ∙ rw early refl

last_dead :
    (max_attempts : ℕ) (terms : ℕ → Terms) (row : NotificationOutboxRecord)
    → row.attempt_count ≡ 0
    → 1 ≤ max_attempts
    → (fail_times max_attempts terms max_attempts row).status ≡ dead
last_dead zero terms row fresh one = ground arith
last_dead (suc n) terms row fresh one =
    let late : leb (suc n) (n + 1) ≡ true = ground arith in
    fail_times-status (suc n) terms n row fresh ∙ rw late refl

-- A message that has not been tried, and fails whenever it is claimed, is pending again after any
-- number of failures below the attempts that are allowed, and dead after that many: the attempts
-- end.
pub fail_times-dead :
    (max_attempts : ℕ) (terms : ℕ → Terms) (row : NotificationOutboxRecord) (n : ℕ)
    → row.attempt_count ≡ 0
    → row.status ≡ pending
    → n < max_attempts
    → ((fail_times max_attempts terms n row).status ≡ pending)
      × ((fail_times max_attempts terms max_attempts row).status ≡ dead)
      × ((fail_times max_attempts terms max_attempts row).attempt_count ≡ max_attempts)
fail_times-dead max_attempts terms row n fresh is_pending less =
    let count = fail_times-attempt_count max_attempts terms max_attempts row in
    (
      still_pending max_attempts terms n row fresh is_pending less,
      last_dead max_attempts terms row fresh (omega arith),
      omega arith,
    )
