-- ===== src/Notifications/Store/Lifecycle.antt =====
-- A message that has been delivered, or is dead, stays so, and is claimed no more.
use taymex.Prelude.{
  ◌≡◌, refl, ℕ, ◌+◌, Text, true, false, List, [], ◌∷◌, any, text_eq, Bool-cases, inl, inr,
}
use taymex.Foundation.Errors.{Result, ok, err, Date, at, invalid}
use taymex.Effects.{Exec, ◌>>=◌, lift}
use taymex.Notifications.Contracts.{NotificationOutboxRecord, ClaimInput, FailInput}
use taymex.Notifications.Store.{
  Outbox, candidates, is_one_of, claimed_row, leased, delivered_row, failed_row, dead_row, enqueue,
  claim_batch, mark_delivered, mark_failed, mark_dead, claim_rows, failing,
}
use taymex.Notifications.Store.{limit_check, lease_check}
use taymex.Notifications.Store.Settled.{
  is_settled, has_id, not_leased, update_where-settled, candidates-settled, not_chosen,
  append-settled, other_id,
}

pub data OutboxOperation : Type 0 where
  enqueue_record : NotificationOutboxRecord → OutboxOperation
  claim : ClaimInput → OutboxOperation
  deliver : Text → Text → ℕ → OutboxOperation
  fail : FailInput → OutboxOperation
  bury : Text → Text → Text → OutboxOperation

module _ {W : Type 0} where
  -- the table after an operation, whatever it returns
  unfoldable pub apply : OutboxOperation → Outbox W → Outbox W
  apply (enqueue_record row) s = (enqueue row s).1
  apply (claim input) s = (claim_batch input s).1
  apply (deliver id lease_token delivered_at) s = (mark_delivered id lease_token delivered_at s).1
  apply (fail input) s = (mark_failed input s).1
  apply (bury id lease_token error_code) s = (mark_dead id lease_token error_code s).1

  unfoldable pub apply_all : List OutboxOperation → Outbox W → Outbox W
  apply_all [] s = s
  apply_all (operation ∷ operations) s = apply_all operations (apply operation s)

module _ {W : Type 0} where
  -- A checked statement keeps what it keeps when the check passes.
  guarded-settled :
      {A : Type 0} (id : Text) (r : Result (Unit {0})) (m : Exec (Outbox W) A) (s : Outbox W)
      → is_settled id s.0 ≡ true
      → is_settled id (m s).1.0 ≡ true
      → is_settled id ((lift r >>= λ _. m) s).1.0 ≡ true
  guarded-settled id (ok a) m s h k = k
  guarded-settled id (err e) m s h k = h

  claim_rows-settled :
      (id : Text) (input : ClaimInput) (s : Outbox W)
      → is_settled id s.0 ≡ true
      → is_settled id (claim_rows input s).1.0 ≡ true
  claim_rows-settled id input s h =
      let chosen = candidates input.now input.limit s.0 in
      update_where-settled id (is_one_of chosen)
        (claimed_row input.lease_token (input.now + input.lease_duration_ms))
        (λ r mine _.
          not_chosen id chosen r (candidates-settled id input.now input.limit s.0 h) mine)
        (λ r. refl) s.0 h

  apply-settled :
      (id : Text) (operation : OutboxOperation) (s : Outbox W)
      → is_settled id s.0 ≡ true
      → is_settled id (apply operation s).0 ≡ true
  unfolding apply enqueue claim_batch mark_delivered mark_failed mark_dead
  apply-settled id (enqueue_record row) s h =
      elim (Bool-cases
        (any (λ (r : NotificationOutboxRecord). text_eq r.dedupe_key row.dedupe_key) s.0)) [
          | inl known ↦ rw (apply, enqueue, known) h
          | inr fresh ↦
              elim (Bool-cases (any (λ (r : NotificationOutboxRecord). text_eq r.id row.id) s.0)) [
                | inl taken ↦ rw (apply, enqueue, fresh, taken) h
                | inr free ↦
                    rw (apply, enqueue, fresh, free)
                      (append-settled id row s.0 (other_id id row s.0 free h) h)
              ]
        ]
  apply-settled id (claim input) s h =
      guarded-settled {A = List NotificationOutboxRecord} id (limit_check input)
        (lift (lease_check input) >>= λ _. claim_rows input) s h
        (guarded-settled {A = List NotificationOutboxRecord} id (lease_check input)
          (claim_rows input) s h (claim_rows-settled id input s h))
  apply-settled id (deliver given lease_token delivered_at) s h =
      update_where-settled id (leased given lease_token) (delivered_row delivered_at)
        (λ r _ over. not_leased given lease_token r over) (λ r. refl) s.0 h
  apply-settled id (fail input) s h = go input.next_available_at
    where
      go : (next : Date) → is_settled id (failing {W = W} input next s).1.0 ≡ true
      go (at time) =
          update_where-settled id (leased input.id input.lease_token)
            (failed_row input.error_code time input.max_attempts)
            (λ r _ over. not_leased input.id input.lease_token r over) (λ r. refl) s.0 h
      go invalid = h
  apply-settled id (bury given lease_token error_code) s h =
      update_where-settled id (leased given lease_token) (dead_row error_code)
        (λ r _ over. not_leased given lease_token r over) (λ r. refl) s.0 h

  -- Once every message of an id is delivered or dead, it stays so through any operations of the store,
  -- in any order, and no claim takes such a message again.
  pub apply_all-settled :
      (id : Text) (operations : List OutboxOperation) (s : Outbox W) (now limit : ℕ)
      → is_settled id s.0 ≡ true
      → (is_settled id (apply_all operations s).0 ≡ true)
        × (any (has_id id) (candidates now limit (apply_all operations s).0) ≡ false)
  unfolding apply_all
  apply_all-settled id [] s now limit h = (h, candidates-settled id now limit s.0 h)
  apply_all-settled id (operation ∷ operations) s now limit h =
      apply_all-settled id operations (apply operation s) now limit (apply-settled id operation s h)
