-- ===== src/Data/Idempotency/Laws.antt =====
-- A request runs once: what is completed is replayed, and a claim that was taken over completes
-- nothing.
use mathlib.Core.Path.{subst}
use taymex.Prelude.{
  ◌≡◌, refl, sym, ap, ◌∙◌, ℕ, ◌<◌, ◌≤◌, arith, Text, Option, some, true, false, inl, inr,
  Bool-cases, List, ◌∷◌, All, leb,
}
use taymex.Foundation.Errors.{Error, Result, ok, err, Result-cases, nat, at}
use taymex.Data.Idempotency.{
  started, replay, IdempotencyRow, IdempotencyTable, positive_integer, valid_date, with_row,
  new_claim, no_active_claim, out_of_range, max_integer, claim, complete, completable,
}
use taymex.Data.Idempotency.Steps.{
  Operation, completing, apply_all, IsBefore, IsSince, apply_all-IsSince, apply_all-completed,
}
use taymex.Data.Idempotency.Claims.{
  IsRequest, claim-replay, claim-started, claim-later, with_row-same, completable-new,
  older_refused,
}

module _ {V R : Type 0} (jsonb : Option V → Result R) where
  complete-open :
      (operation key hash : Text) (row : IdempotencyRow R) (g : ℕ) (response : Option V)
      (stored : R) (now : ℕ) (table : IdempotencyTable R)
      → IsRequest operation key hash
      → positive_integer (nat g) ≡ ok g
      → leb g max_integer ≡ true
      → jsonb response ≡ ok stored
      → table operation key ≡ some row
      → completable hash g now row ≡ true
      → row.created_at ≤ now
      → complete jsonb operation key hash (nat g) response (at now) table ≡ (
        ok tt,
        with_row table operation key (record row { response = some stored; updated_at = now }),
      )
  unfolding complete valid_date
  complete-open operation key hash row g response stored now table r positive small kept found
        possible order =
      let ordered : leb row.created_at now ≡ true = ground arith in
      rw
        (
          positive, r.operation_bounded, r.key_bounded, r.hash_valid, kept, small, found, possible,
          ordered,
        )
        refl

  complete-refused :
      (operation key hash : Text) (row : IdempotencyRow R) (g : ℕ) (response : Option V) (now : ℕ)
      (table : IdempotencyTable R)
      → IsRequest operation key hash
      → table operation key ≡ some row
      → completable hash g now row ≡ false
      → positive_integer (nat g) ≡ ok g
      → (e : Error) × (complete jsonb operation key hash (nat g) response (at now) table
          ≡ (err e, table))
  unfolding complete valid_date
  complete-refused operation key hash row g response now table r found refused positive =
      elim (Result-cases (jsonb response)) [
        | inr (e, failed) ↦
            (e, rw (positive, r.operation_bounded, r.key_bounded, r.hash_valid, failed) refl)
        | inl (stored, kept) ↦ elim (Bool-cases (leb g max_integer)) [
          | inl small ↦ (
            no_active_claim,
            rw
                (
                  positive, r.operation_bounded, r.key_bounded, r.hash_valid, kept, small, found,
                  refused,
                )
                refl,
          )
          | inr large ↦ (
            out_of_range,
            rw (positive, r.operation_bounded, r.key_bounded, r.hash_valid, kept, large) refl,
          )
        ]
      ]

  -- A request that was started and completed runs once: a completion of the claim that was started,
  -- not before it and before it expires, stores what the column makes of the response, and after any
  -- operations on any keys, those that claim coming before the expiry, whoever repeats the request
  -- before it expires is given that response, and the table stays.
  pub complete-claim-replay :
      (operation key hash : Text) (started_at expiry g : ℕ) (table t : IdempotencyTable R)
      (response : Option V) (stored : R) (now : ℕ) (steps : List (Operation V))
      (later later_expiry : ℕ)
      → IsRequest operation key hash
      → started_at < expiry
      → claim operation key hash (at started_at) (at expiry) table ≡ (ok (started g), t)
      → positive_integer (nat g) ≡ ok g
      → leb g max_integer ≡ true
      → jsonb response ≡ ok stored
      → started_at ≤ now
      → now < expiry
      → All (IsBefore expiry) steps
      → later < expiry
      → later < later_expiry
      → let u =
          apply_all jsonb (completing operation key hash (nat g) response (at now) ∷ steps) t in
        claim operation key hash (at later) (at later_expiry) u ≡ (ok (replay stored), u)
  unfolding apply_all
  complete-claim-replay operation key hash started_at expiry g table t response stored now steps
        later later_expiry r valid claimed positive small kept order live early repeated after =
      claim-replay operation key hash done stored later later_expiry _ r
        (apply_all-completed jsonb operation key done stored refl steps early _
          (ap (λ p. p.1 operation key) completed ∙ with_row-same t operation key done))
        refl refl repeated after
    where
      done : IdempotencyRow R
      done = record (new_claim hash g started_at expiry) {
        response = some stored;
        updated_at = now;
      }

      completed :
          complete jsonb operation key hash (nat g) response (at now) t
          ≡ (ok tt, with_row t operation key done)
      completed =
          complete-open operation key hash (new_claim hash g started_at expiry) g response stored
            now t r positive small kept
            (claim-started operation key hash started_at expiry g table t r valid claimed)
            (completable-new R hash started_at expiry g now live) order

  -- A claim that was taken over completes nothing: once a request was started, went through any
  -- operations on any keys and was started again, whoever holds the first claim is refused with an
  -- error, whatever hash, response and time it gives, and the table stays.
  pub claim-complete-stale :
      (operation key hash second_hash completed_hash : Text) (started_at expiry g : ℕ)
      (table t : IdempotencyTable R) (steps : List (Operation V))
      (second_start second_expiry g' : ℕ) (v : IdempotencyTable R) (response : Option V) (now : ℕ)
      → IsRequest operation key hash
      → IsRequest operation key second_hash
      → IsRequest operation key completed_hash
      → started_at < expiry
      → claim operation key hash (at started_at) (at expiry) table ≡ (ok (started g), t)
      → second_start < second_expiry
      → claim operation key second_hash
          (at second_start)
          (at second_expiry)
          (apply_all jsonb steps t)
        ≡ (ok (started g'), v)
      → positive_integer (nat g) ≡ ok g
      → (e : Error) × (complete jsonb operation key completed_hash (nat g) response (at now) v
          ≡ (err e, v))
  claim-complete-stale operation key hash second_hash completed_hash started_at expiry g table t
        steps second_start second_expiry g' v response now r q s valid claimed second_valid again
        positive =
      complete-refused operation key completed_hash
        (new_claim second_hash g' second_start second_expiry) g response now v s
        (claim-started operation key second_hash second_start second_expiry g' _ v q second_valid
          again)
        (older_refused R second_hash completed_hash second_start second_expiry g g' now newer)
        positive
    where
      since : IsSince g (t operation key)
      since =
          subst (IsSince g)
            (sym (claim-started operation key hash started_at expiry g table t r valid claimed))
            (omega arith)

      newer : g < g'
      newer =
          claim-later operation key second_hash second_start second_expiry g' g
            (apply_all jsonb steps t) v q second_valid
            (apply_all-IsSince jsonb operation key g steps t since) again
