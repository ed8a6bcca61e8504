-- ===== src/Data/Idempotency/Claims.antt =====
-- What a claim answers, and the row that it leaves.
use taymex.Prelude.{
  ◌≡◌, refl, sym, ap, ◌∙◌, ℕ, ◌+◌, ◌<◌, arith, Text, Option, none, some, Bool, true, false, text_eq,
  text_eq_refl, leb, ltb, lt→ltb, ==_iff, if◌then◌else◌,
}
use taymex.Foundation.Errors.{Result, ok, err, at}
use taymex.Data.Idempotency.{
  IdempotencyClaim, started, in_progress, replay, conflict, IdempotencyRow, IdempotencyTable,
  bounded_text, require_sha256, valid_date, with_row, new_claim, out_of_range, max_integer, claim,
  claim_row, completable, answer,
}
use taymex.Data.Idempotency.Steps.{IsSince}

-- A request whose texts are as they are stored.
pub record IsRequest (operation key hash : Text) : Type 0 where
  pub operation_bounded : bounded_text operation 128 ≡ ok operation
  pub key_bounded : bounded_text key 256 ≡ ok key
  pub hash_valid : require_sha256 hash ≡ ok hash

pub completable-new :
    (R : Type 0) (hash : Text) (started_at expiry g now : ℕ)
    → now < expiry
    → completable {R = R} hash g now (new_claim hash g started_at expiry) ≡ true
completable-new R hash started_at expiry g now live =
    rw (text_eq_refl hash, (==_iff g g).1 refl, lt→ltb now expiry live) refl

pub older_refused :
    (R : Type 0) (hash given : Text) (started_at expiry g g' now : ℕ)
    → g < g'
    → completable {R = R} given g now (new_claim hash g' started_at expiry) ≡ false
older_refused R hash given started_at expiry g g' now newer = ground arith

module _ {R : Type 0} where
  pub claim-replay :
      (operation key hash : Text) (row : IdempotencyRow R) (response : R) (now expiry : ℕ)
      (table : IdempotencyTable R)
      → IsRequest operation key hash
      → table operation key ≡ some row
      → row.request_hash ≡ hash
      → row.response ≡ some response
      → now < row.expires_at
      → now < expiry
      → claim operation key hash (at now) (at expiry) table ≡ (ok (replay response), table)
  unfolding claim valid_date
  claim-replay operation key hash row response now expiry table r found same answered live later =
      let early : leb row.expires_at now ≡ false = ground arith in
      rw
        (
          r.operation_bounded,
          r.key_bounded,
          r.hash_valid,
          lt→ltb now expiry later,
          found,
          early,
          same,
          text_eq_refl hash,
          answered,
        )
        refl

  generation : Result (IdempotencyClaim R) → ℕ
  generation (ok (started g)) = g
  generation (ok in_progress) = 0
  generation (ok (replay response)) = 0
  generation (ok conflict) = 0
  generation (err e) = 0

  pub with_row-same :
      (table : IdempotencyTable R) (operation key : Text) (row : IdempotencyRow R)
      → with_row table operation key row operation key ≡ some row
  with_row-same table operation key row = rw (text_eq_refl operation, text_eq_refl key) refl

  claim_row-started :
      (operation key hash : Text) (now expiry g : ℕ) (found : Option (IdempotencyRow R))
      (table t : IdempotencyTable R)
      → claim_row operation key hash now expiry found table ≡ (ok (started g), t)
      → t operation key ≡ some (new_claim hash g now expiry)
  unfolding generation
  claim_row-started operation key hash now expiry g none table t same =
      ap (λ u. u operation key) (sym (ap (λ p. p.1) same))
      ∙ with_row-same table operation key (new_claim hash 1 now expiry)
      ∙ ap (λ n. some (new_claim hash n now expiry)) (ap (λ r. generation (r.0)) same)
  claim_row-started operation key hash now expiry g (some row) table t same =
      go (leb row.expires_at now) (ltb row.claim_generation max_integer)
        (text_eq row.request_hash hash) row.response same
    where
      go :
          (old small matching : Bool) (response : Option R)
          → ◌≡◌ {A = Result (IdempotencyClaim R) × IdempotencyTable R}
              (if old
                then if small
                  then (
                    ok (started (row.claim_generation + 1)),
                    with_row table operation key
                        (new_claim hash (row.claim_generation + 1) now expiry),
                  )
                  else (err out_of_range, table)
                else if matching
                then (ok (answer response), table)
                else (ok conflict, table))
              (ok (started g), t)
          → t operation key ≡ some (new_claim hash g now expiry)
      go true true matching response same =
          ap (λ u. u operation key) (sym (ap (λ p. p.1) same))
          ∙ with_row-same table operation key (new_claim hash (row.claim_generation + 1) now expiry)
          ∙ ap (λ n. some (new_claim hash n now expiry)) (ap (λ r. generation (r.0)) same)
      go true false matching response same = ground arith
      go false small true none same = ground arith
      go false small true (some response) same = ground arith
      go false small false response same = ground arith

  -- A claim that starts over takes a later generation than the row that it finds.
  claim_row-later :
      (operation key hash : Text) (now expiry g h : ℕ) (found : Option (IdempotencyRow R))
      (table t : IdempotencyTable R)
      → IsSince h found
      → claim_row operation key hash now expiry found table ≡ (ok (started g), t)
      → h < g
  unfolding generation
  claim_row-later operation key hash now expiry g h none table t since same = absurd since
  claim_row-later operation key hash now expiry g h (some row) table t since same =
      go (leb row.expires_at now) (ltb row.claim_generation max_integer)
        (text_eq row.request_hash hash) row.response same
    where
      go :
          (old small matching : Bool) (response : Option R)
          → ◌≡◌ {A = Result (IdempotencyClaim R) × IdempotencyTable R}
              (if old
                then if small
                  then (
                    ok (started (row.claim_generation + 1)),
                    with_row table operation key
                        (new_claim hash (row.claim_generation + 1) now expiry),
                  )
                  else (err out_of_range, table)
                else if matching
                then (ok (answer response), table)
                else (ok conflict, table))
              (ok (started g), t)
          → h < g
      go true true matching response same =
          let next : row.claim_generation + 1 ≡ g = ap (λ r. generation (r.0)) same in omega arith
      go true false matching response same = ground arith
      go false small true none same = ground arith
      go false small true (some response) same = ground arith
      go false small false response same = ground arith

  pub claim-started :
      (operation key hash : Text) (now expiry g : ℕ) (table t : IdempotencyTable R)
      → IsRequest operation key hash
      → now < expiry
      → claim operation key hash (at now) (at expiry) table ≡ (ok (started g), t)
      → t operation key ≡ some (new_claim hash g now expiry)
  unfolding claim valid_date
  claim-started operation key hash now expiry g table t r later =
      rw (r.operation_bounded, r.key_bounded, r.hash_valid, lt→ltb now expiry later)
        (claim_row-started operation key hash now expiry g (table operation key) table t)

  pub claim-later :
      (operation key hash : Text) (now expiry g h : ℕ) (table t : IdempotencyTable R)
      → IsRequest operation key hash
      → now < expiry
      → IsSince h (table operation key)
      → claim operation key hash (at now) (at expiry) table ≡ (ok (started g), t)
      → h < g
  unfolding claim valid_date
  claim-later operation key hash now expiry g h table t r later since =
      rw (r.operation_bounded, r.key_bounded, r.hash_valid, lt→ltb now expiry later)
        (claim_row-later operation key hash now expiry g h (table operation key) table t since)
