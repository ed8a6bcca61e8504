-- ===== src/Data/Idempotency.antt =====
-- packages/data-postgres/src/idempotency.ts. The table's primary key is the operation with the key,
-- so that it is a function from both to an optional row; a claim is one transaction that holds the
-- row, so that no other step comes between its statements. A statement that breaks a constraint of
-- the table is an error and changes nothing: the columns are those of
-- packages/data-postgres/migrations/0001_foundation.sql and 0002_f4_integrity_hardening.sql. What
-- JSON.stringify, the column and the driver make of a response is a parameter, `jsonb`; a response
-- that is null or undefined is none.
pub mod Kept
pub mod Steps
pub mod Claims
pub mod Laws
use taymex.Prelude.{
  ℕ, ◌+◌, Text, Option, none, some, Bool, true, false, ◌&&◌, ◌||◌, not, [], ◌∷◌, all, leb, ltb,
  ◌==◌, length, trim, text_eq, if◌then◌else◌,
}
use taymex.Foundation.Errors.{
  Error, type_error, range_error, plain_error, Result, ok, err, guard, Number, safe_from, Date, at,
  invalid,
}
use taymex.Effects.{Exec, ◌>>=◌, ◌>>◌, lift}

pub data IdempotencyClaim (R : Type 0) : Type 0 where
  started : ℕ → IdempotencyClaim R
  in_progress : IdempotencyClaim R
  replay : R → IdempotencyClaim R
  conflict : IdempotencyClaim R

-- A row without a response is IN_PROGRESS, one with a response COMPLETED.
pub record IdempotencyRow (R : Type 0) : Type 0 where
  pub request_hash : Text
  pub claim_generation : ℕ
  pub response : Option R
  pub created_at : ℕ
  pub updated_at : ℕ
  pub expires_at : ℕ

abbrev pub IdempotencyTable : Type 0 → Type 0
IdempotencyTable R = Text → Text → Option (IdempotencyRow R)

abbrev is_blank : Text → Bool
is_blank [] = true
is_blank (c ∷ s) = false

unfoldable pub bounded_text : Text → ℕ → Result Text
bounded_text value most =
    if is_blank (trim value) || ltb most (length (trim value))
    then err (range_error "The text is out of bounds.")
    else ok (trim value)

abbrev hex : ℕ → Bool
hex c = (leb b'a' c && leb c b'f') || (leb b'0' c && leb c b'9')

unfoldable pub require_sha256 : Text → Result Text
require_sha256 value =
    if all hex value && length value == 64
    then ok value
    else err (type_error "requestHash must be a lowercase SHA-256 hex digest.")

unfoldable pub positive_integer : Number → Result ℕ
positive_integer value = elim (safe_from 1 value) [
  | none ↦ err (range_error "The number must be a positive safe integer.")
  | some n ↦ ok n
]

unfoldable pub valid_date : Date → Result ℕ
valid_date (at time) = ok time
valid_date invalid = err (type_error "The date must be a valid Date.")

-- the largest `integer` of the database
abbrev pub max_integer : ℕ
max_integer = 2147483647

abbrev pub out_of_range : Error
out_of_range = plain_error "integer out of range"

abbrev pub constraint_violated : Error
constraint_violated = plain_error "constraint violated"

abbrev pub no_active_claim : Error
no_active_claim =
    plain_error "Idempotency completion requires the active matching IN_PROGRESS claim generation."

module _ {R : Type 0} where
  abbrev pub with_row : IdempotencyTable R → Text → Text → IdempotencyRow R → IdempotencyTable R
  with_row table operation key row o k =
      if text_eq operation o && text_eq key k then some row else table o k

  abbrev pub new_claim : Text → ℕ → ℕ → ℕ → IdempotencyRow R
  new_claim request_hash claim_generation now expires_at = record {
    request_hash = request_hash;
    claim_generation = claim_generation;
    response = none;
    created_at = now;
    updated_at = now;
    expires_at = expires_at;
  }

  abbrev pub answer : Option R → IdempotencyClaim R
  answer none = in_progress
  answer (some response) = replay response

  abbrev pub replace_row :
      Text → Text → Text → ℕ → ℕ → IdempotencyRow R → Exec (IdempotencyTable R) (IdempotencyClaim R)
  replace_row operation key request_hash now expires_at row table =
      if ltb row.claim_generation max_integer
      then (
        ok (started (row.claim_generation + 1)),
        with_row table operation key
            (new_claim request_hash (row.claim_generation + 1) now expires_at),
      )
      else (err out_of_range, table)

  -- what a claim does with the row that it finds
  abbrev pub claim_row :
      Text
      → Text
      → Text
      → ℕ
      → ℕ
      → Option (IdempotencyRow R)
      → Exec (IdempotencyTable R) (IdempotencyClaim R)
  claim_row operation key request_hash now expires_at none table =
      (ok (started 1), with_row table operation key (new_claim request_hash 1 now expires_at))
  claim_row operation key request_hash now expires_at (some row) table =
      if leb row.expires_at now
      then replace_row operation key request_hash now expires_at row table
      else if text_eq row.request_hash request_hash
      then (ok (answer row.response), table)
      else (ok conflict, table)

  abbrev pub claim_valid :
      Text → Text → Text → ℕ → ℕ → Exec (IdempotencyTable R) (IdempotencyClaim R)
  claim_valid operation key request_hash now expires_at table =
      claim_row operation key request_hash now expires_at (table operation key) table

  unfoldable pub claim :
      Text → Text → Text → Date → Date → Exec (IdempotencyTable R) (IdempotencyClaim R)
  claim given_operation given_key given_hash given_now given_expiry = do
    operation ← lift (bounded_text given_operation 128)
    key ← lift (bounded_text given_key 256)
    request_hash ← lift (require_sha256 given_hash)
    now ← lift (valid_date given_now)
    expires_at ← lift (valid_date given_expiry)
    lift (guard (ltb now expires_at) (range_error "expiresAt must be after now."))
    claim_valid operation key request_hash now expires_at

  -- `status = 'IN_PROGRESS'`
  abbrev is_open : Option R → Bool
  is_open none = true
  is_open (some response) = false

  abbrev pub completable : Text → ℕ → ℕ → IdempotencyRow R → Bool
  completable request_hash claim_generation now row =
      text_eq row.request_hash request_hash
      && row.claim_generation == claim_generation
      && is_open row.response
      && ltb now row.expires_at

  -- the update of a row that matches, under `updated_at >= created_at`
  abbrev pub update_row :
      Text → Text → R → ℕ → IdempotencyRow R → Exec (IdempotencyTable R) (Unit {0})
  update_row operation key response now row table =
      if leb row.created_at now
      then (
        ok tt,
        with_row table operation key (record row { response = some response; updated_at = now }),
      )
      else (err constraint_violated, table)

  abbrev pub complete_row :
      Text
      → Text
      → Text
      → ℕ
      → R
      → ℕ
      → Option (IdempotencyRow R)
      → Exec (IdempotencyTable R) (Unit {0})
  complete_row operation key request_hash claim_generation response now none table =
      (err no_active_claim, table)
  complete_row operation key request_hash claim_generation response now (some row) table =
      if completable request_hash claim_generation now row
      then update_row operation key response now row table
      else (err no_active_claim, table)

  abbrev pub complete_valid : Text → Text → Text → ℕ → R → ℕ → Exec (IdempotencyTable R) (Unit {0})
  complete_valid operation key request_hash claim_generation response now table =
      complete_row operation key request_hash claim_generation response now (table operation key)
        table

module _ {V R : Type 0} (jsonb : Option V → Result R) where
  unfoldable pub complete :
      Text → Text → Text → Number → Option V → Date → Exec (IdempotencyTable R) (Unit {0})
  complete given_operation given_key given_hash given_generation response given_now = do
    claim_generation ← lift (positive_integer given_generation)
    now ← lift (valid_date given_now)
    operation ← lift (bounded_text given_operation 128)
    key ← lift (bounded_text given_key 256)
    request_hash ← lift (require_sha256 given_hash)
    stored ← lift (jsonb response)
    lift (guard (leb claim_generation max_integer) out_of_range)
    complete_valid operation key request_hash claim_generation stored now
