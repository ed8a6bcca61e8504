-- ===== src/Data/Idempotency/Kept.antt =====
-- What a claim and a completion keep of the row at one key.
use mathlib.Core.Path.{subst}
use taymex.Prelude.{
  ◌≡◌, refl, sym, ℕ, ◌+◌, ◌≤◌, arith, Text, Option, none, some, Bool, true, false, ◌&&◌, text_eq,
  text_eq_iff, leb, ltb, if◌then◌else◌,
}
use taymex.Foundation.Errors.{Result, ok, guard, range_error, Number, Date, at, invalid}
use taymex.Effects.Keeps.{IsKeeping, lift-IsKeeping, if-IsKeeping}
use taymex.Data.Idempotency.{
  IdempotencyClaim, IdempotencyRow, IdempotencyTable, bounded_text, require_sha256,
  positive_integer, valid_date, with_row, new_claim, claim, complete, claim_row, claim_valid,
  replace_row, complete_row, complete_valid, update_row, completable, answer, max_integer,
  out_of_range,
}

valid_date-at : (date : Date) {now : ℕ} → valid_date date ≡ ok now → date ≡ at now
unfolding valid_date
valid_date-at (at time) h = cc
valid_date-at invalid h = cc

module _ {R : Type 0} (operation key : Text) (Q : Option (IdempotencyRow R) → Type 0) where
  -- A property of the row at the key.
  abbrev pub AtKey : IdempotencyTable R → Type 0
  AtKey table = Q (table operation key)

  with_row-AtKey :
      (table : IdempotencyTable R) (o k : Text) (row : IdempotencyRow R)
      → AtKey table
      → (Q (table o k) → Q (some row))
      → AtKey (with_row table o k row)
  with_row-AtKey table o k row held new = go (text_eq o operation) refl (text_eq k key) refl
    where
      go :
          (a : Bool)
          → text_eq o operation ≡ a
          → (b : Bool) → text_eq k key ≡ b
          → Q (if a && b then some row else table operation key)
      go false h b g = held
      go true h false g = held
      go true h true g = new (
          subst (λ x. Q (table x k)) (sym ((text_eq_iff o operation).0 h))
            (subst (λ x. Q (table operation x)) (sym ((text_eq_iff k key).0 g)) held))

  claim_row-AtKey :
      (o k hash : Text) (now expiry : ℕ)
      → (Q none → Q (some (new_claim hash 1 now expiry)))
      → ((row : IdempotencyRow R)
          → Q (some row)
          → row.expires_at ≤ now
          → Q (some (new_claim hash (row.claim_generation + 1) now expiry)))
      → IsKeeping AtKey (claim_valid o k hash now expiry)
  claim_row-AtKey o k hash now expiry first restart table held = go (table o k) refl
    where
      some_row :
          (row : IdempotencyRow R)
          → table o k ≡ some row
          → AtKey (claim_row o k hash now expiry (some row) table).1
      some_row row found =
          if-IsKeeping AtKey (leb row.expires_at now) (replace_row o k hash now expiry row table)
            (if text_eq row.request_hash hash
              then (ok (answer row.response), table)
              else (ok IdempotencyClaim.conflict, table))
            (λ old.
              if-IsKeeping AtKey (ltb row.claim_generation max_integer) (_, _) (_, _)
                (λ _.
                  with_row-AtKey table o k _ held
                    (λ q. restart row (subst Q found q) (ground arith)))
                (λ _. held))
            (λ _.
              if-IsKeeping AtKey (text_eq row.request_hash hash) (_, _) (_, _) (λ _. held)
                (λ _. held))

      go :
          (o' : Option (IdempotencyRow R))
          → table o k ≡ o'
          → AtKey (claim_row o k hash now expiry o' table).1
      go none found = with_row-AtKey table o k _ held (λ q. first (subst Q found q))
      go (some row) found = some_row row found

  -- A claim keeps what starting and taking over a claim keep.
  pub claim-IsKeeping :
      (o k hash : Text) (given_now given_expiry : Date)
      → ((h : Text) (now expiry : ℕ) → Q none → Q (some (new_claim h 1 now expiry)))
      → ((h : Text) (now expiry : ℕ) (row : IdempotencyRow R)
          → given_now ≡ at now
          → Q (some row)
          → row.expires_at ≤ now
          → Q (some (new_claim h (row.claim_generation + 1) now expiry)))
      → IsKeeping AtKey (claim o k hash given_now given_expiry)
  unfolding claim
  claim-IsKeeping o k hash given_now given_expiry first restart =
      lift-IsKeeping AtKey (bounded_text o 128) _ (λ o' _.
        lift-IsKeeping AtKey (bounded_text k 256) _ (λ k' _.
          lift-IsKeeping AtKey (require_sha256 hash) _ (λ h _.
            lift-IsKeeping AtKey (valid_date given_now) _ (λ now is_now.
              lift-IsKeeping AtKey (valid_date given_expiry) _ (λ expiry _.
                lift-IsKeeping AtKey
                  (guard (ltb now expiry) (range_error "expiresAt must be after now.")) _
                  (λ _ _.
                    claim_row-AtKey o' k' h now expiry (first h now expiry)
                      (λ row. restart h now expiry row (valid_date-at given_now is_now))))))))

  complete_row-AtKey :
      (o k hash : Text) (generation : ℕ) (response : R) (now : ℕ)
      → ((row : IdempotencyRow R)
          → Q (some row)
          → completable hash generation now row ≡ true
          → Q (some (record row { response = some response; updated_at = now })))
      → IsKeeping AtKey (complete_valid o k hash generation response now)
  complete_row-AtKey o k hash generation response now done table held = go (table o k) refl
    where
      go :
          (o' : Option (IdempotencyRow R))
          → table o k ≡ o'
          → AtKey (complete_row o k hash generation response now o' table).1
      go none found = held
      go (some row) found =
          if-IsKeeping AtKey (completable hash generation now row)
            (update_row o k response now row table) _
            (λ match.
              if-IsKeeping AtKey (leb row.created_at now) (_, _) (_, _)
                (λ _. with_row-AtKey table o k _ held (λ q. done row (subst Q found q) match))
                (λ _. held))
            (λ _. held)

  -- A completion keeps what storing a response in an open row keeps.
  pub complete-IsKeeping :
      {V : Type 0} (jsonb : Option V → Result R) (o k hash : Text) (given : Number)
      (response : Option V) (given_now : Date)
      → ((h : Text) (generation now : ℕ) (stored : R) (row : IdempotencyRow R)
          → Q (some row)
          → completable h generation now row ≡ true
          → Q (some (record row { response = some stored; updated_at = now })))
      → IsKeeping AtKey (complete jsonb o k hash given response given_now)
  unfolding complete
  complete-IsKeeping jsonb o k hash given response given_now done =
      lift-IsKeeping AtKey (positive_integer given) _ (λ generation _.
        lift-IsKeeping AtKey (valid_date given_now) _ (λ now _.
          lift-IsKeeping AtKey (bounded_text o 128) _ (λ o' _.
            lift-IsKeeping AtKey (bounded_text k 256) _ (λ k' _.
              lift-IsKeeping AtKey (require_sha256 hash) _ (λ h _.
                lift-IsKeeping AtKey (jsonb response) _ (λ stored _.
                  lift-IsKeeping AtKey (guard (leb generation max_integer) out_of_range) _ (λ _ _.
                    complete_row-AtKey o' k' h generation stored now
                      (done h generation now stored))))))))
