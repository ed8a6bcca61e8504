-- ===== src/Data/Examples.antt =====
-- Runs of the store of idempotency keys.
use taymex.Prelude.{
  ◌≡◌, refl, ℕ, arith, Text, codes, Option, none, some, List, [], ◌∷◌, trim, text_eq,
}
use taymex.Foundation.Errors.{Error, Result, ok, err, nat, at, safe_from}
use taymex.Data.Idempotency.{
  started, replay, IdempotencyTable, bounded_text, require_sha256, positive_integer, valid_date,
  with_row, new_claim, claim, complete,
}
use taymex.Data.Idempotency.Steps.{Operation, claiming, completing, apply_all}
use taymex.Data.Idempotency.Claims.{IsRequest}
use taymex.Data.Idempotency.Laws.{complete-claim-replay, claim-complete-stale}

abbrev digest : Text
digest = codes "abababababababababababababababababababababababababababababababab"

abbrev other_digest : Text
other_digest = codes "cdcdcdcdcdcdcdcdcdcdcdcdcdcdcdcdcdcdcdcdcdcdcdcdcdcdcdcdcdcdcdcd"

abbrev pay : Text
pay = codes "pay"

abbrev key : Text
key = codes "k1"

-- a column that keeps a response as it is, and what is null as null
abbrev jsonb : Option ℕ → Result (Option ℕ)
jsonb response = ok response

abbrev no_rows : IdempotencyTable (Option ℕ)
no_rows o k = none

abbrev first_claim : IdempotencyTable (Option ℕ)
first_claim = with_row no_rows pay key (new_claim digest 1 10 100)

abbrev second_claim : IdempotencyTable (Option ℕ)
second_claim = with_row first_claim pay key (new_claim digest 2 200 300)

digest-IsRequest : IsRequest pay key digest
unfolding bounded_text require_sha256 trim
digest-IsRequest = record { operation_bounded = refl; key_bounded = refl; hash_valid = refl }

other_digest-IsRequest : IsRequest pay key other_digest
unfolding bounded_text require_sha256 trim
other_digest-IsRequest = record { operation_bounded = refl; key_bounded = refl; hash_valid = refl }

first-run : claim pay key digest (at 10) (at 100) no_rows ≡ (ok (started 1), first_claim)
unfolding claim bounded_text require_sha256 valid_date trim text_eq
first-run = refl

second-run :
    claim pay key digest (at 200) (at 300) (apply_all jsonb [] first_claim)
    ≡ (ok (started 2), second_claim)
unfolding claim bounded_text require_sha256 valid_date trim text_eq apply_all
second-run = refl

positive_one : positive_integer (nat 1) ≡ ok 1
unfolding positive_integer safe_from
positive_one = refl

abbrev others : List (Operation ℕ)
others =
    claiming pay (codes "k2") digest (at 25) (at 60)
    ∷ claiming pay key other_digest (at 26) (at 300)
    ∷ completing pay key digest (nat 1) (some 8) (at 27)
    ∷ []

abbrev after_others : IdempotencyTable (Option ℕ)
after_others =
    apply_all jsonb (completing pay key digest (nat 1) (some 7) (at 20) ∷ others) first_claim

complete-claim-replay_example :
    claim pay key digest (at 30) (at 130) after_others ≡ (ok (replay (some 7)), after_others)
complete-claim-replay_example =
    complete-claim-replay jsonb pay key digest 10 100 1 no_rows first_claim (some 7) (some 7) 20
      others 30 130 digest-IsRequest (omega arith) first-run positive_one refl refl (omega arith)
      (omega arith) (omega arith, (omega arith, (tt, tt))) (omega arith) (omega arith)

claim-complete-stale_example :
    (e : Error) × (complete jsonb pay key other_digest (nat 1) (some 7) (at 220) second_claim
      ≡ (err e, second_claim))
claim-complete-stale_example =
    claim-complete-stale jsonb pay key digest digest other_digest 10 100 1 no_rows first_claim []
      200 300 2 second_claim (some 7) 220 digest-IsRequest digest-IsRequest other_digest-IsRequest
      (omega arith) first-run (omega arith) second-run positive_one
