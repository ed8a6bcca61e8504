-- ===== src/Data/Idempotency/Steps.antt =====
-- What any operations on the keys leave of the row at one key.
use mathlib.Core.Path.{subst}
use taymex.Prelude.{
  ◌≡◌, ap, ◌∙◌, ℕ, ◌≤◌, ◌<◌, arith, Text, Option, none, some, true, List, [], ◌∷◌, All,
}
use taymex.Foundation.Errors.{Result, Number, Date, at, invalid}
use taymex.Data.Idempotency.{IdempotencyRow, IdempotencyTable, claim, complete, completable}
use taymex.Data.Idempotency.Kept.{claim-IsKeeping, complete-IsKeeping}

-- An operation on the keys, with what it is given.
pub data Operation (V : Type 0) : Type 0 where
  claiming : (operation key hash : Text) → (now expires_at : Date) → Operation V
  completing :
      (operation key hash : Text) → Number → (response : Option V) → (now : Date) → Operation V

module _ {V R : Type 0} (jsonb : Option V → Result R) where
  abbrev pub apply : Operation V → IdempotencyTable R → IdempotencyTable R
  apply (claiming operation key hash now expires_at) table =
      (claim operation key hash now expires_at table).1
  apply (completing operation key hash generation response now) table =
      (complete jsonb operation key hash generation response now table).1

  -- the operations in order, whatever they answer
  unfoldable pub apply_all : List (Operation V) → IdempotencyTable R → IdempotencyTable R
  apply_all [] table = table
  apply_all (step ∷ steps) table = apply_all steps (apply step table)

-- An operation that claims claims before the time.
abbrev pub IsBefore : {V : Type 0} → ℕ → Operation V → Type 0
IsBefore time (claiming operation key hash (at now) expires_at) = now < time
IsBefore time (claiming operation key hash invalid expires_at) = Unit {0}
IsBefore time (completing operation key hash generation response now) = Unit {0}

-- The row has at least the generation.
abbrev pub IsSince : {R : Type 0} → ℕ → Option (IdempotencyRow R) → Type 0
IsSince generation none = ⊥
IsSince generation (some row) = generation ≤ row.claim_generation

module _ {V R : Type 0} (jsonb : Option V → Result R) (operation key : Text) where
  -- No operation takes a key back to an earlier generation.
  pub apply_all-IsSince :
      (generation : ℕ) (steps : List (Operation V)) (table : IdempotencyTable R)
      → IsSince generation (table operation key)
      → IsSince generation (apply_all jsonb steps table operation key)
  unfolding apply_all
  apply_all-IsSince generation [] table h = h
  apply_all-IsSince generation (step ∷ steps) table h =
      apply_all-IsSince generation steps (apply jsonb step table) (go step)
    where
      go : (step : Operation V) → IsSince generation (apply jsonb step table operation key)
      go (claiming o k hash now expires_at) =
          claim-IsKeeping operation key (IsSince generation) o k hash now expires_at
            (λ x n e q. absurd q) (λ x n e row i q old. omega arith) table h
      go (completing o k hash g response now) =
          complete-IsKeeping operation key (IsSince generation) jsonb o k hash g response now
            (λ x n t stored row q match. q) table h

  -- A completed row stays as it is while no claim comes at its expiry or later.
  pub apply_all-completed :
      (row : IdempotencyRow R) (response : R)
      → row.response ≡ some response
      → (steps : List (Operation V)) → All (IsBefore row.expires_at) steps
      → (table : IdempotencyTable R) → table operation key ≡ some row
      → apply_all jsonb steps table operation key ≡ some row
  unfolding apply_all
  apply_all-completed row response answered [] early table h = h
  apply_all-completed row response answered (step ∷ steps) early table h =
      apply_all-completed row response answered steps early.1 (apply jsonb step table)
        (go step early.0)
    where
      the_row : {x y : IdempotencyRow R} → some x ≡ some y → x ≡ y
      the_row k = cc

      live :
          (x : IdempotencyRow R) (n : ℕ)
          → some x ≡ some row
          → n < row.expires_at
          → x.expires_at ≤ n
          → ⊥
      live x n q before old =
          let same : x.expires_at ≡ row.expires_at =
            ap (λ (r : IdempotencyRow R). r.expires_at) (the_row q) in
          omega arith

      closed :
          (hash : Text) (g n : ℕ) (x : IdempotencyRow R)
          → some x ≡ some row
          → completable hash g n x ≡ true
          → ⊥
      closed hash g n x q match =
          let same : x.response ≡ some response =
            ap (λ (r : IdempotencyRow R). r.response) (the_row q) ∙ answered in
          ground arith

      go :
          (step : Operation V)
          → IsBefore row.expires_at step
          → apply jsonb step table operation key ≡ some row
      go (claiming o k hash (at time) expires_at) before =
          claim-IsKeeping operation key (λ x. x ≡ some row) o k hash (at time) expires_at
            (λ x n e q. cc)
            (λ x n e r i q old.
              absurd (live r n q (subst (λ z. z < row.expires_at) (time_of i) before) old))
            table h
        where
          time_of : {a b : ℕ} → at a ≡ at b → a ≡ b
          time_of k = cc
      go (claiming o k hash invalid expires_at) before =
          claim-IsKeeping operation key (λ x. x ≡ some row) o k hash invalid expires_at
            (λ x n e q. cc) (λ x n e r i q old. cc) table h
      go (completing o k hash g response' now) before =
          complete-IsKeeping operation key (λ x. x ≡ some row) jsonb o k hash g response' now
            (λ x n t stored r q match. absurd (closed x n t r q match)) table h
