-- ===== src/Notifications/Processor/Counters.antt =====
-- What the counters of a pass count, and that an error leaves them.
use taymex.Prelude.{◌≡◌, refl, ap, ℕ, ◌+◌, arith}
use taymex.Foundation.Errors.{Error, Result, ok, err}
use taymex.Effects.{Exec, ◌>>=◌, continue, lift}
use taymex.Notifications.Contracts.{FailResult, retried, buried, UpdateResult, updated}
use taymex.Notifications.Processor.{
  Counts, one_delivered, one_dead, on_state, count, after_failure, if_updated,
}

-- Counts that go up by so many delivered, put off and dead.
abbrev pub Adds : ℕ → ℕ → ℕ → Counts → Counts → Type 0
Adds x y z c d =
    (d.delivered ≡ c.delivered + x) × (d.retried ≡ c.retried + y) × (d.dead ≡ c.dead + z)

-- what is counted for each answer of the store
abbrev pub DeliveredAs : UpdateResult → Counts → Counts → Type 0
DeliveredAs updated c d = Adds 1 0 0 c d
DeliveredAs UpdateResult.lease_lost c d = Adds 0 0 0 c d

abbrev pub BuriedAs : UpdateResult → Counts → Counts → Type 0
BuriedAs updated c d = Adds 0 0 1 c d
BuriedAs UpdateResult.lease_lost c d = Adds 0 0 0 c d

abbrev pub FailedAs : FailResult → Counts → Counts → Type 0
FailedAs retried c d = Adds 0 1 0 c d
FailedAs buried c d = Adds 0 0 1 c d
FailedAs FailResult.lease_lost c d = Adds 0 0 0 c d

pub DeliveredAs-if_updated :
    (r : UpdateResult) (c : Counts) → DeliveredAs r c (if_updated one_delivered r c)
DeliveredAs-if_updated updated c = (omega arith, omega arith, omega arith)
DeliveredAs-if_updated UpdateResult.lease_lost c = (omega arith, omega arith, omega arith)

pub BuriedAs-if_updated : (r : UpdateResult) (c : Counts) → BuriedAs r c (if_updated one_dead r c)
BuriedAs-if_updated updated c = (omega arith, omega arith, omega arith)
BuriedAs-if_updated UpdateResult.lease_lost c = (omega arith, omega arith, omega arith)

pub FailedAs-after_failure : (r : FailResult) (c : Counts) → FailedAs r c (after_failure r c)
FailedAs-after_failure retried c = (omega arith, omega arith, omega arith)
FailedAs-after_failure buried c = (omega arith, omega arith, omega arith)
FailedAs-after_failure FailResult.lease_lost c = (omega arith, omega arith, omega arith)

module _ {S A B : Type 0} where
  pub on_state-ok :
      (m : Exec S A) (f : A → Exec (S × Counts) B) (s : S) (c : Counts) {b : B} {u : S × Counts}
      → (on_state m >>= f) (s, c) ≡ (ok b, u)
      → (a : A) × (t : S) × (m s ≡ (ok a, t)) × (f a (t, c) ≡ (ok b, u))
  on_state-ok m f s c {b} {u} h = go (m s) h
    where
      go :
          (r : Result A × S)
          → continue r.0 f (r.1, c) ≡ (ok b, u)
          → (a : A) × (t : S) × (r ≡ (ok a, t)) × (f a (t, c) ≡ (ok b, u))
      go (ok a, t) k = (a, t, refl, k)
      go (err e, t) k = cc

module _ {S : Type 0} where
  pub count-ok :
      (add : Counts → Counts) (s t : S) (c d : Counts)
      → count add (s, c) ≡ (ok tt, (t, d))
      → (s ≡ t) × (add c ≡ d)
  count-ok add s t c d h = (ap (λ r. r.1.0) h, ap (λ r. r.1.1) h)

  -- An error leaves the counters as they were.
  pub record IsUncounted {A : Type 0} (m : Exec (S × Counts) A) : Type 0 where
    pub kept : (s : S) (c : Counts) (e : Error) → (m (s, c)).0 ≡ err e → (m (s, c)).1.1 ≡ c

  pub count-IsUncounted : (add : Counts → Counts) → IsUncounted (count {S = S} add)
  count-IsUncounted add = record { kept = λ s c e h. cc }

  pub on_state-IsUncounted :
      {A B : Type 0} (m : Exec S A) {f : A → Exec (S × Counts) B}
      → ((a : A) → IsUncounted (f a))
      → IsUncounted (on_state m >>= f)
  on_state-IsUncounted {A} {B} m {f} k = record { kept = λ s c e h. go c e (m s) h }
    where
      go :
          (c : Counts) (e : Error) (r : Result A × S)
          → (continue r.0 f (r.1, c)).0 ≡ err e
          → (continue r.0 f (r.1, c)).1.1 ≡ c
      go c e (ok a, t) h = (k a).kept t c e h
      go c e (err x, t) h = refl

  pub lift-IsUncounted :
      {A B : Type 0} (r : Result A) {f : A → Exec (S × Counts) B}
      → ((a : A) → IsUncounted (f a))
      → IsUncounted (lift r >>= f)
  lift-IsUncounted (ok a) k = record { kept = λ s c e h. (k a).kept s c e h }
  lift-IsUncounted (err x) k = record { kept = λ s c e h. refl }
