-- ===== src/Effects/Safe.antt =====
-- What an error leaves of the state.
use taymex.Prelude.{◌≡◌, refl, ap, ◌∙◌}
use taymex.Foundation.Errors.{Error, Result, ok, err}
use taymex.Effects.{Exec, Query, ◌>>=◌, continue, pure, raise, lift, query, atomic, atomic-err}

module _ {S : Type 0} where
  -- An error leaves the state as it was.
  pub record IsSafe {A : Type 0} (m : Exec S A) : Type 0 where
    pub at : (s : S) (e : Error) → (m s).0 ≡ err e → (m s).1 ≡ s

  -- The state is only read.
  pub record IsRead {A : Type 0} (m : Exec S A) : Type 0 where
    pub same : (s : S) → (m s).1 ≡ s

  pub atomic-IsSafe : {A : Type 0} (m : Exec S A) → IsSafe (atomic m)
  atomic-IsSafe m = record { at = λ s e h. ap (λ r. r.1) (atomic-err m s e h) }

  continue-IsSafe :
      {A B : Type 0} (r : Result A) (f : A → Exec S B) (s t : S) (e : Error)
      → t ≡ s
      → ((a : A) → IsSafe (f a))
      → (continue r f t).0 ≡ err e
      → (continue r f t).1 ≡ s
  continue-IsSafe (ok a) f s t e h k l = (k a).at t e l ∙ h
  continue-IsSafe (err x) f s t e h k l = h

  pub read-IsSafe :
      {A B : Type 0} (m : Exec S A) {f : A → Exec S B}
      → IsRead m
      → ((a : A) → IsSafe (f a))
      → IsSafe (m >>= f)
  read-IsSafe m {f} r k = record {
    at = λ s e h. continue-IsSafe (m s).0 f s (m s).1 e (r.same s) k h;
  }

  pub lift-IsSafe :
      {A B : Type 0} (r : Result A) {f : A → Exec S B}
      → ((a : A) → IsSafe (f a))
      → IsSafe (lift r >>= f)
  lift-IsSafe r k = read-IsSafe (lift r) (record { same = λ s. refl }) k

  pub query-IsSafe :
      {A B : Type 0} (q : Query S A) {f : A → Exec S B}
      → ((a : A) → IsSafe (f a))
      → IsSafe (query q >>= f)
  query-IsSafe q k = read-IsSafe (query q) (record { same = λ s. refl }) k

  pub pure-IsSafe : {A : Type 0} (a : A) → IsSafe (pure a)
  pure-IsSafe a = record { at = λ s e h. refl }

  pub raise-IsSafe : {A : Type 0} (e : Error) → IsSafe (raise {A = A} e)
  raise-IsSafe e = record { at = λ s x h. refl }

module _ {S A B : Type 0} where
  -- An exec whose value is dropped fails as it does.
  pub then-IsSafe : (m : Exec S A) (b : B) → IsSafe m → IsSafe (m >>= λ _. pure b)
  then-IsSafe m b h = record { at = λ s e k. go s e (m s).0 (m s).1 (λ x. h.at s x) k }
    where
      go :
          (s : S) (e : Error) (r : Result A) (t : S)
          → ((x : Error) → r ≡ err x → t ≡ s)
          → (continue r (λ _. pure b) t).0 ≡ err e
          → (continue r (λ _. pure b) t).1 ≡ s
      go s e (ok a) t h k = cc
      go s e (err x) t h k = h x refl
