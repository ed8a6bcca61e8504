-- ===== src/Effects/Runs.antt =====
-- What a run that returns has run.
use taymex.Prelude.{◌≡◌, refl, ap}
use taymex.Foundation.Errors.{Error, Result, ok, err}
use taymex.Effects.{Exec, Query, ◌>>=◌, continue, pure, raise, lift, query, restore, atomic}

module _ {S A B : Type 0} where
  pub >>=-ok :
      (m : Exec S A) (f : A → Exec S B) (s : S) {b : B} {u : S}
      → (m >>= f) s ≡ (ok b, u)
      → (a : A) × (t : S) × (m s ≡ (ok a, t)) × (f a t ≡ (ok b, u))
  >>=-ok m f s {b} {u} h = go (m s) h
    where
      go :
          (r : Result A × S)
          → continue r.0 f r.1 ≡ (ok b, u)
          → (a : A) × (t : S) × (r ≡ (ok a, t)) × (f a t ≡ (ok b, u))
      go (ok a, t) k = (a, t, refl, k)
      go (err x, t) k = cc

module _ {S A : Type 0} where
  pub atomic-ok : (m : Exec S A) (s : S) {a : A} {t : S} → atomic m s ≡ (ok a, t) → m s ≡ (ok a, t)
  unfolding atomic
  atomic-ok m s {a} {t} h = go (m s) h
    where
      go : (r : Result A × S) → restore s r ≡ (ok a, t) → r ≡ (ok a, t)
      go (ok b, u) k = k
      go (err x, u) k = cc

module _ {S A B : Type 0} where
  pub lift-ok :
      (r : Result A) (f : A → Exec S B) (s : S) {b : B} {u : S}
      → (lift r >>= f) s ≡ (ok b, u)
      → (a : A) × (r ≡ ok a) × (f a s ≡ (ok b, u))
  lift-ok (ok a) f s h = (a, refl, h)
  lift-ok (err e) f s h = cc

  pub query-ok :
      (q : Query S A) (f : A → Exec S B) (s : S) {b : B} {u : S}
      → (query q >>= f) s ≡ (ok b, u)
      → (a : A) × (q s ≡ ok a) × (f a s ≡ (ok b, u))
  query-ok q f s h = lift-ok (q s) f s h

  -- What ends in an error does not return.
  pub raised {ℓ} :
      {P : Type ℓ} (m : Exec S A) (e : Error) (s : S) {b : B} {u : S}
      → (m >>= λ _. raise e) s ≡ (ok b, u)
      → P
  raised m e s h = let (a, t, _, k) = >>=-ok m (λ _. raise e) s h in cc

module _ {S A : Type 0} where
  pub pure-ok : (a : A) (s : S) {b : A} {t : S} → pure a s ≡ (ok b, t) → (a ≡ b) × (s ≡ t)
  pure-ok a s h = (value (ap (λ r. r.0) h), ap (λ r. r.1) h)
    where
      value : {a b : A} → ok a ≡ ok b → a ≡ b
      value k = cc
