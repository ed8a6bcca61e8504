-- ===== src/Effects.antt =====
-- Asynchronous methods over shared state: each is a function of the state, and what was written
-- before an error stays written. A query only reads. `atomic` is the transaction boundary of
-- packages/data-postgres/src/atomic.ts: an error takes back what its work has written.
pub mod Keeps
pub mod Runs
pub mod Safe
use taymex.Prelude.{◌≡◌, ap}
use taymex.Foundation.Errors.{Error, Result, ok, err}

abbrev pub Exec {ℓ} : Type ℓ → Type ℓ → Type ℓ
Exec S A = S → Result A × S

-- a method that reads the state and may throw
abbrev pub Query {ℓ} : Type ℓ → Type ℓ → Type ℓ
Query S A = S → Result A

module _ {ℓ} {S A B : Type ℓ} where
  abbrev pub continue : Result A → (A → Exec S B) → Exec S B
  continue (ok a) f s = f a s
  continue (err e) f s = (err e, s)

  infixl 5 ◌>>=◌ ◌>>◌
  abbrev pub ◌>>=◌ : Exec S A → (A → Exec S B) → Exec S B
  ◌>>=◌ m f s = continue (m s).0 f (m s).1

  abbrev pub ◌>>◌ : Exec S A → Exec S B → Exec S B
  m >> n = m >>= λ _. n

module _ {ℓ} {S A : Type ℓ} where
  abbrev pub pure : A → Exec S A
  pure a s = (ok a, s)

  abbrev pub raise : Error → Exec S A
  raise e s = (err e, s)

  abbrev pub lift : Result A → Exec S A
  lift r s = (r, s)

  abbrev pub query : Query S A → Exec S A
  query q s = (q s, s)

  abbrev pub gets : (S → A) → Exec S A
  gets f s = (ok (f s), s)

  abbrev pub restore : S → Result A × S → Result A × S
  restore s (ok a, t) = (ok a, t)
  restore s (err e, t) = (err e, s)

  -- `try { … } catch (error) { … }`: what was written before the error stays written.
  abbrev pub caught : (Error → Exec S A) → Result A × S → Result A × S
  caught handle (ok a, t) = (ok a, t)
  caught handle (err e, t) = handle e t

  abbrev pub catch : Exec S A → (Error → Exec S A) → Exec S A
  catch m handle s = caught handle (m s)

  unfoldable pub atomic : Exec S A → Exec S A
  atomic m s = restore s (m s)

  -- A transaction that fails leaves the state as it was.
  pub atomic-err :
      (m : Exec S A) (s : S) (e : Error) → (atomic m s).0 ≡ err e → atomic m s ≡ (err e, s)
  unfolding atomic
  atomic-err m s e h = go (m s) h
    where
      go : (r : Result A × S) → (restore s r).0 ≡ err e → restore s r ≡ (err e, s)
      go (ok a, t) h = cc
      go (err x, t) h = ap (λ y. (y, s)) h

abbrev pub modify {ℓ} : {S : Type ℓ} → (S → S) → S → Result (Unit {ℓ}) × S
modify f s = (ok tt, f s)
