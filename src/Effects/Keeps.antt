-- ===== src/Effects/Keeps.antt =====
-- What a method keeps of the state, whether it returns or throws.
use taymex.Prelude.{◌≡◌, refl, Bool, true, false, if◌then◌else◌}
use taymex.Foundation.Errors.{Result, ok, err}
use taymex.Effects.{Exec, ◌>>=◌, lift}

module _ {S A : Type 0} where
  abbrev pub IsKeeping : (S → Type 0) → Exec S A → Type 0
  IsKeeping P m = (s : S) → P s → P (m s).1

  -- A test keeps what both of its branches keep.
  pub if-IsKeeping :
      (P : S → Type 0) (b : Bool) (x y : Result A × S)
      → (b ≡ true → P x.1)
      → (b ≡ false → P y.1)
      → P (if b then x else y).1
  if-IsKeeping P true x y k l = k refl
  if-IsKeeping P false x y k l = l refl

module _ {S A B : Type 0} where
  -- A check before a method writes nothing.
  pub lift-IsKeeping :
      (P : S → Type 0) (r : Result A) (f : A → Exec S B)
      → ((a : A) → r ≡ ok a → IsKeeping P (f a))
      → IsKeeping P (lift r >>= f)
  lift-IsKeeping P (ok a) f k s p = k a refl s p
  lift-IsKeeping P (err e) f k s p = p
