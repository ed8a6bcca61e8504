-- ===== src/Prelude/Maps.antt =====
-- A `Map` whose keys are texts, as its entries in the order of insertion.
use Prim.Native.Nat.{◌+◌, ◌≤◌}
use mathlib.Core.Path.{◌≡◌}
use mathlib.Core.Bool.{false}
use mathlib.Core.Option.{Option, none, some}
use mathlib.Core.List.{List, [], ◌∷◌}
use native.Mathlib.Omega.{arith}
use mathlib.Core.Logic.{inl, inr}
use taymex.Prelude.Tests.{if◌then◌else◌, Bool-cases}
use taymex.Prelude.Lists.{length}
use taymex.Prelude.Strings.{Text, text_eq, text_eq_iff, text_eq_refl}

abbrev pub Map {ℓ} : Type ℓ → Type ℓ
Map A = List (Text × A)

module _ {ℓ} {A : Type ℓ} where
  unfoldable pub lookup : Map A → Text → Option A
  lookup [] key = none
  lookup ((k, a) ∷ m) key = if text_eq k key then some a else lookup m key

  -- map.set(key, value): in place, or at the end.
  unfoldable pub put : Map A → Text → A → Map A
  put [] key a = (key, a) ∷ []
  put ((k, b) ∷ m) key a =
      let rest = put m key a in if text_eq k key then (k, a) ∷ m else (k, b) ∷ rest

  -- map.delete(key)
  unfoldable pub delete : Map A → Text → Map A
  delete [] key = []
  delete ((k, b) ∷ m) key = let rest = delete m key in if text_eq k key then m else (k, b) ∷ rest

  pub lookup-put : (m : Map A) (key : Text) (a : A) → lookup (put m key a) key ≡ some a
  unfolding lookup put
  lookup-put [] key a = rw text_eq_refl
  lookup-put ((k, b) ∷ m) key a = ground (arith, lookup-put m key a)

  pub length-put-le : (m : Map A) (key : Text) (a : A) → length (put m key a) ≤ length m + 1
  unfolding put
  length-put-le [] key a = omega arith
  length-put-le ((k, b) ∷ m) key a = ground (arith, length-put-le m key a)

  pub length-put_found :
      (m : Map A) (key : Text) (a : A) {b : A}
      → lookup m key ≡ some b
      → length (put m key a) ≡ length m
  unfolding lookup put
  length-put_found [] key a h = cc
  length-put_found ((k, c) ∷ m) key a {b} h = ground (arith, length-put_found m key a {b = b})

  pub lookup-put_other :
      (m : Map A) (key other : Text) (a : A)
      → text_eq key other ≡ false
      → lookup (put m key a) other ≡ lookup m other
  unfolding lookup put
  lookup-put_other [] key other a h = rw h
  lookup-put_other ((k, b) ∷ m) key other a h = elim (Bool-cases (text_eq k key)) [
    | inl same ↦
        let miss : text_eq k other ≡ false = rw ((text_eq_iff k key).0 same) h in rw (same, miss)
    | inr differ ↦ rw (differ, lookup-put_other m key other a h)
  ]
