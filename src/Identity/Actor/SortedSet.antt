-- ===== src/Identity/Actor/SortedSet.antt =====
-- The sorted set of the elements of a list.
use taymex.Prelude.{
  ◌≡◌, refl, ap, ◌∙◌, Text, true, false, ◌||◌, List, [], ◌∷◌, any, text_eq, text_eq_iff, text_ltb,
  Bool-cases, inl, inr, arith,
}
use taymex.Identity.Actor.{insert, sorted_set}

-- Of two texts that differ one comes before the other.
text_ltb_total : (s t : Text) → text_eq s t ≡ false → text_ltb s t ≡ false → text_ltb t s ≡ true
unfolding text_eq text_ltb
text_ltb_total [] [] h k = cc
text_ltb_total [] (d ∷ t) h k = cc
text_ltb_total (c ∷ s) [] h k = refl
text_ltb_total (c ∷ s) (d ∷ t) h k = ground (arith, text_ltb_total s t)

-- In the order of JavaScript's strings, strictly: each one comes before the next.
abbrev pub IsSorted : List Text → Type 0
IsSorted [] = Unit
IsSorted (x ∷ []) = Unit
IsSorted (x ∷ y ∷ ys) = (text_ltb x y ≡ true) × IsSorted (y ∷ ys)

insert_above :
    (y x : Text) (ys : List Text)
    → IsSorted (y ∷ ys)
    → text_ltb y x ≡ true
    → IsSorted (y ∷ insert x ys)
unfolding insert
insert_above y x [] h p = (p, tt)
insert_above y x (z ∷ zs) (q, h) p = elim (Bool-cases (text_eq x z)) [
  | inl same ↦ rw same (q, h)
  | inr differ ↦ elim (Bool-cases (text_ltb x z)) [
    | inl before ↦ let above : IsSorted (x ∷ z ∷ zs) = (before, h) in rw (differ, before) (p, above)
    | inr behind ↦ rw (differ, behind) (q, insert_above z x zs h (text_ltb_total x z differ behind))
  ]
]

insert-IsSorted : (x : Text) (ys : List Text) → IsSorted ys → IsSorted (insert x ys)
unfolding insert
insert-IsSorted x [] h = tt
insert-IsSorted x (y ∷ ys) h = elim (Bool-cases (text_eq x y)) [
  | inl same ↦ rw same h
  | inr differ ↦ elim (Bool-cases (text_ltb x y)) [
    | inl before ↦ rw (differ, before) (before, h)
    | inr behind ↦ rw (differ, behind) (insert_above y x ys h (text_ltb_total x y differ behind))
  ]
]

IsSorted-sorted_set : (xs : List Text) → IsSorted (sorted_set xs)
unfolding sorted_set
IsSorted-sorted_set [] = tt
IsSorted-sorted_set (x ∷ xs) = insert-IsSorted x (sorted_set xs) (IsSorted-sorted_set xs)

any-insert :
    (v x : Text) (ys : List Text)
    → any (text_eq v) (insert x ys) ≡ (text_eq v x || any (text_eq v) ys)
unfolding insert
any-insert v x [] = refl
any-insert v x (y ∷ ys) = elim (Bool-cases (text_eq x y)) [
  | inl same ↦
      let e : text_eq v x ≡ text_eq v y = ap (text_eq v) ((text_eq_iff x y).0 same) in
      rw (same, e) (ground arith)
  | inr differ ↦ elim (Bool-cases (text_ltb x y)) [
    | inl before ↦ rw (differ, before)
    | inr behind ↦ rw (differ, behind, any-insert v x ys) (ground arith)
  ]
]

any-sorted_set : (v : Text) (xs : List Text) → any (text_eq v) (sorted_set xs) ≡ any (text_eq v) xs
unfolding sorted_set
any-sorted_set v [] = refl
any-sorted_set v (x ∷ xs) =
    any-insert v x (sorted_set xs) ∙ ap (λ b. text_eq v x || b) (any-sorted_set v xs)

-- The set that roles and permissions are kept as is in the strict order of strings, so that nothing
-- stands in it twice, and has the same elements as the list.
pub sorted_set-IsSorted :
    (xs : List Text)
    → IsSorted (sorted_set xs) × ((v : Text) → any (text_eq v) (sorted_set xs) ≡ any (text_eq v) xs)
sorted_set-IsSorted xs = (IsSorted-sorted_set xs, λ v. any-sorted_set v xs)
