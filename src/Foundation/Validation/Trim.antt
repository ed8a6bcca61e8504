-- ===== src/Foundation/Validation/Trim.antt =====
-- `trim` leaves no white space at either end, so trimming twice is trimming once.
use mathlib.Core.List.{reverse, reverse-cons, reverse-reverse, append_assoc, append-nil}
use mathlib.Core.Path.{◌≡⟨◌⟩◌, ◌∎}
use taymex.Prelude.{
  Text, ◌≡◌, refl, sym, ap, ◌∙◌, All, All-reverse, false, [], ◌∷◌, ◌++◌, Bool-cases, inl, inr,
  is_space, trim_start, trim,
}

abbrev StartsPlain : Text → Type 0
StartsPlain [] = Unit
StartsPlain (c ∷ s) = is_space c ≡ false

trim_start-StartsPlain : (s : Text) → StartsPlain (trim_start s)
unfolding trim_start
trim_start-StartsPlain [] = tt
trim_start-StartsPlain (c ∷ s) = elim (Bool-cases (is_space c)) [
  | inl space ↦ rw space (trim_start-StartsPlain s)
  | inr plain ↦ rw plain plain
]

trim_start_of_StartsPlain : (s : Text) → StartsPlain s → trim_start s ≡ s
unfolding trim_start
trim_start_of_StartsPlain [] h = refl
trim_start_of_StartsPlain (c ∷ s) h = rw h

-- What is stripped from the end is a suffix.
reverse-trim_start : (s : Text) → (w : Text) × (reverse s ≡ reverse (trim_start s) ++ w)
unfolding trim_start
reverse-trim_start [] = ([], refl)
reverse-trim_start (c ∷ s) = elim (Bool-cases (is_space c)) [
  | inl space ↦
      let (w, e) = reverse-trim_start s in
      (w ++ c ∷ [], rw (space, reverse-cons, e) (append_assoc (reverse (trim_start s)) w (c ∷ [])))
  | inr plain ↦ ([], rw plain (sym (append-nil _)))
]

StartsPlain-prefix : (s w : Text) → StartsPlain (s ++ w) → StartsPlain s
StartsPlain-prefix [] w h = tt
StartsPlain-prefix (c ∷ s) w h = h

reverse-trim_start-StartsPlain :
    (s : Text) → StartsPlain s → StartsPlain (reverse (trim_start (reverse s)))
reverse-trim_start-StartsPlain s h =
    let (w, e) = reverse-trim_start (reverse s) in
    let whole : StartsPlain (reverse (reverse s)) = rw (reverse-reverse s) h in
    StartsPlain-prefix (reverse (trim_start (reverse s))) w (rw e at whole)

pub trim_idempotent : (s : Text) → trim (trim s) ≡ trim s
unfolding trim
trim_idempotent s =
    let t = trim_start s in
    let u = reverse (trim_start (reverse t)) in
    let plain = reverse-trim_start-StartsPlain t (trim_start-StartsPlain s) in
    reverse (trim_start (reverse (trim_start u)))
    ≡⟨ ap (λ x. reverse (trim_start (reverse x))) (trim_start_of_StartsPlain u plain) ⟩
      reverse (trim_start (reverse u))
    ≡⟨ ap (λ x. reverse (trim_start x)) (reverse-reverse (trim_start (reverse t))) ⟩
      reverse (trim_start (trim_start (reverse t)))
    ≡⟨ ap reverse (trim_start_of_StartsPlain _ (trim_start-StartsPlain (reverse t))) ⟩ u ∎

StartsPlain-of_All : (s : Text) → All (λ c. is_space c ≡ false) s → StartsPlain s
StartsPlain-of_All [] h = tt
StartsPlain-of_All (c ∷ s) (p, h) = p

-- A text with no white space is left alone.
pub trim_of_no_space : (s : Text) → All (λ c. is_space c ≡ false) s → trim s ≡ s
unfolding trim
trim_of_no_space s h =
    ap (λ x. reverse (trim_start (reverse x)))
      (trim_start_of_StartsPlain s (StartsPlain-of_All s h))
    ∙ ap reverse (trim_start_of_StartsPlain (reverse s) (StartsPlain-of_All _ (All-reverse _ s h)))
    ∙ reverse-reverse s
