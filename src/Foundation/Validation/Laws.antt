-- ===== src/Foundation/Validation/Laws.antt =====
-- What the validators accept.
use mathlib.Core.List.{reverse}
use taymex.Prelude.{
  ℕ, ◌≤◌, ◌≡◌, ◌≢◌, refl, sym, ap, ◌∙◌, Bool, true, String, Text, List, [], ◌∷◌, map, is_space,
  trim_start, arith, length, length-map, map-reverse, trim,
}
use taymex.Foundation.Errors.{ok, >>=-eq-ok, Number, nat, safe_from}
use taymex.Foundation.Validation.{
  require_non_blank, require_uuid, to_lower, is_uuid, matches, uuid_pattern, is_nil,
}
use taymex.Foundation.Validation.Trim.{trim_idempotent}

-- An accepted text is the trimmed argument, is not empty and is no longer than the limit.
pub require_non_blank-ok :
    (value : Text) (field : String) (most : ℕ) {text : Text}
    → require_non_blank value field (nat most) ≡ ok text
    → (text ≡ trim value) × (text ≢ []) × (length text ≤ most)
unfolding require_non_blank safe_from
require_non_blank-ok value field most {text} h = ground arith

-- Requiring an accepted text again, under the same limit, returns it unchanged.
pub require_non_blank_idempotent :
    (value : Text) (field : String) (most : Number) {text : Text}
    → require_non_blank value field most ≡ ok text
    → require_non_blank text field most ≡ ok text
unfolding require_non_blank
require_non_blank_idempotent value field most h = ground (arith, trim_idempotent value)

-- Lowering twice is lowering once.
to_lower_idempotent : (c : ℕ) → to_lower (to_lower c) ≡ to_lower c
unfolding to_lower
to_lower_idempotent c = ground arith

map-to_lower_idempotent : (s : Text) → map to_lower (map to_lower s) ≡ map to_lower s
map-to_lower_idempotent [] = refl
map-to_lower_idempotent (c ∷ s) = cc (to_lower_idempotent c, map-to_lower_idempotent s)

is_nil-map : (s : Text) → is_nil (map to_lower s) ≡ is_nil s
is_nil-map [] = refl
is_nil-map (c ∷ s) = refl

-- `matches` fixes the length.
matches-length : (ps : List (ℕ → Bool)) (s : Text) → matches ps s ≡ true → length s ≡ length ps
unfolding matches
matches-length [] [] h = refl
matches-length [] (c ∷ s) h = cc
matches-length (p ∷ ps) [] h = cc
matches-length (p ∷ ps) (c ∷ s) h = ground (arith, matches-length ps s)

pub is_uuid-length : (s : Text) → is_uuid s ≡ true → length s ≡ 36
unfolding is_uuid
is_uuid-length s h = matches-length uuid_pattern s h

-- Lowering commutes with trimming: it keeps white space and the rest apart.
is_space-to_lower : (c : ℕ) → is_space (to_lower c) ≡ is_space c
unfolding is_space to_lower
is_space-to_lower c = ground arith

trim_start-map : (s : Text) → trim_start (map to_lower s) ≡ map to_lower (trim_start s)
unfolding trim_start
trim_start-map [] = refl
trim_start-map (c ∷ s) = ground (arith, is_space-to_lower c, trim_start-map s)

trim-map : (s : Text) → trim (map to_lower s) ≡ map to_lower (trim s)
unfolding trim
trim-map s =
    ap (λ x. reverse (trim_start (reverse x))) (trim_start-map s)
    ∙ ap (λ x. reverse (trim_start x)) (sym (map-reverse to_lower (trim_start s)))
    ∙ ap reverse (trim_start-map (reverse (trim_start s)))
    ∙ sym (map-reverse to_lower (trim_start (reverse (trim_start s))))

module _ (value : Text) (field : String) (most : Number) {text : Text} where
  require_non_blank-lower :
      require_non_blank value field most ≡ ok text
      → require_non_blank (map to_lower text) field most ≡ ok (map to_lower text)
  unfolding require_non_blank
  require_non_blank-lower h =
      ground
        (arith, trim_idempotent value, trim-map text, length-map text to_lower, is_nil-map text)

-- An accepted identifier has the canonical form: 36 units that fit the pattern, which another
-- call returns unchanged.
pub require_uuid-canonical :
    (value : Text) (field : String) {id : Text}
    → require_uuid value field ≡ ok id
    → (is_uuid id ≡ true) × (length id ≡ 36) × (require_uuid id field ≡ ok id)
unfolding require_uuid
require_uuid-canonical value field h =
    let (text, e, f) = >>=-eq-ok (require_non_blank value field (nat 64)) _ h in
    ground (
      arith,
      require_non_blank-lower value field (nat 64) e,
      map-to_lower_idempotent text,
      is_uuid-length (map to_lower text),
    )
