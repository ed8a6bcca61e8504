-- ===== src/Foundation/Validation.antt =====
-- packages/foundation/src/validation.ts. The `typeof` tests hold by the types of the arguments.
pub mod Trim
pub mod Laws
use taymex.Prelude.{
  ℕ, suc, ◌+◌, String, Text, Option, none, some, Bool, true, false, ◌&&◌, ◌||◌, not, List, [], ◌∷◌,
  ◌++◌, map, any, ltb, leb, ◌==◌, length, replicate, trim, text_eq, if◌then◌else◌,
}
use taymex.Foundation.Errors.{
  Category, validation_error, ApplicationError, Issue, Error, application_error, Result, ok, err,
  ◌>>=◌, Number, nat, safe_from, Date, at, invalid,
}

-- The constructor of `ValidationError`, for one issue.
unfoldable pub issue : String → String → String → Error
unfolding application_error
issue field code message_key = application_error (record {
  class = validation_error (record { field = field; code = code; message_key = message_key } ∷ []);
  code = "VALIDATION_FAILED";
  category = Category.validation;
  safe_message_key = "errors.validation";
  field = some field;
})

abbrev is_nil {ℓ} : {A : Type ℓ} → List A → Bool
is_nil [] = true
is_nil (x ∷ xs) = false

unfoldable pub require_non_blank : Text → String → Number → Result Text
unfolding issue
require_non_blank value field max_length =
    let normalized = trim value in
    if is_nil normalized
    then err (issue field "REQUIRED" "errors.validation.required")
    else elim (safe_from 1 max_length) [
      | none ↦ err (Error.type_error "maxLength must be a positive safe integer.")
      | some most ↦
          if ltb most (length normalized)
          then err (issue field "TOO_LONG" "errors.validation.tooLong")
          else ok normalized
    ]

-- `toLowerCase`, on the ASCII letters: no other code unit is lowered to a hexadecimal digit.
unfoldable pub to_lower : ℕ → ℕ
to_lower c = if leb b'A' c && leb c b'Z' then c + 32 else c

abbrev hex : ℕ → Bool
hex c = (leb b'0' c && leb c b'9') || (leb b'a' c && leb c b'f')

abbrev dash : ℕ → Bool
dash c = c == b'-'

-- One test for each code unit of UUID_PATTERN.
abbrev uuid_pattern : List (ℕ → Bool)
uuid_pattern =
    replicate 8 hex
    ++ (dash ∷ replicate 4 hex)
    ++ (dash ∷ (λ c. leb b'1' c && leb c b'8') ∷ replicate 3 hex)
    ++ (dash ∷ (λ c. c == b'8' || c == b'9' || c == b'a' || c == b'b') ∷ replicate 3 hex)
    ++ (dash ∷ replicate 12 hex)

unfoldable pub matches : List (ℕ → Bool) → Text → Bool
matches [] [] = true
matches [] (c ∷ s) = false
matches (p ∷ ps) [] = false
matches (p ∷ ps) (c ∷ s) = p c && matches ps s

unfoldable pub is_uuid : Text → Bool
unfolding matches
is_uuid = matches uuid_pattern

unfoldable pub require_uuid : Text → String → Result Text
unfolding issue
require_uuid value field = do
  text ← require_non_blank value field (nat 64)
  let normalized = map to_lower text
  if is_uuid normalized then ok normalized else err (issue field "UUID" "errors.validation.uuid")

unfoldable pub require_positive_safe_integer : Number → String → Result ℕ
unfolding issue
require_positive_safe_integer value field = elim (safe_from 1 value) [
  | none ↦ err (issue field "POSITIVE_SAFE_INTEGER" "errors.validation.positiveInteger")
  | some n ↦ ok n
]

unfoldable pub require_one_of : Text → List Text → String → Result Text
unfolding issue
require_one_of value allowed field =
    if any (text_eq value) allowed
    then ok value
    else err (issue field "ENUM" "errors.validation.choice")

unfoldable pub require_valid_date : Date → String → Result ℕ
unfolding issue
require_valid_date (at time) field = ok time
require_valid_date invalid field = err (issue field "DATE" "errors.validation.date")
