-- ===== src/Foundation/Errors.antt =====
-- packages/foundation/src/errors.ts, and what the program throws, as values.
-- Diagnostic messages, causes and stack traces are left out; what a client can see is kept.
use mathlib.Core.Path.{subst}
use taymex.Prelude.{
  ℕ, ◌-◌, ◌^◌, String, Text, codes, ◌⊎◌, inl, inr, refl, Option, none, some, Bool, true, false,
  ◌&&◌, ◌||◌, List, [], ◌∷◌, ◌≡◌, leb, ◌==◌, length, all, if◌then◌else◌,
}

-- APPLICATION_ERROR_CATEGORIES
pub data Category : Type 0 where
  validation not_found conflict authentication authorization rate_limit dependency internal :
      Category

-- ValidationIssue of validation.ts
pub record Issue : Type 0 where
  pub field : String
  pub code : String
  pub message_key : String

-- The subclass, for the `instanceof` tests.
pub data ErrorClass : Type 0 where
  validation_error : List Issue → ErrorClass
  money_error quantity_error product_error catalog_error identity_error settings_error : ErrorClass
  http_error : ErrorClass

pub record ApplicationError : Type 0 where
  pub class : ErrorClass
  pub code : String
  pub category : Category
  pub safe_message_key : String
  pub field : Option String

-- A thrown value: an `ApplicationError`, the `AuthorizationDeniedError` of the platform's package,
-- the `NotificationProviderError` of packages/notifications with its code, or one of JavaScript's own errors with its message shortened to a name.
pub data Error : Type 0 where
  application : ApplicationError → Error
  authorization_denied : Error
  provider_error : Text → Error
  type_error range_error plain_error : String → Error

pub data Result {ℓ} (A : Type ℓ) : Type ℓ where
  ok : A → Result A
  err : Error → Result A

-- The end of a method that throws unless a condition holds.
abbrev pub guard : Bool → Error → Result (Unit {0})
guard allowed thrown = if allowed then ok tt else err thrown

module _ {ℓ} {A : Type ℓ} where
  pub Result-cases : (r : Result A) → ((a : A) × (r ≡ ok a)) ⊎ ((e : Error) × (r ≡ err e))
  Result-cases (err thrown) = inr (thrown, refl)
  Result-cases (ok value) = inl (value, refl)

-- What is thrown first ends the method.
module _ {ℓ κ} {A : Type ℓ} {B : Type κ} where
  infixl 5 ◌>>=◌
  abbrev pub ◌>>=◌ : Result A → (A → Result B) → Result B
  err thrown >>= next = err thrown
  ok value >>= next = next value

  pub >>=-eq-ok :
      (r : Result A) (next : A → Result B) {result : B}
      → (r >>= next) ≡ ok result
      → (value : A) × (r ≡ ok value) × (next value ≡ ok result)
  >>=-eq-ok (err thrown) next h = cc
  >>=-eq-ok (ok value) next h = (value, refl, h)

module _ {ℓ} {B : Type ℓ} where
  infixl 5 ◌>>◌
  abbrev pub ◌>>◌ : Result (Unit {0}) → Result B → Result B
  checked >> rest = checked >>= λ _. rest

-- `P` holds of the value, if there is one.
pub record Ensures {ℓ κ} {A : Type ℓ} (P : A → Type κ) (r : Result A) : Type (ℓ ⊔ κ) where
  pub at : (a : A) → r ≡ ok a → P a

module _ {ℓ κ μ} {A : Type ℓ} {B : Type κ} {P : B → Type μ} where
  pub Ensures-bind :
      (r : Result A) {f : A → Result B}
      → ((a : A) → r ≡ ok a → Ensures P (f a))
      → Ensures P (r >>= f)
  Ensures-bind r {f} h = record { at = λ b e. let (a, x, y) = >>=-eq-ok r f e in (h a x).at b y }

module _ {ℓ κ} {A : Type ℓ} {P : A → Type κ} where
  pub Ensures-ok : {a : A} → P a → Ensures P (ok a)
  Ensures-ok {a} p = record { at = λ b e. subst (λ r. Holds r) e p }
    where
      Holds : Result A → Type κ
      Holds (ok b) = P b
      Holds (err e) = P a

  pub Ensures-err : (e : Error) → Ensures P (err e)
  Ensures-err e = record { at = λ b h. cc }

  pub Ensures-guard :
      (c : Bool) (e : Error) {r : Result A} → (c ≡ true → Ensures P r) → Ensures P (guard c e >> r)
  Ensures-guard true e h = h refl
  Ensures-guard false e h = Ensures-err e

-- A `number` argument: an integer from 0 up, or anything else (negative, fractional, NaN), which
-- every check of the program refuses alike.
pub data Number : Type 0 where
  nat : ℕ → Number
  other : Number

abbrev pub max_safe_integer : ℕ
max_safe_integer = 2 ^ 53 - 1

-- `Number.isSafeInteger(n) && n >= low`, with the number if so.
unfoldable pub safe_from : ℕ → Number → Option ℕ
safe_from low (nat n) = if leb low n && leb n max_safe_integer then some n else none
safe_from low other = none

-- A `Date` argument: milliseconds since 1970, or an invalid date.
pub data Date : Type 0 where
  at : ℕ → Date
  invalid : Date

abbrev upper : ℕ → Bool
upper c = leb b'A' c && leb c b'Z'

abbrev digit : ℕ → Bool
digit c = leb b'0' c && leb c b'9'

abbrev lower : ℕ → Bool
lower c = leb b'a' c && leb c b'z'

-- ERROR_CODE_PATTERN
abbrev code_tail : ℕ → Bool
code_tail c = upper c || digit c || c == b'_'

unfoldable pub is_error_code : Text → Bool
is_error_code [] = false
is_error_code (c ∷ s) = upper c && all code_tail s && leb 2 (length s) && leb (length s) 127

-- MESSAGE_KEY_PATTERN, after the first letter: `after` tells that the last unit was a separator.
key_tail : Bool → Text → Bool
key_tail after [] = if after then false else true
key_tail after (c ∷ s) =
    let word = key_tail false s in
    let gap = key_tail true s in
    if upper c || digit c || lower c
    then word
    else if c == b'.' || c == b'_' || c == b'-'
    then (if after then false else gap)
    else false

unfoldable pub is_message_key : Text → Bool
unfolding key_tail
is_message_key [] = false
is_message_key (c ∷ s) = lower c && key_tail false s

-- The constructor of `ApplicationError` refuses a code or a key that is not canonical. (Its
-- category is one of the eight by type.)
unfoldable pub application_error : ApplicationError → Error
unfolding is_error_code is_message_key
application_error e =
    if is_error_code (codes e.code)
    then (if is_message_key (codes e.safe_message_key)
        then application e
        else type_error "Invalid safe message key")
    else type_error "Invalid application error code"

-- SafeErrorDescriptor
pub record SafeErrorDescriptor : Type 0 where
  pub code : String
  pub category : Category
  pub message_key : String
  pub field : Option String
  pub correlation_id : Option String

-- toSafeErrorDescriptor: an empty field or id is dropped.
abbrev non_empty : Option String → Option String
non_empty none = none
non_empty (some String.[]) = none
non_empty (some (String.◌∷◌ c s)) = some (String.◌∷◌ c s)

unfoldable pub to_safe_error_descriptor : ApplicationError → Option String → SafeErrorDescriptor
to_safe_error_descriptor e correlation_id = record {
  code = e.code;
  category = e.category;
  message_key = e.safe_message_key;
  field = non_empty e.field;
  correlation_id = non_empty correlation_id;
}
