-- ===== src/Catalog/Product.antt =====
-- apps/api/src/modules/catalog/domain/product.ts
pub mod Valid
pub mod Lifecycle
pub mod History
use taymex.Prelude.{
  ℕ, ◌+◌, String, Text, codes, Option, none, some, Bool, true, false, ◌&&◌, ◌||◌, not, List, [],
  ◌∷◌, any, find, map, ltb, leb, ◌==◌, text_eq, if◌then◌else◌,
}
use taymex.Foundation.Errors.{
  Category, ErrorClass, validation_error, product_error, ApplicationError, Error, application,
  application_error, Result, ok, err, ◌>>=◌, ◌>>◌, guard, Number, nat, safe_from, Date,
}
use taymex.Foundation.Validation.{
  require_non_blank, require_uuid, require_one_of, require_valid_date,
}
use taymex.Foundation.Decimal.{DecimalOptions}
use taymex.Foundation.Money.{Money, money}

-- PRODUCT_CATEGORIES
pub data ProductCategory : Type 0 where
  solar_panel lithium_battery high_voltage_lithium_battery inverter bipv : ProductCategory

-- PRODUCT_PUBLICATION_STATUSES
pub data PublicationStatus : Type 0 where
  draft published archived : PublicationStatus

pub record LocalizedProductName : Type 0 where
  pub ar : Text
  pub tr : Text
  pub en : Text

pub record ProductPrice : Type 0 where
  pub amount : Text
  pub currency : Text

pub record Product : Type 0 where
  pub id : Text
  pub model_code : Text
  pub category : ProductCategory
  pub name : LocalizedProductName
  pub price_amount : Option Text
  pub price_currency : Option Text
  pub publication_status : PublicationStatus
  pub version : ℕ
  pub created_at : ℕ
  pub updated_at : ℕ

-- PRODUCT_ERROR_CODES
pub data ProductErrorCode : Type 0 where
  validation version_conflict archived_product invalid_transition : ProductErrorCode

abbrev pub error_code : ProductErrorCode → String
error_code validation = "PRODUCT_VALIDATION"
error_code version_conflict = "PRODUCT_VERSION_CONFLICT"
error_code archived_product = "PRODUCT_ARCHIVED"
error_code invalid_transition = "PRODUCT_INVALID_TRANSITION"

-- `errors.catalog.product.` before the code in lower case
abbrev pub error_key : ProductErrorCode → String
error_key validation = "errors.catalog.product.product_validation"
error_key version_conflict = "errors.catalog.product.product_version_conflict"
error_key archived_product = "errors.catalog.product.product_archived"
error_key invalid_transition = "errors.catalog.product.product_invalid_transition"

abbrev pub error_category : ProductErrorCode → Category
error_category validation = Category.validation
error_category _ = Category.conflict

-- the constructor of `ProductDomainError`
unfoldable pub domain_error : ProductErrorCode → String → Error
domain_error code field = application_error (record {
  class = product_error;
  code = error_code code;
  category = error_category code;
  safe_message_key = error_key code;
  field = some field;
})

-- validationError(field, message)
unfoldable pub invalid_field : String → Error
invalid_field = domain_error validation

-- An optional and nullable text of an input.
pub data Given : Type 0 where
  undefined null : Given
  text : Text → Given

pub record CreateProductInput : Type 0 where
  pub id : Text
  pub model_code : Text
  pub category : Text
  pub name : LocalizedProductName
  pub price_amount : Given
  pub price_currency : Given
  pub publication_status : Option Text
  pub now : Date

pub record UpdateProductInput : Type 0 where
  pub expected_version : Number
  pub model_code : Option Text
  pub category : Option Text
  pub name : Option LocalizedProductName
  pub price_amount : Given
  pub price_currency : Given
  pub now : Date

pub record ChangeStatusInput : Type 0 where
  pub expected_version : Number
  pub publication_status : Text
  pub now : Date

-- `catch (error) { if (error instanceof ValidationError) throw replacement; throw error; }`
abbrev is_validation_error : ErrorClass → Bool
is_validation_error (validation_error issues) = true
is_validation_error _ = false

abbrev replace_error : Error → Error → Error
replace_error (application e) with_error =
    if is_validation_error e.class then with_error else application e
replace_error e with_error = e

abbrev pub rethrow {ℓ} : {A : Type ℓ} → Result A → Error → Result A
rethrow (ok a) with_error = ok a
rethrow (err e) with_error = err (replace_error e with_error)

unfoldable pub normalize_required_text : Text → String → Result Text
normalize_required_text value field =
    rethrow (require_non_blank value field (nat 4096)) (invalid_field field)

unfoldable pub normalize_uuid : Text → Result Text
normalize_uuid id = rethrow (require_uuid id "id") (invalid_field "id")

abbrev pub category_names : List (Text × ProductCategory)
category_names =
    (codes "solar-panel", solar_panel)
    ∷ (codes "lithium-battery", lithium_battery)
    ∷ (codes "high-voltage-lithium-battery", high_voltage_lithium_battery)
    ∷ (codes "inverter", inverter)
    ∷ (codes "bipv", bipv)
    ∷ []

abbrev pub status_names : List (Text × PublicationStatus)
status_names =
    (codes "draft", draft) ∷ (codes "published", published) ∷ (codes "archived", archived) ∷ []

-- The member of an enumeration that a text names.
abbrev pub named {ℓ} : {A : Type ℓ} → Text → List (Text × A) → Option A
named value [] = none
named value ((name, a) ∷ names) = if text_eq value name then some a else named value names

-- `requireOneOf`, with the member in place of its name, and its error replaced
abbrev one_of {ℓ} : {A : Type ℓ} → Option A → Error → Result A
one_of none e = err e
one_of (some a) e = ok a

unfoldable pub normalize_category : Text → Result ProductCategory
normalize_category category = one_of (named category category_names) (invalid_field "category")

unfoldable pub normalize_publication_status : Text → Result PublicationStatus
normalize_publication_status status =
    one_of (named status status_names) (invalid_field "publicationStatus")

unfoldable pub normalize_localized_name : LocalizedProductName → Result LocalizedProductName
normalize_localized_name name = do
  ar ← normalize_required_text name.ar "name.ar"
  tr ← normalize_required_text name.tr "name.tr"
  en ← normalize_required_text name.en "name.en"
  ok (record { ar = ar; tr = tr; en = en })

unfoldable pub normalize_date : Date → String → Result ℕ
normalize_date value field = rethrow (require_valid_date value field) (invalid_field field)

abbrev pub price_options : DecimalOptions
price_options = record { max_scale = some (nat 6); allow_negative = some false }

-- `catch (error) { if (error instanceof MoneyError) … }`
abbrev is_currency_code : String → Bool
is_currency_code code = text_eq (codes code) (codes "MONEY_INVALID_CURRENCY")

abbrev is_money_error : ErrorClass → Bool
is_money_error ErrorClass.money_error = true
is_money_error _ = false

abbrev price_error : Error → Error
price_error (application e) =
    if is_money_error e.class
    then (if is_currency_code e.code
        then invalid_field "priceCurrency"
        else invalid_field "priceAmount")
    else application e
price_error e = e

abbrev price_of : Result Money → Result (Option ProductPrice)
price_of (ok m) = ok (some (record { amount = m.amount; currency = m.currency }))
price_of (err e) = err (price_error e)

unfoldable pub normalize_price : Given → Given → Result (Option ProductPrice)
normalize_price (text amount) (text currency) = price_of (money amount currency price_options)
normalize_price (text amount) _ = err (invalid_field "price")
normalize_price _ (text currency) = err (invalid_field "price")
normalize_price _ _ = ok none

abbrev pub amount_part : Option ProductPrice → Option Text
amount_part none = none
amount_part (some p) = some p.amount

abbrev pub currency_part : Option ProductPrice → Option Text
currency_part none = none
currency_part (some p) = some p.currency

abbrev pub is_archived : PublicationStatus → Bool
is_archived archived = true
is_archived _ = false

-- productModelCodeComparisonKey, over the run time's `toLocaleUpperCase('en-US')`
unfoldable pub model_code_comparison_key : (Text → Text) → Text → Result Text
model_code_comparison_key to_locale_upper_case model_code = do
  trimmed ← normalize_required_text model_code "modelCode"
  ok (to_locale_upper_case trimmed)

unfoldable pub create_product : CreateProductInput → Result Product
create_product input = do
  id ← normalize_uuid input.id
  model_code ← normalize_required_text input.model_code "modelCode"
  category ← normalize_category input.category
  name ← normalize_localized_name input.name
  price ← normalize_price input.price_amount input.price_currency
  status ←
      normalize_publication_status
        (elim input.publication_status [ none ↦ codes "draft" | some s ↦ s ])
  now ← normalize_date input.now "now"
  guard (not (is_archived status)) (invalid_field "publicationStatus")
  ok (record {
    id = id;
    model_code = model_code;
    category = category;
    name = name;
    price_amount = amount_part price;
    price_currency = currency_part price;
    publication_status = status;
    version = 1;
    created_at = now;
    updated_at = now;
  })

unfoldable pub assert_mutable : Product → Result (Unit {0})
assert_mutable product =
    guard (not (is_archived product.publication_status))
      (domain_error archived_product "publicationStatus")

unfoldable pub assert_expected_version : Product → Number → Result (Unit {0})
assert_expected_version product expected_version = elim (safe_from 1 expected_version) [
  | none ↦ err (invalid_field "expectedVersion")
  | some n ↦ guard (product.version == n) (domain_error version_conflict "expectedVersion")
]

unfoldable pub normalize_mutation_time : Product → Date → Result ℕ
normalize_mutation_time product value = do
  normalized ← normalize_date value "now"
  guard (not (ltb normalized product.updated_at)) (invalid_field "now")
  ok normalized

-- an input that is `undefined` keeps the old value
abbrev pub updated {ℓ κ} : {A : Type ℓ} {B : Type κ} → Option A → (A → Result B) → B → Result B
updated none normalize old = ok old
updated (some a) normalize old = normalize a

abbrev pub is_specified : Given → Bool
is_specified undefined = false
is_specified _ = true

abbrev pub same : Bool → Bool → Bool
same true b = b
same false b = not b

abbrev pub new_price : Product → Given → Given → Result (Option Text × Option Text)
new_price product amount currency =
    if is_specified amount
    then (do price ← normalize_price amount currency; ok (amount_part price, currency_part price))
    else ok (product.price_amount, product.price_currency)

unfoldable pub update_product : Product → UpdateProductInput → Result Product
update_product product input = do
  assert_mutable product
  assert_expected_version product input.expected_version
  now ← normalize_mutation_time product input.now
  model_code ←
      updated input.model_code (λ t. normalize_required_text t "modelCode") product.model_code
  category ← updated input.category normalize_category product.category
  name ← updated input.name normalize_localized_name product.name
  guard (same (is_specified input.price_amount) (is_specified input.price_currency))
      (invalid_field "price")
  price ← new_price product input.price_amount input.price_currency
  ok (record product {
    model_code = model_code;
    category = category;
    name = name;
    price_amount = price.0;
    price_currency = price.1;
    version = product.version + 1;
    updated_at = now;
  })

abbrev pub same_status : PublicationStatus → PublicationStatus → Bool
same_status draft draft = true
same_status published published = true
same_status archived archived = true
same_status _ _ = false

unfoldable pub is_allowed_transition : PublicationStatus → PublicationStatus → Bool
is_allowed_transition archived next = false
is_allowed_transition draft next = same_status next published || same_status next archived
is_allowed_transition published next = same_status next draft || same_status next archived

unfoldable pub change_product_publication_status : Product → ChangeStatusInput → Result Product
change_product_publication_status product input = do
  assert_mutable product
  assert_expected_version product input.expected_version
  next_status ← normalize_publication_status input.publication_status
  now ← normalize_mutation_time product input.now
  guard (not (same_status product.publication_status next_status))
      (domain_error invalid_transition "publicationStatus")
  guard (is_allowed_transition product.publication_status next_status)
      (domain_error invalid_transition "publicationStatus")
  ok (record product {
    publication_status = next_status;
    version = product.version + 1;
    updated_at = now;
  })
