-- ===== src/Catalog/Service.antt =====
-- apps/api/src/modules/catalog/application/catalog-products-service.ts, with
-- catalog-products-authorization.ts and catalog-products-settings.ts. Parameters: the repository;
-- the permission check of the platform's package; `toLocaleUpperCase`; and per call the time of the
-- clock, the next id and the page size that the settings resolve to.
pub mod Stored
use taymex.Prelude.{
  ℕ, ◌+◌, ◌-◌, ◌*◌, ◌/◌, String, Text, Option, none, some, Bool, true, false, List, ◌==◌, leb,
  if◌then◌else◌,
}
use taymex.Foundation.Errors.{
  Category, ErrorClass, catalog_error, validation_error, Error, application, authorization_denied,
  application_error, Result, ok, err, Number, Date, max_safe_integer, safe_from,
}
use taymex.Foundation.Validation.{require_positive_safe_integer}
use taymex.Effects.{Exec, ◌>>=◌, ◌>>◌, pure, raise, lift}
use taymex.Catalog.Product.{
  Product, LocalizedProductName, Given, CreateProductInput, UpdateProductInput, ChangeStatusInput,
  create_product, update_product, ProductErrorCode, change_product_publication_status,
  model_code_comparison_key, domain_error, rethrow,
}
use taymex.Catalog.Repository.{
  Repository, ProductListResult, CreateProductPersistenceResult, ReplaceProductPersistenceResult,
}

-- CATALOG_PRODUCTS_APPLICATION_ERROR_CODES
pub data CatalogProductsApplicationErrorCode : Type 0 where
  not_found duplicate_model_code invalid_page : CatalogProductsApplicationErrorCode

abbrev error_code : CatalogProductsApplicationErrorCode → String
error_code not_found = "CATALOG_PRODUCT_NOT_FOUND"
error_code duplicate_model_code = "CATALOG_PRODUCT_DUPLICATE_MODEL_CODE"
error_code invalid_page = "CATALOG_PRODUCT_INVALID_PAGE"

abbrev error_key : CatalogProductsApplicationErrorCode → String
error_key not_found = "errors.catalog.products.catalog_product_not_found"
error_key duplicate_model_code = "errors.catalog.products.catalog_product_duplicate_model_code"
error_key invalid_page = "errors.catalog.products.catalog_product_invalid_page"

abbrev error_category : CatalogProductsApplicationErrorCode → Category
error_category not_found = Category.not_found
error_category duplicate_model_code = Category.conflict
error_category invalid_page = Category.validation

-- the constructor of `CatalogProductsApplicationError`
unfoldable pub application_failure : CatalogProductsApplicationErrorCode → String → Error
application_failure code field = application_error (record {
  class = catalog_error;
  code = error_code code;
  category = error_category code;
  safe_message_key = error_key code;
  field = some field;
})

unfoldable pub normalize_page : Number → Result ℕ
normalize_page page =
    rethrow (require_positive_safe_integer page "page") (application_failure invalid_page "page")

unfoldable pub calculate_offset : ℕ → ℕ → Result ℕ
calculate_offset page page_size =
    let offset = (page - 1) * page_size in
    if leb offset max_safe_integer then ok offset else err (application_failure invalid_page "page")

unfoldable pub duplicate_model_code_error : Error
duplicate_model_code_error = application_failure duplicate_model_code "modelCode"

unfoldable pub repository_version_conflict : Error
repository_version_conflict = domain_error ProductErrorCode.version_conflict "expectedVersion"

pub record ProductPage : Type 0 where
  pub items : List Product
  pub page : ℕ
  pub page_size : ℕ
  pub total : ℕ
  pub page_count : ℕ

-- Math.ceil(total / pageSize)
unfoldable pub page_count : ℕ → ℕ → ℕ
page_count total page_size = if total == 0 then 0 else (total + page_size - 1) / page_size

pub record CreateCatalogProductInput : Type 0 where
  pub model_code : Text
  pub category : Text
  pub name : LocalizedProductName
  pub price_amount : Given
  pub price_currency : Given
  pub publication_status : Option Text

pub record UpdateCatalogProductInput : Type 0 where
  pub id : Text
  pub expected_version : Number
  pub model_code : Option Text
  pub category : Option Text
  pub name : Option LocalizedProductName
  pub price_amount : Given
  pub price_currency : Given

pub record ChangeCatalogProductStatusInput : Type 0 where
  pub id : Text
  pub expected_version : Number
  pub publication_status : Text

-- the two permissions of the catalogue
pub data Permission : Type 0 where
  products_read products_manage : Permission

abbrev pub create_input : CreateCatalogProductInput → Text → Date → CreateProductInput
create_input input id now = record {
  id = id;
  model_code = input.model_code;
  category = input.category;
  name = input.name;
  price_amount = input.price_amount;
  price_currency = input.price_currency;
  publication_status = input.publication_status;
  now = now;
}

abbrev pub update_input : UpdateCatalogProductInput → Date → UpdateProductInput
update_input input now = record {
  expected_version = input.expected_version;
  model_code = input.model_code;
  category = input.category;
  name = input.name;
  price_amount = input.price_amount;
  price_currency = input.price_currency;
  now = now;
}

abbrev pub status_input : ChangeCatalogProductStatusInput → Date → ChangeStatusInput
status_input input now = record {
  expected_version = input.expected_version;
  publication_status = input.publication_status;
  now = now;
}

module _ {S Actor : Type 0} (repository : Repository S)
    (evaluate_permission : Actor → Permission → Bool) (to_locale_upper_case : Text → Text) where
  -- requirePermission
  unfoldable pub require_permission : Actor → Permission → Exec S (Unit {0})
  require_permission subject permission =
      if evaluate_permission subject permission then pure tt else raise authorization_denied

  abbrev found : Option Product → Exec S Product
  found none = raise (application_failure not_found "id")
  found (some product) = pure product

  unfoldable pub load_required : Text → Exec S Product
  load_required id = repository.find_by_id id >>= found

  unfoldable pub list_products : Actor → Option Number → ℕ → Exec S ProductPage
  list_products subject given_page page_size = do
    require_permission subject products_read
    page ← lift (normalize_page (elim given_page [ none ↦ Number.nat 1 | some n ↦ n ]))
    offset ← lift (calculate_offset page page_size)
    result ← repository.list_page offset page_size
    pure (record {
      items = result.items;
      page = page;
      page_size = page_size;
      total = result.total;
      page_count = page_count result.total page_size;
    })

  unfoldable pub get_product : Actor → Text → Exec S Product
  get_product subject id = do require_permission subject products_read; load_required id

  abbrev pub after_create : Product → CreateProductPersistenceResult → Exec S Product
  after_create product CreateProductPersistenceResult.created = pure product
  after_create product CreateProductPersistenceResult.duplicate_model_code =
      raise duplicate_model_code_error

  abbrev pub after_replace : Product → ReplaceProductPersistenceResult → Exec S Product
  after_replace product ReplaceProductPersistenceResult.updated = pure product
  after_replace product ReplaceProductPersistenceResult.duplicate_model_code =
      raise duplicate_model_code_error
  after_replace product ReplaceProductPersistenceResult.version_conflict =
      raise repository_version_conflict

  -- the product with its comparison key, saved
  unfoldable pub save_new : Product → Exec S Product
  save_new product = do
    key ← lift (model_code_comparison_key to_locale_upper_case product.model_code)
    result ← repository.create product key
    after_create product result

  unfoldable pub save : Product → Number → Exec S Product
  save updated expected_version = do
    key ← lift (model_code_comparison_key to_locale_upper_case updated.model_code)
    result ← repository.replace_if_version_matches updated expected_version key
    after_replace updated result

  unfoldable pub create_catalog_product :
      Actor → CreateCatalogProductInput → Text → Date → Exec S Product
  create_catalog_product subject input next_id now = do
    require_permission subject products_manage
    product ← lift (create_product (create_input input next_id now))
    save_new product

  unfoldable pub update_catalog_product : Actor → UpdateCatalogProductInput → Date → Exec S Product
  update_catalog_product subject input now = do
    require_permission subject products_manage
    current ← load_required input.id
    updated ← lift (update_product current (update_input input now))
    save updated input.expected_version

  unfoldable pub change_publication_status :
      Actor → ChangeCatalogProductStatusInput → Date → Exec S Product
  change_publication_status subject input now = do
    require_permission subject products_manage
    current ← load_required input.id
    updated ← lift (change_product_publication_status current (status_input input now))
    save updated input.expected_version
