-- ===== src/Catalog/Product/Valid.antt =====
-- What a product of the catalogue always satisfies, and that every operation keeps it.
use native.Mathlib.Nat.{le_refl}
use taymex.Prelude.{
  ℕ, ◌≤◌, ◌≡◌, ◌≢◌, refl, String, Text, Option, none, some, true, false, [], length, trim,
  is_negative, inl, inr, arith, not,
}
use taymex.Foundation.Errors.{
  Result, ok, err, Result-cases, Ensures, Ensures-bind, Ensures-ok, Ensures-guard, >>=-eq-ok, Error,
  nat, safe_from,
}
use taymex.Foundation.Validation.{require_non_blank, require_uuid, is_uuid}
use taymex.Foundation.Validation.Laws.{require_non_blank-ok, require_uuid-canonical}
use taymex.Foundation.Validation.Trim.{trim_idempotent}
use taymex.Foundation.Decimal.{DecimalParts, parse_decimal, checked_scale}
use taymex.Foundation.Decimal.RoundTrip.{parse_decimal-Admits}
use taymex.Foundation.Money.{Money, money, is_currency}
use taymex.Foundation.Money.Currency.{money_idempotent, money-amount}
use taymex.Catalog.Product.{
  Product, ProductPrice, LocalizedProductName, Given, undefined, null, text, rethrow,
  CreateProductInput, normalize_required_text, normalize_uuid, normalize_localized_name,
  normalize_date, normalize_price, normalize_category, normalize_publication_status, price_options,
  amount_part, currency_part, create_product, is_archived,
}

-- Trimmed, not empty, and within the limit of 4096 units.
pub record IsRequiredText (t : Text) : Type 0 where
  pub trimmed : trim t ≡ t
  pub filled : t ≢ []
  pub short : length t ≤ 4096

pub record IsName (n : LocalizedProductName) : Type 0 where
  pub ar : IsRequiredText n.ar
  pub tr : IsRequiredText n.tr
  pub en : IsRequiredText n.en

-- A canonical amount that is not negative and has six decimals at most, in a currency.
pub record IsPriced (amount currency : Text) : Type 0 where
  pub parts : DecimalParts
  pub parsed : parse_decimal amount price_options ≡ ok parts
  pub canonical : parts.normalized ≡ amount
  pub scale_fits : parts.scale ≤ 6
  pub not_negative : is_negative parts.coefficient ≡ false
  pub coded : is_currency currency ≡ true

-- Both parts of a price or neither.
abbrev pub IsPrice : Option Text → Option Text → Type 0
IsPrice none none = Unit
IsPrice (some amount) (some currency) = IsPriced amount currency
IsPrice _ _ = ⊥

pub record IsValid (p : Product) : Type 0 where
  pub id : is_uuid p.id ≡ true
  pub model_code : IsRequiredText p.model_code
  pub name : IsName p.name
  pub price : IsPrice p.price_amount p.price_currency
  pub version : 1 ≤ p.version
  pub times : p.created_at ≤ p.updated_at

rethrow-ok {ℓ} : {A : Type ℓ} (r : Result A) (e : Error) {a : A} → rethrow r e ≡ ok a → r ≡ ok a
rethrow-ok (ok a) e h = h
rethrow-ok (err x) e h = cc

pub normalize_required_text-ok :
    (value : Text) (field : String) {t : Text}
    → normalize_required_text value field ≡ ok t
    → IsRequiredText t
unfolding normalize_required_text
normalize_required_text-ok value field {t} h =
    let (same, filled, short) =
      require_non_blank-ok value field 4096
        (rethrow-ok (require_non_blank value field (nat 4096)) _ h) in
    record { trimmed = rw same (trim_idempotent value); filled = filled; short = short }

normalize_uuid-ok : (value : Text) {id : Text} → normalize_uuid value ≡ ok id → is_uuid id ≡ true
unfolding normalize_uuid
normalize_uuid-ok value h =
    (require_uuid-canonical value "id" (rethrow-ok (require_uuid value "id") _ h)).0

pub normalize_localized_name-ok :
    (n : LocalizedProductName) {m : LocalizedProductName}
    → normalize_localized_name n ≡ ok m
    → IsName m
unfolding normalize_localized_name
normalize_localized_name-ok n {m} h =
    let (ar, a, h1) = >>=-eq-ok (normalize_required_text n.ar "name.ar") _ h in
    let (tr, b, h2) = >>=-eq-ok (normalize_required_text n.tr "name.tr") _ h1 in
    let (en, c, h3) = >>=-eq-ok (normalize_required_text n.en "name.en") _ h2 in
    let e : m ≡ record { ar = ar; tr = tr; en = en } = ground arith in
    rw e (record {
      ar = normalize_required_text-ok n.ar "name.ar" a;
      tr = normalize_required_text-ok n.tr "name.tr" b;
      en = normalize_required_text-ok n.en "name.en" c;
    })

six_of : (most : ℕ) → checked_scale (some (nat 6)) ≡ some most → most ≡ 6
unfolding checked_scale safe_from
six_of most h = ground arith

money-IsPriced :
    (amount currency : Text) {m : Money}
    → money amount currency price_options ≡ ok m
    → IsPriced m.amount m.currency
money-IsPriced amount currency h =
    let (p, e, n) = money-amount amount currency price_options h in
    let a = parse_decimal-Admits _ price_options e in
    let six : a.most ≡ 6 = six_of a.most a.checked in
    record {
      parts = p;
      parsed = e;
      canonical = n;
      scale_fits = omega (arith, six, a.scale_fits);
      not_negative = ground (arith, a.sign_allowed);
      coded = (money_idempotent amount currency price_options h).0;
    }

abbrev pub IsPriceOf : Option ProductPrice → Type 0
IsPriceOf price = IsPrice (amount_part price) (currency_part price)

pub normalize_price-ok :
    (amount currency : Given) {price : Option ProductPrice}
    → normalize_price amount currency ≡ ok price
    → IsPriceOf price
unfolding normalize_price
normalize_price-ok (text amount) (text currency) {price} h =
    elim (Result-cases (money amount currency price_options)) [
      | inl (m, e) ↦
          let same : price ≡ some (record { amount = m.amount; currency = m.currency }) =
            ground arith in
          rw same (money-IsPriced amount currency e)
      | inr (x, e) ↦ ground arith
    ]
normalize_price-ok (text amount) undefined h = cc
normalize_price-ok (text amount) null h = cc
normalize_price-ok undefined (text currency) h = cc
normalize_price-ok null (text currency) h = cc
normalize_price-ok undefined undefined {price} h =
    let same : price ≡ none = ground arith in rw same tt
normalize_price-ok undefined null {price} h = let same : price ≡ none = ground arith in rw same tt
normalize_price-ok null undefined {price} h = let same : price ≡ none = ground arith in rw same tt
normalize_price-ok null null {price} h = let same : price ≡ none = ground arith in rw same tt

-- Whatever is created is valid, starts at version 1, is not archived, and has one time stamp.
pub record IsFresh (p : Product) : Type 0 where
  pub valid : IsValid p
  pub first : p.version ≡ 1
  pub active : is_archived p.publication_status ≡ false
  pub stamped : p.created_at ≡ p.updated_at

module _ (input : CreateProductInput) where
  create_product-Ensures : Ensures IsFresh (create_product input)
  unfolding create_product
  create_product-Ensures = Ensures-bind (normalize_uuid input.id) λ id hid.
      Ensures-bind (normalize_required_text input.model_code "modelCode") λ code hcode.
        Ensures-bind (normalize_category input.category) λ category _.
          Ensures-bind (normalize_localized_name input.name) λ name hname.
            Ensures-bind (normalize_price input.price_amount input.price_currency) λ price hprice.
              Ensures-bind (normalize_publication_status _) λ status _.
                Ensures-bind (normalize_date input.now "now") λ now _.
                  Ensures-guard (not (is_archived status)) _ λ active. Ensures-ok (record {
                    valid = record {
                      id = normalize_uuid-ok input.id hid;
                      model_code = normalize_required_text-ok input.model_code "modelCode" hcode;
                      name = normalize_localized_name-ok input.name hname;
                      price = normalize_price-ok input.price_amount input.price_currency hprice;
                      version = le_refl 1;
                      times = le_refl now;
                    };
                    first = refl;
                    active = ground arith;
                    stamped = refl;
                  })

-- Every product that `createProduct` returns is valid, at version 1, not archived, and stamped
-- with one time.
pub create_product-IsFresh :
    (input : CreateProductInput) {p : Product} → create_product input ≡ ok p → IsFresh p
create_product-IsFresh input {p} h = (create_product-Ensures input).at p h
