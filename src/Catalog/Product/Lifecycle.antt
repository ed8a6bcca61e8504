-- ===== src/Catalog/Product/Lifecycle.antt =====
-- The life of a product: what an update and a change of status do, and which states are reached.
use native.Mathlib.Nat.{le_trans}
use mathlib.Core.Path.{subst}
use taymex.Prelude.{
  ℕ, ◌+◌, ◌≤◌, ◌≡◌, inl, inr, Bool-cases, refl, Text, Option, none, some, true, false, arith, not,
}
use taymex.Foundation.Errors.{
  Result, ok, err, Ensures, Ensures-bind, Ensures-ok, Ensures-guard, >>=-eq-ok, Date, Number,
  safe_from,
}
use taymex.Catalog.Product.{
  Product, PublicationStatus, draft, published, archived, Given, UpdateProductInput,
  ChangeStatusInput, normalize_category, normalize_localized_name, normalize_price,
  normalize_publication_status, normalize_date, amount_part, currency_part, is_archived, updated,
  new_price, is_specified, same, same_status, is_allowed_transition, assert_mutable,
  assert_expected_version, normalize_mutation_time, update_product,
  change_product_publication_status,
}
use taymex.Catalog.Product.Valid.{
  IsRequiredText, IsName, IsPrice, IsValid, normalize_required_text-ok, normalize_localized_name-ok,
  normalize_price-ok,
}

assert_expected_version-ok :
    (p : Product) (expected : Number)
    → assert_expected_version p expected ≡ ok tt
    → safe_from 1 expected ≡ some p.version
unfolding assert_expected_version
assert_expected_version-ok p expected h = ground arith

assert_mutable-ok :
    (p : Product) → assert_mutable p ≡ ok tt → is_archived p.publication_status ≡ false
unfolding assert_mutable
assert_mutable-ok p h = ground arith

normalize_mutation_time-ok :
    (p : Product) (now : Date) {t : ℕ} → normalize_mutation_time p now ≡ ok t → p.updated_at ≤ t
unfolding normalize_mutation_time
normalize_mutation_time-ok p now h =
    let (n, e, k) = >>=-eq-ok (normalize_date now "now") _ h in ground arith

abbrev Holds {ℓ κ} : {B : Type ℓ} → (B → Type κ) → B → Result B → Type κ
Holds P old (ok b) = P b
Holds P old (err e) = P old

-- What a kept or newly given field satisfies.
updated-ok {ℓ κ μ} :
    {A : Type ℓ} {B : Type κ} (P : B → Type μ) (o : Option A) (f : A → Result B) (old : B)
    → P old
    → ((a : A) (b : B) → f a ≡ ok b → P b)
    → (b : B) → updated o f old ≡ ok b
    → P b
updated-ok P none f old p q b h = subst (Holds P old) h p
updated-ok P (some a) f old p q b h = q a b h

le_add_one : (n : ℕ) → 1 ≤ n + 1
le_add_one n = omega arith

new_price-ok :
    (p : Product) (amount currency : Given) {price : Option Text × Option Text}
    → IsPrice p.price_amount p.price_currency
    → new_price p amount currency ≡ ok price
    → IsPrice price.0 price.1
new_price-ok p amount currency {price} old h = elim (Bool-cases (is_specified amount)) [
  | inl given ↦
      let (new, e, k) = >>=-eq-ok (normalize_price amount currency) _ (rw given at h) in
      let same : price ≡ (amount_part new, currency_part new) = ground arith in
      rw same (normalize_price-ok amount currency e)
  | inr kept ↦ let same : price ≡ (p.price_amount, p.price_currency) = ground arith in rw same old
]

-- One change of a product: the caller expected the current version, the product was not archived, its
-- identity is kept, the version goes up by one, and time does not go back.
pub record IsChange (p : Product) (expected : Number) (q : Product) : Type 0 where
  pub seen : safe_from 1 expected ≡ some p.version
  pub active : is_archived p.publication_status ≡ false
  pub valid : IsValid q
  pub same_id : q.id ≡ p.id
  pub same_creation : q.created_at ≡ p.created_at
  pub next_version : q.version ≡ p.version + 1
  pub later : p.updated_at ≤ q.updated_at

pub record IsUpdate (p : Product) (expected : Number) (q : Product) : Type 0 where
  pub change : IsChange p expected q
  pub same_status : q.publication_status ≡ p.publication_status

-- The transitions that the publication has: out of drafts and published products only.
pub data Transition : PublicationStatus → PublicationStatus → Type 0 where
  publish : Transition draft published
  withdraw : Transition published draft
  archive_draft : Transition draft archived
  archive_published : Transition published archived

pub record IsStatusChange (p : Product) (expected : Number) (q : Product) : Type 0 where
  pub change : IsChange p expected q
  pub transition : Transition p.publication_status q.publication_status
  pub same_content :
      (q.model_code ≡ p.model_code)
      × (q.name ≡ p.name)
      × (q.price_amount ≡ p.price_amount)
      × (q.price_currency ≡ p.price_currency)

is_allowed_transition-Transition :
    (s t : PublicationStatus) → is_allowed_transition s t ≡ true → Transition s t
unfolding is_allowed_transition
is_allowed_transition-Transition draft published h = publish
is_allowed_transition-Transition draft archived h = archive_draft
is_allowed_transition-Transition published draft h = withdraw
is_allowed_transition-Transition published archived h = archive_published
is_allowed_transition-Transition _ _ h = cc

module _ (p : Product) (valid : IsValid p) where
  update_product-Ensures :
      (input : UpdateProductInput)
      → Ensures (IsUpdate p input.expected_version) (update_product p input)
  unfolding update_product
  update_product-Ensures input = Ensures-bind (assert_mutable p) λ _ active.
      Ensures-bind (assert_expected_version p input.expected_version) λ _ seen.
        Ensures-bind (normalize_mutation_time p input.now) λ now time.
          Ensures-bind (updated input.model_code _ p.model_code) λ code hcode.
            Ensures-bind (updated input.category normalize_category p.category) λ category _.
              Ensures-bind (updated input.name normalize_localized_name p.name) λ name hname.
                Ensures-guard
                  (same (is_specified input.price_amount) (is_specified input.price_currency)) _
                  λ _.
                    Ensures-bind (new_price p input.price_amount input.price_currency)
                      λ price hprice. Ensures-ok (record {
                        change = record {
                          seen = assert_expected_version-ok p input.expected_version seen;
                          active = assert_mutable-ok p active;
                          valid = record {
                            id = valid.id;
                            model_code =
                                updated-ok IsRequiredText input.model_code _ p.model_code
                                  valid.model_code (λ t u. normalize_required_text-ok t "modelCode")
                                  code hcode;
                            name =
                                updated-ok IsName input.name normalize_localized_name p.name
                                  valid.name (λ n m. normalize_localized_name-ok n) name hname;
                            price =
                                new_price-ok p input.price_amount input.price_currency valid.price
                                  hprice;
                            version = le_add_one p.version;
                            times =
                                le_trans valid.times (normalize_mutation_time-ok p input.now time);
                          };
                          same_id = refl;
                          same_creation = refl;
                          next_version = refl;
                          later = normalize_mutation_time-ok p input.now time;
                        };
                        same_status = refl;
                      })

  change_product_publication_status-Ensures :
      (input : ChangeStatusInput)
      → Ensures
          (IsStatusChange p input.expected_version)
          (change_product_publication_status p input)
  unfolding change_product_publication_status
  change_product_publication_status-Ensures input = Ensures-bind (assert_mutable p) λ _ active.
      Ensures-bind (assert_expected_version p input.expected_version) λ _ seen.
        Ensures-bind (normalize_publication_status input.publication_status) λ next _.
          Ensures-bind (normalize_mutation_time p input.now) λ now time.
            Ensures-guard (not (same_status p.publication_status next)) _ λ _.
              Ensures-guard (is_allowed_transition p.publication_status next) _ λ allowed.
                Ensures-ok (record {
                  change = record {
                    seen = assert_expected_version-ok p input.expected_version seen;
                    active = assert_mutable-ok p active;
                    valid = record {
                      id = valid.id;
                      model_code = valid.model_code;
                      name = valid.name;
                      price = valid.price;
                      version = le_add_one p.version;
                      times = le_trans valid.times (normalize_mutation_time-ok p input.now time);
                    };
                    same_id = refl;
                    same_creation = refl;
                    next_version = refl;
                    later = normalize_mutation_time-ok p input.now time;
                  };
                  transition = is_allowed_transition-Transition p.publication_status next allowed;
                  same_content = (refl, refl, refl, refl);
                })

-- Every successful update of a valid product is a change that leaves its status alone: the caller
-- expected the current version, which goes up by one, the product was not archived, it stays valid
-- and the same, and its time stamp does not go back.
pub update_product-IsUpdate :
    (p : Product) (input : UpdateProductInput) {q : Product}
    → IsValid p
    → update_product p input ≡ ok q
    → IsUpdate p input.expected_version q
update_product-IsUpdate p input {q} v h = (update_product-Ensures p v input).at q h

pub change_status-IsStatusChange :
    (p : Product) (input : ChangeStatusInput) {q : Product}
    → IsValid p
    → change_product_publication_status p input ≡ ok q
    → IsStatusChange p input.expected_version q
change_status-IsStatusChange p input {q} v h =
    (change_product_publication_status-Ensures p v input).at q h
