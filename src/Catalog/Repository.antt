-- ===== src/Catalog/Repository.antt =====
-- apps/api/src/modules/catalog/application/catalog-product-repository.ts: the port that the service
-- uses, and the contract that its documentation states.
use taymex.Prelude.{ℕ, ◌≡◌, Text, Option, some, false, List, text_eq}
use taymex.Foundation.Errors.{Result, ok, err, Number, safe_from}
use taymex.Effects.{Exec}
use taymex.Catalog.Product.{Product}

pub record ProductListResult : Type 0 where
  pub items : List Product
  pub total : ℕ

pub data CreateProductPersistenceResult : Type 0 where
  created duplicate_model_code : CreateProductPersistenceResult

pub data ReplaceProductPersistenceResult : Type 0 where
  updated duplicate_model_code version_conflict : ReplaceProductPersistenceResult

-- CatalogProductRepository, over any state: offset and limit; an id; a product and its key; a
-- product, the expected version and its key.
pub record Repository (S : Type 0) : Type 0 where
  pub list_page : ℕ → ℕ → Exec S ProductListResult
  pub find_by_id : Text → Exec S (Option Product)
  pub create : Product → Text → Exec S CreateProductPersistenceResult
  pub replace_if_version_matches : Product → Number → Text → Exec S ReplaceProductPersistenceResult

module _ {S : Type 0} (view : S → Text → Option Product) where
  -- One product is stored, and no other one is touched.
  pub record IsStored (s t : S) (p : Product) : Type 0 where
    pub there : view t p.id ≡ some p
    pub others : (id : Text) → text_eq p.id id ≡ false → view t id ≡ view s id

  abbrev pub IsCreated : S → Product → Result CreateProductPersistenceResult × S → Type 0
  IsCreated s p (ok CreateProductPersistenceResult.created, t) = IsStored s t p
  IsCreated s p (ok CreateProductPersistenceResult.duplicate_model_code, t) = t ≡ s
  IsCreated s p (err e, t) = t ≡ s

  -- an atomic compare-and-swap against the expected version
  abbrev pub IsReplaced : S → Product → Number → Result ReplaceProductPersistenceResult × S → Type 0
  IsReplaced s p expected (ok ReplaceProductPersistenceResult.updated, t) =
      (old : Product) × (view s p.id ≡ some old)
      × (safe_from 1 expected ≡ some old.version)
      × IsStored s t p
  IsReplaced s p expected (ok ReplaceProductPersistenceResult.duplicate_model_code, t) = t ≡ s
  IsReplaced s p expected (ok ReplaceProductPersistenceResult.version_conflict, t) = t ≡ s
  IsReplaced s p expected (err e, t) = t ≡ s

-- What an adapter promises, for a view of its state as the products that are found by their id.
pub record IsRepository {S : Type 0} (repository : Repository S) : Type 0 where
  pub view : S → Text → Option Product
  pub find : (id : Text) (s : S) → repository.find_by_id id s ≡ (ok (view s id), s)
  pub create : (p : Product) (key : Text) (s : S) → IsCreated view s p (repository.create p key s)
  pub replace :
      (p : Product) (expected : Number) (key : Text) (s : S)
      → IsReplaced view s p expected (repository.replace_if_version_matches p expected key s)
