-- ===== src/Catalog/Service/Stored.antt =====
-- What the service stores, over any repository that keeps its contract.
use taymex.Prelude.{
  ◌≡◌, refl, sym, ap, ◌∙◌, Text, Option, none, some, Bool, Option-cases, Bool-cases, inl, inr,
  text_eq, text_eq_iff, List, [], ◌∷◌,
}
use mathlib.Core.Path.{subst}
use taymex.Foundation.Errors.{Result, ok, err, Number, Date}
use taymex.Effects.{Exec, ◌>>=◌, ◌>>◌, continue, lift}
use taymex.Catalog.Product.{
  Product, create_product, update_product, change_product_publication_status,
  model_code_comparison_key,
}
use taymex.Catalog.Product.Valid.{IsValid, IsFresh, create_product-IsFresh}
use taymex.Catalog.Product.Lifecycle.{
  IsUpdate, IsStatusChange, update_product-IsUpdate, change_status-IsStatusChange,
}
use taymex.Catalog.Repository.{
  Repository, IsRepository, IsStored, IsCreated, IsReplaced, CreateProductPersistenceResult,
  ReplaceProductPersistenceResult,
}
use taymex.Catalog.Service.{
  Permission, CreateCatalogProductInput, UpdateCatalogProductInput, ChangeCatalogProductStatusInput,
  require_permission, load_required, create_catalog_product, update_catalog_product,
  change_publication_status, save, save_new, after_create, after_replace, create_input,
  update_input, status_input,
}

module _ {S : Type 0} where
  -- A method ends with a product of which something holds, or in an error that changes nothing.
  abbrev pub Outcome : (Product → S → Type 0) → S → Result Product × S → Type 0
  Outcome P s (ok p, t) = P p t
  Outcome P s (err e, t) = t ≡ s

  Outcome-lift :
      {A : Type 0} (P : Product → S → Type 0) (r : Result A) (f : A → Exec S Product) (s : S)
      → ((a : A) → r ≡ ok a → Outcome P s (f a s))
      → Outcome P s ((lift r >>= f) s)
  Outcome-lift P (ok a) f s h = h a refl
  Outcome-lift P (err e) f s h = refl

module _ {S Actor : Type 0} (repository : Repository S)
    (evaluate_permission : Actor → Permission → Bool) (to_locale_upper_case : Text → Text)
    (laws : IsRepository repository) where
  Outcome-permission :
      (P : Product → S → Type 0) (subject : Actor) (permission : Permission) (m : Exec S Product)
      (s : S)
      → Outcome P s (m s)
      → Outcome P s (
          (require_permission repository evaluate_permission to_locale_upper_case subject permission
              >> m)
            s)
  unfolding require_permission
  Outcome-permission P subject permission m s h =
      elim (Bool-cases (evaluate_permission subject permission)) [
        | inl granted ↦ rw granted h
        | inr denied ↦ rw denied
      ]

  Outcome-load :
      (P : Product → S → Type 0) (id : Text) (f : Product → Exec S Product) (s : S)
      → ((p : Product) → laws.view s id ≡ some p → Outcome P s (f p s))
      → Outcome P s ((load_required repository evaluate_permission to_locale_upper_case id >>= f) s)
  unfolding load_required
  Outcome-load P id f s h = elim (Option-cases (laws.view s id)) [
    | inl missing ↦ rw (laws.find id s, missing)
    | inr (p, there) ↦ rw (laws.find id s, there) (h p there)
  ]

  abbrev Saved : S → Product → Product → S → Type 0
  Saved s p q t = (q ≡ p) × IsStored laws.view s t q

  replaced :
      (s : S) (p : Product) (expected : Number) (r : Result ReplaceProductPersistenceResult × S)
      → IsReplaced laws.view s p expected r
      → Outcome
          (λ q t. (q ≡ p) × IsStored laws.view s t q)
          s
          (continue r.0 (after_replace repository evaluate_permission to_locale_upper_case p) r.1)
  replaced s p expected (ok ReplaceProductPersistenceResult.updated, t) (old, _, _, stored) =
      (refl, stored)
  replaced s p expected (ok ReplaceProductPersistenceResult.duplicate_model_code, t) h = h
  replaced s p expected (ok ReplaceProductPersistenceResult.version_conflict, t) h = h
  replaced s p expected (err e, t) h = h

  created :
      (s : S) (p : Product) (r : Result CreateProductPersistenceResult × S)
      → IsCreated laws.view s p r
      → Outcome
          (λ q t. (q ≡ p) × IsStored laws.view s t q)
          s
          (continue r.0 (after_create repository evaluate_permission to_locale_upper_case p) r.1)
  created s p (ok CreateProductPersistenceResult.created, t) stored = (refl, stored)
  created s p (ok CreateProductPersistenceResult.duplicate_model_code, t) h = h
  created s p (err e, t) h = h

  save-Outcome :
      (p : Product) (expected : Number) (s : S)
      → Outcome
          (λ q t. (q ≡ p) × IsStored laws.view s t q)
          s
          (save repository evaluate_permission to_locale_upper_case p expected s)
  unfolding save
  save-Outcome p expected s =
      Outcome-lift _ (model_code_comparison_key to_locale_upper_case p.model_code) _ s λ key _.
        replaced s p expected (repository.replace_if_version_matches p expected key s)
          (laws.replace p expected key s)

  save_new-Outcome :
      (p : Product) (s : S)
      → Outcome
          (λ q t. (q ≡ p) × IsStored laws.view s t q)
          s
          (save_new repository evaluate_permission to_locale_upper_case p s)
  unfolding save_new
  save_new-Outcome p s =
      Outcome-lift _ (model_code_comparison_key to_locale_upper_case p.model_code) _ s
        λ key _. created s p (repository.create p key s) (laws.create p key s)

  weaken :
      (P Q : Product → S → Type 0) (s : S) (r : Result Product × S)
      → ((q : Product) (t : S) → P q t → Q q t)
      → Outcome P s r
      → Outcome Q s r
  weaken P Q s (ok q, t) f h = f q t h
  weaken P Q s (err e, t) f h = h

  -- every product of the repository is valid
  pub record IsAllValid (s : S) : Type 0 where
    pub at : (id : Text) (p : Product) → laws.view s id ≡ some p → IsValid p

  IsValid-of_some : (p q : Product) → some p ≡ some q → IsValid p → IsValid q
  IsValid-of_some p q h v = subst (λ (o : Option Product). held o) h v
    where
      held : Option Product → Type 0
      held none = IsValid p
      held (some x) = IsValid x

  IsStored-IsAllValid :
      (s t : S) (q : Product) → IsAllValid s → IsStored laws.view s t q → IsValid q → IsAllValid t
  IsStored-IsAllValid s t q all_valid stored v = record {
    at = λ id p h. elim (Bool-cases (text_eq q.id id)) [
      | inl same ↦
          IsValid-of_some q p
            (sym stored.there ∙ ap (laws.view t) ((text_eq_iff q.id id).0 same) ∙ h) v
      | inr differ ↦ all_valid.at id p (sym (stored.others id differ) ∙ h)
    ];
  }

  -- Creating a product ends with a fresh one, stored under its id and nothing else touched, or in
  -- an error with nothing stored.
  pub create_catalog_product-Outcome :
      (subject : Actor) (input : CreateCatalogProductInput) (next_id : Text) (now : Date) (s : S)
      → Outcome
          (λ q t. IsFresh q × IsStored laws.view s t q)
          s
          (create_catalog_product repository evaluate_permission to_locale_upper_case subject input
            next_id now s)
  unfolding create_catalog_product
  create_catalog_product-Outcome subject input next_id now s =
      Outcome-permission _ subject Permission.products_manage _ s (
        Outcome-lift _ (create_product (create_input input next_id now)) _ s λ p h.
          weaken (Saved s p) _ s _
            (λ q t (e, stored). (subst IsFresh (sym e) (create_product-IsFresh _ h), stored))
            (save_new-Outcome p s))

  -- Updating a product, where all that are stored are valid, ends with an update of the one that the
  -- id finds, stored under its id and nothing else touched, or in an error with nothing stored.
  pub update_catalog_product-Outcome :
      (subject : Actor) (input : UpdateCatalogProductInput) (now : Date) (s : S)
      → IsAllValid s
      → Outcome
          (λ q t.
            (p : Product) × (laws.view s input.id ≡ some p)
            × IsUpdate p input.expected_version q
            × IsStored laws.view s t q)
          s
          (update_catalog_product repository evaluate_permission to_locale_upper_case subject input
            now s)
  unfolding update_catalog_product
  update_catalog_product-Outcome subject input now s v =
      Outcome-permission _ subject Permission.products_manage _ s (
        Outcome-load _ input.id _ s λ p there.
          Outcome-lift _ (update_product p (update_input input now)) _ s λ q h.
            weaken (Saved s q) _ s _
              (λ r t (e, stored). (
                p,
                there,
                subst (IsUpdate p input.expected_version) (sym e)
                    (update_product-IsUpdate p _ (v.at input.id p there) h),
                stored,
              ))
              (save-Outcome q input.expected_version s))

  -- Changing the status of a product, where all that are stored are valid, ends with an allowed
  -- change of the one that the id finds, stored under its id and nothing else touched, or in an
  -- error with nothing stored.
  pub change_publication_status-Outcome :
      (subject : Actor) (input : ChangeCatalogProductStatusInput) (now : Date) (s : S)
      → IsAllValid s
      → Outcome
          (λ q t.
            (p : Product) × (laws.view s input.id ≡ some p)
            × IsStatusChange p input.expected_version q
            × IsStored laws.view s t q)
          s
          (change_publication_status repository evaluate_permission to_locale_upper_case subject
            input now s)
  unfolding change_publication_status
  change_publication_status-Outcome subject input now s v =
      Outcome-permission _ subject Permission.products_manage _ s (
        Outcome-load _ input.id _ s λ p there.
          Outcome-lift _ (change_product_publication_status p (status_input input now)) _ s λ q h.
            weaken (Saved s q) _ s _
              (λ r t (e, stored). (
                p,
                there,
                subst (IsStatusChange p input.expected_version) (sym e)
                    (change_status-IsStatusChange p _ (v.at input.id p there) h),
                stored,
              ))
              (save-Outcome q input.expected_version s))

  -- a call that can change the repository
  pub data Call : Type 0 where
    create : Actor → CreateCatalogProductInput → Text → Date → Call
    update : Actor → UpdateCatalogProductInput → Date → Call
    change_status : Actor → ChangeCatalogProductStatusInput → Date → Call

  abbrev pub perform : Call → Exec S Product
  perform (create subject input next_id now) =
      create_catalog_product repository evaluate_permission to_locale_upper_case subject input
        next_id now
  perform (update subject input now) =
      update_catalog_product repository evaluate_permission to_locale_upper_case subject input now
  perform (change_status subject input now) =
      change_publication_status repository evaluate_permission to_locale_upper_case subject input
        now

  unfoldable pub serve : S → List Call → S
  serve s [] = s
  serve s (c ∷ cs) = serve (perform c s).1 cs

  kept-IsAllValid :
      (P : Product → S → Type 0) (s : S) (r : Result Product × S)
      → IsAllValid s
      → ((q : Product) (t : S) → P q t → IsAllValid t)
      → Outcome P s r
      → IsAllValid r.1
  kept-IsAllValid P s (ok q, t) v f h = f q t h
  kept-IsAllValid P s (err e, t) v f h = subst IsAllValid (sym h) v

  perform-IsAllValid : (s : S) (c : Call) → IsAllValid s → IsAllValid (perform c s).1
  perform-IsAllValid s (create subject input next_id now) v =
      kept-IsAllValid (λ q t. IsFresh q × IsStored laws.view s t q) s _ v
        (λ q t (fresh, stored). IsStored-IsAllValid s t q v stored fresh.valid)
        (create_catalog_product-Outcome subject input next_id now s)
  perform-IsAllValid s (update subject input now) v =
      kept-IsAllValid
        (λ q t.
          (p : Product) × (laws.view s input.id ≡ some p)
          × IsUpdate p input.expected_version q
          × IsStored laws.view s t q)
        s _ v (λ q t (p, there, u, stored). IsStored-IsAllValid s t q v stored u.change.valid)
        (update_catalog_product-Outcome subject input now s v)
  perform-IsAllValid s (change_status subject input now) v =
      kept-IsAllValid
        (λ q t.
          (p : Product) × (laws.view s input.id ≡ some p)
          × IsStatusChange p input.expected_version q
          × IsStored laws.view s t q)
        s _ v (λ q t (p, there, u, stored). IsStored-IsAllValid s t q v stored u.change.valid)
        (change_publication_status-Outcome subject input now s v)

  -- Whatever calls the service serves, allowed or not, over a repository that keeps its contract and
  -- in which all products are valid, all stay valid.
  pub serve-IsAllValid : (s : S) (cs : List Call) → IsAllValid s → IsAllValid (serve s cs)
  unfolding serve
  serve-IsAllValid s [] v = v
  serve-IsAllValid s (c ∷ cs) v = serve-IsAllValid (perform c s).1 cs (perform-IsAllValid s c v)
