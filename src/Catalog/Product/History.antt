-- ===== src/Catalog/Product/History.antt =====
-- Histories of a product: any commands in any order, each refused or applied.
use taymex.Prelude.{
  ℕ, ◌+◌, ◌≤◌, ◌≡◌, inl, inr, some, Bool-cases, refl, true, false, List, [], ◌∷◌, arith,
  if◌then◌else◌,
}
use taymex.Foundation.Errors.{Result, ok, err, Result-cases, Number, safe_from}
use taymex.Catalog.Product.{
  Product, UpdateProductInput, ChangeStatusInput, CreateProductInput, is_archived, archived_product,
  version_conflict, domain_error, assert_mutable, assert_expected_version, create_product,
  update_product, change_product_publication_status,
}
use taymex.Catalog.Product.Valid.{IsValid, create_product-IsFresh}
use taymex.Catalog.Product.Lifecycle.{
  IsChange, update_product-IsUpdate, change_status-IsStatusChange,
}

-- The two mutations of the aggregate.
pub data Command : Type 0 where
  update : UpdateProductInput → Command
  change_status : ChangeStatusInput → Command

abbrev pub expected : Command → Number
expected (update input) = input.expected_version
expected (change_status input) = input.expected_version

abbrev pub mutate : Product → Command → Result Product
mutate p (update input) = update_product p input
mutate p (change_status input) = change_product_publication_status p input

-- A refused command leaves the product as it is.
abbrev kept : Product → Result Product → Product
kept p (ok q) = q
kept p (err e) = p

unfoldable pub run : Product → List Command → Product
run p [] = p
run p (c ∷ cs) = run (kept p (mutate p c)) cs

abbrev counted : Result Product → ℕ
counted (ok q) = 1
counted (err e) = 0

-- how many commands are applied
unfoldable pub applied : Product → List Command → ℕ
applied p [] = 0
applied p (c ∷ cs) = counted (mutate p c) + applied (kept p (mutate p c)) cs

mutate-IsChange :
    (p : Product) (c : Command) {q : Product}
    → IsValid p
    → mutate p c ≡ ok q
    → IsChange p (expected c) q
mutate-IsChange p (update input) {q} v h = (update_product-IsUpdate p input v h).change
mutate-IsChange p (change_status input) {q} v h = (change_status-IsStatusChange p input v h).change

-- What the history of a product keeps: it is valid, it is the same product, its version counts
-- the commands that were applied, and its time stamp only moves forward.
pub record IsHistory (p q : Product) (count : ℕ) : Type 0 where
  pub valid : IsValid q
  pub same_id : q.id ≡ p.id
  pub same_creation : q.created_at ≡ p.created_at
  pub version : q.version ≡ p.version + count
  pub later : p.updated_at ≤ q.updated_at

pub run-IsHistory :
    (p : Product) (cs : List Command) → IsValid p → IsHistory p (run p cs) (applied p cs)
unfolding run applied
run-IsHistory p [] v = record {
  valid = v;
  same_id = refl;
  same_creation = refl;
  version = omega arith;
  later = omega arith;
}
run-IsHistory p (c ∷ cs) v = elim (Result-cases (mutate p c)) [
  | inl (q, e) ↦
      let d = mutate-IsChange p c v e in
      let ih = run-IsHistory q cs d.valid in
      rw e (record {
        valid = ih.valid;
        same_id = cc (ih.same_id, d.same_id);
        same_creation = cc (ih.same_creation, d.same_creation);
        version = omega (arith, ih.version, d.next_version);
        later = omega (arith, ih.later, d.later);
      })
  | inr (x, e) ↦
      let ih = run-IsHistory p cs v in
      rw e (record {
        valid = ih.valid;
        same_id = ih.same_id;
        same_creation = ih.same_creation;
        version = omega (arith, ih.version);
        later = ih.later;
      })
]

-- A created product, after any commands: still valid, at the version that counts them.
pub create_product-IsHistory :
    (input : CreateProductInput) (cs : List Command) {p : Product}
    → create_product input ≡ ok p
    → IsHistory p (run p cs) (applied p cs) × ((run p cs).version ≡ 1 + applied p cs)
create_product-IsHistory input cs {p} h =
    let f = create_product-IsFresh input h in
    let r = run-IsHistory p cs f.valid in (r, omega (arith, r.version, f.first))

assert_mutable_archived :
    (p : Product)
    → is_archived p.publication_status ≡ true
    → assert_mutable p ≡ err (domain_error archived_product "publicationStatus")
unfolding assert_mutable
assert_mutable_archived p h = rw h

mutate_archived :
    (p : Product) (c : Command)
    → is_archived p.publication_status ≡ true
    → mutate p c ≡ err (domain_error archived_product "publicationStatus")
unfolding update_product change_product_publication_status
mutate_archived p (update input) h = rw (assert_mutable_archived p h)
mutate_archived p (change_status input) h = rw (assert_mutable_archived p h)

-- An archived product refuses every command, and so stays as it is for ever.
pub run_archived :
    (p : Product) (cs : List Command)
    → is_archived p.publication_status ≡ true
    → (run p cs ≡ p)
      × ((c : Command) → mutate p c ≡ err (domain_error archived_product "publicationStatus"))
unfolding run
run_archived p [] h = (refl, λ c. mutate_archived p c h)
run_archived p (c ∷ cs) h =
    (rw (mutate_archived p c h) (run_archived p cs h).0, λ d. mutate_archived p d h)

assert_mutable_active :
    (p : Product) → is_archived p.publication_status ≡ false → assert_mutable p ≡ ok tt
unfolding assert_mutable
assert_mutable_active p h = rw h

assert_expected_version_stale :
    (q : Product) (e : Number) (n : ℕ)
    → safe_from 1 e ≡ some n
    → q.version ≡ n + 1
    → assert_expected_version q e ≡ err (domain_error version_conflict "expectedVersion")
unfolding assert_expected_version
assert_expected_version_stale q e n h k = ground arith

mutate_stale :
    (q : Product) (c : Command)
    → is_archived q.publication_status ≡ false
    → assert_expected_version q (expected c) ≡ err (domain_error version_conflict "expectedVersion")
    → mutate q c ≡ err (domain_error version_conflict "expectedVersion")
unfolding update_product change_product_publication_status
mutate_stale q (update input) h k = rw (assert_mutable_active q h, k)
mutate_stale q (change_status input) h k = rw (assert_mutable_active q h, k)

-- No lost update: once a command is applied to a valid product, another one that expects the same
-- version is refused, as a conflict, or because the product is archived by now.
pub no_lost_update :
    (p : Product) (first second : Command) {q : Product}
    → IsValid p
    → mutate p first ≡ ok q
    → expected second ≡ expected first
    → mutate q second
      ≡ err (
          if is_archived q.publication_status
          then domain_error archived_product "publicationStatus"
          else domain_error version_conflict "expectedVersion")
no_lost_update p first second {q} v h same =
    let d = mutate-IsChange p first v h in
    elim (Bool-cases (is_archived q.publication_status)) [
      | inl over ↦ rw over (mutate_archived q second over)
      | inr active ↦ rw active (
          mutate_stale q second active (
            assert_expected_version_stale q (expected second) p.version (rw same d.seen)
              d.next_version))
    ]
