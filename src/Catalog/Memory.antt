-- ===== src/Catalog/Memory.antt =====
-- A repository in memory that keeps the contract of the port: it shows that the contract can be
-- kept, and runs the service in the examples.
use taymex.Prelude.{
  ℕ, ◌≡◌, refl, Text, Option, none, some, Bool, true, false, ◌&&◌, not, map, any, take, drop,
  length, ◌==◌, text_eq, Map, lookup, put, lookup-put, lookup-put_other, Option-cases, Bool-cases,
  inl, inr, if◌then◌else◌, arith,
}
use taymex.Foundation.Errors.{Result, ok, Number, safe_from}
use taymex.Effects.{Exec}
use taymex.Catalog.Product.{Product}
use taymex.Catalog.Repository.{
  Repository, IsRepository, IsCreated, IsReplaced, IsStored, CreateProductPersistenceResult,
  ReplaceProductPersistenceResult,
}

-- the products with their comparison keys, under their ids
abbrev pub Table : Type 0
Table = Map (Product × Text)

abbrev product_of : Option (Product × Text) → Option Product
product_of none = none
product_of (some (p, key)) = some p

abbrev pub view : Table → Text → Option Product
view table id = product_of (lookup table id)

-- the key belongs to another product
abbrev is_taken : Table → Text → Text → Bool
is_taken table id key =
    any (λ (entry : Text × (Product × Text)). text_eq entry.1.1 key && not (text_eq entry.0 id))
      table

abbrev is_version : Product → Option ℕ → Bool
is_version p none = false
is_version p (some n) = p.version == n

unfoldable pub create : Product → Text → Exec Table CreateProductPersistenceResult
create p key table =
    if is_taken table p.id key
    then (ok CreateProductPersistenceResult.duplicate_model_code, table)
    else (ok CreateProductPersistenceResult.created, put table p.id (p, key))

abbrev replace_found :
    Product
    → Number
    → Text
    → Table
    → Option (Product × Text)
    → Result ReplaceProductPersistenceResult × Table
replace_found p expected key table none =
    (ok ReplaceProductPersistenceResult.version_conflict, table)
replace_found p expected key table (some (old, old_key)) =
    if is_version old (safe_from 1 expected)
    then (if is_taken table p.id key
        then (ok ReplaceProductPersistenceResult.duplicate_model_code, table)
        else (ok ReplaceProductPersistenceResult.updated, put table p.id (p, key)))
    else (ok ReplaceProductPersistenceResult.version_conflict, table)

unfoldable pub replace : Product → Number → Text → Exec Table ReplaceProductPersistenceResult
replace p expected key table = replace_found p expected key table (lookup table p.id)

abbrev pub memory : Repository Table
memory = record {
  list_page = λ offset limit table. (
    ok (record {
      items = take limit (drop offset (map (λ (entry : Text × (Product × Text)). entry.1.0) table));
      total = length table;
    }),
    table,
  );
  find_by_id = λ id table. (ok (view table id), table);
  create = create;
  replace_if_version_matches = replace;
}

put-IsStored :
    (table : Table) (p : Product) (key : Text) → IsStored view table (put table p.id (p, key)) p
put-IsStored table p key = record {
  there = rw (lookup-put table p.id (p, key));
  others = λ id differ. rw (lookup-put_other table p.id id (p, key) differ);
}

pub create-law :
    (p : Product) (key : Text) (table : Table) → IsCreated view table p (create p key table)
unfolding create
create-law p key table = elim (Bool-cases (is_taken table p.id key)) [
  | inl taken ↦ rw taken
  | inr free ↦ rw free (put-IsStored table p key)
]

is_version-eq : (p : Product) (o : Option ℕ) → is_version p o ≡ true → o ≡ some p.version
is_version-eq p none h = cc
is_version-eq p (some n) h = ground arith

pub replace-law :
    (p : Product) (expected : Number) (key : Text) (table : Table)
    → IsReplaced view table p expected (replace p expected key table)
unfolding replace
replace-law p expected key table = elim (Option-cases (lookup table p.id)) [
  | inl missing ↦ rw missing
  | inr ((old, old_key), found) ↦ elim (Bool-cases (is_version old (safe_from 1 expected))) [
    | inl current ↦ elim (Bool-cases (is_taken table p.id key)) [
      | inl taken ↦ rw (found, current, taken)
      | inr free ↦
          rw (found, current, free)
            (
              old,
              rw found,
              is_version-eq old (safe_from 1 expected) current,
              put-IsStored table p key,
            )
    ]
    | inr stale ↦ rw (found, stale)
  ]
]

abbrev pub memory_laws : IsRepository memory
memory_laws = record {
  view = view;
  find = λ id table. refl;
  create = create-law;
  replace = replace-law;
}
