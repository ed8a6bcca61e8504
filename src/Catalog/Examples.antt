-- ===== src/Catalog/Examples.antt =====
-- The theorems on the catalogue at a concrete product.
use taymex.Prelude.{
  ◌+◌, ◌≡◌, refl, codes, none, some, List, [], ◌∷◌, trim, is_space, trim_start, text_eq,
}
use taymex.Foundation.Errors.{ok, err, nat, safe_from, at}
use taymex.Foundation.Validation.{
  require_uuid, require_non_blank, to_lower, is_uuid, matches, require_valid_date,
}
use taymex.Foundation.Decimal.{
  parse_decimal, parse_parts, split_on, unsigned, strip_zeros, big_int_from, drop_minus_zero,
  with_value, decimal_of, checked_scale,
}
use taymex.Foundation.Money.{money, currency_code, to_upper, to_upper_case, is_currency}
use taymex.Catalog.Product.{
  Product, solar_panel, draft, archived, Given, null, CreateProductInput, UpdateProductInput,
  ChangeStatusInput, LocalizedProductName, normalize_required_text, normalize_uuid,
  normalize_category, normalize_publication_status, normalize_localized_name, normalize_date,
  normalize_price, create_product, update_product, domain_error, archived_product, version_conflict,
  assert_mutable, assert_expected_version, normalize_mutation_time,
}
use taymex.Catalog.Product.Valid.{IsValid, create_product-IsFresh}
use taymex.Catalog.Product.Lifecycle.{IsUpdate, update_product-IsUpdate}
use taymex.Catalog.Product.History.{
  Command, update, change_status, run, applied, mutate, IsHistory, create_product-IsHistory,
  run_archived, no_lost_update,
}
use mathlib.Core.Path.{subst}
use taymex.Prelude.{arith, lookup, Text, Bool, true, text_eq}
use taymex.Catalog.Repository.{IsStored}
use taymex.Catalog.Memory.{Table, view, memory, memory_laws}
use taymex.Catalog.Service.{
  Permission, CreateCatalogProductInput, UpdateCatalogProductInput, ChangeCatalogProductStatusInput,
  update_catalog_product,
}
use taymex.Catalog.Service.Stored.{
  Outcome, IsAllValid, Call, serve, serve-IsAllValid, update_catalog_product-Outcome,
}

abbrev name : LocalizedProductName
name = record { ar = codes "Lawh"; tr = codes "Panel"; en = codes "Panel" }

abbrev panel_input : CreateProductInput
panel_input = record {
  id = codes "0190F3C2-7A11-7ABC-8DEF-00112233AABB";
  model_code = codes " TX-1 ";
  category = codes "solar-panel";
  name = name;
  price_amount = Given.text (codes "099.50");
  price_currency = Given.text (codes "usd");
  publication_status = none;
  now = at 1000;
}

abbrev panel : Product
panel = record {
  id = codes "0190f3c2-7a11-7abc-8def-00112233aabb";
  model_code = codes "TX-1";
  category = solar_panel;
  name = name;
  price_amount = some (codes "99.50");
  price_currency = some (codes "USD");
  publication_status = draft;
  version = 1;
  created_at = 1000;
  updated_at = 1000;
}

panel-created : create_product panel_input ≡ ok panel
unfolding create_product normalize_uuid normalize_required_text normalize_category
    normalize_publication_status normalize_localized_name normalize_date normalize_price
    require_uuid require_non_blank to_lower is_uuid matches require_valid_date money currency_code
    to_upper to_upper_case is_currency parse_decimal parse_parts split_on unsigned strip_zeros
    big_int_from drop_minus_zero with_value decimal_of checked_scale safe_from trim trim_start
    is_space text_eq
panel-created = refl

panel-IsValid : IsValid panel
panel-IsValid = (create_product-IsFresh panel_input panel-created).valid

abbrev rename : UpdateProductInput
rename = record {
  expected_version = nat 1;
  model_code = some (codes "TX-2");
  category = none;
  name = none;
  price_amount = null;
  price_currency = null;
  now = at 2000;
}

abbrev renamed : Product
renamed = record panel {
  model_code = codes "TX-2";
  price_amount = none;
  price_currency = none;
  version = 2;
  updated_at = 2000;
}

panel-renamed : update_product panel rename ≡ ok renamed
unfolding update_product assert_mutable assert_expected_version normalize_mutation_time
    normalize_required_text normalize_date normalize_price require_non_blank require_valid_date
    safe_from trim trim_start is_space
panel-renamed = refl

update_product-IsUpdate_example : IsUpdate panel (nat 1) renamed
update_product-IsUpdate_example = update_product-IsUpdate panel rename panel-IsValid panel-renamed

abbrev archive : ChangeStatusInput
archive = record { expected_version = nat 1; publication_status = codes "archived"; now = at 3000 }

abbrev archived_panel : Product
archived_panel = record panel { publication_status = archived; version = 2; updated_at = 3000 }

abbrev commands : List Command
commands = update rename ∷ change_status archive ∷ []

create_product-IsHistory_example :
    IsHistory panel (run panel commands) (applied panel commands)
    × ((run panel commands).version ≡ 1 + applied panel commands)
create_product-IsHistory_example = create_product-IsHistory panel_input commands panel-created

run_archived_example :
    (run archived_panel commands ≡ archived_panel)
    × ((c : Command)
        → mutate archived_panel c ≡ err (domain_error archived_product "publicationStatus"))
run_archived_example = run_archived archived_panel commands refl

no_lost_update_example :
    mutate renamed (change_status archive) ≡ err (domain_error version_conflict "expectedVersion")
no_lost_update_example =
    no_lost_update panel (update rename) (change_status archive) panel-IsValid panel-renamed refl

-- The service over the repository in memory, for a subject that may do everything.
abbrev anyone : Unit {0} → Permission → Bool
anyone subject permission = true

abbrev same_text : Text → Text
same_text t = t

abbrev panel_table : Table
panel_table = (panel.id, (panel, codes "TX-1")) ∷ []

panel_table-view : (id : Text) (p : Product) → view panel_table id ≡ some p → panel ≡ p
unfolding lookup
panel_table-view id p h = ground arith

panel_table-IsAllValid : IsAllValid memory anyone same_text memory_laws panel_table
panel_table-IsAllValid = record {
  at = λ id p h. subst IsValid (panel_table-view id p h) panel-IsValid;
}

abbrev panel_order : CreateCatalogProductInput
panel_order = record {
  model_code = codes " TX-1 ";
  category = codes "solar-panel";
  name = name;
  price_amount = Given.text (codes "099.50");
  price_currency = Given.text (codes "usd");
  publication_status = none;
}

abbrev rename_order : UpdateCatalogProductInput
rename_order = record {
  id = panel.id;
  expected_version = nat 1;
  model_code = some (codes "TX-2");
  category = none;
  name = none;
  price_amount = null;
  price_currency = null;
}

abbrev archive_order : ChangeCatalogProductStatusInput
archive_order = record {
  id = panel.id;
  expected_version = nat 1;
  publication_status = codes "archived";
}

update_catalog_product-Outcome_example :
    Outcome
      (λ q t.
        (p : Product) × (view panel_table panel.id ≡ some p)
        × IsUpdate p (nat 1) q
        × IsStored view panel_table t q)
      panel_table
      (update_catalog_product memory anyone same_text tt rename_order (at 2000) panel_table)
update_catalog_product-Outcome_example =
    update_catalog_product-Outcome memory anyone same_text memory_laws tt rename_order (at 2000)
      panel_table panel_table-IsAllValid

abbrev calls : List (Call memory anyone same_text memory_laws)
calls = Call.update tt rename_order (at 2000) ∷ Call.change_status tt archive_order (at 3000) ∷ []

serve-IsAllValid_example :
    IsAllValid memory anyone same_text memory_laws
      (serve memory anyone same_text memory_laws panel_table calls)
serve-IsAllValid_example =
    serve-IsAllValid memory anyone same_text memory_laws panel_table calls panel_table-IsAllValid
