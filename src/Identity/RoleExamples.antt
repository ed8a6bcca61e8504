-- ===== src/Identity/RoleExamples.antt =====
-- The theorems on roles at a concrete store, which holds one role or none.
use taymex.Prelude.{
  ◌≡◌, refl, Text, codes, Option, none, some, Bool, true, [], ◌∷◌, text_eq, text_ltb, trim,
  trim_start, is_space,
}
use taymex.Foundation.Errors.{ok, err, nat, at, safe_from}
use taymex.Foundation.Validation.{require_non_blank}
use taymex.Effects.{Exec, atomic}
use taymex.Identity.Session.{aal2}
use taymex.Identity.Actor.{
  ActorContext, require_privileged_identity_operation, require_assurance, policy_for, sorted_set,
  insert,
}
use taymex.Identity.Roles.{RoleDefinition, role_definition, role_not_found}
use taymex.Identity.Roles.Service.{
  RoleAccessStore, RolesChanged, written, create_role, replace_permissions, emit_role_change,
}
use taymex.Effects.Safe.{IsRead}

abbrev Store : Type 0
Store = Option RoleDefinition

-- A store that takes every write.
abbrev single : RoleAccessStore Store
single = record {
  find_role_by_id = λ id s. (ok s, s);
  find_roles_by_ids = λ ids s. (ok [], s);
  create_role = λ role s. (ok written, some role);
  replace_role_if_version_matches = λ role expected s. (ok written, some role);
  resolve_account_roles = λ id s. (ok (record { role_ids = []; version = 0 }, []), s);
  replace_account_roles_if_version_matches = λ id ids expected now s. (ok written, s);
}

-- A sink that refuses every event.
abbrev refuse : RolesChanged → Exec Store (Unit {0})
refuse event s = (err role_not_found, s)

abbrev any_permission : Text → Bool
any_permission p = true

abbrev admin : ActorContext
admin = record {
  id = codes "admin";
  account_id = codes "admin";
  session_id = codes "session";
  role_ids = [];
  permissions = [];
  assurance = aal2;
  authenticated_at = 0;
}

abbrev granted : ActorContext → Text → Bool
granted actor permission = true

abbrev reader : RoleDefinition
reader = record {
  id = codes "reader";
  name = codes "Reader";
  permissions = codes "a" ∷ codes "b" ∷ [];
  version = 1;
  created_at = at 1000;
  updated_at = at 1000;
}

reader-accepted :
    role_definition any_permission
      (codes "reader")
      (codes " Reader ")
      (codes "b" ∷ codes "a" ∷ codes "b" ∷ [])
      (nat 1)
      (at 1000)
      (at 1000)
    ≡ ok reader
unfolding role_definition require_non_blank trim trim_start is_space safe_from sorted_set insert
    text_eq text_ltb
reader-accepted = refl

-- The store takes the role, then the sink refuses the event.
creation-refused :
    (create_role single any_permission refuse granted admin
      (codes "reader")
      (codes "Reader")
      []
      (at 1000)
      none
      none).0
    ≡ err role_not_found
unfolding create_role require_privileged_identity_operation policy_for require_assurance
    role_definition require_non_blank trim trim_start is_space safe_from sorted_set atomic
    emit_role_change
creation-refused = refl

find_role_by_id-IsRead : IsRead (single.find_role_by_id (codes "reader"))
find_role_by_id-IsRead = record { same = λ s. refl }

replacement-refused :
    (replace_permissions single any_permission refuse granted admin
      (codes "reader")
      (nat 1)
      []
      (at 2000)
      none
      (some reader)).0
    ≡ err role_not_found
unfolding replace_permissions require_privileged_identity_operation policy_for require_assurance
    role_definition require_non_blank trim trim_start is_space safe_from sorted_set atomic
    emit_role_change
replacement-refused = refl
