-- ===== src/Identity/Roles.antt =====
-- packages/identity/src/roles.ts: what a role is, over the catalogue of permissions.
pub mod Service
use taymex.Prelude.{
  ℕ, ◌+◌, String, Text, codes, Option, none, some, Bool, true, false, not, List, [], ◌∷◌, ◌++◌, all,
  any, find, map, text_eq, if◌then◌else◌,
}
use taymex.Foundation.Errors.{
  Category, identity_error, Error, type_error, application_error, Result, ok, err, ◌>>=◌, ◌>>◌,
  guard, Number, nat, safe_from, Date,
}
use taymex.Foundation.Validation.{issue, require_non_blank, require_uuid}
use taymex.Identity.Account.{identity_failure}
use taymex.Identity.Actor.{
  ActorContext, PrivilegedIdentityOperation, manage_roles, require_privileged_identity_operation,
  sorted_set, unique,
}

pub record RoleDefinition : Type 0 where
  pub id : Text
  pub name : Text
  pub permissions : List Text
  pub version : ℕ
  pub created_at : Date
  pub updated_at : Date

pub record AccountRoleSet : Type 0 where
  pub role_ids : List Text
  pub version : ℕ

abbrev pub role_not_found : Error
role_not_found =
    identity_failure "IDENTITY_ROLE_NOT_FOUND" Category.not_found "errors.identity.roleNotFound"

abbrev pub role_version_conflict : Error
role_version_conflict =
    identity_failure "IDENTITY_ROLE_VERSION_CONFLICT" Category.conflict
      "errors.identity.versionConflict"

abbrev pub role_conflict : Error
role_conflict = issue "name" "DUPLICATE" "errors.identity.roleNameConflict"

abbrev role_invalid_permission : Error
role_invalid_permission = application_error (record {
  class = identity_error;
  code = "IDENTITY_ROLE_INVALID_PERMISSION";
  category = Category.validation;
  safe_message_key = "errors.identity.roleInvalidPermission";
  field = some "permissions";
})

-- roleDefinition, over the catalogue of permissions
unfoldable pub role_definition :
    (Text → Bool) → Text → Text → List Text → Number → Date → Date → Result RoleDefinition
role_definition known given_id given_name given_permissions given_version created_at updated_at = do
  id ← require_non_blank given_id "id" (nat 128)
  name ← require_non_blank given_name "name" (nat 120)
  version ← elim (safe_from 1 given_version) [
    | none ↦ err (type_error "Role version must be positive.")
    | some n ↦ ok n
  ]
  guard (all known (sorted_set given_permissions)) role_invalid_permission
  ok (record {
    id = id;
    name = name;
    permissions = sorted_set given_permissions;
    version = version;
    created_at = created_at;
    updated_at = updated_at;
  })
