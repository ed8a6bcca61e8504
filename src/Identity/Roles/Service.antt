-- ===== src/Identity/Roles/Service.antt =====
-- packages/identity/src/roles.ts: the service. Parameters: the store of roles, the catalogue of
-- permissions, the sink of events and the permission check. Store and sink share one state.
pub mod Atomic
use taymex.Prelude.{
  ℕ, ◌+◌, Text, Option, none, some, Bool, true, false, not, List, [], ◌∷◌, ◌++◌, any, find, map,
  text_eq, ◌==◌, if◌then◌else◌,
}
use taymex.Foundation.Errors.{
  type_error, Error, Result, ok, err, Number, nat, other, safe_from, Date,
}
use taymex.Foundation.Validation.{require_uuid}
use taymex.Effects.{Exec, ◌>>=◌, ◌>>◌, pure, raise, lift, atomic}
use taymex.Identity.Actor.{
  ActorContext, manage_roles, require_privileged_identity_operation, sorted_set, unique,
}
use taymex.Identity.Roles.{
  RoleDefinition, AccountRoleSet, role_definition, role_not_found, role_version_conflict,
  role_conflict,
}

pub data RoleWriteResult : Type 0 where
  written version_conflict duplicate_name : RoleWriteResult

-- RoleAccessStore
pub record RoleAccessStore (S : Type 0) : Type 0 where
  pub find_role_by_id : Text → Exec S (Option RoleDefinition)
  pub find_roles_by_ids : List Text → Exec S (List RoleDefinition)
  pub create_role : RoleDefinition → Exec S RoleWriteResult
  pub replace_role_if_version_matches : RoleDefinition → Number → Exec S RoleWriteResult
  pub resolve_account_roles : Text → Exec S (AccountRoleSet × List RoleDefinition)
  pub replace_account_roles_if_version_matches :
      Text → List Text → Number → Date → Exec S RoleWriteResult

pub record RolesChanged : Type 0 where
  pub occurred_at : Date
  pub actor_account_id : Text
  pub subject_account_id : Option Text
  pub role_id : Option Text
  pub correlation_id : Option Text

pub record ResolvedAccountAccess : Type 0 where
  pub role_ids : List Text
  pub permissions : List Text

-- `existing.version !== expectedVersion`
abbrev pub is_version : ℕ → Number → Bool
is_version n (nat m) = n == m
is_version n other = false

-- `if (missingRoleId) throw …`, where an empty id is none
abbrev missing_error : Option Text → Result (Unit {0})
missing_error none = ok tt
missing_error (some []) = ok tt
missing_error (some (c ∷ id)) = err role_not_found

abbrev is_existing : List RoleDefinition → Text → Bool
is_existing roles id = any (λ (r : RoleDefinition). text_eq id r.id) roles

abbrev all_permissions : List RoleDefinition → List Text
all_permissions [] = []
all_permissions (r ∷ roles) = r.permissions ++ all_permissions roles

module _ {S : Type 0} (store : RoleAccessStore S) (known : Text → Bool)
    (emit : RolesChanged → Exec S (Unit {0})) (has_permission : ActorContext → Text → Bool) where
  abbrev require_roles : ActorContext → Exec S (Unit {0})
  require_roles actor =
      lift (require_privileged_identity_operation has_permission actor manage_roles)

  unfoldable pub emit_role_change : Text → Text → Date → Option Text → Exec S (Unit {0})
  emit_role_change actor_account_id role_id now correlation_id = emit (record {
    occurred_at = now;
    actor_account_id = actor_account_id;
    subject_account_id = none;
    role_id = some role_id;
    correlation_id = correlation_id;
  })

  abbrev pub accepted : RoleWriteResult → Exec S (Unit {0})
  accepted written = pure tt
  accepted version_conflict = raise role_version_conflict
  accepted duplicate_name = raise role_conflict

  abbrev pub is_written : RoleWriteResult → Exec S (Unit {0})
  is_written written = pure tt
  is_written _ = raise role_version_conflict

  -- what createRole does in its transaction
  abbrev pub store_new : ActorContext → RoleDefinition → Date → Option Text → Exec S RoleDefinition
  store_new actor role now correlation_id = do
    result ← store.create_role role
    accepted result
    emit_role_change actor.account_id role.id now correlation_id
    pure role

  unfoldable pub create_role :
      ActorContext → Text → Text → List Text → Date → Option Text → Exec S RoleDefinition
  create_role actor id name permissions now correlation_id = do
    require_roles actor
    role ← lift (role_definition known id name permissions (nat 1) now now)
    atomic (store_new actor role now correlation_id)

  abbrev pub store_changed :
      ActorContext → RoleDefinition → Number → Date → Option Text → Exec S RoleDefinition
  store_changed actor role expected_version now correlation_id = do
    result ← store.replace_role_if_version_matches role expected_version
    accepted result
    emit_role_change actor.account_id role.id now correlation_id
    pure role

  abbrev pub existing_role : Option RoleDefinition → Exec S RoleDefinition
  existing_role none = raise role_not_found
  existing_role (some role) = pure role

  abbrev pub same_version : RoleDefinition → Number → Exec S (Unit {0})
  same_version role expected_version =
      if is_version role.version expected_version then pure tt else raise role_version_conflict

  unfoldable pub replace_permissions :
      ActorContext → Text → Number → List Text → Date → Option Text → Exec S RoleDefinition
  replace_permissions actor role_id expected_version permissions now correlation_id = do
    require_roles actor
    found ← store.find_role_by_id role_id
    existing ← existing_role found
    same_version existing expected_version
    updated ← lift (
        role_definition known existing.id existing.name permissions (nat (existing.version + 1))
          existing.created_at now)
    atomic (store_changed actor updated expected_version now correlation_id)

  abbrev next_version : Number → ℕ
  next_version (nat n) = n + 1
  next_version other = 0

  abbrev store_assigned : ActorContext → Text → List Text → Number → Date → Option Text → Exec S ℕ
  store_assigned actor account_id role_ids expected_version now correlation_id = do
    replaced ←
        store.replace_account_roles_if_version_matches account_id role_ids expected_version now
    is_written replaced
    emit (record {
      occurred_at = now;
      actor_account_id = actor.account_id;
      subject_account_id = some account_id;
      role_id = none;
      correlation_id = correlation_id;
    })
    pure (next_version expected_version)

  abbrev non_negative : Option ℕ → Result (Unit {0})
  non_negative none = err (type_error "expectedVersion must be a non-negative safe integer.")
  non_negative (some n) = ok tt

  unfoldable pub assign_roles :
      ActorContext → Text → List Text → Number → Date → Option Text → Exec S ℕ
  assign_roles actor given_account_id role_ids expected_version now correlation_id = do
    require_roles actor
    account_id ← lift (require_uuid given_account_id "accountId")
    existing ← store.find_roles_by_ids (sorted_set role_ids)
    lift (missing_error (find (λ id. not (is_existing existing id)) (sorted_set role_ids)))
    lift (non_negative (safe_from 0 expected_version))
    atomic
        (store_assigned actor account_id (sorted_set role_ids) expected_version now correlation_id)

  unfoldable pub resolve : Text → Exec S ResolvedAccountAccess
  resolve given_account_id = do
    account_id ← lift (require_uuid given_account_id "accountId")
    access ← store.resolve_account_roles account_id
    pure (record {
      role_ids = sorted_set access.0.role_ids;
      permissions = unique (all_permissions access.1);
    })
