-- ===== src/Identity/Roles/Service/Atomic.antt =====
-- What a failed change of roles leaves, and what a stored role is.
use taymex.Prelude.{
  ◌≡◌, ◌≤◌, refl, Text, Option, none, some, Bool, true, List, all, length, ◌+◌, Bool-cases, inl,
  inr,
}
use taymex.Foundation.Errors.{
  Error, ok, err, Number, nat, safe_from, Date, Ensures, Ensures-bind, Ensures-ok, Ensures-guard,
}
use taymex.Foundation.Validation.{require_non_blank}
use taymex.Foundation.Validation.Laws.{require_non_blank-ok}
use taymex.Effects.{Exec}
use taymex.Effects.Safe.{IsSafe, IsRead, atomic-IsSafe, read-IsSafe, lift-IsSafe}
use taymex.Identity.Actor.{
  ActorContext, manage_roles, require_privileged_identity_operation, sorted_set,
}
use taymex.Identity.Actor.SortedSet.{IsSorted, sorted_set-IsSorted}
use taymex.Identity.Roles.{RoleDefinition, role_definition}
use taymex.Identity.Roles.Service.{
  RoleAccessStore, RolesChanged, create_role, replace_permissions, existing_role, same_version,
  is_version, store_new, store_changed,
}

module _ {S : Type 0} (store : RoleAccessStore S) (known : Text → Bool)
    (emit : RolesChanged → Exec S (Unit {0})) (has_permission : ActorContext → Text → Bool) where
  IsSafe-create_role :
      (actor : ActorContext) (id name : Text) (permissions : List Text) (now : Date)
      (correlation_id : Option Text)
      → IsSafe
          (create_role store known emit has_permission actor id name permissions now correlation_id)
  unfolding create_role
  IsSafe-create_role actor id name permissions now correlation_id =
      lift-IsSafe (require_privileged_identity_operation has_permission actor manage_roles) λ _.
        lift-IsSafe (role_definition known id name permissions (nat 1) now now) λ role.
          atomic-IsSafe (store_new store known emit has_permission actor role now correlation_id)

  -- Creating a role that fails anywhere, in the store or in the sink of events too, leaves the state
  -- as it was, whatever the store and the sink do.
  pub create_role-err :
      (actor : ActorContext) (id name : Text) (permissions : List Text) (now : Date)
      (correlation_id : Option Text) (s : S) (e : Error)
      → (create_role store known emit has_permission actor id name permissions now correlation_id
          s).0
        ≡ err e
      → (create_role store known emit has_permission actor id name permissions now correlation_id
          s).1
        ≡ s
  create_role-err actor id name permissions now correlation_id s e h =
      (IsSafe-create_role actor id name permissions now correlation_id).at s e h

  existing_role-IsRead :
      (found : Option RoleDefinition) → IsRead (existing_role store known emit has_permission found)
  existing_role-IsRead none = record { same = λ s. refl }
  existing_role-IsRead (some role) = record { same = λ s. refl }

  same_version-IsRead :
      (role : RoleDefinition) (expected : Number)
      → IsRead (same_version store known emit has_permission role expected)
  same_version-IsRead role expected = elim (Bool-cases (is_version role.version expected)) [
    | inl same ↦ record { same = λ s. rw same }
    | inr other_one ↦ record { same = λ s. rw other_one }
  ]

  IsSafe-replace_permissions :
      (actor : ActorContext) (role_id : Text) (expected_version : Number) (permissions : List Text)
      (now : Date) (correlation_id : Option Text)
      → IsRead (store.find_role_by_id role_id)
      → IsSafe (
          replace_permissions store known emit has_permission actor role_id expected_version
            permissions now correlation_id)
  unfolding replace_permissions
  IsSafe-replace_permissions actor role_id expected_version permissions now correlation_id r =
      lift-IsSafe (require_privileged_identity_operation has_permission actor manage_roles) λ _.
        read-IsSafe (store.find_role_by_id role_id) r λ found.
          read-IsSafe (existing_role store known emit has_permission found)
            (existing_role-IsRead found)
            λ existing.
              read-IsSafe (same_version store known emit has_permission existing expected_version)
                (same_version-IsRead existing expected_version)
                λ _.
                  lift-IsSafe
                    (role_definition known existing.id existing.name permissions
                      (nat (existing.version + 1)) existing.created_at now)
                    λ updated. atomic-IsSafe (
                      store_changed store known emit has_permission actor updated expected_version
                        now correlation_id)

  -- Replacing the permissions of a role, where the store's lookup only reads, leaves the state as it
  -- was if it fails anywhere.
  pub replace_permissions-err :
      (actor : ActorContext) (role_id : Text) (expected_version : Number) (permissions : List Text)
      (now : Date) (correlation_id : Option Text) (s : S) (e : Error)
      → IsRead (store.find_role_by_id role_id)
      → (replace_permissions store known emit has_permission actor role_id expected_version
          permissions now correlation_id s).0
        ≡ err e
      → (replace_permissions store known emit has_permission actor role_id expected_version
          permissions now correlation_id s).1
        ≡ s
  replace_permissions-err actor role_id expected_version permissions now correlation_id s e r h =
      (IsSafe-replace_permissions actor role_id expected_version permissions now correlation_id
          r).at
        s e h

-- What a role always satisfies: its permissions are all in the catalogue, in a strict order, and its
-- name is within its limit.
pub record IsRole (known : Text → Bool) (role : RoleDefinition) : Type 0 where
  pub in_catalogue : all known role.permissions ≡ true
  pub sorted : IsSorted role.permissions
  pub name : length role.name ≤ 120

role_definition-Ensures :
    (known : Text → Bool) (id name : Text) (permissions : List Text) (version : Number)
    (created updated : Date)
    → Ensures (IsRole known) (role_definition known id name permissions version created updated)
unfolding role_definition
role_definition-Ensures known id name permissions version created updated =
    Ensures-bind (require_non_blank id "id" (nat 128)) λ id _.
      Ensures-bind (require_non_blank name "name" (nat 120)) λ new_name hname.
        Ensures-bind (elim (safe_from 1 version) [ none ↦ _ | some n ↦ ok n ])
          λ n _. Ensures-guard (all known (sorted_set permissions)) _ λ all_known.
            Ensures-ok (record {
              in_catalogue = all_known;
              sorted = (sorted_set-IsSorted permissions).0;
              name = (require_non_blank-ok name "name" 120 hname).2;
            })

-- Every role that `roleDefinition` accepts has only permissions of the catalogue, in a strict order
-- so that none is there twice, and a name within its limit.
pub role_definition-IsRole :
    (known : Text → Bool) (id name : Text) (permissions : List Text) (version : Number)
    (created updated : Date) {role : RoleDefinition}
    → role_definition known id name permissions version created updated ≡ ok role
    → IsRole known role
role_definition-IsRole known id name permissions version created updated {role} h =
    (role_definition-Ensures known id name permissions version created updated).at role h
