-- ===== src/Identity/Actor.antt =====
-- packages/identity/src/actor.ts and privileged.ts. The permission check itself is a parameter: it
-- belongs to the platform's package.
use taymex.Prelude.{
  ℕ, Text, codes, Bool, true, false, not, List, [], ◌∷◌, any, filter, ltb, text_eq, text_ltb,
  if◌then◌else◌,
}
use taymex.Foundation.Errors.{Category, Error, authorization_denied, Result, ok, err, ◌>>◌, guard}
use taymex.Identity.Account.{identity_failure}
use taymex.Identity.Session.{Assurance, aal1, aal2}
pub mod SortedSet

pub record ActorContext : Type 0 where
  pub id : Text
  pub account_id : Text
  pub session_id : Text
  pub role_ids : List Text
  pub permissions : List Text
  pub assurance : Assurance
  pub authenticated_at : ℕ

-- an element in its place, unless it is there
unfoldable pub insert : Text → List Text → List Text
insert x [] = x ∷ []
insert x (y ∷ ys) =
    let rest = insert x ys in
    if text_eq x y then y ∷ ys else if text_ltb x y then x ∷ y ∷ ys else y ∷ rest

-- `[...new Set(values)].sort()`
unfoldable pub sorted_set : List Text → List Text
sorted_set [] = []
sorted_set (x ∷ xs) = insert x (sorted_set xs)

-- `new Set(values)`, as its elements in their order
unfoldable pub unique : List Text → List Text
unique [] = []
unique (x ∷ xs) = x ∷ filter (λ y. not (text_eq x y)) (unique xs)

abbrev is_filled : Text → Bool
is_filled [] = false
is_filled (c ∷ s) = true

unfoldable pub create_actor_context :
    Text → Text → List Text → List Text → Assurance → ℕ → ActorContext
create_actor_context account_id session_id role_ids permissions assurance authenticated_at =
    record {
      id = account_id;
      account_id = account_id;
      session_id = session_id;
      role_ids = sorted_set role_ids;
      permissions = unique (filter is_filled permissions);
      assurance = assurance;
      authenticated_at = authenticated_at;
    }

abbrev rank : Assurance → ℕ
rank aal1 = 1
rank aal2 = 2

unfoldable pub require_assurance : ActorContext → Assurance → Result (Unit {0})
require_assurance actor required = guard (not (ltb (rank actor.assurance) (rank required))) (
    identity_failure "IDENTITY_ASSURANCE_REQUIRED" Category.authorization
      "errors.identity.stepUpRequired")

pub data PrivilegedIdentityOperation : Type 0 where
  manage_accounts manage_roles manage_sessions : PrivilegedIdentityOperation

pub record PrivilegedIdentityPolicy : Type 0 where
  pub permission : Text
  pub required_assurance : Assurance

-- PRIVILEGED_IDENTITY_POLICIES
unfoldable pub policy_for : PrivilegedIdentityOperation → PrivilegedIdentityPolicy
policy_for manage_accounts = record {
  permission = codes "identity.accounts.manage";
  required_assurance = aal2;
}
policy_for manage_roles = record {
  permission = codes "identity.roles.manage";
  required_assurance = aal2;
}
policy_for manage_sessions = record {
  permission = codes "identity.sessions.manage";
  required_assurance = aal2;
}

unfoldable pub require_privileged_identity_operation :
    (ActorContext → Text → Bool) → ActorContext → PrivilegedIdentityOperation → Result (Unit {0})
require_privileged_identity_operation has_permission actor operation =
    let policy = policy_for operation in
    guard (has_permission actor policy.permission) authorization_denied
    >> require_assurance actor policy.required_assurance
