-- ===== src/Identity/Password.antt =====
-- packages/identity/src/password.ts: the policy and the interface of the hasher. The hasher itself
-- is a parameter: it derives its keys by the scrypt of node:crypto.
use taymex.Prelude.{ℕ, Text, none, some, Bool, not, any, leb, ◌==◌, length}
use taymex.Foundation.Errors.{type_error, Error, Result, ok, err, ◌>>◌, guard, Number, safe_from}
use taymex.Foundation.Validation.{issue}
use taymex.Effects.{Exec, Query}

pub record PasswordPolicy : Type 0 where
  pub min_length : Number
  pub max_length : Number

-- The reason is a part of the diagnostic message, which is not kept.
unfoldable pub password_policy_error : Error
password_policy_error = issue "password" "PASSWORD_POLICY" "errors.identity.passwordPolicy"

abbrev within : Text → ℕ → ℕ → Result Text
within password least most = do
  guard (leb least (length password)) password_policy_error
  guard (leb (length password) most) password_policy_error
  guard (not (any (λ c. c == 0) password)) password_policy_error
  ok password

unfoldable pub assert_password_policy : Text → PasswordPolicy → Result Text
assert_password_policy password policy = elim (safe_from 1 policy.min_length) [
  | none ↦ err (type_error "Invalid password policy bounds.")
  | some least ↦ elim (safe_from least policy.max_length) [
    | none ↦ err (type_error "Invalid password policy bounds.")
    | some most ↦ within password least most
  ]
]

-- Hashing draws a salt, which leaves nothing behind; the dummy hash is kept once it is made.
pub record PasswordHasher (S : Type 0) : Type 0 where
  pub hash : Text → Query S Text
  pub verify : Text → Text → Query S Bool
  pub dummy_hash : Exec S Text
