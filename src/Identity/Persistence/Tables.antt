-- ===== src/Identity/Persistence/Tables.antt =====
-- The tables of packages/data-postgres/migrations/0001_foundation.sql that hold identities, as lists
-- of their rows, with their constraints, and what the statements of
-- packages/identity/src/persistence/postgres-identity-repository.ts do to the rows. The check on the
-- spelling of a normalized address is left to `normalizeEmail`.
use taymex.Prelude.{
  update_where, ℕ, ◌+◌, Text, Option, none, some, Bool, true, false, ◌&&◌, ◌||◌, not, List, [], ◌∷◌,
  any, find, ltb, leb, ◌==◌, text_eq, text_ltb, if◌then◌else◌,
}
use taymex.Foundation.Errors.{
  range_error, plain_error, Error, Result, ok, err, guard, Number, safe_from, Date, at, invalid,
}
use taymex.Identity.Account.{Account}
use taymex.Identity.Session.{SessionRecord, is_some}
use taymex.Identity.Contracts.{
  PasswordCredential, IdentityChallenge, IdentityChallengeKind, password_reset, email_verification,
  ReplaceResult, updated, version_conflict,
}

pub record IdentityTables : Type 0 where
  pub accounts : List Account
  pub credentials : List PasswordCredential
  pub sessions : List SessionRecord
  pub challenges : List IdentityChallenge

-- what the database throws when a statement breaks a constraint
abbrev pub constraint_error : Error
constraint_error = plain_error "constraint violated"

unfoldable pub require_initial_version : ℕ → Result (Unit {0})
require_initial_version version =
    guard (version == 1) (range_error "initial persisted version must be 1.")

unfoldable pub require_next_version : ℕ → Number → Result ℕ
require_next_version next_version expected_version = elim (safe_from 1 expected_version) [
  | none ↦ err (range_error "expectedVersion must be a positive safe integer.")
  | some n ↦
      if next_version == n + 1
      then ok n
      else err (range_error "next version must equal expectedVersion + 1.")
]

abbrev pub account_at : Text → ℕ → Account → Bool
account_at id version row = text_eq row.id id && row.version == version

-- The statement sets every column but the id and the creation.
abbrev pub with_account : Account → Account → Account
with_account account row = record account { id = row.id; created_at = row.created_at }

abbrev pub session_at : Text → ℕ → SessionRecord → Bool
session_at id version row = text_eq row.id id && row.version == version

abbrev pub with_session : SessionRecord → SessionRecord → SessionRecord
with_session session row = record session {
  id = row.id;
  account_id = row.account_id;
  created_at = row.created_at;
}

-- `revoked_at IS NULL` on the sessions of an account
abbrev pub open_of : Text → SessionRecord → Bool
open_of account_id row = text_eq row.account_id account_id && not (is_some row.revoked_at)

abbrev pub revoked_row : ℕ → SessionRecord → SessionRecord
revoked_row revoked_at row = record row { revoked_at = some revoked_at; version = row.version + 1 }

-- `expires_at > $3`; an invalid date is not stored
abbrev pub expires_after : Date → ℕ → Bool
expires_after (at time) now = ltb now time
expires_after invalid now = false

abbrev pub consumable : Text → ℕ → ℕ → IdentityChallenge → Bool
consumable id version now row =
    text_eq row.id id
    && row.version == version
    && not (is_some row.consumed_at)
    && expires_after row.expires_at now

abbrev pub consumed_row : ℕ → IdentityChallenge → IdentityChallenge
consumed_row consumed_at row = record row {
  consumed_at = some consumed_at;
  version = row.version + 1;
}

abbrev pub same_kind : IdentityChallengeKind → IdentityChallengeKind → Bool
same_kind password_reset password_reset = true
same_kind email_verification email_verification = true
same_kind _ _ = false

abbrev pub is_challenge : IdentityChallengeKind → Text → IdentityChallenge → Bool
is_challenge kind token_hash row = same_kind row.kind kind && text_eq row.token_hash token_hash

abbrev pub distinct {ℓ} : {A : Type ℓ} → (A → Text) → List A → Bool
distinct key [] = true
distinct key (row ∷ rows) = not (any (λ r. text_eq (key r) (key row)) rows) && distinct key rows

abbrev pub session_ids : SessionRecord → Text
session_ids row = row.id

abbrev pub token_hashes : SessionRecord → Text
token_hashes row = row.token_hash

-- the constraints on identity_sessions, its foreign key beside
abbrev pub valid_sessions : List SessionRecord → Bool
valid_sessions rows =
    distinct session_ids rows
    && distinct token_hashes rows
    && not (any (λ (r : SessionRecord). leb r.expires_at r.created_at) rows)

abbrev pub account_ids : Account → Text
account_ids row = row.id

abbrev pub emails : Account → Text
emails row = row.normalized_email

abbrev pub valid_accounts : List Account → Bool
valid_accounts rows = distinct account_ids rows && distinct emails rows

abbrev pub expires_late : IdentityChallenge → Bool
expires_late row = expires_after row.expires_at row.created_at

abbrev pub valid_challenges : List IdentityChallenge → Bool
valid_challenges rows =
    distinct (λ (r : IdentityChallenge). r.id) rows
    && distinct (λ (r : IdentityChallenge). r.token_hash) rows
    && not (any (λ r. not (expires_late r)) rows)

abbrev pub has_account : List Account → Text → Bool
has_account rows id = any (λ (r : Account). text_eq r.id id) rows

-- `ORDER BY created_at DESC, id`
abbrev pub before : SessionRecord → SessionRecord → Bool
before a b = ltb b.created_at a.created_at || (a.created_at == b.created_at && text_ltb a.id b.id)

abbrev pub updated_if : Bool → ReplaceResult
updated_if true = updated
updated_if false = version_conflict

abbrev pub find_credential : Text → List PasswordCredential → Option PasswordCredential
find_credential account_id = find (λ (r : PasswordCredential). text_eq r.account_id account_id)

abbrev pub credential_at : Text → ℕ → PasswordCredential → Bool
credential_at account_id version row =
    text_eq row.account_id account_id && row.version + 1 == version

-- what the statement of replacePasswordCredential leaves, if it changes a row
unfoldable pub replaced_credentials :
    PasswordCredential → List PasswordCredential → Option (List PasswordCredential)
replaced_credentials credential rows =
    if any (credential_at credential.account_id credential.version) rows
    then some (
        update_where (credential_at credential.account_id credential.version) (λ row. credential)
          rows)
    else if credential.version == 1
        && not (any (λ (r : PasswordCredential). text_eq r.account_id credential.account_id) rows)
    then some (credential ∷ rows)
    else none
