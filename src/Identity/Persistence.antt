-- ===== src/Identity/Persistence.antt =====
-- packages/identity/src/persistence/postgres-identity-repository.ts, over the tables of
-- packages/data-postgres/migrations/0001_foundation.sql. A table is the list of its rows; each
-- statement is what it does to them, and a constraint of a table that a statement breaks is an error
-- that the database throws. Beside the tables stands the state of the rest of the program, which
-- no statement touches.
pub mod Tables
pub mod Laws
pub mod Promises
use taymex.Prelude.{
  update_where, sort_by, take, ℕ, ◌+◌, ◌-◌, Text, Option, none, some, Bool, true, false, ◌&&◌, ◌||◌,
  not, List, [], ◌∷◌, map, any, filter, length, find, ltb, leb, ◌==◌, text_eq, text_ltb,
  if◌then◌else◌,
}
use taymex.Foundation.Errors.{
  range_error, plain_error, Error, Result, ok, err, guard, Number, nat, safe_from, Date, at,
  invalid,
}
use taymex.Effects.{Exec, Query, ◌>>=◌, ◌>>◌, pure, raise, lift}
use taymex.Identity.Account.{Account}
use taymex.Identity.Session.{SessionRecord, is_some}
use taymex.Identity.Contracts.{
  PasswordCredential, IdentityChallenge, IdentityChallengeKind, password_reset, email_verification,
  IdentityRepository, CreateResult, created, duplicate_email, ReplaceResult, updated,
  version_conflict, ConsumeResult, consumed, unavailable,
}
use taymex.Identity.Persistence.Tables.{
  IdentityTables, constraint_error, require_initial_version, require_next_version, account_at,
  with_account, session_at, with_session, open_of, revoked_row, expires_after, consumable,
  consumed_row, same_kind, is_challenge, distinct, session_ids, token_hashes, valid_sessions,
  account_ids, emails, valid_accounts, expires_late, valid_challenges, has_account, before,
  updated_if, find_credential, credential_at, replaced_credentials,
}

abbrev pub Database : Type 0 → Type 0
Database W = IdentityTables × W

abbrev consumed_if : Bool → ConsumeResult
consumed_if true = consumed
consumed_if false = unavailable

abbrev limited : Option ℕ → List SessionRecord → Result (List SessionRecord)
limited none rows = err (range_error "Session list limit must be between 1 and 100.")
limited (some n) rows =
    if leb n 100
    then ok (take n rows)
    else err (range_error "Session list limit must be between 1 and 100.")

module _ {W : Type 0} where
  -- a statement that may break a constraint
  abbrev checked : {A : Type 0} → Bool → A → IdentityTables → Exec (Database W) A
  checked holds result tables s =
      if holds then (ok result, (tables, s.1)) else (err constraint_error, s)

  unfoldable pub find_account_by_id : Text → Query (Database W) (Option Account)
  find_account_by_id id s = ok (find (λ (r : Account). text_eq r.id id) s.0.accounts)

  unfoldable pub find_account_by_normalized_email : Text → Query (Database W) (Option Account)
  find_account_by_normalized_email normalized_email s =
      ok (find (λ (r : Account). text_eq r.normalized_email normalized_email) s.0.accounts)

  abbrev insert_account : Account → Exec (Database W) CreateResult
  insert_account account s =
      if any (λ (r : Account). text_eq r.normalized_email account.normalized_email) s.0.accounts
      then (ok duplicate_email, s)
      else checked (valid_accounts (account ∷ s.0.accounts)) created
          (record s.0 { accounts = account ∷ s.0.accounts }) s

  unfoldable pub create_account : Account → Exec (Database W) CreateResult
  create_account account = do lift (require_initial_version account.version); insert_account account

  abbrev update_account : Account → ℕ → Exec (Database W) ReplaceResult
  update_account account expected s =
      let rows =
        update_where (account_at account.id expected) (with_account account) s.0.accounts in
      checked (valid_accounts rows) (updated_if (any (account_at account.id expected) s.0.accounts))
        (record s.0 { accounts = rows }) s

  unfoldable pub replace_account_if_version_matches :
      Account → Number → Exec (Database W) ReplaceResult
  replace_account_if_version_matches account expected_version = do
    expected ← lift (require_next_version account.version expected_version)
    update_account account expected

  unfoldable pub find_password_credential : Text → Query (Database W) (Option PasswordCredential)
  find_password_credential account_id s = ok (find_credential account_id s.0.credentials)

  abbrev write_credentials : Option (List PasswordCredential) → Text → Exec (Database W) (Unit {0})
  write_credentials none account_id s =
      (err (plain_error "Password credential version conflict."), s)
  write_credentials (some rows) account_id s =
      checked (has_account s.0.accounts account_id) tt (record s.0 { credentials = rows }) s

  unfoldable pub replace_password_credential : PasswordCredential → Exec (Database W) (Unit {0})
  replace_password_credential credential s =
      write_credentials (replaced_credentials credential s.0.credentials) credential.account_id s

  abbrev insert_session : SessionRecord → Exec (Database W) (Unit {0})
  insert_session session s =
      checked
        (valid_sessions (session ∷ s.0.sessions) && has_account s.0.accounts session.account_id) tt
        (record s.0 { sessions = session ∷ s.0.sessions }) s

  unfoldable pub create_session : SessionRecord → Exec (Database W) (Unit {0})
  create_session session = do lift (require_initial_version session.version); insert_session session

  unfoldable pub find_session_by_token_hash : Text → Query (Database W) (Option SessionRecord)
  find_session_by_token_hash token_hash s =
      ok (find (λ (r : SessionRecord). text_eq r.token_hash token_hash) s.0.sessions)

  abbrev update_session : SessionRecord → ℕ → Exec (Database W) ReplaceResult
  update_session session expected s =
      let rows =
        update_where (session_at session.id expected) (with_session session) s.0.sessions in
      checked (valid_sessions rows) (updated_if (any (session_at session.id expected) s.0.sessions))
        (record s.0 { sessions = rows }) s

  unfoldable pub replace_session_if_version_matches :
      SessionRecord → ℕ → Exec (Database W) ReplaceResult
  replace_session_if_version_matches session expected_version = do
    expected ← lift (require_next_version session.version (nat expected_version))
    update_session session expected

  unfoldable pub list_sessions_for_account : Text → Number → Query (Database W) (List SessionRecord)
  list_sessions_for_account account_id limit s = limited (safe_from 1 limit) (
      sort_by before (filter (λ (r : SessionRecord). text_eq r.account_id account_id) s.0.sessions))

  -- Without `exceptSessionId`, which no caller gives.
  unfoldable pub revoke_all_sessions_for_account : Text → ℕ → Exec (Database W) ℕ
  revoke_all_sessions_for_account account_id revoked_at s = (
    ok (length (filter (open_of account_id) s.0.sessions)),
    (
      record s.0 {
        sessions = update_where (open_of account_id) (revoked_row revoked_at) s.0.sessions;
      },
      s.1,
    ),
  )

  abbrev insert_challenge : IdentityChallenge → Exec (Database W) (Unit {0})
  insert_challenge challenge s =
      checked
        (valid_challenges (challenge ∷ s.0.challenges)
          && has_account s.0.accounts challenge.account_id)
        tt (record s.0 { challenges = challenge ∷ s.0.challenges }) s

  unfoldable pub create_challenge : IdentityChallenge → Exec (Database W) (Unit {0})
  create_challenge challenge = do
    lift (require_initial_version challenge.version)
    insert_challenge challenge

  unfoldable pub find_challenge_by_token_hash :
      IdentityChallengeKind → Text → Query (Database W) (Option IdentityChallenge)
  find_challenge_by_token_hash kind token_hash s =
      ok (find (is_challenge kind token_hash) s.0.challenges)

  unfoldable pub consume_challenge_if_active : Text → ℕ → ℕ → Exec (Database W) ConsumeResult
  consume_challenge_if_active id expected_version consumed_at s = (
    ok (consumed_if (any (consumable id expected_version consumed_at) s.0.challenges)),
    (
      record s.0 {
        challenges =
            update_where (consumable id expected_version consumed_at) (consumed_row consumed_at)
              s.0.challenges;
      },
      s.1,
    ),
  )

-- PostgresIdentityRepository
abbrev pub postgres_identity_repository : (W : Type 0) → IdentityRepository (IdentityTables × W)
postgres_identity_repository W = record {
  find_account_by_id = find_account_by_id;
  find_account_by_normalized_email = find_account_by_normalized_email;
  create_account = create_account;
  replace_account_if_version_matches = replace_account_if_version_matches;
  find_password_credential = find_password_credential;
  replace_password_credential = replace_password_credential;
  create_session = create_session;
  find_session_by_token_hash = find_session_by_token_hash;
  replace_session_if_version_matches = replace_session_if_version_matches;
  list_sessions_for_account = λ account_id. list_sessions_for_account account_id (nat 100);
  revoke_all_sessions_for_account = revoke_all_sessions_for_account;
  create_challenge = create_challenge;
  find_challenge_by_token_hash = find_challenge_by_token_hash;
  consume_challenge_if_active = consume_challenge_if_active;
}
