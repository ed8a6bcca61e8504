-- ===== src/Identity/Examples.antt =====
-- The theorems on packages/identity at concrete inputs.
use taymex.Prelude.{
  ℕ, ◌≡◌, refl, Text, codes, none, some, true, false, [], ◌∷◌, trim, is_space, trim_start, arith,
  text_eq,
}
use taymex.Foundation.Errors.{ok, err, plain_error, nat, safe_from, Date, at}
use taymex.Foundation.Validation.{require_uuid, require_non_blank, to_lower, is_uuid, matches}
use taymex.Identity.Account.{
  Account, AccountStatus, change_account_status, assert_version, account_status, valid_date,
}
use taymex.Identity.Account.Lifecycle.{IsChange, change_status, mutate-IsChange}
use taymex.Identity.Session.{
  SessionRecord, CreateSessionInput, aal1, create_session, revoke_session, rotate_session,
  assert_session_active, normalize_client_label, clone_date, revoke_session_final,
}
use taymex.Identity.Throttle.{Entries, default_policy, is_blocked}
use taymex.Identity.Throttle.Locking.{fail_at, fail_at-is_blocked}

abbrev id : Text
id = codes "0190f3c2-7a11-7abc-8def-00112233aabb"

abbrev session_input : CreateSessionInput
session_input = record {
  id = id;
  account_id = id;
  token_hash = codes "hash";
  assurance = aal1;
  client_label = some (codes " phone ");
  now = at 1000;
  ttl_ms = nat 60000;
}

abbrev session : SessionRecord
session = record {
  id = id;
  account_id = id;
  token_hash = codes "hash";
  assurance = aal1;
  client_label = some (codes "phone");
  created_at = 1000;
  expires_at = 61000;
  rotated_at = none;
  revoked_at = none;
  version = 1;
}

session-created : create_session session_input ≡ ok session
unfolding create_session clone_date normalize_client_label require_uuid require_non_blank to_lower
    is_uuid matches safe_from trim trim_start is_space
session-created = refl

abbrev revoked : SessionRecord
revoked = record session { revoked_at = some 2000; version = 2 }

session-revoked : revoke_session session (at 2000) ≡ ok revoked
unfolding revoke_session clone_date
session-revoked = refl

revoke_session_final_example :
    ((later : Date) → revoke_session revoked later ≡ ok revoked)
    × ((time : ℕ) → assert_session_active revoked (at time) ≡ err (plain_error "SESSION_INACTIVE"))
    × ((hash : Text) (time : ℕ)
        → rotate_session revoked hash (at time) ≡ err (plain_error "SESSION_INACTIVE"))
revoke_session_final_example = revoke_session_final session revoked 2000 session-revoked

abbrev no_entries : Entries
no_entries = λ key. none

abbrev someone : Text
someone = codes "someone"

fail_at-is_blocked_example :
    (is_blocked default_policy
      (fail_at default_policy no_entries someone (1 ∷ 2 ∷ 3 ∷ 4 ∷ 5 ∷ []))
      someone
      900004).0
    ≡ true
fail_at-is_blocked_example =
    fail_at-is_blocked default_policy no_entries someone (1 ∷ 2 ∷ 3 ∷ 4 ∷ []) 5 900004
      (ground arith) (omega arith) (omega arith)

differ : text_eq someone (codes "other") ≡ false
unfolding text_eq
differ = refl

abbrev account : Account
account = record {
  id = id;
  email = codes "a@b.c";
  normalized_email = codes "a@b.c";
  status = AccountStatus.active;
  email_verified_at = none;
  version = 3;
  created_at = 1000;
  updated_at = 2000;
}

abbrev suspended_account : Account
suspended_account = record account {
  status = AccountStatus.suspended;
  version = 4;
  updated_at = 3000;
}

account-suspended :
    change_account_status account (nat 3) (codes "SUSPENDED") (at 3000) ≡ ok suspended_account
unfolding change_account_status assert_version account_status valid_date safe_from text_eq
account-suspended = refl

mutate-IsChange_example : IsChange account (nat 3) suspended_account
mutate-IsChange_example =
    mutate-IsChange account (change_status (nat 3) (codes "SUSPENDED") (at 3000)) account-suspended
